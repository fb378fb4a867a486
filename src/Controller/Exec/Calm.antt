-- ===== src/Controller/Exec/Calm.antt =====
-- Methods that do not panic.
use janus_idp_operator.Prelude.{Bool, true, false, if◌then◌else◌}
use janus_idp_operator.GoError.{Outcome, ok, err, panic, Safe}
use janus_idp_operator.Controller.Exec.{Exec, continue, ◌>>=◌}

-- From every state the method returns an error, or a value for which `P` holds.
abbrev pub Calm : {S A : Type 0} → (A → Type 0) → Exec S A → Type 0
Calm {S} P method = (before : S) → Safe P (method before).0

module _ {S : Type 0} where
  pub Calm-if :
      {A : Type 0} (P : A → Type 0) (test : Bool) (x y : Exec S A)
      → Calm P x
      → Calm P y
      → Calm P (if test then x else y)
  Calm-if P true x y of_x of_y = of_x
  Calm-if P false x y of_x of_y = of_y

  pub continue-Safe :
      {A B : Type 0} (P : A → Type 0) (Q : B → Type 0) (outcome : Outcome A) (next : A → Exec S B)
      (between : S)
      → Safe P outcome
      → ((a : A) → P a → Calm Q (next a))
      → Safe Q (continue outcome next between).0
  continue-Safe P Q (ok a) next between holds rest = rest a holds between
  continue-Safe P Q (err e) next between holds rest = tt
  continue-Safe P Q panic next between holds rest = holds

  pub Calm-bind :
      {A B : Type 0} (P : A → Type 0) (Q : B → Type 0) (method : Exec S A) (next : A → Exec S B)
      → Calm P method
      → ((a : A) → P a → Calm Q (next a))
      → Calm Q (method >>= next)
  Calm-bind P Q method next of_method of_next before =
      continue-Safe P Q (method before).0 next (method before).1 (of_method before) of_next
