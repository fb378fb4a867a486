-- ===== src/Controller/Exec/Keeps.antt =====
-- Invariants of methods: what holds of the state before holds after, however the method ends.
use janus_idp_operator.Prelude.{Bool, true, false, if◌then◌else◌}
use janus_idp_operator.GoError.{GoError, Outcome, ok, err, panic}
use janus_idp_operator.Controller.Exec.{Exec, pure, raise, crash, lift, continue, ◌>>=◌}

pub record Keeps {ℓ} {S A : Type ℓ} (Inv : S → Type ℓ) (method : Exec S A) : Type ℓ where
  pub after : (before : S) → Inv before → Inv (method before).1

module _ {ℓ} {S A : Type ℓ} {Inv : S → Type ℓ} where
  -- A method that leaves the state as it finds it keeps every invariant.
  pub Keeps-lift : (outcome : Outcome A) → Keeps Inv (lift outcome)
  Keeps-lift outcome = record { after = λ before holds. holds }

  pub Keeps-pure : (result : A) → Keeps Inv (pure result)
  Keeps-pure result = Keeps-lift (ok result)

  pub Keeps-raise : (e : GoError) → Keeps Inv (raise {A = A} e)
  Keeps-raise e = Keeps-lift (err e)

  pub Keeps-crash : Keeps Inv (crash {A = A})
  Keeps-crash = Keeps-lift panic

  pub Keeps-if :
      (test : Bool) (when_true when_false : Exec S A)
      → Keeps Inv when_true
      → Keeps Inv when_false
      → Keeps Inv (if test then when_true else when_false)
  Keeps-if true when_true when_false of_true of_false = of_true
  Keeps-if false when_true when_false of_true of_false = of_false

module _ {ℓ} {S A B : Type ℓ} {Inv : S → Type ℓ} (next : A → Exec S B) where
  continue-after :
      ((result : A) → Keeps Inv (next result))
      → (outcome : Outcome A) (between : S) → Inv between
      → Inv (continue outcome next between).1
  continue-after of_next (ok result) between holds = (of_next result).after between holds
  continue-after of_next (err _) between holds = holds
  continue-after of_next panic between holds = holds

  pub Keeps-bind :
      (method : Exec S A)
      → Keeps Inv method
      → ((result : A) → Keeps Inv (next result))
      → Keeps Inv (method >>= next)
  Keeps-bind method of_method of_next = record {
    after = λ before holds.
        let (outcome, between) = method before in
        continue-after of_next outcome between (of_method.after before holds);
  }
