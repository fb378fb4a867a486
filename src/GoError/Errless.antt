-- ===== src/GoError/Errless.antt =====
-- Functions that return no error, composed.
use janus_idp_operator.Prelude.{Bool, true, false, Option, none, some, ◌≡◌, refl, if◌then◌else◌}
use janus_idp_operator.GoError.{Outcome, ok, err, panic, ◌>>=◌, Safe, Gives}

-- If the function returned, it returned a value, and `P` holds for it. A panic is left open.
abbrev pub Errless {ℓ} : {A : Type ℓ} → (A → Type 0) → Outcome A → Type 0
Errless P (ok a) = P a
Errless P (err e) = ⊥
Errless P panic = Unit

pub Errless-bind :
    {A B : Type 0} {P : A → Type 0} (Q : B → Type 0) (o : Outcome A) (f : A → Outcome B)
    → Errless P o
    → ((a : A) → o ≡ ok a → P a → Errless Q (f a))
    → Errless Q (o >>= f)
Errless-bind Q (ok a) f holds rest = rest a refl holds
Errless-bind Q (err e) f holds rest = holds
Errless-bind Q panic f holds rest = tt

pub Errless-map :
    {A : Type 0} (P Q : A → Type 0) (o : Outcome A)
    → Errless P o
    → ((a : A) → P a → Q a)
    → Errless Q o
Errless-map P Q (ok a) holds more = more a holds
Errless-map P Q (err e) holds more = holds
Errless-map P Q panic holds more = tt

pub Errless-if :
    {A : Type 0} (Q : A → Type 0) (test : Bool) (x y : Outcome A)
    → (test ≡ true → Errless Q x)
    → (test ≡ false → Errless Q y)
    → Errless Q (if test then x else y)
Errless-if Q true x y on_true on_false = on_true refl
Errless-if Q false x y on_true on_false = on_false refl

pub Errless-option :
    {A B : Type 0} (Q : B → Type 0) (x : Option A) (on_none : Outcome B) (on_some : A → Outcome B)
    → (x ≡ none → Errless Q on_none)
    → ((a : A) → x ≡ some a → Errless Q (on_some a))
    → Errless Q (elim x [ none ↦ on_none | some a ↦ on_some a ])
Errless-option Q none on_none on_some nil rest = nil refl
Errless-option Q (some a) on_none on_some nil rest = rest a refl

-- No error and no panic: a value.
pub Gives-of_Safe :
    {A : Type 0} (P Q : A → Type 0) (o : Outcome A) → Safe P o → Errless Q o → Gives P o
Gives-of_Safe P Q (ok a) safe errless = safe
Gives-of_Safe P Q (err e) safe errless = errless
Gives-of_Safe P Q panic safe errless = safe
