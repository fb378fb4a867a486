-- ===== src/GoError/Safety.antt =====
-- Functions that do not panic, composed.
use janus_idp_operator.Prelude.{Bool, true, false, Option, none, some, ◌≡◌, refl, if◌then◌else◌}
use janus_idp_operator.GoError.{Outcome, ok, err, panic, ◌>>=◌, Safe, OnOk}

pub Safe-bind :
    {A B : Type 0} {P : A → Type 0} (Q : B → Type 0) (o : Outcome A) (f : A → Outcome B)
    → Safe P o
    → ((a : A) → P a → Safe Q (f a))
    → Safe Q (o >>= f)
Safe-bind Q (ok a) f holds rest = rest a holds
Safe-bind Q (err e) f holds rest = holds
Safe-bind Q panic f holds rest = holds

pub Safe-map :
    {A : Type 0} (P Q : A → Type 0) (o : Outcome A) → Safe P o → ((a : A) → P a → Q a) → Safe Q o
Safe-map P Q (ok a) holds more = more a holds
Safe-map P Q (err e) holds more = holds
Safe-map P Q panic holds more = holds

pub Safe-if :
    {A : Type 0} (Q : A → Type 0) (test : Bool) (x y : Outcome A)
    → (test ≡ true → Safe Q x)
    → (test ≡ false → Safe Q y)
    → Safe Q (if test then x else y)
Safe-if Q true x y on_true on_false = on_true refl
Safe-if Q false x y on_true on_false = on_false refl

-- A test for nil.
pub Safe-option :
    {A B : Type 0} (Q : B → Type 0) (x : Option A) (on_none : Outcome B) (on_some : A → Outcome B)
    → (x ≡ none → Safe Q on_none)
    → ((a : A) → x ≡ some a → Safe Q (on_some a))
    → Safe Q (elim x [ none ↦ on_none | some a ↦ on_some a ])
Safe-option Q none on_none on_some nil rest = nil refl
Safe-option Q (some a) on_none on_some nil rest = rest a refl

-- What holds of the value besides.
pub Safe-both :
    {A : Type 0} (P Q : A → Type 0) (o : Outcome A) → Safe P o → OnOk Q o → Safe (λ a. P a × Q a) o
Safe-both P Q (ok a) holds also = (holds, also)
Safe-both P Q (err e) holds also = tt
Safe-both P Q panic holds also = holds

pub OnOk-bind :
    {A B : Type 0} {P : A → Type 0} (Q : B → Type 0) (o : Outcome A) (f : A → Outcome B)
    → OnOk P o
    → ((a : A) → P a → OnOk Q (f a))
    → OnOk Q (o >>= f)
OnOk-bind Q (ok a) f holds rest = rest a holds
OnOk-bind Q (err e) f holds rest = tt
OnOk-bind Q panic f holds rest = tt

pub OnOk-if :
    {A : Type 0} (Q : A → Type 0) (test : Bool) (x y : Outcome A)
    → OnOk Q x
    → OnOk Q y
    → OnOk Q (if test then x else y)
OnOk-if Q true x y on_true on_false = on_true
OnOk-if Q false x y on_true on_false = on_false

pub OnOk-option :
    {A B : Type 0} (Q : B → Type 0) (x : Option A) (on_none : Outcome B) (on_some : A → Outcome B)
    → OnOk Q on_none
    → ((a : A) → x ≡ some a → OnOk Q (on_some a))
    → OnOk Q (elim x [ none ↦ on_none | some a ↦ on_some a ])
OnOk-option Q none on_none on_some nil rest = nil
OnOk-option Q (some a) on_none on_some nil rest = rest a refl
