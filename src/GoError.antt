-- ===== src/GoError.antt =====
-- Go's `error` values and the outcomes of a function that returns one. `Outcome` is `(value, nil)`,
-- `(_, err)`, or a panic: a nil pointer dereference or an index out of range.
pub mod Safety
pub mod Errless
use janus_idp_operator.Prelude.{String, Bool, true, false, ◌^◌}

-- What the callers ask of an error that outside code returned: errors.Is(err, os.ErrNotExist),
-- and IsNotFound, IsAlreadyExists and IsConflict of k8s.io/apimachinery/pkg/api/errors.
pub data Reason : Type 0 where
  not_exist not_found already_exists conflict other : Reason

pub data GoError : Type 0 where
  -- an error that outside code returned, with its text
  external : Reason → String → GoError
  -- fmt.Errorf with no %w
  errorf : String → GoError
  -- fmt.Errorf(prefix + "%w", err)
  wrap : String → GoError → GoError

abbrev pub same_reason : Reason → Reason → Bool
same_reason not_exist not_exist = true
same_reason not_found not_found = true
same_reason already_exists already_exists = true
same_reason conflict conflict = true
same_reason other other = true
same_reason _ _ = false

-- The tests unwrap %w, and nothing else.
unfoldable pub has_reason : Reason → GoError → Bool
has_reason r (external q text) = same_reason q r
has_reason r (errorf text) = false
has_reason r (wrap prefix e) = has_reason r e

-- err.Error()
unfoldable pub error_text : GoError → String
error_text (external q text) = text
error_text (errorf text) = text
error_text (wrap prefix e) = prefix ^ error_text e

pub data Outcome {ℓ} (A : Type ℓ) : Type ℓ where
  ok : A → Outcome A
  err : GoError → Outcome A
  panic : Outcome A

infixl 5 ◌>>=◌ ◌>>◌
abbrev pub ◌>>=◌ {ℓ κ} : {A : Type ℓ} {B : Type κ} → Outcome A → (A → Outcome B) → Outcome B
ok a >>= f = f a
err e >>= f = err e
panic >>= f = panic

abbrev pub ◌>>◌ {ℓ κ} : {A : Type ℓ} {B : Type κ} → Outcome A → Outcome B → Outcome B
m >> k = m >>= λ _. k

-- Nothing is asked of the value.
abbrev pub Any : {A : Type 0} → A → Type 0
Any a = Unit

-- The function returned a value for which `P` holds, or an error; it did not panic.
abbrev pub Safe {ℓ} : {A : Type ℓ} → (A → Type 0) → Outcome A → Type 0
Safe P (ok a) = P a
Safe P (err e) = Unit
Safe P panic = ⊥

-- `P` holds of the value, if the function returned one.
abbrev pub OnOk {ℓ} : {A : Type ℓ} → (A → Type 0) → Outcome A → Type 0
OnOk P (ok a) = P a
OnOk P (err e) = Unit
OnOk P panic = Unit

-- The function returned a value for which `P` holds: no error and no panic.
abbrev pub Gives {ℓ} : {A : Type ℓ} → (A → Type 0) → Outcome A → Type 0
Gives P (ok a) = P a
Gives P (err e) = ⊥
Gives P panic = ⊥

-- What outside code returns: an answer or an error, and never a panic.
pub data Reply {ℓ} (A : Type ℓ) : Type ℓ where
  answered : A → Reply A
  failed : GoError → Reply A

-- if err != nil { return nil, wrapped(err) }
abbrev pub or_fail {ℓ} : {A : Type ℓ} → (GoError → GoError) → Reply A → Outcome A
or_fail wrapped (answered a) = ok a
or_fail wrapped (failed e) = err (wrapped e)
