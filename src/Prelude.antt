-- ===== src/Prelude.antt =====
-- The names that the other modules share: the libraries', passed on, the conditional, and the
-- case lemmas on Booleans and options.
pub mod Counting
pub mod Search
pub mod Endings
pub use Prim.Native.Nat.{ℕ, zero, suc, ◌+◌, ◌-◌, ◌*◌, ◌≤◌, ◌<◌}
pub use Prim.Native.String.{String}
pub use mathlib.Core.Path.{◌≡◌, refl, sym, ap, ◌∙◌, subst}
pub use mathlib.Core.Logic.{◌≢◌, ◌↔◌, ◌⊎◌, inl, inr}
pub use mathlib.Core.Bool.{Bool, true, false, not, ◌&&◌, ◌||◌}
pub use mathlib.Core.Option.{Option, none, some}
pub use mathlib.Core.List.{List, [], ◌∷◌, ◌++◌, map}
pub use native.Mathlib.Omega.{arith}
pub use text.Mathlib.Text.{◌==◌}
pub use text.Mathlib.TextEquality.{eq_iff}
use Prim.Native.Nat.{compare, Ordering}
use Prim.Native.String.{◌++◌ as append_text}

infix 1 if◌then◌else◌
abbrev pub if◌then◌else◌ {ℓ} : {A : Type ℓ} → Bool → A → A → A
if true then x else y = x
if false then x else y = y

-- The concatenation of texts.
infixr 66 ◌^◌
abbrev pub ◌^◌ : String → String → String
s ^ t = append_text s t

-- s != "" in the source.
abbrev pub non_empty : String → Bool
non_empty s = not (s == "")

-- The equality of two addresses.
abbrev pub same : ℕ → ℕ → Bool
same a b = elim (compare a b) [ Ordering.eq ↦ true | _ ↦ false ]

pub same_iff : (a b : ℕ) → same a b ≡ true → a ≡ b
same_iff a b e = ground arith

pub same_refl : (a : ℕ) → same a a ≡ true
same_refl a = ground arith

pub Bool-cases : (b : Bool) → (b ≡ true) ⊎ (b ≡ false)
Bool-cases true = inl refl
Bool-cases false = inr refl

pub and_left : (a b : Bool) → (a && b) ≡ true → a ≡ true
and_left true b e = refl
and_left false b e = e

pub and_right : (a b : Bool) → (a && b) ≡ true → b ≡ true
and_right true b e = e
and_right false b e = cc

pub List-cases {ℓ} :
    {A : Type ℓ} (xs : List A) → (xs ≡ []) ⊎ ((x : A) × (ys : List A) × (xs ≡ x ∷ ys))
List-cases [] = inl refl
List-cases (x ∷ xs) = inr (x, xs, refl)

module _ {ℓ} {A : Type ℓ} where
  pub Option-cases : (o : Option A) → (o ≡ none) ⊎ ((a : A) × (o ≡ some a))
  Option-cases none = inl refl
  Option-cases (some a) = inr (a, refl)

  -- A pointer is not nil.
  abbrev pub is_some : Option A → Bool
  is_some none = false
  is_some (some a) = true

  -- ptr.Deref(p, d)
  abbrev pub deref : Option A → A → A
  deref none d = d
  deref (some a) d = a

-- Every member of a list has a property.
abbrev pub All {ℓ κ} : {A : Type ℓ} → (A → Type κ) → List A → Type κ
All Good [] = Unit
All Good (first ∷ rest) = Good first × All Good rest

pub All-append {ℓ κ} :
    {A : Type ℓ}
    → (Good : A → Type κ) (front back : List A) → All Good front
    → All Good back
    → All Good (front ++ back)
All-append Good [] back _ in_back = in_back
All-append Good (first ∷ front) back (good, in_front) in_back =
    (good, All-append Good front back in_front in_back)

-- The library's ℤ stands on another ℕ; `negsuc n` is -(n + 1).
pub data ℤ : Type 0 where
  pos : ℕ → ℤ
  negsuc : ℕ → ℤ
