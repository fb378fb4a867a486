-- ===== src/Prelude/Endings.antt =====
-- Texts that end differently are different, whatever they begin with.
use Prim.Native.Char.{code}
use janus_idp_operator.Prelude.{
  ℕ, String, Bool, true, false, List, [], ◌∷◌, ◌++◌, ◌^◌, ◌≡◌, sym, ◌∙◌, ap, same, same_refl, arith,
  if◌then◌else◌, Bool-cases, inl, inr,
}
use text.Mathlib.TextLemmas.{nil-append as append-empty, cons-append}
use mathlib.Core.List.{append_assoc, append-nil}

-- The code points from the last one to the first.
abbrev pub backwards : String → List ℕ
backwards String.[] = []
backwards (String.◌∷◌ c s) = backwards s ++ code c ∷ []

backwards-append : (s t : String) → backwards (s ^ t) ≡ backwards t ++ backwards s
backwards-append String.[] t = rw (append-empty t) (sym (append-nil (backwards t)))
backwards-append (String.◌∷◌ c s) t =
    rw (cons-append c s t, backwards-append s t)
      (append_assoc (backwards t) (backwards s) (code c ∷ []))

-- They differ at a place that both have.
abbrev pub are_apart : List ℕ → List ℕ → Bool
are_apart [] bs = false
are_apart (a ∷ more) [] = false
are_apart (a ∷ more) (b ∷ bs) = if same a b then are_apart more bs else true

apart-append :
    (front back us vs : List ℕ) → are_apart front back ≡ true → front ++ us ≡ back ++ vs → ⊥
apart-append [] bs us vs apart e = cc apart
apart-append (a ∷ more) [] us vs apart e = cc apart
apart-append (a ∷ more) (b ∷ bs) us vs apart e = elim (Bool-cases (same a b)) [
  | inl e' ↦ apart-append more bs us vs (ground (arith, apart, e')) (cc e)
  | inr e' ↦ let heads : a ≡ b = cc e in cc (same_refl a, ap (λ n. same a n) heads, e')
]

pub endings-differ :
    (x y s t : String) → are_apart (backwards s) (backwards t) ≡ true → x ^ s ≡ y ^ t → ⊥
endings-differ x y s t apart e =
    apart-append (backwards s) (backwards t) (backwards x) (backwards y) apart
      (sym (backwards-append x s) ∙ ap backwards e ∙ backwards-append y t)
