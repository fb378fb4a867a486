-- ===== src/Prelude/Search.antt =====
-- A loop over a list that returns true at the first element that passes a test, and false after the
-- last.
use mathlib.Core.List.{Mem, mem-cons, not-mem-nil, mem-cons_self, mem-cons_of_mem}
use mathlib.Core.Logic.Or
use mathlib.Core.Path.{◌≡◌, refl, subst}
use mathlib.Core.Logic.{inl, inr}
use mathlib.Core.Bool.{Bool, true, false, Bool-set}
use mathlib.Core.List.{List, [], ◌∷◌, ◌++◌}
use native.Mathlib.Omega.{arith}
use janus_idp_operator.Prelude.{if◌then◌else◌, Bool-cases}

module _ {ℓ} {A : Type ℓ} (test : A → Bool) where
  abbrev pub any : List A → Bool
  any [] = false
  any (x ∷ xs) = let rest = any xs in if test x then true else rest

  pub hit_of_any : (xs : List A) → any xs ≡ true → (x : A) × Mem x xs × (test x ≡ true)
  hit_of_any [] e = cc e
  hit_of_any (x ∷ xs) e = elim (Bool-cases (test x)) [
    | inl hit ↦ (x, mem-cons_self, hit)
    | inr miss ↦
        let (y, m, hit) = hit_of_any xs (ground (arith, e, miss)) in (y, mem-cons_of_mem x m, hit)
  ]

  pub any_of_hit : (xs : List A) (x : A) → Mem x xs → test x ≡ true → any xs ≡ true
  any_of_hit [] x m e = absurd (not-mem-nil m)
  any_of_hit (y ∷ ys) x m e =
      Or.elim (λ a b. Bool-set _ _ a b) (mem-cons.0 m)
        (λ p. rw (subst (λ z. test z ≡ true) p e) refl)
        (λ rest. ground (arith, any_of_hit ys x rest e))

  -- The last of the elements is found too.
  pub any-snoc : (xs : List A) (x : A) → test x ≡ true → any (xs ++ x ∷ []) ≡ true
  any-snoc [] x e = rw e refl
  any-snoc (y ∷ ys) x e = ground (arith, any-snoc ys x e)
