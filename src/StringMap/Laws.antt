-- ===== src/StringMap/Laws.antt =====
-- How reads and writes of a map meet.
use text.Mathlib.TextPositions.{eq_refl}
use janus_idp_operator.Prelude.{
  String, some, [], ◌∷◌, ◌==◌, ◌≡◌, refl, arith, eq_iff, if◌then◌else◌,
}
use janus_idp_operator.StringMap.{StringMap, lookup, insert}

module _ {ℓ} {T : Type ℓ} (written : String) (value : T) where
  -- A read of any key after a write of one.
  pub lookup-insert :
      (read : String) (m : StringMap T)
      → lookup read (insert written value m)
        ≡ (if written == read then some value else lookup read m)
  unfolding lookup insert
  lookup-insert read [] = refl
  lookup-insert read (entry ∷ rest) = ground (
    arith,
    lookup-insert read rest,
    eq_iff (entry.0) read,
    eq_iff (entry.0) written,
    eq_iff written read,
  )

  -- The key that was written is read back.
  pub lookup-insert_self : (m : StringMap T) → lookup written (insert written value m) ≡ some value
  lookup-insert_self m = simp (lookup-insert written m, eq_refl written)
