-- ===== src/Model/Soundness/Phases.antt =====
-- The loops of InitObjects on a sound model.
use janus_idp_operator.Prelude.{true, List, [], ◌∷◌, ◌≡◌, ◌∙◌, ◌^◌, All}
use janus_idp_operator.GoError.{Outcome, ok, err, panic, Safe, errorf, error_text}
use janus_idp_operator.GoError.Safety.{Safe-bind, Safe-map}
use janus_idp_operator.Api.{BackstageSpec, is_local_db_enabled}
use janus_idp_operator.Platform.{Platform}
use janus_idp_operator.Model.State.{Ref, BackstageModel, load}
use janus_idp_operator.Model.Methods.{validate}
use janus_idp_operator.Model.Runtime.{validate_each}
use janus_idp_operator.Model.Soundness.{is_live}
use janus_idp_operator.Model.Soundness.Heaps.{Follows, Follows-trans}
use janus_idp_operator.Model.Soundness.Keeping.{All-live-Keeps}
use janus_idp_operator.Model.Soundness.Cells.{load-live}
use janus_idp_operator.Model.Soundness.Validation.{
  IsFinished, IsFinished-Follows, Follows-refl, validate-Safe,
}

pub validate_each-Safe :
    (p : Platform) (spec : BackstageSpec) (rs : List Ref) (m : BackstageModel)
    → IsFinished m
    → All (λ r. is_live (m.heap r) ≡ true) rs
    → m.local_db_enabled ≡ is_local_db_enabled spec
    → Safe (Follows m) (validate_each p spec rs m)
unfolding validate_each
validate_each-Safe p spec [] m f live same = Follows-refl m f.sound
validate_each-Safe p spec (r ∷ rs) m f (l, live) same =
    Safe-bind (Follows m) (load m r) _ (load-live m r l) λ o (e, sound).
      go (validate p o r spec m) (validate-Safe p m f o r spec e sound same) λ m' x.
        Safe-map (Follows m') (Follows m) (validate_each p spec rs m')
          (validate_each-Safe p spec rs m' (IsFinished-Follows m m' x f)
            (All-live-Keeps m.heap m'.heap rs x.extends.cells live) (x.extends.local_db ∙ same))
          (λ m'' y. Follows-trans m m' m'' x y)
  where
    go :
        (v : Outcome BackstageModel)
        → Safe (Follows m) v
        → ((m' : BackstageModel) → Follows m m' → Safe (Follows m) (validate_each p spec rs m'))
        → Safe (Follows m) (elim v [
          | ok m' ↦ validate_each p spec rs m'
          | err e ↦ err (errorf ("failed object validation, reason: " ^ error_text e))
          | panic ↦ panic
        ])
    go (ok m') holds rest = rest m' holds
    go (err e) holds rest = tt
    go panic holds rest = holds
