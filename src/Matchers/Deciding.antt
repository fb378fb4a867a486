-- ===== src/Matchers/Deciding.antt =====
-- What the matchers decide.
use mathlib.Core.List.{Mem}
use janus_idp_operator.Prelude.{
  String, Bool, true, ◌||◌, some, Option, none, List, ◌==◌, ◌≡◌, ◌⊎◌, ◌↔◌, inl, inr, refl, arith,
  eq_iff, Bool-cases,
}
use janus_idp_operator.Prelude.Search.{any, hit_of_any, any_of_hit}
use janus_idp_operator.GoError.{Outcome, ok, err}
use janus_idp_operator.Kube.{VolumeMount, Volume, EnvVar, EnvFromSource}
use janus_idp_operator.Matchers.{
  Value, text, other, Matcher, be_mounted_to_container_matcher,
  be_added_as_volume_to_pod_spec_matcher, be_added_as_arg_to_container_matcher,
  be_env_from_for_container_matcher, be_env_var_for_container_matcher, is_ref, match_value,
}

-- What a matcher is for: the container or the pod has an entry of that name.
abbrev pub Has : Matcher → String → Type 0
Has (be_mounted_to_container_matcher c) path =
    (vm : VolumeMount) × Mem vm c.volume_mounts × (vm.mount_path ≡ path)
Has (be_added_as_volume_to_pod_spec_matcher ps) name =
    (v : Volume) × Mem v ps.volumes × (v.name ≡ name)
Has (be_added_as_arg_to_container_matcher c) arg = (a : String) × Mem a c.args × (arg ≡ a)
Has (be_env_from_for_container_matcher c) name =
    (ef : EnvFromSource) × Mem ef c.env_from
    × ((ef.secret_ref ≡ some name) ⊎ (ef.config_map_ref ≡ some name))
Has (be_env_var_for_container_matcher c) name = (ev : EnvVar) × Mem ev c.env × (ev.name ≡ name)

-- The verdict on a string tells whether it is there; on any other value it is an error.
abbrev pub Decides : Matcher → Value → Outcome Bool → Type 0
Decides m (text s) (ok b) = (b ≡ true) ↔ Has m s
Decides m (other formatted) (err e) = Unit
Decides m _ _ = ⊥

any-Decides :
    {A : Type 0} (test : A → Bool) (P : A → Type 0) (xs : List A)
    → ((x : A) → (test x ≡ true) ↔ P x)
    → (any test xs ≡ true) ↔ ((x : A) × Mem x xs × P x)
any-Decides test P xs decides = (
  λ e. let (x, m, hit) = hit_of_any test xs e in (x, m, (decides x).0 hit),
  λ (x, m, h). any_of_hit test xs x m ((decides x).1 h),
)

is_ref_iff : (ref : Option String) (name : String) → (is_ref ref name ≡ true) ↔ (ref ≡ some name)
is_ref_iff none name = (λ e. cc e, λ e. cc e)
is_ref_iff (some ref) name = (λ e. cc ((eq_iff ref name).0 e), λ e. (eq_iff ref name).1 (cc e))

is_env_from_iff :
    (ef : EnvFromSource) (name : String)
    → ((is_ref ef.secret_ref name || is_ref ef.config_map_ref name) ≡ true)
      ↔ ((ef.secret_ref ≡ some name) ⊎ (ef.config_map_ref ≡ some name))
is_env_from_iff ef name = (
  λ e. elim (Bool-cases (is_ref ef.secret_ref name)) [
    | inl hit ↦ inl ((is_ref_iff ef.secret_ref name).0 hit)
    | inr miss ↦ inr ((is_ref_iff ef.config_map_ref name).0 (ground (arith, e, miss)))
  ],
  λ h. elim h [
    | inl q ↦ rw ((is_ref_iff ef.secret_ref name).1 q) refl
    | inr q ↦ ground (arith, (is_ref_iff ef.config_map_ref name).1 q)
  ],
)

-- Each matcher decides whether the container or the pod has an entry of the name that it is given:
-- a mount at the path, a volume, an argument, a source of variables, secret or ConfigMap, or a
-- variable. It returns an error for every value that is no string.
pub match_value-Decides : (m : Matcher) (v : Value) → Decides m v (match_value m v)
unfolding match_value
match_value-Decides (be_mounted_to_container_matcher c) (text s) =
    any-Decides (λ vm. vm.mount_path == s) _ c.volume_mounts (λ vm. eq_iff vm.mount_path s)
match_value-Decides (be_added_as_volume_to_pod_spec_matcher ps) (text s) =
    any-Decides (λ v. v.name == s) _ ps.volumes (λ v. eq_iff v.name s)
match_value-Decides (be_added_as_arg_to_container_matcher c) (text s) =
    any-Decides (λ a. s == a) _ c.args (λ a. eq_iff s a)
match_value-Decides (be_env_from_for_container_matcher c) (text s) =
    any-Decides (λ ef. is_ref ef.secret_ref s || is_ref ef.config_map_ref s) _ c.env_from
      (λ ef. is_env_from_iff ef s)
match_value-Decides (be_env_var_for_container_matcher c) (text s) =
    any-Decides (λ ev. ev.name == s) _ c.env (λ ev. eq_iff ev.name s)
match_value-Decides (be_mounted_to_container_matcher c) (other formatted) = tt
match_value-Decides (be_added_as_volume_to_pod_spec_matcher ps) (other formatted) = tt
match_value-Decides (be_added_as_arg_to_container_matcher c) (other formatted) = tt
match_value-Decides (be_env_from_for_container_matcher c) (other formatted) = tt
match_value-Decides (be_env_var_for_container_matcher c) (other formatted) = tt
