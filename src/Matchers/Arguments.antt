-- ===== src/Matchers/Arguments.antt =====
-- The matcher of the arguments.
use mathlib.Core.List.{Mem}
use janus_idp_operator.Prelude.{
  String, true, false, ◌==◌, [], ◌∷◌, ◌≡◌, ◌≢◌, refl, eq_iff, Bool-cases, inl, inr, ap,
}
use janus_idp_operator.Prelude.Search.{any, hit_of_any, any_of_hit}
use janus_idp_operator.GoError.{ok}
use janus_idp_operator.Kube.{Container, VolumeMount}
use janus_idp_operator.Matchers.{text, be_added_as_arg_to_container, match_value}

-- BeAddedAsArgToContainer makes a matcher that looks at the mounts instead of the arguments: it
-- misses an argument that the container has, if nothing is mounted there, and it finds the path of
-- each mount in a container without arguments.
pub match_value-misses_args :
    (c : Container) (arg : String) (mount : VolumeMount)
    → ((vm : VolumeMount) → Mem vm c.volume_mounts → vm.mount_path ≢ arg)
    → Mem mount c.volume_mounts
    → (match_value (be_added_as_arg_to_container (record c { args = arg ∷ [] })) (text arg)
        ≡ ok false)
      × (match_value (be_added_as_arg_to_container (record c { args = [] })) (text mount.mount_path)
          ≡ ok true)
unfolding match_value be_added_as_arg_to_container
match_value-misses_args c arg mount unmounted there = (
  elim (Bool-cases (any (λ vm. vm.mount_path == arg) c.volume_mounts)) [
    | inl e ↦
        let (vm, m, hit) = hit_of_any (λ vm. vm.mount_path == arg) c.volume_mounts e in
        absurd (unmounted vm m ((eq_iff vm.mount_path arg).0 hit))
    | inr e ↦ ap (λ b. ok b) e
  ],
  ap (λ b. ok b)
      (any_of_hit (λ vm. vm.mount_path == mount.mount_path) c.volume_mounts mount there
        ((eq_iff mount.mount_path mount.mount_path).1 refl)),
)
