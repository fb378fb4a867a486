-- ===== src/Matchers.antt =====
-- integration_tests/matchers.go: the Gomega matchers that the integration tests apply to the pods that
-- the operator makes.
pub mod Deciding
pub mod Arguments
pub mod Pods
use janus_idp_operator.Prelude.{
  String, Bool, true, false, ◌||◌, Option, none, some, List, ◌==◌, ◌^◌,
}
use janus_idp_operator.Prelude.Search.{any}
use janus_idp_operator.GoError.{Outcome, ok, err, errorf}
use janus_idp_operator.Kube.{Container, PodSpec, VolumeMount, Volume, EnvVar, EnvFromSource}

-- The `actual interface{}`: a string, or a value of another type with what format.Object makes of it.
pub data Value : Type 0 where
  text : String → Value
  other : (formatted : String) → Value

-- The structs that implement types.GomegaMatcher.
pub data Matcher : Type 0 where
  be_mounted_to_container_matcher : Container → Matcher
  be_added_as_volume_to_pod_spec_matcher : PodSpec → Matcher
  be_added_as_arg_to_container_matcher : Container → Matcher
  be_env_from_for_container_matcher : Container → Matcher
  be_env_var_for_container_matcher : Container → Matcher

unfoldable pub be_mounted_to_container : Container → Matcher
be_mounted_to_container c = be_mounted_to_container_matcher c

unfoldable pub be_added_as_volume_to_pod_spec : PodSpec → Matcher
be_added_as_volume_to_pod_spec ps = be_added_as_volume_to_pod_spec_matcher ps

-- It returns the matcher of the mounts.
unfoldable pub be_added_as_arg_to_container : Container → Matcher
be_added_as_arg_to_container c = be_mounted_to_container_matcher c

unfoldable pub be_env_from_for_container : Container → Matcher
be_env_from_for_container c = be_env_from_for_container_matcher c

unfoldable pub be_env_var_for_container : Container → Matcher
be_env_var_for_container c = be_env_var_for_container_matcher c

-- The loops of the Match methods, which end at the first hit.
abbrev pub is_mounted : String → List VolumeMount → Bool
is_mounted path = any (λ vm. vm.mount_path == path)

abbrev pub is_volume : String → List Volume → Bool
is_volume name = any (λ v. v.name == name)

abbrev pub is_arg : String → List String → Bool
is_arg arg = any (λ a. arg == a)

-- ref != nil && ref.Name == objectName
abbrev pub is_ref : Option String → String → Bool
is_ref none name = false
is_ref (some ref) name = ref == name

abbrev pub is_env_from : String → List EnvFromSource → Bool
is_env_from name = any (λ ef. is_ref ef.secret_ref name || is_ref ef.config_map_ref name)

abbrev pub is_env_var : String → List EnvVar → Bool
is_env_var name = any (λ ev. ev.name == name)

-- actual.(string), with the error that names a matcher if it fails
abbrev pub with_text : String → Value → (String → Bool) → Outcome Bool
with_text name (text s) f = ok (f s)
with_text name (other formatted) f =
    err (errorf (name ^ " must be passed string. Got\n" ^ formatted))

-- The Match methods. That of the volumes names another matcher in its error.
abbrev pub match_mounted : Container → Value → Outcome Bool
match_mounted c actual =
    with_text "BeMountedToContainer" actual (λ path. is_mounted path c.volume_mounts)

abbrev pub match_volume : PodSpec → Value → Outcome Bool
match_volume ps actual = with_text "BeMountedToContainer" actual (λ name. is_volume name ps.volumes)

abbrev pub match_arg : Container → Value → Outcome Bool
match_arg c actual = with_text "BeAddedAsArgToContainer" actual (λ arg. is_arg arg c.args)

abbrev pub match_env_from : Container → Value → Outcome Bool
match_env_from c actual =
    with_text "BeEnvFromForContainer" actual (λ name. is_env_from name c.env_from)

abbrev pub match_env_var : Container → Value → Outcome Bool
match_env_var c actual = with_text "BeEnvVarForContainer" actual (λ name. is_env_var name c.env)

unfoldable pub match_value : Matcher → Value → Outcome Bool
match_value (be_mounted_to_container_matcher c) actual = match_mounted c actual
match_value (be_added_as_volume_to_pod_spec_matcher ps) actual = match_volume ps actual
match_value (be_added_as_arg_to_container_matcher c) actual = match_arg c actual
match_value (be_env_from_for_container_matcher c) actual = match_env_from c actual
match_value (be_env_var_for_container_matcher c) actual = match_env_var c actual

-- s, _ := actual.(string)
abbrev pub text_or_empty : Value → String
text_or_empty (text s) = s
text_or_empty (other formatted) = ""

-- FailureMessage and NegatedFailureMessage of each matcher.
abbrev pub mounted_failure_message : Value → String
mounted_failure_message actual = "Expected container to contain VolumeMount " ^ text_or_empty actual

abbrev pub mounted_negated_failure_message : Value → String
mounted_negated_failure_message actual =
    "Expected container not to contain VolumeMount " ^ text_or_empty actual

abbrev pub volume_failure_message : Value → String
volume_failure_message actual = "Expected PodSpec to contain Volume " ^ text_or_empty actual

abbrev pub volume_negated_failure_message : Value → String
volume_negated_failure_message actual =
    "Expected PodSpec not to contain Volume " ^ text_or_empty actual

abbrev pub arg_failure_message : Value → String
arg_failure_message actual = "Expected container to contain Arg " ^ text_or_empty actual

abbrev pub arg_negated_failure_message : Value → String
arg_negated_failure_message actual = "Expected container not to contain Arg " ^ text_or_empty actual

abbrev pub env_from_failure_message : Value → String
env_from_failure_message actual = "Expected container to contain EnvFrom " ^ text_or_empty actual

abbrev pub env_from_negated_failure_message : Value → String
env_from_negated_failure_message actual =
    "Expected container not to contain EnvFrom " ^ text_or_empty actual

abbrev pub env_var_failure_message : Value → String
env_var_failure_message actual = "Expected container to contain EnvVar " ^ text_or_empty actual

abbrev pub env_var_negated_failure_message : Value → String
env_var_negated_failure_message actual =
    "Expected container not to contain EnvVar " ^ text_or_empty actual

unfoldable pub failure_message : Matcher → Value → String
failure_message (be_mounted_to_container_matcher c) = mounted_failure_message
failure_message (be_added_as_volume_to_pod_spec_matcher ps) = volume_failure_message
failure_message (be_added_as_arg_to_container_matcher c) = arg_failure_message
failure_message (be_env_from_for_container_matcher c) = env_from_failure_message
failure_message (be_env_var_for_container_matcher c) = env_var_failure_message

unfoldable pub negated_failure_message : Matcher → Value → String
negated_failure_message (be_mounted_to_container_matcher c) = mounted_negated_failure_message
negated_failure_message (be_added_as_volume_to_pod_spec_matcher ps) = volume_negated_failure_message
negated_failure_message (be_added_as_arg_to_container_matcher c) = arg_negated_failure_message
negated_failure_message (be_env_from_for_container_matcher c) = env_from_negated_failure_message
negated_failure_message (be_env_var_for_container_matcher c) = env_var_negated_failure_message
