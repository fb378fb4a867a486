-- ===== src/Controller/Preprocess/Complete.antt =====
-- The ConfigMaps that the spec refers to are all in the external configuration.
use janus_idp_operator.Prelude.{
  String, Option, none, some, List, [], ◌∷◌, ◌++◌, ◌^◌, ◌≡◌, refl, subst, arith, eq_iff, All, ◌==◌,
  sym, ◌∙◌, Bool-cases, inl, inr,
}
use janus_idp_operator.StringMap.{StringMap, lookup, insert}
use janus_idp_operator.StringMap.Laws.{lookup-insert}
use janus_idp_operator.GoError.{wrap, Outcome, ok, err, panic, OnOk, Reply, answered, failed}
use janus_idp_operator.Kube.{ConfigMap}
use janus_idp_operator.Api.{
  Application, AppConfigSpec, Backstage, ExtraEnvs, ExtraFiles, ObjectKeyRef,
}
use janus_idp_operator.Platform.{Platform}
use janus_idp_operator.Model.State.{ExternalConfig}
use janus_idp_operator.Controller.Exec.{Exec, continue}
use janus_idp_operator.Controller.Requests.{Server, History, get_config_map, send_get_config_map}
use janus_idp_operator.Controller.Preprocess.{
  application_of, process_raw_config, process_app_configs, process_extra_files, process_extra_envs,
  process_dynamic_plugins, preprocess, preprocess_spec, get_each, get_config_map_or, or_raise,
}

-- A Get that succeeds gives an object of the name that was asked for.
abbrev pub AnswersByName : Server → Type 0
AnswersByName s =
    (h : History) (name ns : String) (cm : ConfigMap)
    → s.on_get_config_map h (record { name = name; namespace = ns }) ≡ answered cm
    → cm.meta.name ≡ name

abbrev pub app_config_refs : Option AppConfigSpec → List ObjectKeyRef
app_config_refs none = []
app_config_refs (some x) = x.config_maps

abbrev pub file_refs : Option ExtraFiles → List ObjectKeyRef
file_refs none = []
file_refs (some x) = x.config_maps

abbrev pub env_refs : Option ExtraEnvs → List ObjectKeyRef
env_refs none = []
env_refs (some x) = x.config_maps

-- The map has, under that name, a ConfigMap that the server answered for it.
abbrev pub Has : Server → (ns : String) → StringMap ConfigMap → String → Type 0
Has s ns m name =
    (h : History) × (cm : ConfigMap) × (s.on_get_config_map h
        (record { name = name; namespace = ns })
      ≡ answered cm)
    × (lookup name m ≡ some cm)

Has-insert :
    (s : Server) (ns : String) (by_name : AnswersByName s) (h : History) (name j : String)
    (cm : ConfigMap) (m : StringMap ConfigMap)
    → s.on_get_config_map h (record { name = name; namespace = ns }) ≡ answered cm
    → Has s ns m j
    → Has s ns (insert cm.meta.name cm m) j
Has-insert s ns by_name h name j cm m e (h', cm', e', there) =
    let named = by_name h name ns cm e in
    elim (Bool-cases (cm.meta.name == j)) [
      | inl q ↦
          let same_name : name ≡ j = sym named ∙ (eq_iff cm.meta.name j).0 q in
          (h, cm, rw (sym same_name) e, ground (arith, lookup-insert cm.meta.name cm j m, q))
      | inr q ↦ (h', cm', e', ground (arith, lookup-insert cm.meta.name cm j m, q, there))
    ]

Has-insert_self :
    (s : Server) (ns : String) (by_name : AnswersByName s) (h : History) (name : String)
    (cm : ConfigMap) (m : StringMap ConfigMap)
    → s.on_get_config_map h (record { name = name; namespace = ns }) ≡ answered cm
    → Has s ns (insert cm.meta.name cm m) name
Has-insert_self s ns by_name h name cm m e = (
  h,
  cm,
  e,
  ground (
    arith,
    lookup-insert cm.meta.name cm name m,
    eq_iff cm.meta.name name,
    by_name h name ns cm e,
  ),
)

module _ (p : Platform) (s : Server) (ns message : String) (by_name : AnswersByName s) where
  abbrev after : History → String → History
  after h name = h ++ get_config_map (record { name = name; namespace = ns }) ∷ []

  -- What was there before the loop is there after it.
  get_each-keeps :
      (refs : List ObjectKeyRef) (result : StringMap ConfigMap) (h : History) (j : String)
      → Has s ns result j
      → OnOk (λ m. Has s ns m j) (get_each p s ns message refs result h).0
  unfolding get_each get_config_map_or send_get_config_map
  get_each-keeps [] result h j there = there
  get_each-keeps (ref ∷ refs) result h j there =
      split (s.on_get_config_map h (record { name = ref.name; namespace = ns })) refl λ cm e.
        get_each-keeps refs (insert cm.meta.name cm result) (after h ref.name) j
          (Has-insert s ns by_name h ref.name j cm result e there)
    where
      split :
          (r : Reply ConfigMap)
          → s.on_get_config_map h (record { name = ref.name; namespace = ns }) ≡ r
          → ((cm : ConfigMap)
              → s.on_get_config_map h (record { name = ref.name; namespace = ns }) ≡ answered cm
              → OnOk
                  (λ m. Has s ns m j)
                  (get_each p s ns message refs
                    (insert cm.meta.name cm result)
                    (after h ref.name)).0)
          → OnOk
              (λ m. Has s ns m j)
              (continue
                (or_raise (wrap (message ^ ref.name ^ ": ")) r (after h ref.name)).0
                (λ cm. get_each p s ns message refs (insert cm.meta.name cm result))
                (or_raise {S = History}
                  (wrap (message ^ ref.name ^ ": "))
                  r
                  (after h ref.name)).1).0
      split (answered cm) e ih = ih cm e
      split (failed x) e ih = tt

  -- Every reference of the loop is there after it.
  get_each-Has :
      (refs : List ObjectKeyRef) (result : StringMap ConfigMap) (h : History)
      → OnOk (λ m. All (λ ref. Has s ns m ref.name) refs) (get_each p s ns message refs result h).0
  unfolding get_each get_config_map_or send_get_config_map
  get_each-Has [] result h = tt
  get_each-Has (ref ∷ refs) result h =
      split (s.on_get_config_map h (record { name = ref.name; namespace = ns })) refl λ cm e.
        both (get_each p s ns message refs (insert cm.meta.name cm result) (after h ref.name)).0
          (get_each-keeps refs (insert cm.meta.name cm result) (after h ref.name) ref.name
            (Has-insert_self s ns by_name h ref.name cm result e))
          (get_each-Has refs (insert cm.meta.name cm result) (after h ref.name))
    where
      both :
          (o : Outcome (StringMap ConfigMap))
          → OnOk (λ m. Has s ns m ref.name) o
          → OnOk (λ m. All (λ ref. Has s ns m ref.name) refs) o
          → OnOk (λ m. All (λ ref. Has s ns m ref.name) (ref ∷ refs)) o
      both (ok m) x y = (x, y)
      both (err e) x y = tt
      both panic x y = tt

      split :
          (r : Reply ConfigMap)
          → s.on_get_config_map h (record { name = ref.name; namespace = ns }) ≡ r
          → ((cm : ConfigMap)
              → s.on_get_config_map h (record { name = ref.name; namespace = ns }) ≡ answered cm
              → OnOk
                  (λ m. All (λ ref. Has s ns m ref.name) (ref ∷ refs))
                  (get_each p s ns message refs
                    (insert cm.meta.name cm result)
                    (after h ref.name)).0)
          → OnOk
              (λ m. All (λ ref. Has s ns m ref.name) (ref ∷ refs))
              (continue
                (or_raise (wrap (message ^ ref.name ^ ": ")) r (after h ref.name)).0
                (λ cm. get_each p s ns message refs (insert cm.meta.name cm result))
                (or_raise {S = History}
                  (wrap (message ^ ref.name ^ ": "))
                  r
                  (after h ref.name)).1).0
      split (answered cm) e ih = ih cm e
      split (failed x) e ih = tt

-- The rest of a method may use that the first part returned its value.
continue-OnOk :
    {A B : Type 0} (Q : B → Type 0) (o : Outcome A) (f : A → Exec History B) (h : History)
    → ((a : A) → o ≡ ok a → OnOk Q (f a h).0)
    → OnOk Q (continue o f h).0
continue-OnOk Q (ok a) f h k = k a refl
continue-OnOk Q (err e) f h k = tt
continue-OnOk Q panic f h k = tt

-- For each ConfigMap that the application refers to for a purpose, one that the server answered for
-- its name is among those of that purpose.
pub record IsComplete (s : Server) (ns : String) (app : Application) (external : ExternalConfig)
    : Type 0 where
  pub app_configs :
      All (λ ref. Has s ns external.app_configs ref.name) (app_config_refs app.app_config)
  pub extra_files :
      All (λ ref. Has s ns external.extra_file_config_maps ref.name) (file_refs app.extra_files)
  pub extra_envs :
      All (λ ref. Has s ns external.extra_env_config_maps ref.name) (env_refs app.extra_envs)

module _ (p : Platform) (s : Server) (ns : String) (by_name : AnswersByName s) where
  app_configs-Has :
      (x : Option AppConfigSpec) (h : History)
      → OnOk
          (λ m. All (λ ref. Has s ns m ref.name) (app_config_refs x))
          (process_app_configs p s ns x h).0
  unfolding process_app_configs
  app_configs-Has none h = tt
  app_configs-Has (some x) h = get_each-Has p s ns _ by_name x.config_maps [] h

  extra_files-Has :
      (x : Option ExtraFiles) (h : History)
      → OnOk
          (λ m. All (λ ref. Has s ns m ref.name) (file_refs x))
          (process_extra_files p s ns x h).0
  unfolding process_extra_files
  extra_files-Has none h = tt
  extra_files-Has (some x) h = get_each-Has p s ns _ by_name x.config_maps [] h

  extra_envs-Has :
      (x : Option ExtraEnvs) (h : History)
      → OnOk (λ m. All (λ ref. Has s ns m ref.name) (env_refs x)) (process_extra_envs p s ns x h).0
  unfolding process_extra_envs
  extra_envs-Has none h = tt
  extra_envs-Has (some x) h = get_each-Has p s ns _ by_name x.config_maps [] h

-- If preprocessSpec returns no error, every ConfigMap that the spec lists as an app-config, for
-- extra files or for extra variables is in the external configuration under its name, as the server
-- answered it, so that the later lookups by name do not fall on the empty ConfigMap. It rests on a Get giving an object of
-- the name asked for.
pub preprocess_spec-IsComplete :
    (p : Platform) (s : Server) (b : Backstage) (h : History)
    → AnswersByName s
    → OnOk (IsComplete s b.meta.namespace (application_of b.spec)) (preprocess_spec p s b h).0
unfolding preprocess_spec preprocess
preprocess_spec-IsComplete p s b h by_name =
    let ns = b.meta.namespace in
    let app = application_of b.spec in
    continue-OnOk _ (process_raw_config p s ns b.spec.raw_runtime_config h).0 _ _ λ raw _.
      continue-OnOk _ (process_app_configs p s ns app.app_config _).0 _ _ λ configs e₁.
        continue-OnOk _ (process_extra_files p s ns app.extra_files _).0 _ _ λ files e₂.
          continue-OnOk _ (process_extra_envs p s ns app.extra_envs _).0 _ _ λ envs e₃.
            continue-OnOk _ (process_dynamic_plugins p s ns app.dynamic_plugins_config_map_name _).0
              _ _
              λ plugins _. record {
                app_configs =
                    subst
                      (OnOk
                        (λ m. All (λ ref. Has s ns m ref.name) (app_config_refs app.app_config)))
                      e₁ (app_configs-Has p s ns by_name app.app_config _);
                extra_files =
                    subst (OnOk (λ m. All (λ ref. Has s ns m ref.name) (file_refs app.extra_files)))
                      e₂ (extra_files-Has p s ns by_name app.extra_files _);
                extra_envs =
                    subst (OnOk (λ m. All (λ ref. Has s ns m ref.name) (env_refs app.extra_envs)))
                      e₃ (extra_envs-Has p s ns by_name app.extra_envs _);
              }
