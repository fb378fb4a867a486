-- ===== src/Model/Soundness/Loading.antt =====
-- The objects that InitObjects reads from the default files and the raw configuration.
use janus_idp_operator.Prelude.{
  String, Bool, true, false, not, ◌&&◌, ◌^◌, ◌≡◌, refl, sym, subst, ◌∙◌, same, same_iff, arith,
  and_left, and_right, if◌then◌else◌,
}
use janus_idp_operator.StringMap.{lookup}
use janus_idp_operator.GoError.{
  Outcome, ok, err, panic, ◌>>=◌, Safe, OnOk, answered, failed, Reply, or_fail, wrap, errorf,
  error_text, has_reason, not_exist,
}
use janus_idp_operator.GoError.Safety.{Safe-bind, Safe-map, Safe-if, Safe-option, Safe-both}
use janus_idp_operator.Kube.{KubeObject, service, deployment, stateful_set, kind_of, meta_of}
use janus_idp_operator.Platform.{Platform}
use janus_idp_operator.Utils.{read_yaml, read_yaml_file, def_file}
use janus_idp_operator.Model.Objects.{RuntimeObject, type_code, empty_object, set_object}
use janus_idp_operator.Model.State.{ExternalConfig}
use janus_idp_operator.Model.Runtime.{ObjectConfig, load_default, load_overlay}
use janus_idp_operator.Model.Soundness.{is_sound, is_sound_or_nil, has_any, is_complete}
use janus_idp_operator.Model.Soundness.Owners.{is_unowned_meta, is_unowned, set_object-unowned}
use janus_idp_operator.Model.Soundness.MetaInfo.{Matches}
use janus_idp_operator.Model.Documents.{default_of, base_of, AreRead, load_default-base}

-- What a document has to say: a workload has a container and a selector, a service has a port.
abbrev pub is_complete_object : KubeObject → Bool
is_complete_object (service o) = has_any o.ports
is_complete_object (deployment w) = is_complete w
is_complete_object (stateful_set w) = is_complete w
is_complete_object _ = true

-- The decoder fills the object that it is given, so that it keeps the kind.
abbrev pub KeepsKind : Platform → Type 0
KeepsKind p =
    (manifest : String) (o k : KubeObject)
    → p.decode manifest o ≡ answered k
    → kind_of k ≡ kind_of o

-- A document that can be used: it is complete, and it names no owner.
abbrev pub is_usable : KubeObject → Bool
is_usable k = is_complete_object k && is_unowned_meta (meta_of k)

abbrev pub IsUsable : KubeObject → Type 0
IsUsable k = is_usable k ≡ true

abbrev is_match : RuntimeObject → Outcome RuntimeObject → Bool
is_match o (ok o') = same (type_code o') (type_code o) && is_sound o'
is_match o _ = false

set_object-match :
    (o : RuntimeObject) (k : KubeObject)
    → kind_of k ≡ kind_of (empty_object o)
    → is_complete_object k ≡ true
    → is_match o (set_object o k) ≡ true
unfolding set_object empty_object type_code
set_object-match o k e complete = ground (arith, e, complete)

set_object-Safe :
    (o : RuntimeObject) (k : KubeObject)
    → kind_of k ≡ kind_of (empty_object o)
    → is_complete_object k ≡ true
    → Safe (Matches o) (set_object o k)
set_object-Safe o k e complete = go (set_object o k) (set_object-match o k e complete)
  where
    go : (x : Outcome RuntimeObject) → is_match o x ≡ true → Safe (Matches o) x
    go (ok o') h = record {
      class =
          same_iff (type_code o') (type_code o)
            (and_left (same (type_code o') (type_code o)) (is_sound o') h);
      live = and_right (same (type_code o') (type_code o)) (is_sound o') h;
    }
    go (err e) h = cc
    go panic h = cc

usable_of_sound : (o : RuntimeObject) → is_sound o ≡ true → is_sound_or_nil o ≡ true
usable_of_sound o e = ground (arith, e)

kind-empty_object :
    (o o' : RuntimeObject)
    → type_code o ≡ type_code o'
    → kind_of (empty_object o) ≡ kind_of (empty_object o')
unfolding type_code empty_object
kind-empty_object o o' e = ground (arith, e)

module _ (p : Platform) (keeps : KeepsKind p) where
  abbrev SameKind : KubeObject → KubeObject → Type 0
  SameKind o k = kind_of k ≡ kind_of o

  read_yaml-kind : (manifest : String) (o : KubeObject) → Safe (SameKind o) (read_yaml p manifest o)
  unfolding read_yaml
  read_yaml-kind manifest o = go (p.decode manifest o) (keeps manifest o)
    where
      go :
          (r : Reply KubeObject)
          → ((k : KubeObject) → r ≡ answered k → SameKind o k)
          → Safe (SameKind o) (or_fail (wrap "failed to decode YAML: ") r)
      go (answered k) h = h k refl
      go (failed e) h = tt

  -- What holds of an object that is decoded.
  read_yaml-OnOk :
      (P : KubeObject → Type 0) (manifest : String) (o : KubeObject)
      → ((k : KubeObject) → p.decode manifest o ≡ answered k → P k)
      → OnOk P (read_yaml p manifest o)
  unfolding read_yaml
  read_yaml-OnOk P manifest o = go (p.decode manifest o)
    where
      go :
          (r : Reply KubeObject)
          → ((k : KubeObject) → r ≡ answered k → P k)
          → OnOk P (or_fail (wrap "failed to decode YAML: ") r)
      go (answered k) h = h k refl
      go (failed e) h = tt

  read_yaml_file-kind :
      (path : String) (o : KubeObject) → Safe (SameKind o) (read_yaml_file p path o)
  unfolding read_yaml_file
  read_yaml_file-kind path o =
      Safe-option (SameKind o) (p.stat (p.clean path)) _ _ (λ _. read (p.read_file (p.clean path)))
        (λ e _. tt)
    where
      read :
          (r : Reply String)
          → Safe
              (SameKind o)
              (or_fail (wrap "failed to read YAML file: ") r >>= λ manifest. read_yaml p manifest o)
      read (answered manifest) = read_yaml-kind manifest o
      read (failed e) = tt

  -- An instance of the factory's class, sound or with no Kubernetes object, without an owner.
  pub record Instance (new o : RuntimeObject) : Type 0 where
    pub class : type_code o ≡ type_code new
    pub usable : is_sound_or_nil o ≡ true
    pub unowned : is_unowned o ≡ true

  -- Besides, the object that an overlay is decoded into.
  pub record Loaded (conf : ObjectConfig) (x : RuntimeObject × KubeObject) : Type 0 where
    pub instance_of : Instance conf.object_factory x.0
    pub kind : kind_of x.1 ≡ kind_of (empty_object x.0)
    pub base : x.1 ≡ base_of p conf

  -- setObject takes a usable object of the right kind.
  taken :
      (new o : RuntimeObject) (k : KubeObject)
      → type_code o ≡ type_code new
      → kind_of k ≡ kind_of (empty_object o)
      → IsUsable k
      → Safe (Instance new) (set_object o k)
  taken new o k class kind usable =
      let whole = and_left (is_complete_object k) (is_unowned_meta (meta_of k)) usable in
      let free = and_right (is_complete_object k) (is_unowned_meta (meta_of k)) usable in
      Safe-map (λ o'. Matches o o' × (is_unowned o' ≡ true)) (Instance new) (set_object o k)
        (Safe-both (Matches o) (λ o'. is_unowned o' ≡ true) (set_object o k)
          (set_object-Safe o k kind whole) (set_object-unowned o k free))
        λ o' (h, free'). record {
          class = h.class ∙ class;
          usable = usable_of_sound o' h.live;
          unowned = free';
        }

  pub load_default-Safe :
      (conf : ObjectConfig)
      → is_sound_or_nil conf.object_factory ≡ true
      → is_unowned conf.object_factory ≡ true
      → ((k : KubeObject) → default_of p conf ≡ ok k → IsUsable k)
      → Safe (Loaded conf) (load_default p conf)
  unfolding load_default
  load_default-Safe conf usable free documents =
      Safe-map _ (Loaded conf) (load_default p conf)
        (Safe-both Made (λ x. x.1 ≡ base_of p conf) (load_default p conf) made
          (load_default-base p conf))
        λ x (m, e). record { instance_of = m.0; kind = m.1; base = e }
    where
      Made : RuntimeObject × KubeObject → Type 0
      Made x = Instance conf.object_factory x.0 × (kind_of x.1 ≡ kind_of (empty_object x.0))

      go :
          (r : Outcome KubeObject)
          → Safe (SameKind (empty_object conf.object_factory)) r
          → ((k : KubeObject) → r ≡ ok k → IsUsable k)
          → Safe Made (elim r [
            | ok obj ↦ (set_object conf.object_factory obj >>= λ o. ok (o, obj))
            | err e ↦
                if not (has_reason not_exist e)
                then err (
                    errorf (
                      "failed to read default value for the key "
                      ^ conf.key
                      ^ ", reason: "
                      ^ error_text e))
                else ok (conf.object_factory, empty_object conf.object_factory)
            | panic ↦ panic
          ])
      go (ok obj) kind complete =
          Safe-bind Made (set_object conf.object_factory obj) _
            (taken conf.object_factory conf.object_factory obj refl kind (complete obj refl))
            λ o i. (i, kind ∙ sym (kind-empty_object o conf.object_factory i.class))
      go (err e) h complete =
          Safe-if Made (not (has_reason not_exist e)) _ _ (λ _. tt)
            λ _. (record { class = refl; usable = usable; unowned = free }, refl)
      go panic h complete = h

      made : Safe Made (load_default p conf)
      made =
          go (default_of p conf)
            (read_yaml_file-kind (def_file p conf.key) (empty_object conf.object_factory)) documents

  pub load_overlay-Safe :
      (external : ExternalConfig) (conf : ObjectConfig) (o : RuntimeObject) (obj : KubeObject)
      → Loaded conf (o, obj)
      → AreRead IsUsable p (λ key. lookup key external.raw_config) conf
      → Safe (Instance conf.object_factory) (load_overlay p external conf o obj)
  unfolding load_overlay
  load_overlay-Safe external conf o obj loaded documents =
      Safe-option Fit (lookup conf.key external.raw_config) _ _ (λ _. loaded.instance_of)
        λ overlay there. go (read_yaml p overlay obj) (
          Safe-both (SameKind obj) IsUsable (read_yaml p overlay obj) (read_yaml-kind overlay obj) (
            read_yaml-OnOk IsUsable overlay obj λ k e.
              documents.overlay overlay k there
                (subst (λ x. p.decode overlay x ≡ answered k) loaded.base e)))
    where
      Fit : RuntimeObject → Type 0
      Fit = Instance conf.object_factory

      go :
          (r : Outcome KubeObject)
          → Safe (λ k. SameKind obj k × IsUsable k) r
          → Safe Fit (elim r [
            | ok obj' ↦ set_object o obj'
            | err e ↦ err (
                errorf (
                  "failed to read overlay value for the key "
                  ^ conf.key
                  ^ ", reason: "
                  ^ error_text e))
            | panic ↦ panic
          ])
      go (ok obj') (kind, complete) =
          taken conf.object_factory o obj' loaded.instance_of.class (kind ∙ loaded.kind) complete
      go (err e) h = tt
      go panic h = h
