-- ===== src/Model/SecretFiles/Keys.antt =====
-- Extra files from secrets need keys.
use janus_idp_operator.Prelude.{
  String, Bool, true, false, Option, none, some, List, [], ◌∷◌, ◌==◌, ◌≡◌, ◌^◌, refl, arith,
  if◌then◌else◌,
}
use janus_idp_operator.GoError.{Outcome, ok, err, errorf, ◌>>=◌}
use janus_idp_operator.Kube.{Container, Workload}
use janus_idp_operator.Api.{ObjectKeyRef}
use janus_idp_operator.Platform.{Platform}
use janus_idp_operator.Utils.PodMutator.{mount_files_from, secret_object_kind}
use janus_idp_operator.Model.Pods.{pod_of, with_pod, with_containers}
use janus_idp_operator.Model.SecretFiles.{add_each, update_pod, mount_of}

-- The first reference with no key.
unfoldable pub first_without_key : List ObjectKeyRef → Option ObjectKeyRef
first_without_key [] = none
first_without_key (sec ∷ secs) =
    let rest = first_without_key secs in if sec.key == "" then some sec else rest

-- A deployment has a first container.
abbrev pub HasContainer : Workload → Type 0
HasContainer w = (c : Container) × (cs : List Container) × ((pod_of w).containers ≡ c ∷ cs)

-- Mounting a secret's file succeeds in a deployment with a container, and leaves one.
update_pod-HasContainer :
    (p : Platform) (mp : String) (sec : ObjectKeyRef) (w : Workload)
    → HasContainer w
    → (w' : Workload) × (update_pod p (mount_of p mp sec) w ≡ ok w')
      × (c' : Container) × (cs' : List Container) × ((pod_of w').containers ≡ c' ∷ cs')
unfolding update_pod
update_pod-HasContainer p mp sec w (c, cs, e) =
    let mounted =
      mount_files_from p (pod_of w) c secret_object_kind sec.name mp sec.key
        (some ((sec.key, "") ∷ [])) in
    (with_pod w (with_containers mounted.0 (mounted.1 ∷ cs)), ground arith, mounted.1, cs, refl)

-- The outcome of mounting the files, by the first reference with no key.
abbrev pub KeysDecide : Option ObjectKeyRef → Outcome Workload → Type 0
KeysDecide none o = (w' : Workload) × (o ≡ ok w')
KeysDecide (some sec) o =
    o ≡ err (errorf ("key is required to mount extra file with secret " ^ sec.name))

-- In a deployment with a container, the secrets are mounted without an error exactly if each has a
-- key; else the error names the first that has none.
pub add_each-keys :
    (p : Platform) (mp : String) (secs : List ObjectKeyRef) (w : Workload)
    → HasContainer w
    → KeysDecide (first_without_key secs) (add_each p mp secs w)
unfolding add_each first_without_key
add_each-keys p mp [] w h = (w, refl)
add_each-keys p mp (sec ∷ secs) w h =
    let (w', mounted, c', cs', left) = update_pod-HasContainer p mp sec w h in
    split (sec.key == "") (update_pod p (mount_of p mp sec) w) w' mounted
      (add_each-keys p mp secs w' (c', cs', left))
  where
    split :
        (b : Bool) (o : Outcome Workload) (w' : Workload)
        → o ≡ ok w'
        → KeysDecide (first_without_key secs) (add_each p mp secs w')
        → KeysDecide (if b then some sec else first_without_key secs) (
            if b
            then err (errorf ("key is required to mount extra file with secret " ^ sec.name))
            else (o >>= add_each p mp secs))
    split true o w' e ih = refl
    split false o w' e ih = rw e ih
