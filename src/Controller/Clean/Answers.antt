-- ===== src/Controller/Clean/Answers.antt =====
-- How the server's answers decide how far cleanObjects gets.
use janus_idp_operator.Prelude.{
  String, Bool, true, false, Option, none, some, List, [], ◌∷◌, ◌++◌, ◌≡◌, refl, sym, Option-cases,
  Bool-cases, inl, inr, if◌then◌else◌,
}
use janus_idp_operator.GoError.{GoError, Outcome, ok, err, panic, has_reason, not_found}
use janus_idp_operator.Kube.{Kind, stateful_set_kind, service_kind, secret_kind, route_kind}
use janus_idp_operator.Model.DbStatefulSet.{db_stateful_set_name}
use janus_idp_operator.Model.DbService.{db_service_name}
use janus_idp_operator.Model.DbSecret.{db_secret_default_name}
use janus_idp_operator.Model.BackstageRoute.{route_name}
use janus_idp_operator.Api.{Backstage}
use janus_idp_operator.Controller.Exec.{Exec, pure, continue, ◌>>◌}
use janus_idp_operator.Controller.Requests.{Server, History, Request, delete, send_write}
use janus_idp_operator.Controller.Clean.Deletes.{unwanted, delete_of}
use janus_idp_operator.Controller.Clean.{
  clean_objects, clean_local_db, clean_local_db_unless, clean_route_if, try_to_delete, unless_gone,
}

-- The server deletes the object, or says that there is none.
abbrev pub is_gone : Option GoError → Bool
is_gone none = true
is_gone (some e) = has_reason not_found e

-- The requests one after the other up to the first that leaves its object in the cluster, that one
-- included: whether there is no such request, and the requests sent.
unfoldable pub delete_all : Server → List Request → History → Bool × History
delete_all s [] h = (true, h)
delete_all s (r ∷ rs) h =
    let rest = delete_all s rs (h ++ r ∷ []) in
    if is_gone (s.on_write h r) then rest else (false, h ++ r ∷ [])

-- There is an error exactly if some object is left, and no panic.
abbrev pub Tells : Bool → Outcome (Unit {0}) → Type 0
Tells left (ok a) = left ≡ true
Tells left (err e) = left ≡ false
Tells left panic = ⊥

abbrev pub Deletes : Server → List Request → History → Outcome (Unit {0}) × History → Type 0
Deletes s rs h r = (r.1 ≡ (delete_all s rs h).1) × Tells (delete_all s rs h).0 r.0

module _ (s : Server) where
  abbrev Follows : List Request → Exec History (Unit {0}) → Type 0
  Follows rs m = (h : History) → Deletes s rs h (m h)

  delete_all-append :
      (rs qs : List Request) (h : History)
      → delete_all s (rs ++ qs) h ≡ (
          if (delete_all s rs h).0
          then delete_all s qs (delete_all s rs h).1
          else (false, (delete_all s rs h).1))
  unfolding delete_all
  delete_all-append [] qs h = refl
  delete_all-append (r ∷ rs) qs h = elim (Bool-cases (is_gone (s.on_write h r))) [
    | inl e ↦ rw e (delete_all-append rs qs (h ++ r ∷ []))
    | inr e ↦ rw e refl
  ]

  Deletes-continue :
      (rs qs : List Request) (n : Exec History (Unit {0})) (h : History) (o : Outcome (Unit {0}))
      (h' : History)
      → Deletes s rs h (o, h')
      → Follows qs n
      → Deletes s (rs ++ qs) h (continue o (λ _. n) h')
  Deletes-continue rs qs n h (ok a) h' (same, all) k =
      rw (delete_all-append rs qs h, all, sym same) (k h')
  Deletes-continue rs qs n h (err e) h' (same, left) k =
      rw (delete_all-append rs qs h, left) (same, refl)
  Deletes-continue rs qs n h panic h' r k = absurd r.1

  Follows-then :
      (rs qs : List Request) (m n : Exec History (Unit {0}))
      → Follows rs m
      → Follows qs n
      → Follows (rs ++ qs) (m >> n)
  Follows-then rs qs m n km kn h = Deletes-continue rs qs n h (m h).0 (m h).1 (km h) kn

  Follows-pure : Follows [] (pure tt)
  unfolding delete_all
  Follows-pure h = (refl, refl)

  unless_gone-Deletes :
      (name : String) (r : Request) (h : History)
      → Deletes s (r ∷ []) h (unless_gone s name (s.on_write h r) (h ++ r ∷ []))
  unfolding delete_all
  unless_gone-Deletes name r h = elim (Option-cases (s.on_write h r)) [
    | inl e ↦ rw e (refl, refl)
    | inr (x, e) ↦ elim (Bool-cases (has_reason not_found x)) [
      | inl q ↦ rw (e, q) (refl, refl)
      | inr q ↦ rw (e, q) (refl, refl)
    ]
  ]

  try_to_delete-Follows :
      (kind : Kind) (name ns : String)
      → Follows
          (delete kind (record { name = name; namespace = ns }) ∷ [])
          (try_to_delete s kind name ns)
  unfolding try_to_delete send_write
  try_to_delete-Follows kind name ns h =
      unless_gone-Deletes name (delete kind (record { name = name; namespace = ns })) h

  clean_local_db-Follows :
      (b : Backstage)
      → Follows
          (delete_of stateful_set_kind "backstage-db" b
            ∷ delete_of service_kind "backstage-db" b
            ∷ delete_of secret_kind "backstage-db" b
            ∷ [])
          (clean_local_db s b)
  unfolding clean_local_db db_stateful_set_name db_service_name db_secret_default_name
  clean_local_db-Follows b =
      Follows-then _ _ _ _ (try_to_delete-Follows _ _ _)
        (Follows-then _ _ _ _ (try_to_delete-Follows _ _ _) (try_to_delete-Follows _ _ _))

  clean_local_db_unless-Follows :
      (enabled : Bool) (b : Backstage)
      → Follows
          (if enabled
            then []
            else delete_of stateful_set_kind "backstage-db" b
              ∷ delete_of service_kind "backstage-db" b
              ∷ delete_of secret_kind "backstage-db" b
              ∷ [])
          (clean_local_db_unless s enabled b)
  clean_local_db_unless-Follows true b = Follows-pure
  clean_local_db_unless-Follows false b = clean_local_db-Follows b

  clean_route_if-Follows :
      (gone : Bool) (b : Backstage)
      → Follows
          (if gone then delete_of route_kind "backstage" b ∷ [] else [])
          (clean_route_if s gone b)
  unfolding route_name
  clean_route_if-Follows true b = try_to_delete-Follows _ _ _
  clean_route_if-Follows false b = Follows-pure

-- cleanObjects sends the deletes of what is unwanted, in that order and nothing else, up to the
-- first that the server refuses for another reason than that there is no such object. It returns
-- an error if there is such a refusal, and none otherwise; it does not panic.
pub clean_objects-Deletes :
    (s : Server) (is_openshift : Bool) (b : Backstage) (h : History)
    → Deletes s (unwanted is_openshift b) h (clean_objects s is_openshift b h)
unfolding clean_objects unwanted
clean_objects-Deletes s is_openshift b =
    Follows-then s _ _ _ _ (clean_local_db_unless-Follows s _ b) (clean_route_if-Follows s _ b)
