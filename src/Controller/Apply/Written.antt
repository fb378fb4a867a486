-- ===== src/Controller/Apply/Written.antt =====
-- How one object is written into the cluster.
use mathlib.Core.List.{append_assoc}
use janus_idp_operator.Prelude.{
  ◌≤◌, true, Bool-cases, Option-cases, none, some, [], ◌∷◌, ◌++◌, ◌≡◌, refl, ◌∙◌, ap, ◌⊎◌, inl, inr,
  arith,
}
use janus_idp_operator.Prelude.Counting.{length, length-append}
use janus_idp_operator.GoError.{
  GoError, has_reason, already_exists, not_found, Outcome, ok, err, panic, answered, failed, Reply,
}
use janus_idp_operator.Kube.{ObjectMeta, KubeObject, kind_of, meta_of, set_meta}
use janus_idp_operator.Platform.{Platform}
use janus_idp_operator.Model.Objects.{RuntimeObject, empty_object}
use janus_idp_operator.Controller.Requests.{
  Server, History, Request, NamespacedName, create, patch, get_object, send_write, send_get_object,
}
use janus_idp_operator.Controller.Apply.{
  apply_secret, apply_other, patch_existing, patch_object, patched_meta, apply_kube, after_get,
  is_secret, is_db_secret,
}

-- A request that brings the object into the cluster: it creates it, or it patches the object of its
-- name and namespace to be like it.
pub data Writes (k : KubeObject) : Request → Type 0 where
  by_create : Writes k (create k)
  by_patch :
      (base : KubeObject) (m : ObjectMeta)
      → m.name ≡ (meta_of k).name
      → m.namespace ≡ (meta_of k).namespace
      → Writes k (patch (set_meta m k) base)

module _ (p : Platform) (s : Server) where
  -- The server accepted the request; or the object is the database's secret, and is there already.
  abbrev pub IsSettled : RuntimeObject → (before : History) → Request → Type 0
  IsSettled o before r =
      (s.on_write before r ≡ none)
      ⊎ ((is_db_secret p s o ≡ true)
          × ((e : GoError) × (s.on_write before r ≡ some e) × (has_reason already_exists e ≡ true)))

  -- After `start`, a request that writes the object was sent and settled.
  pub record IsApplied (o : RuntimeObject) (k : KubeObject) (start now : History) : Type 0 where
    pub before : History
    pub request : Request
    pub later : History
    pub writes : Writes k request
    pub settled : IsSettled o before request
    pub since : length start ≤ length before
    pub history : now ≡ before ++ request ∷ later

  pub IsApplied-snoc :
      (o : RuntimeObject) (k : KubeObject) (start now : History) (r : Request)
      → IsApplied o k start now
      → IsApplied o k start (now ++ r ∷ [])
  IsApplied-snoc o k start now r a = record {
    before = a.before;
    request = a.request;
    later = a.later ++ r ∷ [];
    writes = a.writes;
    settled = a.settled;
    since = a.since;
    history =
        ap (λ l. l ++ r ∷ []) a.history ∙ append_assoc a.before (a.request ∷ a.later) (r ∷ []);
  }

  -- The method did not panic, and if it returned no error, `Q` holds of the history.
  abbrev pub Leaves : (History → Type 0) → Outcome (Unit {0}) × History → Type 0
  Leaves Q (ok a, now) = Q now
  Leaves Q (err e, now) = Unit
  Leaves Q (panic, now) = ⊥

  module _ (o : RuntimeObject) (k : KubeObject) (start : History) where
    sent :
        (before : History) (r : Request)
        → Writes k r
        → IsSettled o before r
        → length start ≤ length before
        → IsApplied o k start (before ++ r ∷ [])
    sent before r writes settled since = record {
      before = before;
      request = r;
      later = [];
      writes = writes;
      settled = settled;
      since = since;
      history = refl;
    }

    patch_existing-Leaves :
        (base : KubeObject) (h : History)
        → length start ≤ length h
        → Leaves (IsApplied o k start) (patch_existing p s base k h)
    unfolding patch_existing patch_object send_write patched_meta
    patch_existing-Leaves base h since =
        let m = patched_meta p h (meta_of base) (meta_of k) in
        let r = patch (set_meta m k) base in
        elim (Option-cases (s.on_write h r)) [
          | inl e ↦ rw e (sent h r (by_patch base m refl refl) (inl e) since)
          | inr (w, e) ↦ rw e tt
        ]

    apply_secret-Leaves :
        (h : History)
        → length start ≤ length h
        → Leaves (IsApplied o k start) (apply_secret p s o k h)
    unfolding apply_secret send_write
    apply_secret-Leaves h since = elim (Option-cases (s.on_write h (create k))) [
      | inl e ↦ rw e (sent h (create k) by_create (inl e) since)
      | inr (w, e) ↦ elim (Bool-cases (has_reason already_exists w)) [
        | inl there ↦ elim (Bool-cases (is_db_secret p s o)) [
          | inl db ↦ rw (e, there, db) (sent h (create k) by_create (inr (db, (w, e, there))) since)
          | inr not_db ↦
              rw (e, there, not_db)
                (patch_existing-Leaves (empty_object o) (h ++ create k ∷ [])
                  (omega (arith, since, length-append h (create k ∷ []))))
        ]
        | inr other ↦ rw (e, other) tt
      ]
    ]

    after_get-Leaves :
        (r : Reply KubeObject) (h : History)
        → length start ≤ length h
        → Leaves (IsApplied o k start) (after_get p s k r h)
    unfolding send_write
    after_get-Leaves (answered base) h since = patch_existing-Leaves base h since
    after_get-Leaves (failed e) h since = elim (Bool-cases (has_reason not_found e)) [
      | inl gone ↦ elim (Option-cases (s.on_write h (create k))) [
        | inl q ↦ rw (gone, q) (sent h (create k) by_create (inl q) since)
        | inr (w, q) ↦ rw (gone, q) tt
      ]
      | inr other ↦ rw other tt
    ]

    apply_other-Leaves :
        (h : History) → length start ≤ length h → Leaves (IsApplied o k start) (apply_other p s k h)
    unfolding apply_other send_get_object
    apply_other-Leaves h since =
        let target : NamespacedName = record {
          name = (meta_of k).name;
          namespace = (meta_of k).namespace;
        } in
        after_get-Leaves (s.on_get_object h (kind_of k) target)
          (h ++ get_object (kind_of k) target ∷ [])
          (omega (arith, since, length-append h (get_object (kind_of k) target ∷ [])))

    pub apply_kube-Leaves :
        (h : History)
        → length start ≤ length h
        → Leaves (IsApplied o k start) (apply_kube p s o k h)
    apply_kube-Leaves h since = elim (Bool-cases (is_secret p s k)) [
      | inl e ↦ rw e (apply_secret-Leaves h since)
      | inr e ↦ rw e (apply_other-Leaves h since)
    ]
