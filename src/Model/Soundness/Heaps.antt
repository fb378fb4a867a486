-- ===== src/Model/Soundness/Heaps.antt =====
-- How sound models change: a write of a sound object, a new cell, an entry of the slice.
use janus_idp_operator.Model.State.Classes.{set_runtime_object-IsDistinct}
use janus_idp_operator.Prelude.{
  ℕ, suc, Bool, false, ◌≤◌, ◌<◌, true, none, some, is_some, List, [], ◌∷◌, ◌≡◌, refl, subst, ◌∙◌,
  arith, All, Bool-cases, inl, inr,
}
use janus_idp_operator.Model.Objects.{RuntimeObject}
use janus_idp_operator.Model.State.{
  Heap, Ref, BackstageModel, write, store, alloc, set_runtime_object, replace_or_append,
  same_type_at,
}
use janus_idp_operator.Model.Soundness.{is_typed, is_live, is_plain, IsSound}
use janus_idp_operator.Model.Soundness.Keeping.{
  count_class-Keeps, Keeps, Keeps-refl, points-Keeps, All-live-Keeps, All-plain-Keeps, Keeps-write,
  write-fresh,
}

-- A sound model whose heap is replaced by one that keeps the sound cells.
IsSound-heap :
    (m : BackstageModel) (h : Heap) (next : Ref)
    → Keeps m.heap h
    → ((q : Ref) → next ≤ q → h q ≡ none)
    → IsSound m
    → IsSound (record m { heap = h; next = next })
IsSound-heap m h next k fresh s = record {
  fresh = fresh;
  deployment = points-Keeps m.heap h 6 m.backstage_deployment_ref k s.deployment;
  service = points-Keeps m.heap h 11 m.backstage_service_ref k s.service;
  stateful_set = points-Keeps m.heap h 5 m.local_db_stateful_set k s.stateful_set;
  db_service = points-Keeps m.heap h 4 m.local_db_service k s.db_service;
  db_secret = points-Keeps m.heap h 3 m.local_db_secret k s.db_secret;
  route = points-Keeps m.heap h 8 m.route_ref k s.route;
  objects = All-live-Keeps m.heap h m.runtime_objects k s.objects;
  plain = λ off. All-plain-Keeps m.heap h m.runtime_objects k (s.plain off);
  distinct = λ c. rw (count_class-Keeps m.heap h c m.runtime_objects k s.objects) (s.distinct c);
}

-- What a model keeps from step to step: its settings, and the pointers that are set.
pub record Extends (m m' : BackstageModel) : Type 0 where
  pub cells : Keeps m.heap m'.heap
  pub local_db : m'.local_db_enabled ≡ m.local_db_enabled
  pub openshift : m'.is_openshift ≡ m.is_openshift
  pub external : m'.external_config ≡ m.external_config
  pub deployment :
      is_some m.backstage_deployment_ref ≡ true → is_some m'.backstage_deployment_ref ≡ true
  pub service : is_some m.backstage_service_ref ≡ true → is_some m'.backstage_service_ref ≡ true
  pub stateful_set :
      is_some m.local_db_stateful_set ≡ true → is_some m'.local_db_stateful_set ≡ true
  pub db_service : is_some m.local_db_service ≡ true → is_some m'.local_db_service ≡ true

Extends-heap :
    (m : BackstageModel) (h : Heap) (next : Ref)
    → Keeps m.heap h
    → Extends m (record m { heap = h; next = next })
Extends-heap m h next k = record {
  cells = k;
  local_db = refl;
  openshift = refl;
  external = refl;
  deployment = λ e. e;
  service = λ e. e;
  stateful_set = λ e. e;
  db_service = λ e. e;
}

pub Extends-refl : (m : BackstageModel) → Extends m m
Extends-refl m = Extends-heap m m.heap m.next (Keeps-refl m.heap)

pub Extends-trans : (m m' m'' : BackstageModel) → Extends m m' → Extends m' m'' → Extends m m''
Extends-trans m m' m'' x y = record {
  cells = λ c r e. y.cells c r (x.cells c r e);
  local_db = y.local_db ∙ x.local_db;
  openshift = y.openshift ∙ x.openshift;
  external = y.external ∙ x.external;
  deployment = λ e. y.deployment (x.deployment e);
  service = λ e. y.service (x.service e);
  stateful_set = λ e. y.stateful_set (x.stateful_set e);
  db_service = λ e. y.db_service (x.db_service e);
}

-- A sound model that comes after another one.
pub record Follows (m m' : BackstageModel) : Type 0 where
  pub sound : IsSound m'
  pub extends : Extends m m'

-- A write of a sound object over one of its class, or over a cell that was not sound.
pub store-Follows :
    (m : BackstageModel) (r : Ref) (o : RuntimeObject)
    → r < m.next
    → ((c : ℕ) → is_typed c (m.heap r) ≡ true → is_typed c (some o) ≡ true)
    → IsSound m
    → Follows m (store r o m)
store-Follows m r o below k s = record {
  sound =
      IsSound-heap m (write r o m.heap) m.next (Keeps-write m.heap r o k)
        (write-fresh m.heap m.next r o below s.fresh) s;
  extends = Extends-heap m (write r o m.heap) m.next (Keeps-write m.heap r o k);
}

pub alloc-Follows : (m : BackstageModel) (o : RuntimeObject) → IsSound m → Follows m (alloc o m)
unfolding is_typed
alloc-Follows m o s =
    let free : m.heap m.next ≡ none = s.fresh m.next (omega arith) in
    let k : Keeps m.heap (write m.next o m.heap) =
      Keeps-write m.heap m.next o (λ c e. cc (subst (λ x. is_typed c x ≡ true) free e)) in
    record {
      sound =
          IsSound-heap m (write m.next o m.heap) (suc m.next) k
            (write-fresh m.heap (suc m.next) m.next o (omega arith)
              (λ q le. s.fresh q (omega arith)))
            s;
      extends = Extends-heap m (write m.next o m.heap) (suc m.next) k;
    }

-- The new entry of the slice takes the place of another one, or comes last.
All-replace_or_append :
    (f : Ref → Bool) (h : Heap) (o : RuntimeObject) (r : Ref) (qs : List Ref)
    → f r ≡ true
    → All (λ q. f q ≡ true) qs
    → All (λ q. f q ≡ true) (replace_or_append h o r qs)
unfolding replace_or_append
All-replace_or_append f h o r [] e l = (e, tt)
All-replace_or_append f h o r (q ∷ qs) e (x, l) = elim (Bool-cases (same_type_at (h q) o)) [
  | inl t ↦ rw t (e, l)
  | inr n ↦ rw n (x, All-replace_or_append f h o r qs e l)
]

pub set_runtime_object-Follows :
    (m : BackstageModel) (r : Ref) (o : RuntimeObject)
    → m.heap r ≡ some o
    → is_live (m.heap r) ≡ true
    → (m.local_db_enabled ≡ false → is_plain (m.heap r) ≡ true)
    → IsSound m
    → Follows m (set_runtime_object r o m)
unfolding set_runtime_object
set_runtime_object-Follows m r o found e plain s = record {
  sound = record {
    fresh = s.fresh;
    deployment = s.deployment;
    service = s.service;
    stateful_set = s.stateful_set;
    db_service = s.db_service;
    db_secret = s.db_secret;
    route = s.route;
    objects =
        All-replace_or_append (λ q. is_live (m.heap q)) m.heap o r m.runtime_objects e s.objects;
    plain = λ off.
        All-replace_or_append (λ q. is_plain (m.heap q)) m.heap o r m.runtime_objects (plain off)
          (s.plain off);
    distinct = set_runtime_object-IsDistinct m r o found s.distinct;
  };
  extends = record {
    cells = Keeps-refl m.heap;
    local_db = refl;
    openshift = refl;
    external = refl;
    deployment = λ e. e;
    service = λ e. e;
    stateful_set = λ e. e;
    db_service = λ e. e;
  };
}

pub Follows-trans : (m m' m'' : BackstageModel) → Follows m m' → Follows m' m'' → Follows m m''
Follows-trans m m' m'' x y = record {
  sound = y.sound;
  extends = Extends-trans m m' m'' x.extends y.extends;
}
