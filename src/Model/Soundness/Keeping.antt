-- ===== src/Model/Soundness/Keeping.antt =====
-- Heaps that keep their sound cells.
use janus_idp_operator.Model.State.Classes.{has_class, count_class}
use janus_idp_operator.Prelude.{
  ap, ℕ, false, not, ◌&&◌, and_left, and_right, ◌≤◌, ◌<◌, true, Option, none, some, List, [], ◌∷◌,
  ◌≡◌, refl, same, same_iff, subst, sym, arith, All, Option-cases, Bool-cases, inl, inr,
}
use janus_idp_operator.Model.Objects.{RuntimeObject, type_code}
use janus_idp_operator.Model.State.{Heap, Ref, write}
use janus_idp_operator.Model.Soundness.{is_sound, is_typed, is_live, is_plain, is_db_object, points}

-- Cells that are sound stay so, in their class.
abbrev pub Keeps : Heap → Heap → Type 0
Keeps h h' = (c : ℕ) (r : Ref) → is_typed c (h r) ≡ true → is_typed c (h' r) ≡ true

pub Keeps-refl : (h : Heap) → Keeps h h
Keeps-refl h c r e = e

pub points-Keeps :
    (h h' : Heap) (c : ℕ) (ref : Option Ref)
    → Keeps h h'
    → points h c ref ≡ true
    → points h' c ref ≡ true
points-Keeps h h' c none k e = refl
points-Keeps h h' c (some r) k e = k c r e

live_of_typed : (c : ℕ) (o : Option RuntimeObject) → is_typed c o ≡ true → is_live o ≡ true
unfolding is_typed
live_of_typed c none e = e
live_of_typed c (some o) e = ground (arith, e)

typed_of_live : (o : RuntimeObject) → is_sound o ≡ true → is_typed (type_code o) (some o) ≡ true
unfolding is_typed
typed_of_live o e = ground (arith, e)

pub live-Keeps : (h h' : Heap) (r : Ref) → Keeps h h' → is_live (h r) ≡ true → is_live (h' r) ≡ true
live-Keeps h h' r k e = elim (Option-cases (h r)) [
  | inl n ↦ cc (e, n)
  | inr (o, n) ↦
      live_of_typed (type_code o) (h' r) (k (type_code o) r (rw n (typed_of_live o (cc (e, n)))))
]

pub All-live-Keeps :
    (h h' : Heap) (rs : List Ref)
    → Keeps h h'
    → All (λ r. is_live (h r) ≡ true) rs
    → All (λ r. is_live (h' r) ≡ true) rs
All-live-Keeps h h' [] k l = tt
All-live-Keeps h h' (r ∷ rs) k (e, l) = (live-Keeps h h' r k e, All-live-Keeps h h' rs k l)

db_object_of_code :
    (o o' : RuntimeObject) → type_code o ≡ type_code o' → is_db_object o ≡ is_db_object o'
unfolding type_code
db_object_of_code o o' e = ground (arith, e)

plain_of_typed :
    (o : RuntimeObject) (x : Option RuntimeObject)
    → is_typed (type_code o) x ≡ true
    → is_db_object o ≡ false
    → is_plain x ≡ true
unfolding is_typed
plain_of_typed o none e n = e
plain_of_typed o (some o') e n =
    let class : type_code o' ≡ type_code o =
      same_iff (type_code o') (type_code o) (and_left (same (type_code o') (type_code o)) _ e) in
    let sound : is_sound o' ≡ true = and_right (same (type_code o') (type_code o)) _ e in
    rw (sound, db_object_of_code o' o class, n) refl

plain-Keeps : (h h' : Heap) (r : Ref) → Keeps h h' → is_plain (h r) ≡ true → is_plain (h' r) ≡ true
plain-Keeps h h' r k e = elim (Option-cases (h r)) [
  | inl n ↦ cc (e, n)
  | inr (o, n) ↦
      let plain : (is_sound o && not (is_db_object o)) ≡ true = cc (e, n) in
      plain_of_typed o (h' r)
        (k (type_code o) r
          (rw n (typed_of_live o (and_left (is_sound o) (not (is_db_object o)) plain))))
        (ground (arith, plain))
]

pub All-plain-Keeps :
    (h h' : Heap) (rs : List Ref)
    → Keeps h h'
    → All (λ r. is_plain (h r) ≡ true) rs
    → All (λ r. is_plain (h' r) ≡ true) rs
All-plain-Keeps h h' [] k l = tt
All-plain-Keeps h h' (r ∷ rs) k (e, l) = (plain-Keeps h h' r k e, All-plain-Keeps h h' rs k l)

-- A write into a cell that was not sound, or by a sound object of the same class.
pub Keeps-write :
    (h : Heap) (r : Ref) (o : RuntimeObject)
    → ((c : ℕ) → is_typed c (h r) ≡ true → is_typed c (some o) ≡ true)
    → Keeps h (write r o h)
Keeps-write h r o k c q e = elim (Bool-cases (same r q)) [
  | inl t ↦
      let p : r ≡ q = same_iff r q t in rw t (k c (subst (λ x. is_typed c (h x) ≡ true) (sym p) e))
  | inr f ↦ rw f e
]

-- The free addresses stay free under a write below them.
pub write-fresh :
    (h : Heap) (next r : Ref) (o : RuntimeObject)
    → r < next
    → ((q : Ref) → next ≤ q → h q ≡ none)
    → (q : Ref) → next ≤ q
    → write r o h q ≡ none
write-fresh h next r o below fresh q le = elim (Bool-cases (same r q)) [
  | inl t ↦ absurd (let p : r ≡ q = same_iff r q t in omega arith)
  | inr f ↦ rw f (fresh q le)
]

has_class_of_typed :
    (k c : ℕ) (x : Option RuntimeObject) → is_typed k x ≡ true → has_class c x ≡ same k c
unfolding is_typed
has_class_of_typed k c none e = cc e
has_class_of_typed k c (some o) e =
    ap (λ n. same n c) (same_iff (type_code o) k (and_left (same (type_code o) k) (is_sound o) e))

-- The classes of a slice of sound objects stay.
pub count_class-Keeps :
    (h h' : Heap) (c : ℕ) (rs : List Ref)
    → Keeps h h'
    → All (λ r. is_live (h r) ≡ true) rs
    → count_class h' c rs ≡ count_class h c rs
unfolding count_class
count_class-Keeps h h' c [] k l = refl
count_class-Keeps h h' c (r ∷ rs) k (e, l) =
    let rest = count_class-Keeps h h' c rs k l in
    elim (Option-cases (h r)) [
      | inl n ↦ cc (e, n)
      | inr (o, n) ↦
          let typed : is_typed (type_code o) (h r) ≡ true = rw n (typed_of_live o (cc (e, n))) in
          rw
            (
              has_class_of_typed (type_code o) c (h' r) (k (type_code o) r typed),
              has_class_of_typed (type_code o) c (h r) typed,
              rest,
            )
            refl
    ]
