-- ===== src/RefCount/Handles.antt =====
-- Each operation of a handle keeps the counts right.
use asyncplusplus.Prelude.{ℕ, ◌+◌, ◌≤◌, ◌<◌, ◌^◌, ◌≡◌, ◌≢◌, refl, ap, update, arith, ℕ_discrete}
use asyncplusplus.Prelude.Count.{count}
use asyncplusplus.Prelude.Among.{same, eq-true, eq-false, among}
use asyncplusplus.RefCount.{Heap, add_ref, remove_ref, take, drop, set_handle}
use asyncplusplus.RefCount.Counts.{
  Inv, owners-change, same_null, drop_count, drop_deleted, take_count, alive,
}

-- `drop` changes counts, not pointers.
pub drop-handles : (h : Heap) (p : ℕ) → (drop h p).handles ≡ h.handles
unfolding drop remove_ref
drop-handles h p = elim (ℕ_discrete p 0) [
  | yes e ↦ rw (eq-true e) refl
  | no ne ↦ rw (eq-false ne) refl
]

drop-raw : (h : Heap) (p : ℕ) → (drop h p).raw ≡ h.raw
unfolding drop remove_ref
drop-raw h p = elim (ℕ_discrete p 0) [ yes e ↦ rw (eq-true e) refl | no ne ↦ rw (eq-false ne) refl ]

pub drop-null : (h : Heap) (p : ℕ) → p ≡ 0 → drop h p ≡ h
unfolding drop
drop-null h p e = rw (eq-true e) refl

take-handles : (h : Heap) (p : ℕ) → (take h p).handles ≡ h.handles
unfolding take add_ref
take-handles h p = elim (ℕ_discrete p 0) [
  | yes e ↦ rw (eq-true e) refl
  | no ne ↦ rw (eq-false ne) refl
]

take-raw : (h : Heap) (p : ℕ) → (take h p).raw ≡ h.raw
unfolding take add_ref
take-raw h p = elim (ℕ_discrete p 0) [ yes e ↦ rw (eq-true e) refl | no ne ↦ rw (eq-false ne) refl ]

take-deleted : (h : Heap) (p : ℕ) → (take h p).deleted ≡ h.deleted
unfolding take add_ref
take-deleted h p = elim (ℕ_discrete p 0) [
  | yes e ↦ rw (eq-true e) refl
  | no ne ↦ rw (eq-false ne) refl
]

pub take-null : (h : Heap) (p : ℕ) → p ≡ 0 → take h p ≡ h
unfolding take
take-null h p e = rw (eq-true e) refl

-- A null pointer in variable `d`, which held a null pointer.
pub Inv-null :
    {n : ℕ} (h : Heap) (d : ℕ) → d < n → h.handles d ≡ 0 → Inv n h → Inv n (set_handle h d 0)
Inv-null {n} h d lt null v = record {
  counted = λ r z. omega (arith, v.counted r z, owners-change n h d 0 r lt, ap (same r) null);
  bounded = v.bounded;
  once = v.once;
  gone = v.gone;
}

pub Inv-drop :
    {n : ℕ} (h : Heap) (d : ℕ)
    → d < n
    → h.handles d ≢ 0
    → Inv n h
    → Inv n (set_handle (drop h (h.handles d)) d 0)
Inv-drop {n} h d lt ne v = record {
  counted = λ r z. omega (
    arith,
    v.counted r z,
    count_of r,
    owners-change n h d 0 r lt,
    same_null r z,
    ap (λ f. among (update f d 0) r n 0) (drop-handles h p),
    ap (λ f. f r) (drop-raw h p),
  );
  bounded = λ r. omega (arith, v.bounded r, count_of r);
  once = λ r. (dropped r).0;
  gone = λ r k. (dropped r).1 k;
}
  where
    p : ℕ
    p = h.handles d

    living : (1 ≤ h.ref_count p) × (count p h.deleted ≡ 0)
    living = alive h d v lt ne

    dropped :
        (r : ℕ)
        → (count r (drop h p).deleted ≤ 1)
          × (1 ≤ count r (drop h p).deleted → (drop h p).ref_count r ≡ 0)
    dropped r = elim (ℕ_discrete r p) [
      | yes e ↦
          let del = drop_deleted h p r ne in
          let cnt = drop_count h p r ne living.0 (v.bounded p) in
          let old = ap (λ k. count k h.deleted) e in
          let ref = ap h.ref_count e in
          (
            ground (arith, del, old, living, e),
            λ k. ground (arith, del, cnt, old, ref, living, e, k),
          )
      | no other ↦
          let del = drop_deleted h p r ne in
          let cnt = drop_count h p r ne living.0 (v.bounded p) in
          (ground (arith, del, v.once r, other), λ k. ground (arith, del, cnt, other, k, v.gone r))
    ]

    count_of : (r : ℕ) → (drop h p).ref_count r + same r p ≡ h.ref_count r
    count_of r = drop_count h p r ne living.0 (v.bounded p)

-- Variable `d`, which held a null pointer, gets another reference to the object of `s`.
pub Inv-take :
    {n : ℕ} (h : Heap) (d s : ℕ)
    → d < n
    → s < n
    → h.handles d ≡ 0
    → h.handles s ≢ 0
    → h.ref_count (h.handles s) + 1 < 2 ^ 64
    → Inv n h
    → Inv n (take (set_handle h d (h.handles s)) (h.handles s))
Inv-take {n} h d s ld ls null ne room v = record {
  counted = λ r z. omega (
    arith,
    v.counted r z,
    count_of r,
    owners-change n h d q r ld,
    ap (same r) null,
    same_null r z,
    ap (λ f. among f r n 0) (take-handles h1 q),
    ap (λ f. f r) (take-raw h1 q),
  );
  bounded = λ r. ground (arith, v.bounded r, count_of r, room, eq-room r);
  once = λ r. omega (arith, v.once r, ap (count r) (take-deleted h1 q));
  gone = λ r k. taken r k;
}
  where
    q : ℕ
    q = h.handles s

    h1 : Heap
    h1 = set_handle h d q

    count_of : (r : ℕ) → (take h1 q).ref_count r ≡ h.ref_count r + same r q
    count_of r = take_count h1 q r ne room

    eq-room : (r : ℕ) → r ≡ q → h.ref_count r + 1 < 2 ^ 64
    eq-room r e = omega (arith, room, ap h.ref_count e)

    taken : (r : ℕ) → 1 ≤ count r (take h1 q).deleted → (take h1 q).ref_count r ≡ 0
    taken r k = elim (ℕ_discrete r q) [
      | yes e ↦ absurd (
          omega (
            arith,
            ap (count r) (take-deleted h1 q),
            k,
            ap (λ x. count x h.deleted) e,
            (alive h s v ls ne).1,
          ))
      | no other ↦
          ground (
            arith,
            count_of r,
            v.gone r (omega (arith, k, ap (count r) (take-deleted h1 q))),
            other,
          )
    ]
