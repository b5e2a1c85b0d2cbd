-- ===== src/RefCount/Operations.antt =====
-- The operations of `ref_count_ptr` keep the counts right.
use asyncplusplus.Prelude.{
  ℕ, ◌+◌, ◌-◌, ◌≤◌, ◌<◌, ◌^◌, ◌≡◌, ◌≢◌, ◌⊎◌, inl, inr, ◌==◌, sym, ap, ◌∙◌, if◌then◌else◌, update,
  update_self, update_ne, arith, ℕ_discrete,
}
use mathlib.Core.Path.{subst}
use asyncplusplus.Prelude.Count.{count}
use asyncplusplus.Prelude.Among.{same, same_self, eq-true, eq-false}
use asyncplusplus.RefCount.{
  Heap, take, drop, set_handle, copy, move, clear, copy_assign, move_assign, release, adopt,
}
use asyncplusplus.RefCount.Counts.{Inv, owners-change, same_null, drop_deleted, alive}
use asyncplusplus.RefCount.Handles.{
  Inv-null, Inv-drop, Inv-take, drop-null, take-null, drop-handles,
}

-- Clearing or destroying a handle keeps every count equal to the number of references. The object
-- that it pointed to is deleted if that was its last reference, and otherwise not.
pub clear_lem :
    {n : ℕ} (h : Heap) (d : ℕ)
    → d < n
    → Inv n h
    → Inv n (clear h d)
      × ((h.handles d ≡ 0)
          ⊎ (count (h.handles d) (clear h d).deleted
              ≡ (if h.ref_count (h.handles d) == 1 then 1 else 0)))
unfolding clear
clear_lem {n} h d lt v = elim (ℕ_discrete (h.handles d) 0) [
  | yes null ↦ (
    subst (λ k. Inv n (set_handle k d 0)) (sym (drop-null h (h.handles d) null))
        (Inv-null h d lt null v),
    inl null,
  )
  | no ne ↦ (
    Inv-drop h d lt ne v,
    inr (
        let del = drop_deleted h (h.handles d) (h.handles d) ne in
        let living = (alive h d v lt ne).1 in ground (arith, del, living)),
  )
]

-- Copying a handle into a new variable keeps the counts right, if the count does not overflow.
pub copy_lem :
    {n : ℕ} (h : Heap) (d s : ℕ)
    → d < n
    → s < n
    → h.handles d ≡ 0
    → h.ref_count (h.handles s) + 1 < 2 ^ 64
    → Inv n h
    → Inv n (copy h d s)
unfolding copy
copy_lem {n} h d s ld ls null room v = elim (ℕ_discrete (h.handles s) 0) [
  | yes e ↦
      subst (Inv n) (sym (take-null (set_handle h d (h.handles s)) (h.handles s) e))
        (subst (λ q. Inv n (set_handle h d q)) (sym e) (Inv-null h d ld null v))
  | no ne ↦ Inv-take h d s ld ls null ne room v
]

-- Moving a handle into a new variable keeps the counts right.
pub move_lem :
    {n : ℕ} (h : Heap) (d s : ℕ)
    → d < n
    → s < n
    → d ≢ s
    → h.handles d ≡ 0
    → Inv n h
    → Inv n (move h d s)
unfolding move
move_lem {n} h d s ld ls ne null v = record {
  counted = λ r z. omega (
    arith,
    v.counted r z,
    owners-change n h d (h.handles s) r ld,
    owners-change n (set_handle h d (h.handles s)) s 0 r ls,
    ap (same r) (update_ne h.handles d s (h.handles s) ne),
    ap (same r) null,
  );
  bounded = v.bounded;
  once = v.once;
  gone = v.gone;
}

-- A variable that is cleared and then set.
update-twice : (f : ℕ → ℕ) (d p q : ℕ) → update (update f d p) d q ≡ update f d q
update-twice f d p q = λ i j. at j i
  where
    at : (j : ℕ) → update (update f d p) d q j ≡ update f d q j
    at j = ground arith

module _ (h : Heap) (d s : ℕ) (ne : d ≢ s) where
  -- Clearing `d` leaves the other handles alone.
  handle-clear : (clear h d).handles s ≡ h.handles s
  unfolding clear
  handle-clear =
      update_ne (drop h (h.handles d)).handles d s 0 ne
      ∙ ap (λ f. f s) (drop-handles h (h.handles d))

  set-clear :
      set_handle (clear h d) d (h.handles s) ≡ set_handle (drop h (h.handles d)) d (h.handles s)
  unfolding clear
  set-clear =
      ap (λ f. record (drop h (h.handles d)) { handles = f })
        (update-twice (drop h (h.handles d)).handles d 0 (h.handles s))

  -- Assignment is clearing, then the constructor.
  copy_assign-copy : copy_assign h d s ≡ copy (clear h d) d s
  unfolding copy_assign copy
  copy_assign-copy = rw (eq-false ne) (
      sym (
        ap (λ q. take (set_handle (clear h d) d q) q) handle-clear
        ∙ ap (λ k. take k (h.handles s)) set-clear))

  move_assign-move : move_assign h d s ≡ move (clear h d) d s
  unfolding move_assign move
  move_assign-move = rw (eq-false ne) (
      sym (
        ap (λ q. set_handle (set_handle (clear h d) d q) s 0) handle-clear
        ∙ ap (λ k. set_handle k s 0) set-clear))

cleared : (h : Heap) (d : ℕ) → (clear h d).handles d ≡ 0
unfolding clear
cleared h d = update_self (drop h (h.handles d)).handles d 0

-- Copy assignment keeps the counts right, also from a handle to the same object and from itself.
pub copy_assign_lem :
    {n : ℕ} (h : Heap) (d s : ℕ)
    → d < n
    → s < n
    → (clear h d).ref_count (h.handles s) + 1 < 2 ^ 64
    → Inv n h
    → Inv n (copy_assign h d s)
unfolding copy_assign
copy_assign_lem {n} h d s ld ls room v = elim (ℕ_discrete d s) [
  | yes e ↦ rw (eq-true e) v
  | no ne ↦ subst (Inv n) (sym (copy_assign-copy h d s ne)) (
      copy_lem (clear h d) d s ld ls (cleared h d)
        (subst (λ q. (clear h d).ref_count q + 1 < 2 ^ 64) (sym (handle-clear h d s ne)) room)
        (clear_lem h d ld v).0)
]

-- Move assignment keeps the counts right, also from a handle to the same object and from itself.
pub move_assign_lem :
    {n : ℕ} (h : Heap) (d s : ℕ) → d < n → s < n → Inv n h → Inv n (move_assign h d s)
unfolding move_assign
move_assign_lem {n} h d s ld ls v = elim (ℕ_discrete d s) [
  | yes e ↦ rw (eq-true e) v
  | no ne ↦
      subst (Inv n) (sym (move_assign-move h d s ne))
        (move_lem (clear h d) d s ld ls ne (cleared h d) (clear_lem h d ld v).0)
]

-- One more reference of a plain pointer to `p`, or one less.
raw_more : (f : ℕ → ℕ) (p r : ℕ) → update f p (f p + 1) r ≡ f r + same r p
raw_more f p r = elim (ℕ_discrete p r) [
  | yes e ↦ omega (
    arith,
    update_self f p (f p + 1),
    ap (update f p (f p + 1)) e,
    ap f e,
    ap (same r) e,
    same_self r,
  )
  | no ne ↦
      rw (eq-false {a = r} {b = p} (λ z. ne (sym z))) (omega (arith, update_ne f p r (f p + 1) ne))
]

raw_less : (f : ℕ → ℕ) (p r : ℕ) → 1 ≤ f p → update f p (f p - 1) r + same r p ≡ f r
raw_less f p r h = elim (ℕ_discrete p r) [
  | yes e ↦ omega (
    arith,
    update_self f p (f p - 1),
    ap (update f p (f p - 1)) e,
    ap f e,
    ap (same r) e,
    same_self r,
  )
  | no ne ↦
      rw (eq-false {a = r} {b = p} (λ z. ne (sym z))) (omega (arith, update_ne f p r (f p - 1) ne))
]

-- `release` hands the reference of a handle to a plain pointer, and keeps the counts right.
pub release_lem : {n : ℕ} (h : Heap) (d : ℕ) → d < n → Inv n h → Inv n (release h d)
unfolding release
release_lem {n} h d lt v = record {
  counted = λ r z. omega (
    arith,
    raw_more h.raw (h.handles d) r,
    owners-change n h d 0 r lt,
    v.counted r z,
    same_null r z,
  );
  bounded = v.bounded;
  once = v.once;
  gone = v.gone;
}

-- A new variable that takes over the reference of a plain pointer keeps the counts right.
pub adopt_lem :
    {n : ℕ} (h : Heap) (d p : ℕ)
    → d < n
    → h.handles d ≡ 0
    → 1 ≤ h.raw p
    → Inv n h
    → Inv n (adopt h d p)
unfolding adopt
adopt_lem {n} h d p lt null owned v = record {
  counted = λ r z. omega (
    arith,
    raw_less h.raw p r owned,
    owners-change n h d p r lt,
    v.counted r z,
    ap (same r) null,
    same_null r z,
  );
  bounded = v.bounded;
  once = v.once;
  gone = v.gone;
}
