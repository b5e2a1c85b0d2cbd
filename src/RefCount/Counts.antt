-- ===== src/RefCount/Counts.antt =====
-- The invariant of the counts: each count is the number of references, and an object is deleted
-- when the last one goes, once.
use asyncplusplus.Prelude.{
  ℕ, ◌+◌, ◌≤◌, ◌<◌, ◌^◌, ◌≡◌, ◌≢◌, ◌==◌, sym, ap, if◌then◌else◌, update, update_self, update_ne,
  arith, ℕ_discrete,
}
use asyncplusplus.Prelude.Count.{count}
use asyncplusplus.Prelude.Among.{among-one, same, same_self, eq-true, eq-false, among, among-change}
use asyncplusplus.Word.{add_size, sub_size}
use asyncplusplus.RefCount.{Heap, add_ref, remove_ref, take, drop}

-- The references to `p` of the variables 0 to n - 1.
abbrev pub owners : ℕ → Heap → ℕ → ℕ
owners n h p = among h.handles p n 0

-- For `n` variables.
pub record Inv (n : ℕ) (h : Heap) : Type 0 where
  pub counted : (p : ℕ) → p ≢ 0 → h.ref_count p ≡ owners n h p + h.raw p
  pub bounded : (p : ℕ) → h.ref_count p < 2 ^ 64
  pub once : (p : ℕ) → count p h.deleted ≤ 1
  pub gone : (p : ℕ) → 1 ≤ count p h.deleted → h.ref_count p ≡ 0

pub owners-change :
    (n : ℕ) (h : Heap) (d q p : ℕ)
    → d < n
    → among (update h.handles d q) p n 0 + same p (h.handles d) ≡ owners n h p + same p q
owners-change n h d q p lt = omega (
  arith,
  among-change (update h.handles d q) h.handles p d n 0 (omega arith) (omega arith)
      (λ j ne l. update_ne h.handles d j q (λ e. ne (sym e))),
  ap (same p) (update_self h.handles d q),
)

pub same_null : (p : ℕ) → p ≢ 0 → same p 0 ≡ 0
same_null p ne = ground arith

pub drop_count :
    (h : Heap) (p r : ℕ)
    → p ≢ 0
    → 1 ≤ h.ref_count p
    → h.ref_count p < 2 ^ 64
    → (drop h p).ref_count r + same r p ≡ h.ref_count r
unfolding drop remove_ref
drop_count h p r ne pos small = rw (eq-false ne) (elim (ℕ_discrete p r) [
  | yes e ↦ omega (
    arith,
    ap h.ref_count e,
    ap (same r) e,
    same_self r,
    update_self h.ref_count p (sub_size (h.ref_count p) 1),
    ap (update h.ref_count p (sub_size (h.ref_count p) 1)) e,
  )
  | no other ↦
      rw (eq-false {a = r} {b = p} (λ z. other (sym z)))
        (omega (arith, update_ne h.ref_count p r (sub_size (h.ref_count p) 1) other))
])

pub drop_deleted :
    (h : Heap) (p r : ℕ)
    → p ≢ 0
    → count r (drop h p).deleted ≡ count r h.deleted + (if h.ref_count p == 1 then same r p else 0)
unfolding drop remove_ref count
drop_deleted h p r ne = rw (eq-false ne) (elim (ℕ_discrete (h.ref_count p) 1) [
  | yes e ↦ rw (eq-true e) (omega arith)
  | no other ↦ rw (eq-false other) (omega arith)
])

pub take_count :
    (h : Heap) (p r : ℕ)
    → p ≢ 0
    → h.ref_count p + 1 < 2 ^ 64
    → (take h p).ref_count r ≡ h.ref_count r + same r p
unfolding take add_ref
take_count h p r ne small = rw (eq-false ne) (elim (ℕ_discrete p r) [
  | yes e ↦ omega (
    arith,
    ap h.ref_count e,
    ap (same r) e,
    same_self r,
    update_self h.ref_count p (add_size (h.ref_count p) 1),
    ap (update h.ref_count p (add_size (h.ref_count p) 1)) e,
  )
  | no other ↦
      rw (eq-false {a = r} {b = p} (λ z. other (sym z)))
        (omega (arith, update_ne h.ref_count p r (add_size (h.ref_count p) 1) other))
])

-- An object that a handle points to has not been deleted.
pub alive :
    {n : ℕ} (h : Heap) (d : ℕ)
    → Inv n h
    → d < n
    → h.handles d ≢ 0
    → (1 ≤ h.ref_count (h.handles d)) × (count (h.handles d) h.deleted ≡ 0)
alive {n} h d v lt ne =
    let pos : 1 ≤ h.ref_count (h.handles d) =
      omega (
        arith,
        v.counted (h.handles d) ne,
        among-one h.handles d n 0 (omega arith) (omega arith),
      ) in
    (
      pos,
      elim (ℕ_discrete (count (h.handles d) h.deleted) 0) [
        | yes e ↦ e
        | no dead ↦ absurd (omega (arith, v.gone (h.handles d) (omega arith), pos))
      ],
    )
