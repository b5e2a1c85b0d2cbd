-- ===== src/RefCount/Runs.antt =====
-- Programs that use handles and plain pointers, one operation after the other.
use asyncplusplus.Prelude.{ℕ, ◌+◌, ◌-◌, ◌≤◌, ◌<◌, ◌^◌, ◌≡◌, ◌≢◌, ◌==◌, ap, [], arith}
use asyncplusplus.Prelude.Count.{count}
use asyncplusplus.Prelude.Among.{among-absent}
use asyncplusplus.RefCount.{
  Heap, add_ref, remove_ref, add_ref_unlocked, construct, is_unique_ref, copy, move, clear,
  copy_assign, move_assign, release, adopt,
}
use asyncplusplus.RefCount.Counts.{Inv, owners}
use asyncplusplus.RefCount.Operations.{
  clear_lem, copy_lem, move_lem, copy_assign_lem, move_assign_lem, release_lem, adopt_lem,
}
use asyncplusplus.RefCount.Raw.{
  set_raw, construct_lem, add_ref_lem, add_ref_unlocked_lem, remove_ref_lem,
}

-- An operation on `n` variables, where a caller may use it: variables are constructed when they hold
-- nothing, a plain pointer passes on only what it owns, and no count overflows.
pub data Operation (n : ℕ) (h : Heap) : Heap → Type 0 where
  constructs :
      {p c : ℕ}
      → p ≢ 0
      → c < 2 ^ 64
      → owners n h p ≡ 0
      → count p h.deleted ≡ 0
      → Operation n h (construct h p c)
  adds :
      {p : ℕ} (k : ℕ)
      → p ≢ 0
      → 1 ≤ h.ref_count p
      → h.ref_count p + k < 2 ^ 64
      → Operation n h (set_raw (add_ref h p k) p (h.raw p + k))
  adds_unlocked :
      {p : ℕ}
      → p ≢ 0
      → 1 ≤ h.ref_count p
      → h.ref_count p + 1 < 2 ^ 64
      → Operation n h (set_raw (add_ref_unlocked h p) p (h.raw p + 1))
  removes :
      {p : ℕ} (k : ℕ)
      → p ≢ 0
      → 1 ≤ k
      → k ≤ h.raw p
      → Operation n h (set_raw (remove_ref h p k) p (h.raw p - k))
  clears : {d : ℕ} → d < n → Operation n h (clear h d)
  copies :
      {d s : ℕ}
      → d < n
      → s < n
      → h.handles d ≡ 0
      → h.ref_count (h.handles s) + 1 < 2 ^ 64
      → Operation n h (copy h d s)
  moves : {d s : ℕ} → d < n → s < n → d ≢ s → h.handles d ≡ 0 → Operation n h (move h d s)
  copy_assigns :
      {d s : ℕ}
      → d < n
      → s < n
      → (clear h d).ref_count (h.handles s) + 1 < 2 ^ 64
      → Operation n h (copy_assign h d s)
  move_assigns : {d s : ℕ} → d < n → s < n → Operation n h (move_assign h d s)
  releases : {d : ℕ} → d < n → Operation n h (release h d)
  adopts : {d p : ℕ} → d < n → h.handles d ≡ 0 → 1 ≤ h.raw p → Operation n h (adopt h d p)

-- No object and no reference.
abbrev pub empty : Heap
empty = record { ref_count = λ p. 0; deleted = []; handles = λ d. 0; raw = λ p. 0 }

pub data Runs (n : ℕ) : Heap → Type 0 where
  begin : Runs n empty
  also : {h h' : Heap} → Runs n h → Operation n h h' → Runs n h'

empty-Inv : (n : ℕ) → Inv n empty
unfolding count
empty-Inv n = record {
  counted = λ p ne. omega (arith, among-absent (λ d. 0) p n 0 (λ j a e. ne (omega arith)));
  bounded = λ p. omega arith;
  once = λ p. omega arith;
  gone = λ p h. absurd (omega arith);
}

Operation-Inv : (n : ℕ) {h h' : Heap} → Inv n h → Operation n h h' → Inv n h'
Operation-Inv n {h} v (constructs {p} {c} ne small none_yet live) =
    construct_lem h p c ne small none_yet live v
Operation-Inv n {h} v (adds {p} k ne pos room) = add_ref_lem h p k ne pos room v
Operation-Inv n {h} v (adds_unlocked {p} ne pos room) = add_ref_unlocked_lem h p ne pos room v
Operation-Inv n {h} v (removes {p} k ne pos le) = remove_ref_lem h p k ne pos le v
Operation-Inv n {h} v (clears {d} lt) = (clear_lem h d lt v).0
Operation-Inv n {h} v (copies {d} {s} ld ls null room) = copy_lem h d s ld ls null room v
Operation-Inv n {h} v (moves {d} {s} ld ls ne null) = move_lem h d s ld ls ne null v
Operation-Inv n {h} v (copy_assigns {d} {s} ld ls room) = copy_assign_lem h d s ld ls room v
Operation-Inv n {h} v (move_assigns {d} {s} ld ls) = move_assign_lem h d s ld ls v
Operation-Inv n {h} v (releases {d} lt) = release_lem h d lt v
Operation-Inv n {h} v (adopts {d} {p} lt null owned) = adopt_lem h d p lt null owned v

pub Runs-Inv : (n : ℕ) {h : Heap} → Runs n h → Inv n h
Runs-Inv n begin = empty-Inv n
Runs-Inv n (also r o) = Operation-Inv n (Runs-Inv n r) o

-- After any sequence of operations, the count of an object is the number of handles and plain
-- pointers that refer to it, `is_unique_ref` says whether that is one, and the object has been
-- deleted at most once and only if nothing refers to it.
pub counts_right :
    (n : ℕ) {h : Heap} (p : ℕ)
    → p ≢ 0
    → Runs n h
    → (h.ref_count p ≡ owners n h p + h.raw p)
      × (is_unique_ref h p ≡ (owners n h p + h.raw p == 1))
      × (count p h.deleted ≤ 1)
      × (1 ≤ count p h.deleted → owners n h p + h.raw p ≡ 0)
counts_right n {h} p ne r =
    let v = Runs-Inv n r in
    let c = v.counted p ne in
    (c, ap (λ k. k == 1) c, v.once p, λ dead. omega (arith, v.gone p dead, c))
