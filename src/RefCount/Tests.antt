-- ===== src/RefCount/Tests.antt =====
-- Two objects, at 100 and 200, and four variables.
use asyncplusplus.Prelude.{◌+◌, ◌≤◌, false, ◌≡◌, ◌==◌, refl, [], ◌∷◌, if◌then◌else◌, arith}
use asyncplusplus.Prelude.Count.{count}
use asyncplusplus.Prelude.Among.{among}
use asyncplusplus.RefCount.{
  construct, is_unique_ref, Heap, take, drop, add_ref, remove_ref, copy, clear, copy_assign, adopt,
}
use asyncplusplus.RefCount.Counts.{Inv, owners}
use asyncplusplus.RefCount.Runs.{
  Runs, begin, also, constructs, adopts, copies, clears, empty, counts_right,
}

-- Variables 0 and 1 share the object at 100, variable 2 owns that at 200, variable 3 is null.
abbrev shared : Heap
shared = record {
  ref_count = λ p. if p == 100 then 2 else if p == 200 then 1 else 0;
  deleted = [];
  handles = λ i. if i == 0 then 100 else if i == 1 then 100 else if i == 2 then 200 else 0;
  raw = λ p. 0;
}

shared-Inv : Inv 4 shared
unfolding among count
shared-Inv = record {
  counted = λ p ne. ground arith;
  bounded = λ p. ground arith;
  once = λ p. omega arith;
  gone = λ p h. absurd (omega arith);
}

-- Variable 2 is set to the object at 100: that at 200 loses its last reference.
reassigned :
    ((copy_assign shared 2 0).deleted ≡ 200 ∷ []) × ((copy_assign shared 2 0).ref_count 100 ≡ 3)
unfolding copy_assign take drop add_ref remove_ref
reassigned = (refl, refl)

abbrev freed : Heap
unfolding construct adopt copy clear
freed = clear (clear (copy (adopt (construct empty 100 1) 0 100) 1 0) 0) 1

-- An object at 100 that variable 0 adopts and variable 1 shares, until both are cleared.
shared_run : Runs 2 freed
unfolding among count construct adopt copy take add_ref clear drop remove_ref
shared_run =
    also
      (also
        (also
          (also (also begin (constructs {p = 100} {c = 1} (omega arith) (omega arith) refl refl))
            (adopts {d = 0} {p = 100} (omega arith) refl (omega arith)))
          (copies {d = 1} {s = 0} (omega arith) (omega arith) refl (omega arith)))
        (clears {d = 0} (omega arith)))
      (clears {d = 1} (omega arith))

counts_right_example :
    (freed.ref_count 100 ≡ 0)
    × (is_unique_ref freed 100 ≡ false)
    × (count 100 freed.deleted ≤ 1)
    × (1 ≤ count 100 freed.deleted → owners 2 freed 100 + freed.raw 100 ≡ 0)
unfolding among count construct adopt copy take add_ref clear drop remove_ref
counts_right_example = counts_right 2 100 (omega arith) shared_run
