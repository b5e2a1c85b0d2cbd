-- ===== src/FifoQueue/Drain.antt =====
-- The destructor of fifo_queue.h: it ends, and frees each waiting task once.
use asyncplusplus.Prelude.{
  false, ℕ, zero, suc, ◌≡◌, ◌≢◌, ap, ◌<◌, inl, inr, ◌∷◌, some, length, arith, Bool-cases, ◌==◌,
  ==_iff, get_or,
}
use mathlib.Core.Option
use native.Mathlib.Nat.{mod-lt}
use asyncplusplus.Word.{mask, add_size}
use asyncplusplus.FifoQueue.{FifoQueue, drain_from, drain}
use asyncplusplus.FifoQueue.Circle.{circle_pop}
use asyncplusplus.FifoQueue.Inv.{IsValid, count, next_lem}
use asyncplusplus.FifoQueue.Refine.{contents}
use asyncplusplus.FifoQueue.Order.{contents-empty, contents-cons}

-- The queue as the loop sees it once its index has reached `i`.
abbrev from : FifoQueue → ℕ → FifoQueue
from q i = record q { head = i }

from-IsValid : {q : FifoQueue} (i : ℕ) → IsValid q → i < length q.items → IsValid (from q i)
from-IsValid i v lt = record { pow2 = v.pow2; small = v.small; head_in = lt; tail_in = v.tail_in }

-- From index `i` the loop frees what waits from there on, if the fuel covers it.
drain_from_lem :
    (q : FifoQueue) (fuel i : ℕ)
    → IsValid q
    → i < length q.items
    → count (from q i) < fuel
    → drain_from q fuel i ≡ some (contents (from q i))
unfolding drain_from
drain_from_lem q zero i v lt enough = absurd (omega arith)
drain_from_lem q (suc fuel) i v lt enough = elim (Bool-cases (i == q.tail)) [
  | inl done ↦ rw (done, contents-empty (from-IsValid i v lt) ((==_iff i q.tail).0 done))
  | inr more ↦
      rw (more, contents-cons (from-IsValid i v lt) (ne more))
        (ap (Option.map (◌∷◌ (get_or q.items i 0)))
          (drain_from_lem q fuel _ v in_range (shorter (ne more))))
]
  where
    ne : (i == q.tail) ≡ false → i ≢ q.tail
    ne more p = cc (more, (==_iff i q.tail).1 p)

    shorter : i ≢ q.tail → count (from q (mask (length q.items) (add_size i 1))) < fuel
    shorter p =
        rw (next_lem v i lt) (omega (arith, circle_pop (length q.items) i q.tail lt v.tail_in p))

    in_range : mask (length q.items) (add_size i 1) < length q.items
    in_range = omega (arith, next_lem v i lt)

-- The destructor runs to its end and frees exactly the waiting tasks, in their order.
pub drain_lem : {q : FifoQueue} → IsValid q → drain q ≡ some (contents q)
unfolding drain
drain_lem {q} v =
    drain_from_lem q (length q.items) q.head v v.head_in (mod-lt _ (omega (arith, v.head_in)))
