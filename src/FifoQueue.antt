-- ===== src/FifoQueue.antt =====
-- src/fifo_queue.h: the queue of tasks in first-in first-out order, in a circular buffer.
-- A `void*` is a number, 0 the null pointer, which is also the empty `task_run_handle`.
pub mod Inv
pub mod Circle
pub mod Refine
pub mod Order
pub mod Drain
mod Tests
use asyncplusplus.Prelude.{
  ℕ, zero, suc, ◌+◌, ◌-◌, List, [], ◌∷◌, Option, none, some, get_or, set, length, ◌==◌,
  if◌then◌else◌, Bool,
}
use asyncplusplus.Word.{add_size, sub_size, mul_size, mask}
use asyncplusplus.Memory.{Memory}
use mathlib.Core.Option

-- How an operation that allocates ends: normally, or by `std::bad_alloc`.
pub data Outcome : Type 0 where
  ok bad_alloc : Outcome

pub record FifoQueue : Type 0 where
  pub items : List ℕ
  pub head : ℕ
  pub tail : ℕ

-- The loop that copies `items` into `new_items`, unrolling the circle: `rounds` iterations left.
unfoldable pub copy_items : List ℕ → ℕ → ℕ → ℕ → List ℕ → List ℕ
copy_items items head zero i new_items = new_items
copy_items items head (suc rounds) i new_items =
    copy_items items head rounds (add_size i 1)
      (set new_items i (get_or items (mask (length items) (add_size i head)) 0))

-- The body of the resize, once the new storage is there.
unfoldable pub resize : FifoQueue → List ℕ → FifoQueue
unfolding copy_items
resize q new_items = record {
  items = copy_items q.items q.head (length q.items) 0 new_items;
  head = 0;
  tail = sub_size (length q.items) 1;
}

-- The statements below the resize.
unfoldable pub put : FifoQueue → ℕ → FifoQueue
put q t = record q {
  items = set q.items q.tail t;
  tail = mask (length q.items) (add_size q.tail 1);
}

abbrev pub is_full : FifoQueue → Bool
is_full q = q.head == mask (length q.items) (add_size q.tail 1)

module _ (m : Memory) where
  -- The constructor; `none` if the first allocation throws.
  unfoldable pub init : Option FifoQueue
  init = Option.map (λ xs. record { items = xs; head = 0; tail = 0 }) (m.alloc 32)

  -- A throwing allocation leaves the queue as it was.
  unfoldable pub push : FifoQueue → ℕ → Outcome × FifoQueue
  unfolding resize put
  push q t =
      if is_full q
      then elim (m.alloc (mul_size (length q.items) 2)) [
        | none ↦ (bad_alloc, q)
        | some new_items ↦ (ok, put (resize q new_items) t)
      ]
      else (ok, put q t)

-- The task at the front and what is left; 0 if the queue is empty.
unfoldable pub pop : FifoQueue → ℕ × FifoQueue
pop q =
    if q.head == q.tail
    then (0, q)
    else (get_or q.items q.head 0, record q { head = mask (length q.items) (add_size q.head 1) })

-- The loop of the destructor from index `i`: the handles that it frees, in order. `none` if the
-- fuel runs out before `i` reaches `tail`.
unfoldable pub drain_from : FifoQueue → ℕ → ℕ → Option (List ℕ)
drain_from q zero i = none
drain_from q (suc fuel) i =
    let rest = drain_from q fuel (mask (length q.items) (add_size i 1)) in
    if i == q.tail then some [] else Option.map (λ l. get_or q.items i 0 ∷ l) rest

-- The destructor visits each slot at most once.
unfoldable pub drain : FifoQueue → Option (List ℕ)
unfolding drain_from
drain q = drain_from q (length q.items) q.head
