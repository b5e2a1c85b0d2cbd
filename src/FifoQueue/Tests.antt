-- ===== src/FifoQueue/Tests.antt =====
-- The queue on small buffers, and each theorem at one of them.
use asyncplusplus.Prelude.{◌≡◌, refl, [], ◌∷◌, some, arith, replicate}
use asyncplusplus.FifoQueue.{FifoQueue, ok, init, push, pop, drain}
use asyncplusplus.FifoQueue.Inv.{IsValid}
use asyncplusplus.FifoQueue.Refine.{contents}
use asyncplusplus.FifoQueue.Order.{Pushed, pop_front, push-Pushed, pop_refines, init-IsValid}
use asyncplusplus.FifoQueue.Drain.{drain_lem}
use asyncplusplus.Memory.{small_memory, small_alloc}
use asyncplusplus.Word.{mask}
use asyncplusplus.Prelude.Segment.{segment}

-- Four slots, three tasks, the last past the end of the storage: the queue is full.
abbrev wrapped : FifoQueue
wrapped = record { items = 7 ∷ 99 ∷ 5 ∷ 6 ∷ []; head = 2; tail = 1 }

wrapped-IsValid : IsValid wrapped
wrapped-IsValid = record {
  pow2 = (2, refl);
  small = omega arith;
  head_in = omega arith;
  tail_in = omega arith;
}

contents-wrapped : contents wrapped ≡ 5 ∷ 6 ∷ 7 ∷ []
unfolding segment
contents-wrapped = refl

push_grows :
    push small_memory wrapped 8
    ≡ (ok, record { items = 5 ∷ 6 ∷ 7 ∷ 8 ∷ 0 ∷ 0 ∷ 0 ∷ 0 ∷ []; head = 0; tail = 4 })
unfolding push mask small_alloc
push_grows = refl

push-Pushed_example :
    IsValid (push small_memory wrapped 8).1
    × Pushed small_memory wrapped 8 (push small_memory wrapped 8).0 (push small_memory wrapped 8).1
push-Pushed_example = push-Pushed small_memory 8 wrapped-IsValid

pop_refines_example : ((pop wrapped).0, contents (pop wrapped).1) ≡ pop_front (contents wrapped)
pop_refines_example = pop_refines wrapped-IsValid

drain_example : drain wrapped ≡ some (contents wrapped)
drain_example = drain_lem wrapped-IsValid

init-IsValid_example :
    IsValid (record { items = replicate 32 0; head = 0; tail = 0 })
    × (contents (record { items = replicate 32 0; head = 0; tail = 0 }) ≡ [])
unfolding init small_alloc
init-IsValid_example = init-IsValid small_memory refl
