-- ===== src/WorkStealQueue/Dispose.antt =====
-- The destructor of src/work_steal_queue.h: it frees the tasks that were left, each once.
use asyncplusplus.Prelude.{ℕ, zero, suc, ◌+◌, ◌<◌, ◌^◌, ◌≡◌, refl, ap, ◌∙◌, List, [], ◌∷◌, arith}
use asyncplusplus.Prelude.Segment.{segment}
use asyncplusplus.Word.{add_size, sub_size}
use asyncplusplus.WorkStealQueue.Array.{get}
use asyncplusplus.WorkStealQueue.Moves.{Shared, current, OwnerPc}
use asyncplusplus.WorkStealQueue.Inv.{contents, Core}

-- The loop from index `i`, `rounds` iterations before it has come round to `bottom`: the handles
-- that it frees, in order.
unfoldable pub dispose_from : List ℕ → ℕ → ℕ → List ℕ
dispose_from a zero i = []
dispose_from a (suc rounds) i = get a i ∷ dispose_from a rounds (add_size i 1)

unfoldable pub dispose : Shared → List ℕ
unfolding dispose_from
dispose sh = dispose_from (current sh) (sub_size sh.bottom sh.top) sh.top

dispose_from-segment :
    (a : List ℕ) (rounds i : ℕ)
    → i + rounds < 2 ^ 64
    → dispose_from a rounds i ≡ segment (get a) i rounds
unfolding dispose_from segment
dispose_from-segment a zero i h = refl
dispose_from-segment a (suc rounds) i h = ap (◌∷◌ (get a i)) (
    dispose_from-segment a rounds (add_size i 1) (omega arith)
    ∙ ap (λ k. segment (get a) k rounds) (omega arith))

-- With no call of `push` or `pop` under way the destructor frees exactly the waiting tasks.
pub dispose_lem :
    {n : ℕ} {sh : Shared}
    → n < 2 ^ 62
    → Core n sh OwnerPc.idle
    → dispose sh ≡ contents sh OwnerPc.idle
unfolding dispose
dispose_lem {sh = sh} small c =
    dispose_from-segment (current sh) (sub_size sh.bottom sh.top) sh.top (omega arith)
    ∙ ap (segment (get (current sh)) sh.top) (omega arith)
