-- ===== src/ThreadPool/Loop/Gentle.antt =====
-- When a step of one thread keeps what holds of the others.
use asyncplusplus.Prelude.{ℕ, ◌≤◌, ◌≡◌, ◌≢◌, sym, ◌∙◌, List, [], ◌∷◌, true, Every}
use asyncplusplus.TaskWaitEvent.{}
use asyncplusplus.ThreadPool.WaitersLaws.{sleeping}
use asyncplusplus.ThreadPool.PoolState.{Pool, Frame}
use asyncplusplus.ThreadPool.Loop.Inv.{mask_of, ThreadOk, Drained, Listed, Ended}

-- For the threads other than `i`, what is empty stays empty, and those that stay asleep stay on the
-- list.
pub record Gentle (thread_of : ℕ → ℕ) (i : ℕ) (p p' : Pool) : Type 0 where
  pub deques : (j : ℕ) → j ≢ i → p.deques j ≡ [] → p'.deques j ≡ []
  pub masks : (e : ℕ) → thread_of e ≢ i → mask_of p' e ≡ 0 → mask_of p e ≡ 0
  pub list :
      (e : ℕ)
      → thread_of e ≢ i
      → mask_of p' e ≡ 0
      → 1 ≤ sleeping p.waiters e
      → 1 ≤ sleeping p'.waiters e
  pub shutdown : p.shutdown ≡ true → p'.shutdown ≡ true
  pub public_queue : p.shutdown ≡ true → p.public_queue ≡ [] → p'.public_queue ≡ []

module _ (thread_of : ℕ → ℕ) (i : ℕ) {p p' : Pool} (g : Gentle thread_of i p p') where
  Listed-Gentle :
      (j : ℕ) (fs : List Frame)
      → j ≢ i
      → Every (λ f. thread_of f.event ≡ j) fs
      → Listed p fs
      → Listed p' fs
  Listed-Gentle j [] ne o h = tt
  Listed-Gentle j (f ∷ below) ne o h = λ pc zero_mask.
      let other : thread_of f.event ≢ i = (λ z. ne (sym o.0 ∙ z)) in
      g.list f.event other zero_mask (h pc (g.masks f.event other zero_mask))

  Drained-Gentle :
      (j : ℕ) (fs : List Frame) → j ≢ i → Drained fs (p.deques j) → Drained fs (p'.deques j)
  Drained-Gentle j [] ne h = g.deques j ne h
  Drained-Gentle j (f ∷ below) ne h = λ q. g.deques j ne (h q)

  Ended-Gentle : (fs : List Frame) → Ended p fs → Ended p' fs
  Ended-Gentle [] h = (g.shutdown h.0, g.public_queue h.0 h.1)
  Ended-Gentle (f ∷ below) h = tt

  pub ThreadOk-Gentle :
      (j : ℕ) (fs : List Frame) → j ≢ i → ThreadOk thread_of j p fs → ThreadOk thread_of j p' fs
  ThreadOk-Gentle j fs ne ok = record {
    shape = ok.shape;
    owned = ok.owned;
    drained = Drained-Gentle j fs ne ok.drained;
    listed = Listed-Gentle j fs ne ok.owned ok.listed;
    ended = Ended-Gentle fs ok.ended;
  }
