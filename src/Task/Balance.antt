-- ===== src/Task/Balance.antt =====
-- How a turn changes what the threads, the vectors and the schedulers hold, and what they should.
use asyncplusplus.Prelude.{
  ℕ, suc, ◌+◌, ◌≤◌, ◌<◌, ◌≡◌, ◌≢◌, ap, sym, ◌∙◌, List, ◌∷◌, ◌++◌, ltb, if◌then◌else◌, update,
  update_self, update_ne, arith, ℕ_discrete,
}
use asyncplusplus.Prelude.Among.{same}
use asyncplusplus.Prelude.Sum.{sum, sum-append, sum_to, sum_to-change, sum_to-congr}
use asyncplusplus.Task.{Task, new_task}
use asyncplusplus.Task.Handlers.{Command}
use asyncplusplus.Task.System.{World}
use asyncplusplus.Task.Weights.{Weight, of_stack, of_handles, of_vectors, load}

-- The amount for task `t`: that of its state, once it is made.
unfoldable pub wanted : (ℕ → Task → ℕ) → (ℕ → Task) → ℕ → ℕ → ℕ
wanted g tasks next t = if ltb t next then g t (tasks t) else 0

pub wanted-positive :
    (g : ℕ → Task → ℕ) (tasks : ℕ → Task) (next t : ℕ)
    → 0 < wanted g tasks next t
    → (t < next) × (0 < g t (tasks t))
unfolding wanted
wanted-positive g tasks next t h = ground arith

pub wanted-made :
    (g : ℕ → Task → ℕ) (tasks : ℕ → Task) (next t : ℕ)
    → t < next
    → wanted g tasks next t ≡ g t (tasks t)
unfolding wanted
wanted-made g tasks next t h = ground arith

pub wanted-unmade :
    (g : ℕ → Task → ℕ) (tasks : ℕ → Task) (next t : ℕ) → next ≤ t → wanted g tasks next t ≡ 0
unfolding wanted
wanted-unmade g tasks next t h = ground arith

module _ (g : ℕ → Task → ℕ) (tasks : ℕ → Task) (next u : ℕ) (x : Task) where
  at_self : update tasks u x u ≡ x
  at_self = update_self tasks u x

  elsewhere : (t : ℕ) → t ≢ u → wanted g (update tasks u x) next t ≡ wanted g tasks next t
  unfolding wanted
  elsewhere t ne =
      ap (λ k. if ltb t next then g t k else 0) (update_ne tasks u t x (λ e. ne (sym e)))

  here : u < next → wanted g (update tasks u x) next u ≡ g u x
  here lt = wanted-made g (update tasks u x) next u lt ∙ ap (g u) at_self

  change :
      (t : ℕ)
      → u < next
      → (t ≡ u → wanted g (update tasks u x) next t ≡ g u x)
        × (t ≡ u → wanted g tasks next t ≡ g u (tasks u))
        × (t ≢ u → wanted g (update tasks u x) next t ≡ wanted g tasks next t)
  change t lt = (
    λ e. ap (wanted g (update tasks u x) next) e ∙ here lt,
    λ e. ap (wanted g tasks next) e ∙ wanted-made g tasks next u lt,
    elsewhere t,
  )

  pub wanted-drop :
      (t : ℕ)
      → u < next
      → g u (tasks u) ≡ 1
      → g u x ≡ 0
      → wanted g (update tasks u x) next t + same t u ≡ wanted g tasks next t
  wanted-drop t lt a b = let c = change t lt in ground (arith, c, a, b)

  pub wanted-gain :
      (t : ℕ)
      → u < next
      → g u (tasks u) ≡ 0
      → g u x ≡ 1
      → wanted g (update tasks u x) next t ≡ wanted g tasks next t + same t u
  wanted-gain t lt a b = let c = change t lt in ground (arith, c, a, b)

  pub wanted-keep :
      (t : ℕ)
      → u < next
      → g u x ≡ g u (tasks u)
      → wanted g (update tasks u x) next t ≡ wanted g tasks next t
  wanted-keep t lt a = let c = change t lt in ground (arith, c, a)

module _ (g : ℕ → Task → ℕ) (tasks : ℕ → Task) (next : ℕ) where
  abbrev made : ℕ → Task
  made = update tasks next new_task

  new_here :
      (t : ℕ)
      → t ≡ next
      → (wanted g made (suc next) t ≡ g next new_task) × (wanted g tasks next t ≡ 0)
  new_here t q = (
    ap (wanted g made (suc next)) q
        ∙ wanted-made g made (suc next) next (omega arith)
        ∙ ap (g next) (update_self tasks next new_task),
    wanted-unmade g tasks next t (omega arith),
  )

  new_elsewhere : (t : ℕ) → t ≢ next → wanted g made (suc next) t ≡ wanted g tasks next t
  unfolding wanted
  new_elsewhere t ne =
      let s = ap (g t) (update_ne tasks next t new_task (λ z. ne (sym z))) in ground (arith, s, ne)

  pub wanted-new_none :
      (t : ℕ) → g next new_task ≡ 0 → wanted g made (suc next) t ≡ wanted g tasks next t
  wanted-new_none t e = elim (ℕ_discrete t next) [
    | yes q ↦ omega (arith, new_here t q, e)
    | no ne ↦ new_elsewhere t ne
  ]

  pub wanted-new_one :
      (t : ℕ)
      → g next new_task ≡ 1
      → wanted g made (suc next) t ≡ wanted g tasks next t + same t next
  wanted-new_one t e = elim (ℕ_discrete t next) [
    | yes q ↦ let h = new_here t q in ground (arith, h, e, q)
    | no ne ↦ let h = new_elsewhere t ne in ground (arith, h, ne)
  ]

module _ (w : Weight) (tasks : ℕ → Task) (n : ℕ) where
  pub vectors-same :
      (p : ℕ) (x : Task)
      → x.waiting ≡ (tasks p).waiting
      → of_vectors w (update tasks p x) n ≡ of_vectors w tasks n
  vectors-same p x e = sum_to-congr _ _ n (λ i lt. same_at i)
    where
      same_at : (i : ℕ) → of_handles w (update tasks p x i).waiting ≡ of_handles w (tasks i).waiting
      same_at i = elim (ℕ_discrete p i) [
        | yes q ↦
            ap (λ k. of_handles w (update tasks p x k).waiting) (sym q)
            ∙ ap (λ k. of_handles w k.waiting) (update_self tasks p x)
            ∙ ap (of_handles w) e
            ∙ ap (λ k. of_handles w (tasks k).waiting) q
        | no ne ↦ ap (λ k. of_handles w k.waiting) (update_ne tasks p i x ne)
      ]

  pub vectors-change :
      (p : ℕ) (x : Task)
      → p < n
      → of_vectors w (update tasks p x) n + of_handles w (tasks p).waiting
        ≡ of_vectors w tasks n + of_handles w x.waiting
  vectors-change p x lt = omega (
    arith,
    sum_to-change (λ i. of_handles w (tasks i).waiting)
        (λ i. of_handles w (update tasks p x i).waiting) p n lt
        (λ i ne. ap (λ k. of_handles w k.waiting) (update_ne tasks p i x (λ e. ne (sym e)))),
    ap (λ k. of_handles w k.waiting) (update_self tasks p x),
  )

  pub vectors-new : of_vectors w (update tasks n new_task) (suc n) ≡ of_vectors w tasks n
  unfolding sum_to
  vectors-new = omega (
    arith,
    ap (λ k. of_handles w k.waiting) (update_self tasks n new_task),
    sum_to-congr (λ i. of_handles w (update tasks n new_task i).waiting)
        (λ i. of_handles w (tasks i).waiting) n
        (λ i lt.
          ap (λ k. of_handles w k.waiting) (update_ne tasks n i new_task (λ e. omega arith))),
  )

-- A turn balances a weight against the amounts that `g` wants: what the turn adds to one it adds to
-- the other.
abbrev pub Balanced :
    Weight
    → (ℕ → Task → ℕ)
    → (ℕ → Task)
    → ℕ
    → List Command
    → List ℕ
    → (ℕ → Task)
    → ℕ
    → List Command
    → List ℕ
    → ℕ
    → Type 0
Balanced w g tasks next before taken tasks' next' after given t =
    of_stack w before + of_handles w taken + of_vectors w tasks next + wanted g tasks' next' t
    ≡ of_stack w after + of_handles w given + of_vectors w tasks' next' + wanted g tasks next t

-- What a thread holds is no more than the whole world does.
pub load-above :
    (w : Weight) (world : World) (left right : List (List Command)) (before stack : List Command)
    (kept taken kept' : List ℕ)
    → world.threads ≡ left ++ ((before ++ stack) ∷ right)
    → world.pool ≡ kept ++ (taken ++ kept')
    → load w world
      ≡ sum (of_stack w) left
        + (of_stack w before + of_stack w stack)
        + sum (of_stack w) right
        + (of_handles w kept + (of_handles w taken + of_handles w kept'))
        + of_vectors w world.tasks world.next
unfolding load
load-above w world left right before stack kept taken kept' e f = omega (
  arith,
  ap (sum (of_stack w)) e,
  ap (of_handles w) f,
  sum-append (of_stack w) left ((before ++ stack) ∷ right),
  sum-append w.of_command before stack,
  sum-append w.of_handle kept (taken ++ kept'),
  sum-append w.of_handle taken kept',
)
