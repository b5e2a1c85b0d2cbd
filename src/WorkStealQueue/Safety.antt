-- ===== src/WorkStealQueue/Safety.antt =====
-- What holds in every reachable state of the work-stealing deque, whatever the interleaving.
use asyncplusplus.Prelude.{
  ℕ, ◌+◌, ◌<◌, ◌^◌, ◌≡◌, List, [], ◌∷◌, length, arith, update, ℕ_discrete, update_self, update_ne,
}
use mathlib.Core.Path.{subst, sym}
use asyncplusplus.Prelude.Count.{count}
use asyncplusplus.Prelude.Segment.{segment}
use asyncplusplus.Memory.{Memory}
use asyncplusplus.WorkStealQueue.Deque.{
  Event, Effect, Runs, none_yet, then, Runs-count, pushes, all_in, all_out,
}
use asyncplusplus.WorkStealQueue.System.{System, Step, own, thieve, init, Reach, start, later}
use asyncplusplus.WorkStealQueue.Inv.{limit, contents, Inv, ThiefOk, ThiefOk-Kept}
use asyncplusplus.WorkStealQueue.Owner.{OwnerMove-Core, OwnerMove-Kept}
use asyncplusplus.WorkStealQueue.OwnerEffect.{OwnerMove-Effect}
use asyncplusplus.WorkStealQueue.Thief.{
  ThiefMove-Core, ThiefMove-Kept, ThiefMove-ThiefOk, ThiefMove-Effect,
}

abbrev pub tasks : System → List ℕ
tasks s = contents s.shared s.owner

-- How many pushes a history has.
abbrev pub total_pushes : List Event → ℕ
total_pushes [] = 0
total_pushes (e ∷ tr) = total_pushes tr + pushes e

Step-Inv :
    {m : Memory} {n : ℕ} {s t : System} {e : Event}
    → n < 2 ^ 62
    → Inv n s
    → Step m s e t
    → Inv (n + pushes e) t
Step-Inv {s = s} small inv (own mv) = record {
  core = OwnerMove-Core small inv.core mv;
  thief = λ i. ThiefOk-Kept (OwnerMove-Kept small inv.core mv) (s.thieves i) (inv.thief i);
}
Step-Inv {s = s} small inv (thieve i {sh = sh} {pc = pc} mv) = record {
  core = ThiefMove-Core small inv.core (inv.thief i) mv;
  thief = others;
}
  where
    lim : ℕ
    lim = limit sh s.owner

    others : (j : ℕ) → ThiefOk sh lim (update s.thieves i pc j)
    others j = elim (ℕ_discrete i j) [
      | yes e ↦
          subst (λ k. ThiefOk sh lim (update s.thieves i pc k)) e
            (subst (ThiefOk sh lim) (sym (update_self s.thieves i pc))
              (ThiefMove-ThiefOk small inv.core (inv.thief i) mv))
      | no ne ↦ subst (ThiefOk sh lim) (sym (update_ne s.thieves i j pc ne)) (
          ThiefOk-Kept (ThiefMove-Kept small inv.core (inv.thief i) mv) (s.thieves j) (inv.thief j))
    ]

-- Each step of a thread does to the tasks of the deque what a step of a list would.
pub Step-Effect :
    {m : Memory} {n : ℕ} {s t : System} {e : Event}
    → n < 2 ^ 62
    → Inv n s
    → Step m s e t
    → Effect (tasks s) e (tasks t)
Step-Effect small inv (own mv) = OwnerMove-Effect small inv.core mv
Step-Effect small inv (thieve i mv) = ThiefMove-Effect small inv.core (inv.thief i) mv

init-Inv : (xs : List ℕ) → length xs ≡ 32 → Inv 0 (init xs)
init-Inv xs len = record {
  core = record {
    sized = record { pow2 = (5, len); small = omega (arith, len) };
    ordered = omega arith;
    fits = omega arith;
    counted = omega arith;
    own = tt;
  };
  thief = λ i. tt;
}

pub Reach-Inv :
    {m : Memory} {xs : List ℕ} {tr : List Event} {s : System}
    → length xs ≡ 32
    → total_pushes tr < 2 ^ 62
    → Reach m xs tr s
    → Inv (total_pushes tr) s
Reach-Inv {xs = xs} len few start = init-Inv xs len
Reach-Inv len few (later r st) = Step-Inv (omega arith) (Reach-Inv len (omega arith) r) st

-- Whatever the interleaving of the owner with the thieves, the events of a run do to the tasks in
-- memory what they say.
pub Reach-Runs :
    {m : Memory} {xs : List ℕ} {tr : List Event} {s : System}
    → length xs ≡ 32
    → total_pushes tr < 2 ^ 62
    → Reach m xs tr s
    → Runs tr (tasks s)
unfolding segment
Reach-Runs len few start = none_yet
Reach-Runs len few (later r st) =
    then (Reach-Runs len (omega arith) r)
      (Step-Effect (omega arith) (Reach-Inv len (omega arith) r) st)

-- Conservation: every task that was pushed has been handed out, to the owner or to a thief, or
-- still waits, and as often as it was pushed.
pub conservation :
    {m : Memory} {xs : List ℕ} {tr : List Event} {s : System}
    → length xs ≡ 32
    → total_pushes tr < 2 ^ 62
    → Reach m xs tr s
    → (a : ℕ) → count a (all_in tr) ≡ count a (all_out tr) + count a (tasks s)
conservation len few r a = Runs-count a (Reach-Runs len few r)
