-- ===== src/ContinuationVector/Safety.antt =====
-- What holds in every reachable state of the continuation vector, whatever the interleaving.
use asyncplusplus.Prelude.{
  ℕ, ◌+◌, ◌≡◌, refl, ap, ◌∙◌, arith, List, [], update, ℕ_discrete, update_self, update_ne,
}
use mathlib.Core.Path.{subst, sym}
use asyncplusplus.Prelude.Count.{count}
use asyncplusplus.ContinuationVector.Contract.{
  Event, Spec, History, none_yet, then, tasks_in, tasks_out, History-count,
}
use asyncplusplus.ContinuationVector.Moves.{after, System, Step, add, flush, Reach, start, later}
use asyncplusplus.ContinuationVector.Inv.{
  phase, tasks, stored-closed, FlusherOk, Inv, AdderOk, AdderOk-Kept,
}
use asyncplusplus.ContinuationVector.Adder.{AdderMove-FlusherOk, AdderMove-Kept, AdderMove-AdderOk}
use asyncplusplus.ContinuationVector.AdderSpec.{AdderMove-Spec}
use asyncplusplus.ContinuationVector.Flusher.{
  FlusherMove-FlusherOk, FlusherMove-Kept, FlusherMove-Spec,
}

Step-Inv : {s t : System} {e : Event} → Inv s → Step s e t → Inv t
Step-Inv {s} inv (flush {sh} {pc} mv) = record {
  flush = FlusherMove-FlusherOk s.shared inv.flush mv;
  add = λ i. AdderOk-Kept (FlusherMove-Kept s.shared i inv.flush mv) (s.adders i) (inv.add i);
}
Step-Inv {s} inv (add i {sh = sh} {pc = pc} mv) = record {
  flush = AdderMove-FlusherOk s.shared s.finisher inv.flush (inv.add i) mv;
  add = all;
}
  where
    Ok : ℕ → Type 0
    Ok j = AdderOk j sh s.finisher (update s.adders i pc j)

    all : (j : ℕ) → Ok j
    all j = elim (ℕ_discrete i j) [
      | yes e ↦ subst Ok e (
          subst (AdderOk i sh s.finisher) (sym (update_self s.adders i pc))
            (AdderMove-AdderOk s.shared s.finisher inv.flush (inv.add i) mv))
      | no ne ↦ subst (AdderOk j sh s.finisher) (sym (update_ne s.adders i j pc ne)) (
          AdderOk-Kept (AdderMove-Kept i j s.shared s.finisher ne (inv.add i) mv) (s.adders j)
            (inv.add j))
    ]

-- After the flush nothing waits.
Inv-drained : (s : System) → Inv s → s.finisher ≡ after → tasks s.shared s.finisher ≡ []
Inv-drained s inv e =
    ap (tasks s.shared) e
    ∙ stored-closed s.shared.atomic_data.pointer s.shared.vector
        (subst (FlusherOk s.shared) e inv.flush).1

pub Step-Spec :
    {s t : System} {e : Event}
    → Inv s
    → Step s e t
    → Spec
        (phase s.finisher)
        (tasks s.shared s.finisher)
        e
        (phase t.finisher)
        (tasks t.shared t.finisher)
Step-Spec {s} inv (add i mv) = AdderMove-Spec s.shared s.finisher inv.flush (inv.add i) mv
Step-Spec {s} inv (flush mv) = FlusherMove-Spec s.shared inv.flush mv

Reach-Inv : {tr : List Event} {s : System} → Reach tr s → Inv s
Reach-Inv start = record { flush = refl; add = λ i. tt }
Reach-Inv (later r st) = Step-Inv (Reach-Inv r) st

-- Whatever the interleaving of any number of `try_add` calls with the one `flush_and_lock`, the
-- events of a run are a history of the vector: no task is added after the flush, `try_add` returns
-- false only once the lock is set, and the flush passes on exactly the tasks that wait, in order.
pub Reach-History :
    {tr : List Event} {s : System}
    → Reach tr s
    → History tr (phase s.finisher) (tasks s.shared s.finisher)
Reach-History start = none_yet
Reach-History (later r st) = then (Reach-History r) (Step-Spec (Reach-Inv r) st)

-- Every task that was added has been passed on by the flush or waits for it, as often as it was
-- added.
pub tasks_kept :
    {tr : List Event} {s : System}
    → Reach tr s
    → (a : ℕ) → count a (tasks_in tr) ≡ count a (tasks_out tr) + count a (tasks s.shared s.finisher)
tasks_kept r a = History-count a (Reach-History r)

-- Once `flush_and_lock` has returned, every task that `try_add` took has been passed on, as often
-- as it was added.
pub flushed_all :
    {tr : List Event} {s : System}
    → Reach tr s
    → s.finisher ≡ after
    → (a : ℕ) → count a (tasks_in tr) ≡ count a (tasks_out tr)
unfolding count
flushed_all {s} r e a = omega (arith, tasks_kept r a, ap (count a) (Inv-drained s (Reach-Inv r) e))
