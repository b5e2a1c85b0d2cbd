-- ===== src/WorkStealQueue/Linearizable.antt =====
-- Every interleaving of the owner and the thieves is linearizable.
use asyncplusplus.Prelude.{
  ℕ, zero, suc, ◌+◌, ◌<◌, ◌^◌, ◌≡◌, refl, ap, List, [], ◌++◌, length, arith, update, inl, inr, ◌⊎◌,
}
use mathlib.Core.Path.{subst, fun_ext}
use asyncplusplus.Prelude.Segment.{segment, segment-none}
use asyncplusplus.Memory.{Memory}
use asyncplusplus.WorkStealQueue.Signed.{is_empty→le}
use asyncplusplus.WorkStealQueue.Array.{get}
use asyncplusplus.WorkStealQueue.Deque.{Event, Effect, pushes}
use asyncplusplus.WorkStealQueue.Moves
use asyncplusplus.WorkStealQueue.Moves.{Shared, current, OwnerPc, ThiefPc, OwnerMove, ThiefMove}
use asyncplusplus.WorkStealQueue.System.{System, init, Step, own, thieve, Reach, start, later}
use asyncplusplus.WorkStealQueue.Inv.{limit, contents, Core, Inv, ThiefOk}
use asyncplusplus.WorkStealQueue.Safety.{tasks, total_pushes, Step-Effect, Reach-Inv}
use asyncplusplus.WorkStealQueue.Linear.{
  actions, Action, Status, out, Plain, Linear, nothing, owner_actions, thief_actions, history,
}
use asyncplusplus.WorkStealQueue.Phases.{Phase-Linear, owner-Phase, thief-Phase}
use asyncplusplus.WorkStealQueue.Thief.{limit_near}
use asyncplusplus.WorkStealQueue.Possible.{
  base, base-owner, base-thief, Reserved, Reserved-or, Reserved-contents, limit_le, owner-Plain,
  won, Possible, decides,
}
use asyncplusplus.WorkStealQueue.Claimed.{claimed_own, claimed_thief}

thief-Plain :
    {m : Memory} {n : ℕ} {sh sh' : Shared} (pc : OwnerPc) {tpc tpc' : ThiefPc} {e : Event}
    → n < 2 ^ 62
    → Core n sh pc
    → ThiefOk sh (limit sh pc) tpc
    → (Reserved sh pc → ⊥)
    → ThiefMove m sh tpc e sh' tpc'
    → Effect (contents sh pc) e (contents sh' pc)
    → Plain (contents sh pc) e (contents sh' pc)
thief-Plain pc small c ok free Moves.read_top h = h
thief-Plain {sh = sh} pc small c ok free (Moves.find_empty {t} a) h =
    let (low, high) = limit_near sh pc c in
    let le =
      is_empty→le sh.bottom t (omega (arith, low, c.counted))
        (omega (arith, ok, c.ordered, c.counted)) a in
    let none_left =
      segment-none (get (current sh)) sh.top (limit sh pc)
        (limit_le sh pc c free (omega (arith, le, ok))) in
    (none_left, none_left)
thief-Plain pc small c ok free (Moves.find_task a) h = h
thief-Plain pc small c ok free Moves.read_array h = h
thief-Plain pc small c ok free Moves.read_item h = h
thief-Plain pc small c ok free (Moves.steal a) h = h
thief-Plain pc small c ok free Moves.retry h = h

Step-Possible :
    {m : Memory} {n : ℕ} {tr : List Action} {s t : System} {e : Event}
    → n < 2 ^ 62
    → Inv n s
    → Core (n + pushes e) t.shared t.owner
    → (st : Step m s e t) → Possible tr s
    → Possible (actions st ++ tr) t
Step-Possible {tr = tr} {s} {e = e} small inv after (own {sh = sh} {pc} mv) p =
    elim (Reserved-or s.shared s.owner) [
      | inl reserved ↦ claimed_own s.thieves small inv.core mv reserved (p.1 reserved)
      | inr free ↦
          decides (record s { shared = sh; owner = pc }) after
            (subst (Linear (owner_actions s.owner e ++ tr) (contents sh pc)) (base-owner s sh pc) (
              Phase-Linear (owner-Phase mv) refl (owner-Plain mv (Step-Effect small inv (own mv)))
                (p.0 free)))
    ]
Step-Possible {tr = tr} {s} {e = e} small inv after (thieve i {sh = sh} {pc} mv) p =
    elim (Reserved-or s.shared s.owner) [
      | inl reserved ↦
          claimed_thief s.shared s.owner s.thieves i small inv.core reserved (p.1 reserved) refl
            (inv.thief i) mv
      | inr free ↦
          decides (record s { shared = sh; thieves = update s.thieves i pc }) after
            (subst (Linear (thief_actions i (s.thieves i) e ++ tr) (contents sh s.owner))
              (base-thief s sh i pc)
              (Phase-Linear (thief-Phase i mv) refl
                (thief-Plain s.owner small inv.core (inv.thief i) free mv
                  (Step-Effect small inv (thieve i mv)))
                (p.0 free)))
    ]

at_start : (xs : List ℕ) → (λ i. out) ≡ base (init xs)
at_start xs = fun_ext (λ i. by_thread i)
  where
    by_thread : (i : ℕ) → out ≡ base (init xs) i
    by_thread zero = refl
    by_thread (suc i) = refl

module _ {m : Memory} {xs : List ℕ} (len : length xs ≡ 32) where
  reach-Possible :
      {tr : List Event} {s : System}
      → total_pushes tr < 2 ^ 62
      → (r : Reach m xs tr s) → Possible (history r) s
  unfolding segment
  reach-Possible few start =
      ((λ free. subst (Linear [] []) (at_start xs) nothing), (λ reserved. absurd reserved))
  reach-Possible few (later r st) =
      Step-Possible (omega (arith, few)) (Reach-Inv len (omega (arith, few)) r)
        (Reach-Inv len few (later r st)).core st (reach-Possible (omega (arith, few)) r)

  -- Linearizability: in every interleaving of the owner with any number of thieves each call takes
  -- effect at one moment between its begin and its end on a plain double-ended list, from which
  -- `pop` and `steal` come back empty only if it is empty; an attempt of `steal` that starts again
  -- changes nothing. The list is then that of the tasks in memory, or it is empty and memory still
  -- holds the one task that was taken last.
  pub linearizable :
      {tr : List Event} {s : System}
      → total_pushes tr < 2 ^ 62
      → (r : Reach m xs tr s)
      → (l : List ℕ) × (status : ℕ → Status) × Linear (history r) l status
        × ((l ≡ tasks s) ⊎ ((l ≡ []) × (length (tasks s) ≡ 1)))
  linearizable {s = s} few r =
      let p : Possible (history r) s = reach-Possible few r in
      elim (Reserved-or s.shared s.owner) [
        | inl reserved ↦ (
          [],
          won s 0,
          p.1 reserved 0 tt,
          inr (
            refl,
            ap length (Reserved-contents s.shared s.owner (Reach-Inv len few r).core reserved),
          ),
        )
        | inr free ↦ (tasks s, base s, p.0 free, inl refl)
      ]
