-- ===== src/WorkStealQueue/Progress.antt =====
-- `push` and `pop` end: the owner has a step in the middle of a call, and few of them end it.
use asyncplusplus.Prelude.{
  ℕ, zero, suc, ◌+◌, ◌-◌, ◌<◌, ◌≤◌, ◌^◌, ◌≡◌, refl, List, ◌∷◌, length, arith, Bool-cases,
  Option-cases, inl, inr, ℕ_discrete, ◌⊎◌,
}
use asyncplusplus.Word.{mul_size}
use asyncplusplus.Memory.{Memory}
use asyncplusplus.WorkStealQueue.Signed.{is_negative, is_full}
use asyncplusplus.WorkStealQueue.Deque.{Event, Runs, pushes}
use asyncplusplus.WorkStealQueue.Moves.{
  Shared, current, OwnerPc, idle, pushing, copying, placing, publishing, popping, claimed, racing,
  restoring, OwnerMove, allocate, copy_one, switch, throw, enough, place, publish, claim, too_late,
  take, take_last, win, lose, restore,
}
use asyncplusplus.WorkStealQueue.System.{System, own, Reach, later}
use asyncplusplus.WorkStealQueue.Inv.{Core}
use asyncplusplus.WorkStealQueue.Safety.{tasks, total_pushes, Reach-Inv, Reach-Runs}

-- How many more steps a call can take.
abbrev steps_left : OwnerPc → ℕ
steps_left idle = 0
steps_left (restoring b) = 1
steps_left (racing b t x) = 2
steps_left (claimed b) = 3
steps_left (popping b) = 4
steps_left (publishing x b) = 1
steps_left (placing x b) = 2
steps_left (copying x b i new) = 3 + (b - i)
steps_left (pushing x b t) = 4 + (b - t)

-- How many tasks the call may still push.
abbrev to_push : OwnerPc → ℕ
to_push (pushing x b t) = 1
to_push (copying x b i new) = 1
to_push (placing x b) = 1
to_push (publishing x b) = 1
to_push _ = 0

-- A step of the owner from `pc` that brings the end of its call nearer.
abbrev Advance : Memory → Shared → OwnerPc → Type 0
Advance m sh pc =
    (e : Event) × (sh' : Shared) × (pc' : OwnerPc) × OwnerMove m sh pc e sh' pc'
    × (steps_left pc' < steps_left pc)
    × (to_push pc' + pushes e ≤ to_push pc)

advances :
    (m : Memory) {n : ℕ} (sh : Shared) (pc : OwnerPc)
    → n < 2 ^ 62
    → Core n sh pc
    → (pc ≡ idle) ⊎ Advance m sh pc
advances m sh idle small c = inl refl
advances m sh (pushing x b t) small c = inr (elim (Bool-cases (is_full (length (current sh)) b t)) [
  | inl full ↦ elim (Option-cases (m.alloc (mul_size (length (current sh)) 2))) [
    | inl thrown ↦ (_, _, _, throw full thrown, omega arith, omega arith)
    | inr (xs, got) ↦ (_, _, _, allocate xs full got, omega arith, omega arith)
  ]
  | inr room ↦ (_, _, _, enough room, omega arith, omega arith)
])
advances m sh (copying x b i new) small c = inr (elim (ℕ_discrete i b) [
  | yes e ↦ (_, _, _, switch e, omega arith, omega arith)
  | no ne ↦
      (_, _, _, copy_one ne, omega (arith, ne, c.own.0, c.own.1, c.counted, small), omega arith)
])
advances m sh (placing x b) small c = inr (_, _, _, place, omega arith, omega arith)
advances m sh (publishing x b) small c = inr (_, _, _, publish, omega arith, omega arith)
advances m sh (popping b) small c = inr (_, _, _, claim, omega arith, omega arith)
advances m sh (claimed b) small c = inr (elim (Bool-cases (is_negative b sh.top)) [
  | inl late ↦ (_, _, _, too_late late, omega arith, omega arith)
  | inr early ↦ elim (ℕ_discrete b sh.top) [
    | yes e ↦ (_, _, _, take_last early e, omega arith, omega arith)
    | no ne ↦ (_, _, _, take early ne, omega arith, omega arith)
  ]
])
advances m sh (racing b t x) small c = inr (elim (ℕ_discrete sh.top t) [
  | yes e ↦ (_, _, _, win e, omega arith, omega arith)
  | no ne ↦ (_, _, _, lose ne, omega arith, omega arith)
])
advances m sh (restoring b) small c = inr (_, _, _, restore, omega arith, omega arith)

-- Steps of the owner alone, how many they are, and the events before and after them.
pub data Alone (m : Memory) : List Event → System → ℕ → List Event → System → Type 0 where
  stays : {tr : List Event} {s : System} → Alone m tr s 0 tr s
  goes :
      {k : ℕ} {e : Event} {sh : Shared} {pc : OwnerPc} {tr tr' : List Event} {s t : System}
      → OwnerMove m s.shared s.owner e sh pc
      → Alone m (e ∷ tr) (record s { shared = sh; owner = pc }) k tr' t
      → Alone m tr s (suc k) tr' t

-- The owner ends its call in at most `bound` steps; the deque in memory is then the list that the
-- events make.
abbrev pub Ends : Memory → List Event → System → ℕ → Type 0
Ends m tr s bound =
    (k : ℕ) × (tr' : List Event) × (t : System) × Alone m tr s k tr' t
    × (k ≤ bound)
    × (t.owner ≡ idle)
    × Runs tr' (tasks t)

steps-Core :
    {n : ℕ} (sh : Shared) (pc : OwnerPc) → Core n sh pc → steps_left pc ≤ length (current sh) + 4
steps-Core sh idle c = omega arith
steps-Core sh (pushing x b t) c = omega (arith, c.own)
steps-Core sh (copying x b i new) c = omega (arith, c.own.2)
steps-Core sh (placing x b) c = omega arith
steps-Core sh (publishing x b) c = omega arith
steps-Core sh (popping b) c = omega arith
steps-Core sh (claimed b) c = omega arith
steps-Core sh (racing b t x) c = omega arith
steps-Core sh (restoring b) c = omega arith

to_push_le : (pc : OwnerPc) → to_push pc ≤ 1
to_push_le idle = omega arith
to_push_le (pushing x b t) = omega arith
to_push_le (copying x b i new) = omega arith
to_push_le (placing x b) = omega arith
to_push_le (publishing x b) = omega arith
to_push_le (popping b) = omega arith
to_push_le (claimed b) = omega arith
to_push_le (racing b t x) = omega arith
to_push_le (restoring b) = omega arith

module _ {m : Memory} {xs : List ℕ} (len : length xs ≡ 32) where
  within-Ends :
      (bound : ℕ) {tr : List Event} {s : System}
      → Reach m xs tr s
      → total_pushes tr + to_push s.owner < 2 ^ 62
      → steps_left s.owner ≤ bound
      → Ends m tr s bound
  within-Ends zero {tr} {s} r few le =
      elim (advances m s.shared s.owner (omega (arith, few))
        (Reach-Inv len (omega (arith, few)) r).core) [
          | inl e ↦ (0, tr, s, stays, omega arith, e, Reach-Runs len (omega (arith, few)) r)
          | inr (e, sh, pc, mv, nearer, left) ↦ absurd (omega (arith, le, nearer))
        ]
  within-Ends (suc bound) {tr} {s} r few le =
      elim (advances m s.shared s.owner (omega (arith, few))
        (Reach-Inv len (omega (arith, few)) r).core) [
          | inl e ↦ (0, tr, s, stays, omega arith, e, Reach-Runs len (omega (arith, few)) r)
          | inr (e, sh, pc, mv, nearer, left) ↦
              let (k, tr', t, alone, short, done, runs) =
                within-Ends bound (later r (own mv)) (omega (arith, few, left))
                  (omega (arith, le, nearer)) in
              (suc k, tr', t, goes mv alone, omega (arith, short), done, runs)
        ]

  -- From every reachable state, whatever the thieves have done so far, the owner alone ends its
  -- `push` or `pop` in at most four steps and one for each slot of the array, the iterations of the
  -- loop of `grow` included; the tasks from `top` to `bottom` are then what the events make of a
  -- list.
  pub owner-Ends :
      {tr : List Event} {s : System}
      → total_pushes tr + 1 < 2 ^ 62
      → Reach m xs tr s
      → Ends m tr s (length (current s.shared) + 4)
  owner-Ends {s = s} few r =
      within-Ends (length (current s.shared) + 4) r (omega (arith, few, to_push_le s.owner))
        (steps-Core s.shared s.owner (Reach-Inv len (omega (arith, few)) r).core)
