-- ===== src/WorkStealQueue/Possible.antt =====
-- The list that the deque stands for. When the owner has claimed the one task that is left, who takes
-- it is open; it is taken at that moment, by whoever will.
use asyncplusplus.Prelude.{
  ℕ, zero, suc, ◌+◌, ◌-◌, ◌≤◌, ◌≡◌, refl, sym, ap, ◌∙◌, List, [], ◌∷◌, arith, update, update_self,
  update_ne, ℕ_discrete, inl, inr, ◌⊎◌,
}
use mathlib.Core.Path.{subst, fun_ext}
use asyncplusplus.Prelude.Segment.{segment, segment-none, segment-first}
use asyncplusplus.Memory.{Memory}
use asyncplusplus.WorkStealQueue.Array.{get}
use asyncplusplus.WorkStealQueue.Deque.{Event, Effect}
use asyncplusplus.WorkStealQueue.Moves
use asyncplusplus.WorkStealQueue.Moves.{Shared, current, OwnerPc, ThiefPc, OwnerMove, ThiefMove}
use asyncplusplus.WorkStealQueue.System.{System}
use asyncplusplus.WorkStealQueue.Inv.{limit, contents, Core}
use asyncplusplus.WorkStealQueue.Safety.{tasks}
use asyncplusplus.WorkStealQueue.Linear.{Action, Status, called, done, Plain, Linear, takes_effect}
use asyncplusplus.WorkStealQueue.Phases.{owner_status, thief_status}

abbrev pub base : System → ℕ → Status
base s zero = owner_status s.owner
base s (suc i) = thief_status (s.thieves i)

pub base-owner :
    (s : System) (sh : Shared) (pc : OwnerPc)
    → update (base s) 0 (owner_status pc) ≡ base (record s { shared = sh; owner = pc })
base-owner s sh pc = fun_ext (λ j. at j)
  where
    at :
        (j : ℕ)
        → update (base s) 0 (owner_status pc) j ≡ base (record s { shared = sh; owner = pc }) j
    at zero = update_self (base s) 0 (owner_status pc)
    at (suc j) = update_ne (base s) 0 (suc j) (owner_status pc) (λ e. omega (arith, e))

pub base-thief :
    (s : System) (sh : Shared) (i : ℕ) (pc : ThiefPc)
    → update (base s) (suc i) (thief_status pc)
      ≡ base (record s { shared = sh; thieves = update s.thieves i pc })
base-thief s sh i pc = fun_ext (λ j. at j)
  where
    at :
        (j : ℕ)
        → update (base s) (suc i) (thief_status pc) j
          ≡ base (record s { shared = sh; thieves = update s.thieves i pc }) j
    at zero = update_ne (base s) (suc i) zero (thief_status pc) (λ e. omega (arith, e))
    at (suc j) = elim (ℕ_discrete i j) [
      | yes e ↦
          ap (λ k. update (base s) (suc i) (thief_status pc) (suc k)) (sym e)
          ∙ update_self (base s) (suc i) (thief_status pc)
          ∙ sym (ap thief_status (update_self s.thieves i pc))
          ∙ ap (λ k. thief_status (update s.thieves i pc k)) e
      | no ne ↦
          update_ne (base s) (suc i) (suc j) (thief_status pc) (λ e. ne (omega (arith, e)))
          ∙ sym (ap thief_status (update_ne s.thieves i j pc ne))
    ]

-- The owner has claimed the one task that is left.
abbrev pub Reserved : Shared → OwnerPc → Type 0
Reserved sh (OwnerPc.claimed b) = b ≡ sh.top
Reserved sh (OwnerPc.racing b t x) = b ≡ sh.top
Reserved sh _ = ⊥

pub Reserved-or : (sh : Shared) (pc : OwnerPc) → Reserved sh pc ⊎ (Reserved sh pc → ⊥)
Reserved-or sh (OwnerPc.claimed b) = elim (ℕ_discrete b sh.top) [ yes e ↦ inl e | no ne ↦ inr ne ]
Reserved-or sh (OwnerPc.racing b t x) = elim (ℕ_discrete b sh.top) [
  | yes e ↦ inl e
  | no ne ↦ inr ne
]
Reserved-or sh OwnerPc.idle = inr (λ z. z)
Reserved-or sh (OwnerPc.pushing x b t) = inr (λ z. z)
Reserved-or sh (OwnerPc.copying x b i new) = inr (λ z. z)
Reserved-or sh (OwnerPc.placing x b) = inr (λ z. z)
Reserved-or sh (OwnerPc.publishing x b) = inr (λ z. z)
Reserved-or sh (OwnerPc.popping b) = inr (λ z. z)
Reserved-or sh (OwnerPc.restoring b) = inr (λ z. z)

abbrev pub one_left : Shared → ℕ
one_left sh = get (current sh) sh.top

pub Reserved-limit :
    {n : ℕ} (sh : Shared) (pc : OwnerPc)
    → Core n sh pc
    → Reserved sh pc
    → (limit sh pc ≡ suc sh.top) × (sh.bottom ≡ sh.top)
Reserved-limit sh (OwnerPc.claimed b) c r = (omega (arith, r), omega (arith, r, c.own))
Reserved-limit sh (OwnerPc.racing b t x) c r = (omega (arith, r), omega (arith, r, c.own.0))
Reserved-limit sh OwnerPc.idle c r = absurd r
Reserved-limit sh (OwnerPc.pushing x b t) c r = absurd r
Reserved-limit sh (OwnerPc.copying x b i new) c r = absurd r
Reserved-limit sh (OwnerPc.placing x b) c r = absurd r
Reserved-limit sh (OwnerPc.publishing x b) c r = absurd r
Reserved-limit sh (OwnerPc.popping b) c r = absurd r
Reserved-limit sh (OwnerPc.restoring b) c r = absurd r

pub Reserved-contents :
    {n : ℕ} (sh : Shared) (pc : OwnerPc)
    → Core n sh pc
    → Reserved sh pc
    → contents sh pc ≡ one_left sh ∷ []
Reserved-contents sh pc c r =
    let (end_at, low) = Reserved-limit sh pc c r in
    segment-first (get (current sh)) sh.top (limit sh pc) (omega (arith, end_at))
    ∙ ap (λ l. one_left sh ∷ l)
        (ap (λ k. segment (get (current sh)) (sh.top + 1) (k - (sh.top + 1))) end_at
          ∙ segment-none (get (current sh)) (sh.top + 1) (suc sh.top) (omega arith))

pub limit_le :
    {n : ℕ} (sh : Shared) (pc : OwnerPc)
    → Core n sh pc
    → (Reserved sh pc → ⊥)
    → sh.bottom ≤ sh.top
    → limit sh pc ≤ sh.top
limit_le sh (OwnerPc.claimed b) c free le = elim (ℕ_discrete b sh.top) [
  | yes e ↦ absurd (free e)
  | no ne ↦ omega (arith, c.own, le, ne)
]
limit_le sh (OwnerPc.racing b t x) c free le = elim (ℕ_discrete b sh.top) [
  | yes e ↦ absurd (free e)
  | no ne ↦ omega (arith, c.own.0, le, ne)
]
limit_le sh OwnerPc.idle c free le = le
limit_le sh (OwnerPc.pushing x b t) c free le = le
limit_le sh (OwnerPc.copying x b i new) c free le = le
limit_le sh (OwnerPc.placing x b) c free le = le
limit_le sh (OwnerPc.publishing x b) c free le = le
limit_le sh (OwnerPc.popping b) c free le = le
limit_le sh (OwnerPc.restoring b) c free le = omega (arith, c.own)

-- A step of a plain deque, but for a thief that finds the claimed task gone.
pub owner-Plain :
    {m : Memory} {sh sh' : Shared} {pc pc' : OwnerPc} {e : Event}
    → OwnerMove m sh pc e sh' pc'
    → Effect (contents sh pc) e (contents sh' pc')
    → Plain (contents sh pc) e (contents sh' pc')
owner-Plain (Moves.load_top x) h = h
owner-Plain (Moves.allocate xs a b) h = h
owner-Plain (Moves.copy_one a) h = h
owner-Plain (Moves.switch a) h = h
owner-Plain (Moves.throw a b) h = h
owner-Plain (Moves.enough a) h = h
owner-Plain Moves.place h = h
owner-Plain Moves.publish h = h
owner-Plain (Moves.give_up a) h = h
owner-Plain (Moves.go_on a) h = h
owner-Plain Moves.claim h = h
owner-Plain (Moves.too_late a) h = h
owner-Plain (Moves.take a b) h = h
owner-Plain (Moves.take_last a b) h = h
owner-Plain (Moves.win a) h = h
owner-Plain (Moves.lose a) h = h
owner-Plain Moves.restore h = h

-- The thief at this point takes the task at `top`, unless another does first.
abbrev pub Leads : Shared → ThiefPc → Type 0
Leads sh (ThiefPc.nonempty t) = t ≡ sh.top
Leads sh (ThiefPc.got_array t a) = t ≡ sh.top
Leads sh (ThiefPc.got_item t x) = t ≡ sh.top
Leads sh _ = ⊥

-- The threads that may take the claimed task.
abbrev pub Wins : System → ℕ → Type 0
Wins s zero = Unit
Wins s (suc i) = Leads s.shared (s.thieves i)

abbrev pub taken : ℕ → ℕ → Event
taken zero x = Event.popped x
taken (suc i) x = Event.stolen x

taken-Plain : (w x : ℕ) → Plain (x ∷ []) (taken w x) []
taken-Plain zero x = refl
taken-Plain (suc i) x = refl

pub Leads-called : (sh : Shared) (pc : ThiefPc) → Leads sh pc → thief_status pc ≡ called
Leads-called sh ThiefPc.waiting h = absurd h
Leads-called sh (ThiefPc.got_top t) h = absurd h
Leads-called sh (ThiefPc.nonempty t) h = refl
Leads-called sh (ThiefPc.got_array t a) h = refl
Leads-called sh (ThiefPc.got_item t x) h = refl

Reserved-called : (sh : Shared) (pc : OwnerPc) → Reserved sh pc → owner_status pc ≡ called
Reserved-called sh (OwnerPc.claimed b) h = refl
Reserved-called sh (OwnerPc.racing b t x) h = refl
Reserved-called sh OwnerPc.idle h = absurd h
Reserved-called sh (OwnerPc.pushing x b t) h = absurd h
Reserved-called sh (OwnerPc.copying x b i new) h = absurd h
Reserved-called sh (OwnerPc.placing x b) h = absurd h
Reserved-called sh (OwnerPc.publishing x b) h = absurd h
Reserved-called sh (OwnerPc.popping b) h = absurd h
Reserved-called sh (OwnerPc.restoring b) h = absurd h

-- The threads' calls when `w` has taken the claimed task.
abbrev pub won : System → ℕ → ℕ → Status
won s w = update (base s) w (done (taken w (one_left s.shared)))

-- The lists that the deque may be: its tasks, or, when the one that is left is claimed, none.
abbrev pub Possible : List Action → System → Type 0
Possible tr s =
    ((Reserved s.shared s.owner → ⊥) → Linear tr (tasks s) (base s))
    × (Reserved s.shared s.owner → (w : ℕ) → Wins s w → Linear tr [] (won s w))

-- The claimed task is taken.
pub decides :
    {n : ℕ} {tr : List Action} (s : System)
    → Core n s.shared s.owner
    → Linear tr (tasks s) (base s)
    → Possible tr s
decides {tr = tr} s c r = (
  (λ free. r),
  (λ reserved w wins. takes_effect w (taken w (one_left s.shared)) r (status reserved w wins) (
      subst (λ l. Plain l (taken w (one_left s.shared)) [])
        (sym (Reserved-contents s.shared s.owner c reserved)) (taken-Plain w (one_left s.shared)))),
)
  where
    status : Reserved s.shared s.owner → (w : ℕ) → Wins s w → base s w ≡ called
    status reserved zero wins = Reserved-called s.shared s.owner reserved
    status reserved (suc i) wins = Leads-called s.shared (s.thieves i) wins
