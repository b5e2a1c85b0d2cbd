-- ===== src/WorkStealQueue/Claimed.antt =====
-- The steps of the threads while the owner has claimed the one task that is left.
use asyncplusplus.Prelude.{
  ℕ, zero, suc, ◌<◌, ◌^◌, ◌≡◌, ◌≢◌, refl, sym, ap, ◌∙◌, List, [], ◌∷◌, ◌++◌, arith, update,
  update_self, update_ne, ℕ_discrete,
}
use mathlib.Core.Path.{subst}
use asyncplusplus.Prelude.Segment.{segment-none}
use asyncplusplus.Memory.{Memory}
use asyncplusplus.WorkStealQueue.Signed.{not_empty→lt, is_negative→lt}
use asyncplusplus.WorkStealQueue.Array.{get}
use asyncplusplus.WorkStealQueue.Deque.{Event}
use asyncplusplus.WorkStealQueue.Moves
use asyncplusplus.WorkStealQueue.Moves.{Shared, current, OwnerPc, ThiefPc, OwnerMove, ThiefMove}
use asyncplusplus.WorkStealQueue.System.{System}
use asyncplusplus.WorkStealQueue.Inv.{limit, contents, Core, ThiefOk}
use asyncplusplus.WorkStealQueue.Linear.{
  Action, ends, out, called, done, Plain, Linear, end, owner_actions, thief_actions,
}
use asyncplusplus.WorkStealQueue.Phases.{
  update_same, update_twice, update_swap, Phase, inside, first, last, Phase-Linear, thief_status,
}
use asyncplusplus.WorkStealQueue.Thief.{limit-top}
use asyncplusplus.Word.{add_size}
use asyncplusplus.WorkStealQueue.Possible.{
  base, base-owner, base-thief, Reserved, one_left, Reserved-limit, Leads, Wins, taken,
  Leads-called, won, Possible,
}

abbrev system : Shared → OwnerPc → (ℕ → ThiefPc) → System
system sh pc thieves = record { shared = sh; owner = pc; thieves = thieves }

Wins-owner :
    (sh : Shared) (pc pc' : OwnerPc) (thieves : ℕ → ThiefPc) (w : ℕ)
    → Wins (system sh pc' thieves) w
    → Wins (system sh pc thieves) w
Wins-owner sh pc pc' thieves zero h = tt
Wins-owner sh pc pc' thieves (suc i) h = h

-- What the threads may rely on while the task is claimed.
abbrev Open : List Action → System → Type 0
Open tr s = (w : ℕ) → Wins s w → Linear tr [] (won s w)

-- The thread that took the task ends its call.
takes_it :
    {tr : List Action} (s : System) (w x : ℕ)
    → one_left s.shared ≡ x
    → Linear tr [] (won s w)
    → Linear (ends w (taken w x) ∷ tr) [] (update (base s) w out)
takes_it {tr} s w x e r =
    let event = taken w (one_left s.shared) in
    subst (λ k. Linear (ends w (taken w k) ∷ tr) [] (update (base s) w out)) e
      (subst (Linear (ends w event ∷ tr) []) (update_twice (base s) w (done event) out)
        (end w event r (update_self (base s) w (done event))))

pub claimed_own :
    {m : Memory} {n : ℕ} {tr : List Action} (thieves : ℕ → ThiefPc) {sh sh' : Shared}
    {pc pc' : OwnerPc} {e : Event}
    → n < 2 ^ 62
    → Core n sh pc
    → OwnerMove m sh pc e sh' pc'
    → Reserved sh pc
    → Open tr (system sh pc thieves)
    → Possible (owner_actions pc e ++ tr) (system sh' pc' thieves)
claimed_own thieves small c (Moves.load_top x) reserved r = absurd reserved
claimed_own thieves small c (Moves.allocate xs a b) reserved r = absurd reserved
claimed_own thieves small c (Moves.copy_one a) reserved r = absurd reserved
claimed_own thieves small c (Moves.switch a) reserved r = absurd reserved
claimed_own thieves small c (Moves.throw a b) reserved r = absurd reserved
claimed_own thieves small c (Moves.enough a) reserved r = absurd reserved
claimed_own thieves small c Moves.place reserved r = absurd reserved
claimed_own thieves small c Moves.publish reserved r = absurd reserved
claimed_own thieves small c (Moves.give_up a) reserved r = absurd reserved
claimed_own thieves small c (Moves.go_on a) reserved r = absurd reserved
claimed_own thieves small c Moves.claim reserved r = absurd reserved
claimed_own thieves small c Moves.restore reserved r = absurd reserved
claimed_own thieves {sh} small c (Moves.too_late {b} late) reserved r =
    let below =
      is_negative→lt b sh.top (omega (arith, c.counted)) (omega (arith, c.ordered, c.counted))
        late in
    absurd (omega (arith, below, reserved))
claimed_own thieves small c (Moves.take early ne) reserved r = absurd (ne reserved)
claimed_own {tr = tr} thieves {sh} small c (Moves.take_last {b} early e) reserved r =
    let s = system sh (OwnerPc.claimed b) thieves in
    let x = get (current sh) b in
    let same : base s ≡ base (system sh (OwnerPc.racing b sh.top x) thieves) =
      sym (update_same (base s) 0 called refl) ∙ base-owner s sh (OwnerPc.racing b sh.top x) in
    (
      (λ free. absurd (free e)),
      (λ reserved' w wins.
          subst (λ st. Linear tr [] (update st w (done (taken w (one_left sh))))) same
            (r w (Wins-owner sh (OwnerPc.claimed b) (OwnerPc.racing b sh.top x) thieves w wins))),
    )
claimed_own {tr = tr} thieves {sh} small c (Moves.win {b} {t} {x} e) reserved r =
    let s = system sh (OwnerPc.racing b t x) thieves in
    let after : Shared = record sh { top = add_size t 1 } in
    let gone : contents after (OwnerPc.restoring b) ≡ [] =
      segment-none (get (current sh)) (add_size t 1) (suc b)
        (omega (arith, e, reserved, c.counted)) in
    (
      (λ free.
          subst
            (λ l.
              Linear (ends 0 (Event.popped x) ∷ tr) l
                (base (system after (OwnerPc.restoring b) thieves)))
            (sym gone)
            (subst (Linear (ends 0 (Event.popped x) ∷ tr) [])
              (base-owner s after (OwnerPc.restoring b))
              (takes_it s 0 x (ap (get (current sh)) (sym reserved) ∙ c.own.3) (r 0 tt)))),
      (λ reserved'. absurd reserved'),
    )
claimed_own thieves small c (Moves.lose {b} ne) reserved r =
    absurd (ne (omega (arith, reserved, c.own.1)))

-- A thief takes the task: it is no longer claimed.
not_claimed :
    (sh : Shared) (pc : OwnerPc) (top : ℕ)
    → Reserved sh pc
    → top ≡ suc sh.top
    → Reserved (record sh { top = top }) pc
    → ⊥
not_claimed sh (OwnerPc.claimed b) top h e h' = omega (arith, h, e, h')
not_claimed sh (OwnerPc.racing b t x) top h e h' = omega (arith, h, e, h')
not_claimed sh OwnerPc.idle top h e h' = h
not_claimed sh (OwnerPc.pushing x b t) top h e h' = h
not_claimed sh (OwnerPc.copying x b i new) top h e h' = h
not_claimed sh (OwnerPc.placing x b) top h e h' = h
not_claimed sh (OwnerPc.publishing x b) top h e h' = h
not_claimed sh (OwnerPc.popping b) top h e h' = h
not_claimed sh (OwnerPc.restoring b) top h e h' = h

module _ {n : ℕ} {tr : List Action} (sh : Shared) (pc : OwnerPc) (thieves : ℕ → ThiefPc) (i : ℕ)
    (small : n < 2 ^ 62) (c : Core n sh pc) (reserved : Reserved sh pc)
    (r : Open tr (system sh pc thieves)) where
  abbrev before : System
  before = system sh pc thieves

  abbrev after : ThiefPc → System
  after tpc = system sh pc (update thieves i tpc)

  Wins-other : (tpc : ThiefPc) (w : ℕ) → suc i ≢ w → Wins (after tpc) w → Wins before w
  Wins-other tpc zero ne h = tt
  Wins-other tpc (suc j) ne h = subst (Leads sh) (update_ne thieves i j tpc (λ e. ne (ap suc e))) h

  -- Thief `i` leaves the task to another.
  left_to :
      {e : Event} {actions : List Action} (tpc tpc' : ThiefPc)
      → thieves i ≡ tpc
      → Phase (suc i) e (thief_status tpc) (thief_status tpc') actions
      → Plain [] e []
      → (w : ℕ) → suc i ≢ w
      → Wins (after tpc') w
      → Linear (actions ++ tr) [] (won (after tpc') w)
  left_to {actions = actions} tpc tpc' q ph plain w ne wins =
      let event = done (taken w (one_left sh)) in
      subst (λ st. Linear (actions ++ tr) [] (update st w event)) (base-thief before sh i tpc')
        (subst (Linear (actions ++ tr) [])
          (update_swap (base before) (suc i) w event (thief_status tpc') ne)
          (Phase-Linear ph
            (update_ne (base before) w (suc i) event (λ z. ne (sym z)) ∙ ap thief_status q) plain
            (r w (Wins-other tpc' w ne wins))))

  -- A step that does not touch the shared members.
  inside_claim :
      {e : Event} {actions : List Action} (tpc tpc' : ThiefPc)
      → thieves i ≡ tpc
      → Phase (suc i) e (thief_status tpc) (thief_status tpc') actions
      → Plain [] e []
      → (Leads sh tpc' → Linear (actions ++ tr) [] (won (after tpc') (suc i)))
      → Possible (actions ++ tr) (after tpc')
  inside_claim {actions = actions} tpc tpc' q ph plain mine = (
    (λ free. absurd (free reserved)),
    (λ reserved' w wins. elim (ℕ_discrete (suc i) w) [
      | no ne ↦ left_to tpc tpc' q ph plain w ne wins
      | yes e ↦
          subst (λ k. Linear (actions ++ tr) [] (won (after tpc') k)) e
            (mine (
              subst (Leads sh) (update_self thieves i tpc')
                (subst (Wins (after tpc')) (sym e) wins)))
    ]),
  )

  -- Thief `i` goes on towards the task.
  goes_on :
      (tpc tpc' : ThiefPc)
      → thieves i ≡ tpc
      → Leads sh tpc
      → thief_status tpc' ≡ called
      → Linear tr [] (won (after tpc') (suc i))
  goes_on tpc tpc' q leads same =
      let was : base before (suc i) ≡ thief_status tpc' =
        ap thief_status q ∙ Leads-called sh tpc leads ∙ sym same in
      subst (λ st. Linear tr [] (update st (suc i) (done (Event.stolen (one_left sh)))))
        (sym (update_same (base before) (suc i) (thief_status tpc') was)
          ∙ base-thief before sh i tpc')
        (r (suc i) (subst (Leads sh) (sym q) leads))

  pub claimed_thief :
      {m : Memory} {sh' : Shared} {tpc tpc' : ThiefPc} {e : Event}
      → thieves i ≡ tpc
      → ThiefOk sh (limit sh pc) tpc
      → ThiefMove m sh tpc e sh' tpc'
      → Possible (thief_actions i tpc e ++ tr) (system sh' pc (update thieves i tpc'))
  claimed_thief q h Moves.read_top =
      inside_claim _ (ThiefPc.got_top sh.top) q first refl (λ z. absurd z)
  claimed_thief q h (Moves.find_empty a) =
      inside_claim _ ThiefPc.waiting q last (refl, refl) (λ z. absurd z)
  claimed_thief q h (Moves.find_task {t} more) =
      inside_claim _ (ThiefPc.nonempty t) q inside refl (λ leads.
        let (end_at, low) = Reserved-limit sh pc c reserved in
        let below =
          not_empty→lt sh.bottom t (omega (arith, low, c.ordered, c.counted))
            (omega (arith, h, c.ordered, c.counted)) more in
        absurd (omega (arith, below, leads, low)))
  claimed_thief q h (Moves.read_array {t}) =
      inside_claim _ (ThiefPc.got_array t sh.array) q inside refl
        (λ leads. goes_on (ThiefPc.nonempty t) (ThiefPc.got_array t sh.array) q leads refl)
  claimed_thief q h (Moves.read_item {t} {a}) =
      inside_claim _ (ThiefPc.got_item t (get (sh.arrays a) t)) q inside refl (λ leads.
        goes_on (ThiefPc.got_array t a) (ThiefPc.got_item t (get (sh.arrays a) t)) q leads refl)
  claimed_thief q h Moves.retry = inside_claim _ ThiefPc.waiting q last refl (λ z. absurd z)
  claimed_thief q h (Moves.steal {t} {x} e) =
      let (end_at, low) = Reserved-limit sh pc c reserved in
      let up : add_size t 1 ≡ suc sh.top = omega (arith, e, c.ordered, c.counted) in
      let over : Shared = record sh { top = add_size t 1 } in
      let gone : contents over pc ≡ [] =
        segment-none (get (current sh)) (add_size t 1) (limit over pc)
          (omega (arith, up, end_at, limit-top sh pc (add_size t 1))) in
      (
        (λ free.
            subst
              (λ l.
                Linear (ends (suc i) (Event.stolen x) ∷ tr) l
                  (base (system over pc (update thieves i ThiefPc.waiting))))
              (sym gone)
              (subst (Linear (ends (suc i) (Event.stolen x) ∷ tr) [])
                (base-thief before over i ThiefPc.waiting)
                (takes_it before (suc i) x (ap (get (current sh)) e ∙ h.2 e)
                  (r (suc i) (subst (Leads sh) (sym q) (sym e)))))),
        (λ reserved'. absurd (not_claimed sh pc (add_size t 1) reserved up reserved')),
      )
