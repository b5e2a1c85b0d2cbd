-- ===== src/ThreadPool/Loop/Slots.antt =====
-- What the steps do to the list of sleeping threads.
use asyncplusplus.Prelude.{
  ℕ, ◌+◌, ◌≤◌, ◌<◌, ◌≡◌, ◌≢◌, refl, sym, ap, ◌∙◌, List, [], ◌∷◌, false, Option, none, some, update,
  update_ne, update_self, arith, length, ℕ_discrete,
}
use mathlib.Core.Path.{subst}
use asyncplusplus.Prelude.Among.{same, same_self}
use asyncplusplus.ThreadPool.Waiters.{Waiters, join, leave, wake_one}
use asyncplusplus.ThreadPool.WaitersLaws.{sleeping, IsValid, join_lem, leave_lem}
use asyncplusplus.ThreadPool.WaitersSlots.{
  length-join, length-leave, Woke, wake_one-Woke, free_slot,
}
use asyncplusplus.ThreadPool.Loop
use asyncplusplus.ThreadPool.Loop.{Inner, Move}
use asyncplusplus.ThreadPool.PoolState
use asyncplusplus.ThreadPool.PoolState.{Pool, Pc, woken, Frame, at, asleep_frame, wake, notify}
use asyncplusplus.ThreadPool.Loop.Inv.{in_sleep, Asleep, ListOk}

abbrev event_of : List Frame → ℕ
event_of [] = 0
event_of (f ∷ below) = f.event

event_of-Asleep : (fs : List Frame) (e : ℕ) → Asleep fs e → e ≡ event_of fs
event_of-Asleep [] e h = absurd h
event_of-Asleep (f ∷ below) e h = sym h.0

-- `w'` is `w` without some of the entries.
abbrev pub Fewer : Waiters → Waiters → Type 0
Fewer w w' =
    IsValid w' × (length w'.waiters ≡ length w.waiters) × ((e : ℕ) → sleeping w' e ≤ sleeping w e)

Fewer-leave : (w : Waiters) (e : ℕ) → IsValid w → Fewer w (leave w e)
Fewer-leave w e v =
    ((leave_lem w e v).0, length-leave w e, λ a. omega (arith, (leave_lem w e v).1 a))

Fewer-Woke : (w : Waiters) (r : Option ℕ) (w' : Waiters) → IsValid w → Woke w r w' → Fewer w w'
Fewer-Woke w none w' v (e, z) = subst (Fewer w) (sym e) (v, refl, λ a. omega arith)
Fewer-Woke w (some first) w' v (valid, len, off) = (valid, len, λ a. omega (arith, off a))

pub waiters-wake : (p : Pool) (r : Option ℕ) (ws : Waiters) → (wake p r ws).waiters ≡ ws
waiters-wake p none ws = refl
waiters-wake p (some first) ws = refl

pub Fewer-notify : (p : Pool) → IsValid p.waiters → Fewer p.waiters (notify p).waiters
Fewer-notify p v =
    let (first, left) : Option ℕ × Waiters = wake_one p.waiters in
    subst (Fewer p.waiters) (sym (waiters-wake p first left))
      (Fewer-Woke p.waiters first left v (wake_one-Woke p.waiters v))

module _ (thread_of : ℕ → ℕ) (n : ℕ) (stacks : ℕ → List Frame) (w : Waiters)
    (ok : ListOk thread_of n stacks w) where
  pub ListOk-Fewer : (w' : Waiters) → Fewer w w' → ListOk thread_of n stacks w'
  ListOk-Fewer w' (valid, len, le) = record {
    valid = valid;
    slots = len ∙ ok.slots;
    once = λ e. omega (arith, ok.once e, le e);
    holds = λ e h. ok.holds e (omega (arith, h, le e));
  }

  module _ (i : ℕ) (f : Frame) (below : List Frame) (stack : stacks i ≡ f ∷ below) where
    -- An event of thread `i` on the list is that of its innermost call, which is asleep.
    listed-Asleep : (e : ℕ) → thread_of e ≡ i → 1 ≤ sleeping w e → Asleep (f ∷ below) e
    listed-Asleep e q h =
        subst (λ k. Asleep k e) stack (subst (λ k. Asleep (stacks k) e) q (ok.holds e h).1)

    pub not_listed : in_sleep f.pc ≡ false → (e : ℕ) → 1 ≤ sleeping w e → thread_of e ≢ i
    not_listed awake e h q = let sleeps = (listed-Asleep e q h).1 in absurd cc

    -- A thread that is not asleep finds a slot.
    pub room : i < n → in_sleep f.pc ≡ false → w.num_waiters < length w.waiters
    room lt awake = omega (
      arith,
      ok.slots,
      free_slot thread_of (λ c. event_of (stacks c)) w n i lt
          (λ e h. (
            (ok.holds e h).0,
            event_of-Asleep (stacks (thread_of e)) e (ok.holds e h).1,
            not_listed awake e h,
          ))
          ok.once,
    )

    -- Thread `i` takes a step, and no entry is added.
    ListOk-step :
        (fs : List Frame) (w' : Waiters)
        → Fewer w w'
        → ((e : ℕ) → 1 ≤ sleeping w' e → Asleep (f ∷ below) e → Asleep fs e)
        → ListOk thread_of n (update stacks i fs) w'
    ListOk-step fs w' (valid, len, le) still = record {
      valid = valid;
      slots = len ∙ ok.slots;
      once = λ e. omega (arith, ok.once e, le e);
      holds = λ e h.
          let before : 1 ≤ sleeping w e = omega (arith, h, le e) in
          (
            (ok.holds e before).0,
            elim (ℕ_discrete i (thread_of e)) [
              | yes q ↦
                  subst (λ k. Asleep (update stacks i fs k) e) q
                    (subst (λ k. Asleep k e) (sym (update_self stacks i fs))
                      (still e h (listed-Asleep e (sym q) before)))
              | no ne ↦
                  subst (λ k. Asleep k e) (sym (update_ne stacks i (thread_of e) fs ne))
                    (ok.holds e before).1
            ],
          );
    }

    -- The thread was not asleep.
    ListOk-awake :
        (fs : List Frame) (w' : Waiters)
        → Fewer w w'
        → in_sleep f.pc ≡ false
        → ListOk thread_of n (update stacks i fs) w'
    ListOk-awake fs w' fewer awake =
        ListOk-step fs w' fewer (λ e h s. let sleeps = s.1 in absurd cc)

    ListOk-leave : (fs : List Frame) → ListOk thread_of n (update stacks i fs) (leave w f.event)
    ListOk-leave fs = ListOk-step fs (leave w f.event) (Fewer-leave w f.event ok.valid) (λ e h s.
        let left = (leave_lem w f.event ok.valid).1 e in
        let once = ok.once e in
        let same_event = ap (same e) s.0 in
        absurd (omega (arith, left, once, same_event, same_self e, h)))

    ListOk-join :
        i < n
        → thread_of f.event ≡ i
        → in_sleep f.pc ≡ false
        → ListOk thread_of n (update stacks i (asleep_frame f ∷ below)) (join w f.event)
    ListOk-join lt own awake = record {
      valid = joined.0;
      slots = length-join w f.event ∙ ok.slots;
      once = λ e. elim (ℕ_discrete e f.event) [
        | yes q ↦ elim (ℕ_discrete (sleeping w e) 0) [
          | yes z ↦ let k = joined.1 e in ground (arith, k, q, z)
          | no nz ↦ absurd (not_listed awake e (omega (arith, nz)) (ap thread_of q ∙ own))
        ]
        | no ne ↦ let k = joined.1 e in let o = ok.once e in ground (arith, k, o, ne)
      ];
      holds = λ e h. elim (ℕ_discrete e f.event) [
        | yes q ↦
            subst (λ k. (thread_of k < n) × Asleep (stacks' (thread_of k)) k) (sym q)
              (
                subst (λ k. k < n) (sym own) lt,
                subst (λ k. Asleep (stacks' k) f.event) (sym own)
                    (subst (λ k. Asleep k f.event)
                      (sym (update_self stacks i (asleep_frame f ∷ below))) (refl, refl)),
              )
        | no ne ↦
            let before : 1 ≤ sleeping w e = (let k = joined.1 e in ground (arith, k, h, ne)) in
            (
              (ok.holds e before).0,
              subst (λ k. Asleep k e)
                  (sym (
                    update_ne stacks i (thread_of e) (asleep_frame f ∷ below)
                      (λ q. not_listed awake e before (sym q))))
                  (ok.holds e before).1,
            )
      ];
    }
      where
        joined :
            IsValid (join w f.event)
            × ((a : ℕ) → sleeping (join w f.event) a ≡ sleeping w a + same a f.event)
        joined = join_lem w f.event ok.valid (room lt awake)

        stacks' : ℕ → List Frame
        stacks' = update stacks i (asleep_frame f ∷ below)

-- The list after a step of thread `i`.
pub list_kept :
    (thread_of : ℕ → ℕ) (n : ℕ) (stacks : ℕ → List Frame) (p : Pool)
    → ListOk thread_of n stacks p.waiters
    → (i : ℕ) {f : Frame} {below fs : List Frame} {p' : Pool} → i < n
    → stacks i ≡ f ∷ below
    → thread_of f.event ≡ i
    → Move thread_of n i p f below fs p'
    → ListOk thread_of n (update stacks i fs) p'.waiters
list_kept thread_of n stacks p ok i {f} {below} {fs} lt s own m = step m
  where
    same_list : Fewer p.waiters p.waiters
    same_list = (ok.valid, refl, λ e. omega arith)

    awake :
        (fs : List Frame)
        → in_sleep f.pc ≡ false
        → ListOk thread_of n (update stacks i fs) p.waiters
    awake fs h = ListOk-awake thread_of n stacks p.waiters ok i f below s fs p.waiters same_list h

    inner :
        {fs : List Frame}
        → Inner n i p f below fs
        → ListOk thread_of n (update stacks i fs) p.waiters
    inner (Loop.returns_ready a b c) = awake _ (ap in_sleep a)
    inner (Loop.goes_on a b) = awake _ (ap in_sleep a)
    inner (Loop.finds_none a b) = awake _ (ap in_sleep a)
    inner (Loop.shuffles vs a b) = awake _ (ap in_sleep a)
    inner (Loop.skips a b) = awake _ (ap in_sleep a)
    inner (Loop.misses a b) = awake _ (ap in_sleep a)
    inner (Loop.gives_up a) = awake _ (ap in_sleep a)
    inner (Loop.exits a b c d) = awake _ (ap in_sleep a)
    inner (Loop.sees_none a b) = awake _ (ap in_sleep a)
    inner (Loop.sees_waiters a b) = awake _ (ap in_sleep a)
    inner (Loop.finishes a) = awake _ (ap in_sleep a)

    step :
        {fs : List Frame} {p' : Pool}
        → Move thread_of n i p f below fs p'
        → ListOk thread_of n (update stacks i fs) p'.waiters
    step (Loop.inner k) = inner k
    step (Loop.returns_signalled a b c d) = awake _ (ap in_sleep a)
    step (Loop.goes_on_unsignalled a b c d) = awake _ (ap in_sleep a)
    step (Loop.pops l a b) = awake _ (ap in_sleep a)
    step (Loop.steals l a b c d) = awake _ (ap in_sleep a)
    step (Loop.fetches a b) = awake _ (ap in_sleep a)
    step (Loop.sleeps a b c) =
        ListOk-join thread_of n stacks p.waiters ok i f below s lt own (ap in_sleep a)
    step (Loop.wakes {events} a b) =
        ListOk-step thread_of n stacks p.waiters ok i f below s (at f (woken events) ∷ below)
          p.waiters same_list (λ e h q. (q.0, refl))
    step (Loop.leaves_done a b c) = ListOk-leave thread_of n stacks p.waiters ok i f below s below
    step (Loop.leaves a b) =
        ListOk-leave thread_of n stacks p.waiters ok i f below s (at f PoolState.choosing ∷ below)
    step (Loop.pushes c a) = awake _ (ap in_sleep a)
    step (Loop.notifies {t} a) =
        ListOk-awake thread_of n stacks p.waiters ok i f below s
          (at f (PoolState.running t) ∷ below) (notify p).waiters (Fewer-notify p ok.valid)
          (ap in_sleep a)
    step (Loop.waits u e a b) = awake _ (ap in_sleep a)
