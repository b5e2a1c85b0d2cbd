-- ===== src/WorkStealQueue/Thief.antt =====
-- A step of a thief, in `steal`, keeps the invariant and does to the tasks what its event says.
use asyncplusplus.Prelude.{
  ℕ, suc, ◌+◌, ◌-◌, ◌≤◌, ◌<◌, ◌^◌, ◌≡◌, refl, sym, ap, ap₂, ◌∙◌, ◌∷◌, arith,
}
use asyncplusplus.Prelude.Segment.{segment, segment-first, length-segment}
use asyncplusplus.Word.{add_size}
use asyncplusplus.Memory.{Memory}
use asyncplusplus.WorkStealQueue.Signed.{is_empty→le, not_empty→lt}
use asyncplusplus.WorkStealQueue.Array.{get}
use asyncplusplus.WorkStealQueue.Deque.{Event, Effect, pushes}
use asyncplusplus.WorkStealQueue.Moves.{
  Shared, current, OwnerPc, idle, pushing, copying, placing, publishing, popping, claimed, racing,
  restoring, ThiefPc, ThiefMove, read_top, find_empty, find_task, read_array, read_item, steal,
  retry,
}
use asyncplusplus.WorkStealQueue.Inv.{
  limit, contents, OwnerOk, ThiefOk, Core, Kept, Kept-refl, recount, assemble,
}

-- The owner's locals stay right when a thief takes the task at `top`.
OwnerOk-steal :
    {n : ℕ} (sh : Shared) (pc : OwnerPc) (top : ℕ)
    → Core n sh pc
    → top ≡ suc sh.top
    → sh.top < limit sh pc
    → OwnerOk (record sh { top = top }) pc
OwnerOk-steal sh idle top c e lt = tt
OwnerOk-steal sh (pushing x b t) top c e lt = omega arith
OwnerOk-steal sh (copying x b i new) top c e lt = (
  c.own.0,
  c.own.1,
  c.own.2,
  (c.own.3.0, c.own.3.1, λ j le lt. c.own.3.2 j (omega (arith, e, le)) lt),
)
OwnerOk-steal sh (placing x b) top c e lt = omega arith
OwnerOk-steal sh (publishing x b) top c e lt = (c.own.0, omega arith, c.own.2)
OwnerOk-steal sh (popping b) top c e lt = omega arith
OwnerOk-steal sh (claimed b) top c e lt = c.own
OwnerOk-steal sh (racing b t x) top c e lt = (c.own.0, c.own.1, omega arith, c.own.3)
OwnerOk-steal sh (restoring b) top c e lt = absurd (omega arith)

-- The end of the deque does not depend on `top`.
pub limit-top :
    (sh : Shared) (pc : OwnerPc) (top : ℕ) → limit (record sh { top = top }) pc ≡ limit sh pc
limit-top sh (claimed b) top = refl
limit-top sh (racing b t x) top = refl
limit-top sh (restoring b) top = refl
limit-top sh idle top = refl
limit-top sh (pushing x b t) top = refl
limit-top sh (copying x b i new) top = refl
limit-top sh (placing x b) top = refl
limit-top sh (publishing x b) top = refl
limit-top sh (popping b) top = refl

-- `bottom` is the end of the deque, or one less.
pub limit_near :
    {n : ℕ} (sh : Shared) (pc : OwnerPc)
    → Core n sh pc
    → (sh.bottom ≤ limit sh pc) × (limit sh pc ≤ suc sh.bottom)
limit_near sh (claimed b) c = omega arith
limit_near sh (racing b t x) c = omega arith
limit_near sh (restoring b) c = omega arith
limit_near sh idle c = omega arith
limit_near sh (pushing x b t) c = omega arith
limit_near sh (copying x b i new) c = omega arith
limit_near sh (placing x b) c = omega arith
limit_near sh (publishing x b) c = omega arith
limit_near sh (popping b) c = omega arith

module _ {n : ℕ} {sh : Shared} {owner : OwnerPc} (small : n < 2 ^ 62) (c : Core n sh owner) where
  steal-Core :
      {t x : ℕ}
      → ThiefOk sh (limit sh owner) (ThiefPc.got_item t x)
      → sh.top ≡ t
      → Core (n + 0) (record sh { top = add_size t 1 }) owner
  steal-Core {t} {x} h e =
      assemble c.sized
        (omega (arith, c.ordered, c.fits, c.counted, h.1 e, limit-top sh owner (add_size t 1)))
        (OwnerOk-steal sh owner (add_size t 1) c (omega (arith, c.counted, h.1 e))
          (omega (arith, h.1 e)))

  near : (sh.bottom ≤ limit sh owner) × (limit sh owner ≤ suc sh.bottom)
  near = limit_near sh owner c

  top_below : sh.top < 2 ^ 62
  top_below = omega (arith, c.ordered, c.counted)

  same : Core (n + 0) sh owner
  same = assemble c.sized (omega (arith, c.ordered, c.fits, c.counted)) c.own

  -- A step of a thief keeps the invariant of the members.
  pub ThiefMove-Core :
      {m : Memory} {sh' : Shared} {pc pc' : ThiefPc} {e : Event}
      → ThiefOk sh (limit sh owner) pc
      → ThiefMove m sh pc e sh' pc'
      → Core (n + pushes e) sh' owner
  ThiefMove-Core h (steal {t} {x} e) = steal-Core h e
  ThiefMove-Core h read_top = same
  ThiefMove-Core h (find_empty empty) = same
  ThiefMove-Core h (find_task more) = same
  ThiefMove-Core h read_array = same
  ThiefMove-Core h read_item = same
  ThiefMove-Core h retry = same

  -- It leaves the other thieves what they rely on.
  pub ThiefMove-Kept :
      {m : Memory} {sh' : Shared} {pc pc' : ThiefPc} {e : Event}
      → ThiefOk sh (limit sh owner) pc
      → ThiefMove m sh pc e sh' pc'
      → Kept sh (limit sh owner) sh' (limit sh' owner)
  ThiefMove-Kept h (steal {t} {x} e) =
      recount sh (add_size t 1) sh.bottom (limit sh owner) _ (omega (arith, c.counted, h.1 e))
        (λ p lt. omega (arith, c.counted))
  ThiefMove-Kept h read_top = Kept-refl sh (limit sh owner)
  ThiefMove-Kept h (find_empty empty) = Kept-refl sh (limit sh owner)
  ThiefMove-Kept h (find_task more) = Kept-refl sh (limit sh owner)
  ThiefMove-Kept h read_array = Kept-refl sh (limit sh owner)
  ThiefMove-Kept h read_item = Kept-refl sh (limit sh owner)
  ThiefMove-Kept h retry = Kept-refl sh (limit sh owner)

  -- Its own locals are right.
  pub ThiefMove-ThiefOk :
      {m : Memory} {sh' : Shared} {pc pc' : ThiefPc} {e : Event}
      → ThiefOk sh (limit sh owner) pc
      → ThiefMove m sh pc e sh' pc'
      → ThiefOk sh' (limit sh' owner) pc'
  ThiefMove-ThiefOk h (steal {t} {x} e) = tt
  ThiefMove-ThiefOk h read_top = omega arith
  ThiefMove-ThiefOk h (find_empty empty) = tt
  ThiefMove-ThiefOk h (find_task {t} more) = (
    h,
    λ e. omega (
      arith,
      near,
      top_below,
      h,
      not_empty→lt sh.bottom t (omega (arith, near, c.counted)) (omega (arith, h, top_below)) more,
    ),
  )
  ThiefMove-ThiefOk h read_array = (h.0, omega arith, h.1, λ e. refl)
  ThiefMove-ThiefOk h read_item = (h.0, h.2, λ e. sym (h.3 e))
  ThiefMove-ThiefOk h retry = tt

  -- A thief's steps are those of the list.
  pub ThiefMove-Effect :
      {m : Memory} {sh' : Shared} {pc pc' : ThiefPc} {e : Event}
      → ThiefOk sh (limit sh owner) pc
      → ThiefMove m sh pc e sh' pc'
      → Effect (contents sh owner) e (contents sh' owner)
  ThiefMove-Effect h (steal {t} {x} e) =
      segment-first (get (current sh)) sh.top (limit sh owner) (omega (arith, h.1 e))
      ∙ ap₂ ◌∷◌ (ap (get (current sh)) e ∙ h.2 e) (
          ap₂ (segment (get (current sh))) next
            (omega (arith, next, limit-top sh owner (add_size t 1))))
    where
      next : sh.top + 1 ≡ add_size t 1
      next = omega (arith, c.counted, h.1 e)
  ThiefMove-Effect h read_top = refl
  ThiefMove-Effect h (find_empty {t} empty) = (
    refl,
    omega (
      arith,
      length-segment (get (current sh)) sh.top (limit sh owner - sh.top),
      near,
      is_empty→le sh.bottom t (omega (arith, near, c.counted)) (omega (arith, h, top_below)) empty,
    ),
  )
  ThiefMove-Effect h (find_task more) = refl
  ThiefMove-Effect h read_array = refl
  ThiefMove-Effect h read_item = refl
  ThiefMove-Effect h retry = refl
