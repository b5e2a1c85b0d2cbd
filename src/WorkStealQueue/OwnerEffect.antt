-- ===== src/WorkStealQueue/OwnerEffect.antt =====
-- A step of the owner, in `push` or `pop`, does to the tasks what its event says.
use asyncplusplus.Prelude.{
  ℕ, suc, ◌-◌, ◌≤◌, ◌<◌, ◌^◌, ◌≡◌, refl, sym, ap, ap₂, ◌∙◌, [], ◌∷◌, ◌++◌, arith,
}
use asyncplusplus.Prelude.Segment.{segment, segment-none, segment-last, segment-same}
use asyncplusplus.Word.{add_size, sub_size}
use asyncplusplus.Memory.{Memory}
use asyncplusplus.WorkStealQueue.Signed.{is_empty→le, is_negative→lt, not_negative→le}
use asyncplusplus.WorkStealQueue.Array.{get}
use asyncplusplus.WorkStealQueue.Deque.{Event, Effect}
use asyncplusplus.WorkStealQueue.Moves.{
  Shared, current, OwnerPc, OwnerMove, load_top, allocate, copy_one, switch, throw, enough, place,
  publish, give_up, go_on, claim, too_late, take, take_last, win, lose, restore,
}
use asyncplusplus.WorkStealQueue.Inv.{contents, Core}
use asyncplusplus.WorkStealQueue.Owner.{get-grown, get-placed}

-- The tasks between `top` and an end that is written in another way.
until :
    (sh : Shared) (d e : ℕ)
    → d ≡ e
    → segment (get (current sh)) sh.top (d - sh.top)
      ≡ segment (get (current sh)) sh.top (e - sh.top)
until sh d e p = ap (λ k. segment (get (current sh)) sh.top (k - sh.top)) p

none-both :
    (sh : Shared) (d e : ℕ)
    → d ≤ sh.top
    → e ≤ sh.top
    → (segment (get (current sh)) sh.top (d - sh.top) ≡ [])
      × (segment (get (current sh)) sh.top (e - sh.top) ≡ [])
none-both sh d e hd he =
    (segment-none (get (current sh)) sh.top d hd, segment-none (get (current sh)) sh.top e he)

-- The owner's steps are those of the list.
pub OwnerMove-Effect :
    {m : Memory} {n : ℕ} {sh sh' : Shared} {pc pc' : OwnerPc} {e : Event}
    → n < 2 ^ 62
    → Core n sh pc
    → OwnerMove m sh pc e sh' pc'
    → Effect (contents sh pc) e (contents sh' pc')
OwnerMove-Effect small c (load_top x) = refl
OwnerMove-Effect small c (allocate xs full got) = refl
OwnerMove-Effect small c (copy_one ne) = refl
OwnerMove-Effect {sh = sh} small c (switch {x} {b} {i} {new} done) =
    segment-same _ (get (current sh)) sh.top sh.bottom (get-grown sh x b i new c done)
OwnerMove-Effect small c (throw full thrown) = refl
OwnerMove-Effect small c (enough room) = refl
OwnerMove-Effect {sh = sh} small c (place {x} {b}) =
    segment-same _ (get (current sh)) sh.top sh.bottom (get-placed sh x b c)
OwnerMove-Effect {sh = sh} small c (publish {x} {b}) =
    until sh (add_size b 1) (suc sh.bottom) (omega arith)
    ∙ segment-last (get (current sh)) sh.top sh.bottom (omega arith)
    ∙ ap (λ y. contents sh OwnerPc.idle ++ (y ∷ [])) (ap (get (current sh)) (sym c.own.0) ∙ c.own.2)
OwnerMove-Effect {sh = sh} small c (give_up empty) = none-both sh sh.bottom sh.bottom le le
  where
    le : sh.bottom ≤ sh.top
    le = is_empty→le sh.bottom sh.top (omega arith) (omega arith) empty
OwnerMove-Effect small c (go_on more) = refl
OwnerMove-Effect {sh = sh} small c (claim {b}) =
    until sh (suc (sub_size b 1)) sh.bottom (omega arith)
OwnerMove-Effect {sh = sh} small c (too_late {b} late) = none-both sh (suc b) (suc b) lt lt
  where
    lt : b < sh.top
    lt = is_negative→lt b sh.top (omega arith) (omega arith) late
OwnerMove-Effect {sh = sh} small c (take {b} early ne) =
    segment-last (get (current sh)) sh.top b
      (not_negative→le b sh.top (omega arith) (omega arith) early)
    ∙ ap (λ l. l ++ (get (current sh) b ∷ [])) (until sh b sh.bottom c.own)
OwnerMove-Effect small c (take_last early e) = refl
OwnerMove-Effect {sh = sh} small c (win {b} {t} {x} e) =
    segment-last (get (current sh)) sh.top b (omega arith)
    ∙ ap₂ (λ l y. l ++ (y ∷ []))
        (segment-none (get (current sh)) sh.top b (omega arith)
          ∙ sym (segment-none (get (current sh)) (add_size t 1) (suc b) (omega arith)))
        c.own.3
OwnerMove-Effect {sh = sh} small c (lose {b} ne) =
    none-both sh (suc b) (suc b) (omega arith) (omega arith)
OwnerMove-Effect {sh = sh} small c (restore {b}) = until sh (add_size b 1) (suc b) (omega arith)
