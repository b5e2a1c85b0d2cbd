-- ===== src/WorkStealQueue/Phases.antt =====
-- A step of a thread begins its call, ends it, does both, or lies inside of it.
use asyncplusplus.Prelude.{
  ℕ, suc, ◌≡◌, ◌≢◌, sym, ap, ◌∙◌, List, [], ◌∷◌, ◌++◌, update, update_self, update_ne, ℕ_discrete,
}
use mathlib.Core.Path.{subst, fun_ext}
use asyncplusplus.Memory.{Memory}
use asyncplusplus.WorkStealQueue.Deque.{Event, silent}
use asyncplusplus.WorkStealQueue.Moves
use asyncplusplus.WorkStealQueue.Moves.{Shared, OwnerPc, ThiefPc, OwnerMove, ThiefMove}
use asyncplusplus.WorkStealQueue.Linear.{
  Action, begins, ends, Status, out, called, done, Plain, Linear, begin, takes_effect, end,
  owner_actions, thief_actions,
}

module _ {ℓ} {A : Type ℓ} (f : ℕ → A) where
  pub update_same : (i : ℕ) (a : A) → f i ≡ a → update f i a ≡ f
  update_same i a e = fun_ext (λ j. elim (ℕ_discrete i j) [
    | yes q ↦ ap (update f i a) (sym q) ∙ update_self f i a ∙ sym e ∙ ap f q
    | no ne ↦ update_ne f i j a ne
  ])

  pub update_twice : (i : ℕ) (a b : A) → update (update f i a) i b ≡ update f i b
  update_twice i a b = fun_ext (λ j. elim (ℕ_discrete i j) [
    | yes q ↦
        ap (update (update f i a) i b) (sym q)
        ∙ update_self (update f i a) i b
        ∙ sym (update_self f i b)
        ∙ ap (update f i b) q
    | no ne ↦ update_ne (update f i a) i j b ne ∙ update_ne f i j a ne ∙ sym (update_ne f i j b ne)
  ])

  pub update_swap :
      (i w : ℕ) (a b : A) → i ≢ w → update (update f w a) i b ≡ update (update f i b) w a
  update_swap i w a b other = fun_ext (λ j. elim (ℕ_discrete i j) [
    | yes q ↦
        ap (update (update f w a) i b) (sym q)
        ∙ update_self (update f w a) i b
        ∙ sym (update_self f i b)
        ∙ sym (update_ne (update f i b) w i a (λ z. other (sym z)))
        ∙ ap (update (update f i b) w a) q
    | no ne ↦ update_ne (update f w a) i j b ne ∙ elim (ℕ_discrete w j) [
      | yes q ↦
          ap (update f w a) (sym q)
          ∙ update_self f w a
          ∙ sym (update_self (update f i b) w a)
          ∙ ap (update (update f i b) w a) q
      | no ne' ↦
          update_ne f w j a ne'
          ∙ sym (update_ne f i j b ne)
          ∙ sym (update_ne (update f i b) w j a ne')
    ]
  ])

pub data Phase (i : ℕ) : Event → Status → Status → List Action → Type 0 where
  inside : {st : Status} → Phase i silent st st []
  first : Phase i silent out called (begins i ∷ [])
  last : {e : Event} → Phase i e called out (ends i e ∷ [])
  whole : {e : Event} → Phase i e out out (ends i e ∷ begins i ∷ [])

last_call :
    {tr : List Action} {l l' : List ℕ} {st : ℕ → Status} (i : ℕ) (e : Event)
    → Linear tr l st
    → st i ≡ called
    → Plain l e l'
    → Linear (ends i e ∷ tr) l' (update st i out)
last_call {tr} {l' = l'} {st} i e r h p =
    subst (Linear (ends i e ∷ tr) l') (update_twice st i (done e) out)
      (end i e (takes_effect i e r h p) (update_self st i (done e)))

pub Phase-Linear :
    {i : ℕ} {e : Event} {before after : Status} {actions tr : List Action} {l l' : List ℕ}
    {st : ℕ → Status}
    → Phase i e before after actions
    → st i ≡ before
    → Plain l e l'
    → Linear tr l st
    → Linear (actions ++ tr) l' (update st i after)
Phase-Linear {i} {tr = tr} {l} {l'} {st} (inside {st = here}) h p r =
    subst (λ k. Linear tr k (update st i here)) (sym p)
      (subst (Linear tr l) (sym (update_same st i here h)) r)
Phase-Linear {i} {tr = tr} {st = st} first h p r =
    subst (λ k. Linear (begins i ∷ tr) k (update st i called)) (sym p) (begin i r h)
Phase-Linear {i} (last {e}) h p r = last_call i e r h p
Phase-Linear {i} {tr = tr} {l' = l'} {st} (whole {e}) h p r =
    subst (Linear (ends i e ∷ begins i ∷ tr) l') (update_twice st i called out)
      (last_call i e (begin i r h) (update_self st i called) p)

abbrev pub owner_status : OwnerPc → Status
owner_status OwnerPc.idle = out
owner_status (OwnerPc.restoring b) = out
owner_status _ = called

abbrev pub thief_status : ThiefPc → Status
thief_status ThiefPc.waiting = out
thief_status _ = called

pub owner-Phase :
    {m : Memory} {sh sh' : Shared} {pc pc' : OwnerPc} {e : Event}
    → OwnerMove m sh pc e sh' pc'
    → Phase 0 e (owner_status pc) (owner_status pc') (owner_actions pc e)
owner-Phase (Moves.load_top x) = first
owner-Phase (Moves.allocate xs a b) = inside
owner-Phase (Moves.copy_one a) = inside
owner-Phase (Moves.switch a) = inside
owner-Phase (Moves.throw a b) = last
owner-Phase (Moves.enough a) = inside
owner-Phase Moves.place = inside
owner-Phase Moves.publish = last
owner-Phase (Moves.give_up a) = whole
owner-Phase (Moves.go_on a) = first
owner-Phase Moves.claim = inside
owner-Phase (Moves.too_late a) = last
owner-Phase (Moves.take a b) = last
owner-Phase (Moves.take_last a b) = inside
owner-Phase (Moves.win a) = last
owner-Phase (Moves.lose a) = last
owner-Phase Moves.restore = inside

pub thief-Phase :
    {m : Memory} {sh sh' : Shared} {pc pc' : ThiefPc} {e : Event} (i : ℕ)
    → ThiefMove m sh pc e sh' pc'
    → Phase (suc i) e (thief_status pc) (thief_status pc') (thief_actions i pc e)
thief-Phase i Moves.read_top = first
thief-Phase i (Moves.find_empty a) = last
thief-Phase i (Moves.find_task a) = inside
thief-Phase i Moves.read_array = inside
thief-Phase i Moves.read_item = inside
thief-Phase i (Moves.steal a) = last
thief-Phase i Moves.retry = last
