-- ===== src/Singleton/Laws.antt =====
-- The object of a singleton is made once.
use asyncplusplus.Prelude.{
  ℕ, ◌+◌, ◌≡◌, ◌≢◌, refl, sym, ap, ◌∙◌, true, false, Option, none, some, update, update_ne,
  update_self, arith, inl, inr, ◌⊎◌, ℕ_discrete, Bool-cases,
}
use mathlib.Core.Path.{subst}
use asyncplusplus.Singleton.{
  Singleton, Pc, calling, locking, rechecking, constructing, storing, leaving, unwinding,
  got_instance, thrown, Move, World, Step, acts, Reach, begin, later, destroyed,
}
use asyncplusplus.Singleton

-- What a thread at this point knows of the singleton.
abbrev Knows : ℕ → Singleton → Pc → Type 0
Knows i s calling = Unit
Knows i s locking = Unit
Knows i s rechecking = s.lock ≡ some i
Knows i s constructing = (s.lock ≡ some i) × (s.init_flag ≡ false)
Knows i s storing = (s.lock ≡ some i) × (s.init_flag ≡ false) × (s.constructed ≡ 1)
Knows i s leaving = (s.lock ≡ some i) × (s.init_flag ≡ true)
Knows i s unwinding = (s.lock ≡ some i) × (s.init_flag ≡ false)
Knows i s got_instance = s.init_flag ≡ true
Knows i s thrown = Unit

-- The object has been made, or will be by the thread that holds the lock.
abbrev Made : (ℕ → Pc) → Singleton → Type 0
Made threads s =
    (s.init_flag ≡ true → s.constructed ≡ 1)
    × (s.init_flag ≡ false → ((i : ℕ) → threads i ≢ storing) → s.constructed ≡ 0)

abbrev Good : World → Type 0
Good w = ((i : ℕ) → Knows i w.instance (w.threads i)) × Made w.threads w.instance

some-same : {i j : ℕ} → Option.some i ≡ some j → i ≡ j
some-same e = cc

-- The lock is free, or thread `i` has it.
abbrev Free : ℕ → Singleton → Type 0
Free i s = (s.lock ≡ none) ⊎ (s.lock ≡ some i)

not_held : (i j : ℕ) (s : Singleton) → i ≢ j → Free i s → s.lock ≢ some j
not_held i j s ne (inl free) h = let q : none ≡ some j = sym free ∙ h in cc
not_held i j s ne (inr held) h = ne (some-same (sym held ∙ h))

Knows-other :
    (i j : ℕ) (s s' : Singleton) (pc : Pc)
    → i ≢ j
    → Free i s
    → (s.init_flag ≡ true → s'.init_flag ≡ true)
    → Knows j s pc
    → Knows j s' pc
Knows-other i j s s' calling ne free up k = tt
Knows-other i j s s' locking ne free up k = tt
Knows-other i j s s' rechecking ne free up k = absurd (not_held i j s ne free k)
Knows-other i j s s' constructing ne free up k = absurd (not_held i j s ne free k.0)
Knows-other i j s s' storing ne free up k = absurd (not_held i j s ne free k.0)
Knows-other i j s s' leaving ne free up k = absurd (not_held i j s ne free k.0)
Knows-other i j s s' unwinding ne free up k = absurd (not_held i j s ne free k.0)
Knows-other i j s s' got_instance ne free up k = up k
Knows-other i j s s' thrown ne free up k = tt

storing-holds : (j : ℕ) (s : Singleton) (pc : Pc) → pc ≡ storing → Knows j s pc → s.lock ≡ some j
storing-holds j s pc e k = (subst (Knows j s) e k).0

module _ (threads : ℕ → Pc) (i : ℕ) (s : Singleton)
    (good : Good (record { threads = threads; instance = s })) where
  abbrev After : Pc → Singleton → Type 0
  After pc s' = Good (record { threads = update threads i pc; instance = s' })

  known : (pc : Pc) → threads i ≡ pc → Knows i s pc
  known pc e = subst (Knows i s) e (good.0 i)

  none_storing :
      (pc pc' : Pc)
      → threads i ≡ pc
      → pc ≢ storing
      → ((j : ℕ) → update threads i pc' j ≢ storing)
      → (j : ℕ) → threads j ≢ storing
  none_storing pc pc' e ne h j = elim (ℕ_discrete i j) [
    | yes q ↦ λ z. ne (sym e ∙ ap threads q ∙ z)
    | no other ↦ λ z. h j (update_ne threads i j pc' other ∙ z)
  ]

  all_know :
      (pc' : Pc) (s' : Singleton)
      → Knows i s' pc'
      → ((j : ℕ) → i ≢ j → Knows j s' (threads j))
      → (j : ℕ) → Knows j s' (update threads i pc' j)
  all_know pc' s' here there j = elim (ℕ_discrete i j) [
    | yes q ↦
        subst (λ k. Knows k s' (update threads i pc' k)) q
          (subst (Knows i s') (sym (update_self threads i pc')) here)
    | no other ↦ subst (Knows j s') (sym (update_ne threads i j pc' other)) (there j other)
  ]

  -- The step leaves the singleton as it is.
  same_state : (pc pc' : Pc) → threads i ≡ pc → pc ≢ storing → Knows i s pc' → After pc' s
  same_state pc pc' e ne k = (
    all_know pc' s k (λ j other. good.0 j),
    (good.1.0, λ off h. good.1.1 off (none_storing pc pc' e ne h)),
  )

  -- The step takes or frees the lock.
  lock_state :
      (pc pc' : Pc) (l : Option ℕ)
      → threads i ≡ pc
      → pc ≢ storing
      → Free i s
      → Knows i (record s { lock = l }) pc'
      → After pc' (record s { lock = l })
  lock_state pc pc' l e ne free k = (
    all_know pc' (record s { lock = l }) k
        (λ j other.
          Knows-other i j s (record s { lock = l }) (threads j) other free (λ z. z) (good.0 j)),
    (good.1.0, λ off h. good.1.1 off (none_storing pc pc' e ne h)),
  )

  constructs_once :
      threads i ≡ constructing → After storing (record s { constructed = s.constructed + 1 })
  constructs_once e =
      let (held, off) = known constructing e in
      let fresh : s.constructed ≡ 0 = good.1.1 off (λ j q.
        let same : j ≡ i = some-same (sym (storing-holds j s (threads j) q (good.0 j)) ∙ held) in
        let here : threads i ≡ storing = sym (ap threads same) ∙ q in cc) in
      (
        all_know storing (record s { constructed = s.constructed + 1 })
            (held, off, omega (arith, fresh))
            (λ j other.
              Knows-other i j s (record s { constructed = s.constructed + 1 }) (threads j) other
                (inr held) (λ z. z) (good.0 j)),
        (λ on. absurd cc, λ z h. absurd (h i (update_self threads i storing))),
      )

  stores_flag : threads i ≡ storing → After leaving (record s { init_flag = true })
  stores_flag e =
      let (held, off, one) = known storing e in
      (
        all_know leaving (record s { init_flag = true }) (held, refl)
            (λ j other.
              Knows-other i j s (record s { init_flag = true }) (threads j) other (inr held)
                (λ z. refl) (good.0 j)),
        (λ on. one, λ z h. absurd cc),
      )

  move-Good : (pc pc' : Pc) (s' : Singleton) → threads i ≡ pc → Move i s pc pc' s' → After pc' s'
  move-Good pc pc' s' e (Singleton.sees_instance h) = same_state _ _ e (λ z. cc) h
  move-Good pc pc' s' e (Singleton.sees_none h) = same_state _ _ e (λ z. cc) tt
  move-Good pc pc' s' e (Singleton.locks h) = lock_state _ _ _ e (λ z. cc) (inl h) refl
  move-Good pc pc' s' e (Singleton.too_late h) = same_state _ _ e (λ z. cc) (known rechecking e, h)
  move-Good pc pc' s' e (Singleton.still_none h) =
      same_state _ _ e (λ z. cc) (known rechecking e, h)
  move-Good pc pc' s' e Singleton.constructs = constructs_once e
  move-Good pc pc' s' e Singleton.throws = same_state _ _ e (λ z. cc) (known constructing e)
  move-Good pc pc' s' e Singleton.stores = stores_flag e
  move-Good pc pc' s' e Singleton.unlocks =
      lock_state _ _ _ e (λ z. cc) (inr (known leaving e).0) (known leaving e).1
  move-Good pc pc' s' e Singleton.unwinds =
      lock_state _ _ _ e (λ z. cc) (inr (known unwinding e).0) tt
  move-Good pc pc' s' e Singleton.calls_again = same_state _ _ e (λ z. cc) tt
  move-Good pc pc' s' e Singleton.tries_again = same_state _ _ e (λ z. cc) tt

reach-Good : {w : World} → Reach w → Good w
reach-Good begin = ((λ i. tt), ((λ on. absurd cc), λ off h. refl))
reach-Good (later {w} r (acts i m)) = move-Good w.threads i w.instance (reach-Good r) _ _ _ refl m

no_storing : (w : World) → Good w → w.instance.lock ≡ none → (i : ℕ) → w.threads i ≢ storing
no_storing w good free i e =
    let held = storing-holds i w.instance (w.threads i) e (good.0 i) in
    let q : none ≡ some i = sym free ∙ held in cc

-- While no thread holds the mutex, the destructor destroys as many objects as were constructed.
pub destroyed_lem :
    (w : World) → Reach w → w.instance.lock ≡ none → destroyed w.instance ≡ w.instance.constructed
destroyed_lem w r free =
    let good : Good w = reach-Good r in
    elim (Bool-cases w.instance.init_flag) [
      | inl on ↦ let one = good.1.0 on in rw (on, one) refl
      | inr off ↦ let zero_made = good.1.1 off (no_storing w good free) in rw (off, zero_made) refl
    ]

-- In every reachable state of any number of threads in which `get_instance` has returned to one of
-- them, one object was constructed, it is marked as made, and the destructor destroys one.
pub one_instance :
    (w : World) (i : ℕ)
    → Reach w
    → w.threads i ≡ got_instance
    → (w.instance.constructed ≡ 1) × (w.instance.init_flag ≡ true) × (destroyed w.instance ≡ 1)
one_instance w i r e =
    let good : Good w = reach-Good r in
    let on : w.instance.init_flag ≡ true = subst (Knows i w.instance) e (good.0 i) in
    (good.1.0 on, on, rw on refl)
