-- ===== src/WhenAny/Laws.antt =====
-- The first task to finish sets the event of `when_any`.
use asyncplusplus.Prelude.{
  ℕ, suc, ◌<◌, ◌≡◌, ◌≢◌, ◌⊎◌, inl, inr, refl, sym, ap, ◌∙◌, List, [], ◌∷◌, ◌++◌, none, some, set,
  get_or, length, length-set, length-replicate, get_or-set_self, get_or-set_ne, arith, ℕ_discrete,
}
use mathlib.Core.Path.{subst}
use asyncplusplus.WhenAny.{
  WhenAnyResult, set_event, run_any, place_task, AnyPc, storing, adding, caught, rethrown, AnyWorld,
  AnyStep, stores, adds, throws, cleans_up, runs, AnyReach, begin, later,
}

-- How many tasks the loop has stored.
abbrev pub stored : AnyPc → ℕ → ℕ
stored storing next = next
stored adding next = suc next
stored caught next = suc next
stored rethrown next = suc next

-- Before a continuation has run: the vector holds the tasks stored so far.
pub record Quiet (tasks : ℕ → ℕ) (n : ℕ) (w : AnyWorld) : Type 0 where
  pub unset : w.state.event ≡ none
  pub none_ran : w.ran ≡ []
  pub slots : length w.state.result ≡ n
  pub kept : (j : ℕ) → j < stored w.pc w.next → get_or w.state.result j 0 ≡ tasks j

-- After one has: it has set the event and moved the vector away.
pub record Won (w : AnyWorld) : Type 0 where
  pub winner : WhenAnyResult
  pub is_set : w.state.event ≡ some winner
  pub moved : w.state.result ≡ []
  pub first : (after : List ℕ) × (w.ran ≡ after ++ (winner.index ∷ []))

set-nothing : (xs : List ℕ) (i v : ℕ) → xs ≡ [] → set xs i v ≡ []
set-nothing [] i v e = refl
set-nothing (x ∷ xs) i v e = absurd (omega (arith, ap length e))

module _ (tasks : ℕ → ℕ) (n : ℕ) {w : AnyWorld} where
  stores-Quiet :
      w.pc ≡ storing
      → w.next < n
      → Quiet tasks n w
      → Quiet tasks n (record w { pc = adding; state = place_task w.state w.next (tasks w.next) })
  stores-Quiet e lt q = record {
    unset = q.unset;
    none_ran = q.none_ran;
    slots = length-set w.state.result w.next (tasks w.next) ∙ q.slots;
    kept = λ j l. elim (ℕ_discrete j w.next) [
      | yes z ↦
          subst (λ k. get_or (set w.state.result w.next (tasks w.next)) k 0 ≡ tasks k) (sym z)
            (get_or-set_self w.state.result w.next (tasks w.next) 0 (omega (arith, q.slots)))
      | no ne ↦
          get_or-set_ne w.state.result w.next j (tasks w.next) 0 (λ z. ne (sym z))
          ∙ q.kept j (omega (arith, ap (λ p. stored p w.next) e, l, ne))
    ];
  }

  -- The caller goes on without touching the vector.
  still-Quiet :
      (w' : AnyWorld)
      → w'.state.event ≡ w.state.event
      → w'.state.result ≡ w.state.result
      → w'.ran ≡ w.ran
      → stored w'.pc w'.next ≡ stored w.pc w.next
      → Quiet tasks n w
      → Quiet tasks n w'
  still-Quiet w' e r a s q = record {
    unset = e ∙ q.unset;
    none_ran = a ∙ q.none_ran;
    slots = ap length r ∙ q.slots;
    kept = λ j l. ap (λ k. get_or k j 0) r ∙ q.kept j (omega (arith, s));
  }

  still-Won :
      (w' : AnyWorld)
      → w'.state.event ≡ w.state.event
      → w'.state.result ≡ []
      → w'.ran ≡ w.ran
      → Won w
      → Won w'
  still-Won w' e r a v = record {
    winner = v.winner;
    is_set = e ∙ v.is_set;
    moved = r;
    first = (v.first.0, a ∙ v.first.1);
  }

  runs-Won :
      (left : List ℕ) (j : ℕ) (right : List ℕ)
      → Quiet tasks n w ⊎ Won w
      → Won (record w { state = run_any w.state j; waiting = left ++ right; ran = j ∷ w.ran })
  runs-Won left j right (inl q) = record {
    winner = record { index = j; tasks = w.state.result };
    is_set = ap (λ ev. (set_event w.state j ev).event) q.unset;
    moved = ap (λ ev. (set_event w.state j ev).result) q.unset;
    first = ([], ap (λ l. j ∷ l) q.none_ran);
  }
  runs-Won left j right (inr v) = record {
    winner = v.winner;
    is_set = ap (λ ev. (set_event w.state j ev).event) v.is_set ∙ v.is_set;
    moved = ap (λ ev. (set_event w.state j ev).result) v.is_set ∙ v.moved;
    first = (j ∷ v.first.0, ap (λ l. j ∷ l) v.first.1);
  }

module _ (tasks : ℕ → ℕ) (n : ℕ) where
  Step-Won :
      {w w' : AnyWorld} → Quiet tasks n w ⊎ Won w → AnyStep tasks n w w' → Quiet tasks n w' ⊎ Won w'
  Step-Won (inl q) (stores e lt) = inl (stores-Quiet tasks n e lt q)
  Step-Won {w} (inr v) (stores e lt) =
      inr
        (still-Won tasks n _ refl (set-nothing w.state.result w.next (tasks w.next) v.moved) refl v)
  Step-Won {w} (inl q) (adds e) =
      inl (still-Quiet tasks n _ refl refl refl (sym (ap (λ p. stored p w.next) e)) q)
  Step-Won (inr v) (adds e) = inr (still-Won tasks n _ refl v.moved refl v)
  Step-Won {w} (inl q) (throws e) =
      inl (still-Quiet tasks n _ refl refl refl (sym (ap (λ p. stored p w.next) e)) q)
  Step-Won (inr v) (throws e) = inr (still-Won tasks n _ refl v.moved refl v)
  Step-Won {w} (inl q) (cleans_up e) =
      inl (still-Quiet tasks n _ refl refl refl (sym (ap (λ p. stored p w.next) e)) q)
  Step-Won (inr v) (cleans_up e) = inr (still-Won tasks n _ refl v.moved refl v)
  Step-Won {w} s (runs left j right e) = inr (runs-Won tasks n left j right s)

  Reach-Won : {w : AnyWorld} → AnyReach tasks n w → Quiet tasks n w ⊎ Won w
  Reach-Won begin = inl (record {
    unset = refl;
    none_ran = refl;
    slots = length-replicate n 0;
    kept = λ j l. absurd (omega arith);
  })
  Reach-Won (later r s) = Step-Won (Reach-Won r) s

-- The event is set when the first continuation runs, to the index of that one, and stays so.
pub first_wins :
    (tasks : ℕ → ℕ) (n : ℕ) {w : AnyWorld}
    → AnyReach tasks n w
    → ((w.ran ≡ []) × (w.state.event ≡ none))
      ⊎ ((a : WhenAnyResult) × (w.state.event ≡ some a)
          × ((after : List ℕ) × (w.ran ≡ after ++ (a.index ∷ []))))
first_wins tasks n r = elim (Reach-Won tasks n r) [
  | inl q ↦ inl (q.none_ran, q.unset)
  | inr v ↦ inr (v.winner, v.is_set, v.first)
]

-- If no task finishes before the loop is over, the event is set to all the tasks in order, and to
-- the index of the one that finishes first.
pub all_stored :
    (tasks : ℕ → ℕ) (n : ℕ) {w : AnyWorld} (left : List ℕ) (j : ℕ) (right : List ℕ)
    → AnyReach tasks n w
    → w.pc ≡ storing
    → w.next ≡ n
    → w.ran ≡ []
    → w.waiting ≡ left ++ (j ∷ right)
    → (a : WhenAnyResult) × ((run_any w.state j).event ≡ some a)
      × (a.index ≡ j)
      × (length a.tasks ≡ n)
      × ((k : ℕ) → k < n → get_or a.tasks k 0 ≡ tasks k)
all_stored tasks n {w} left j right r e l q s = elim (Reach-Won tasks n r) [
  | inl h ↦ (
    record { index = j; tasks = w.state.result },
    ap (λ ev. (set_event w.state j ev).event) h.unset,
    refl,
    h.slots,
    λ k lt. h.kept k (omega (arith, ap (λ p. stored p w.next) e, lt, l)),
  )
  | inr v ↦ absurd (append-nonempty v.first.0 v.winner.index (sym v.first.1 ∙ q))
]
  where
    append-nonempty : (xs : List ℕ) (x : ℕ) → xs ++ (x ∷ []) ≢ []
    append-nonempty [] x z = absurd cc
    append-nonempty (y ∷ ys) x z = absurd cc

-- If a task finishes while the loop still has tasks to store, the next store of the loop writes
-- beyond the end of the vector, which has been moved into the event.
pub early_finish :
    (tasks : ℕ → ℕ) (n : ℕ) {w : AnyWorld}
    → AnyReach tasks n w
    → w.pc ≡ storing
    → w.next < n
    → w.ran ≢ []
    → (w' : AnyWorld) × AnyStep tasks n w w' × (w'.state.out_of_range ≡ suc w.state.out_of_range)
early_finish tasks n {w} r e lt ne = elim (Reach-Won tasks n r) [
  | inl q ↦ absurd (ne q.none_ran)
  | inr v ↦ (_, stores e lt, let z = ap length v.moved in ground (arith, z))
]
