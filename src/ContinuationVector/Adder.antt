-- ===== src/ContinuationVector/Adder.antt =====
-- A step of a thread in `try_add` keeps the invariant and does to the tasks what its event says.
use asyncplusplus.Prelude.{
  ℕ, ◌≡◌, ◌≢◌, refl, sym, List, [], ◌∷◌, ◌++◌, true, false, Option, none, some,
}
use asyncplusplus.ContinuationVector.Contract.{Event, accepting, closed}
use asyncplusplus.ContinuationVector.Moves.{
  single, many, InternalData, Holder, nobody, flusher, adder, Shared, AdderPc, FlusherPc, before,
  loaded, won, inside, after, elements_for, as_list, AdderMove, load, refuse, see_vector, see_task,
  no_memory, see_none, install_first, install_vector, again_first, again_vector, enter, too_late,
  in_time, push_back, push_throws,
}
use asyncplusplus.ContinuationVector.Inv.{
  phase, FlusherOk, OnlyInline, Past, CachedOk, AdderOk, Kept,
}

single≢many : (p : ℕ) → single p ≢ many
single≢many p e = cc

single-injective : (p q : ℕ) → single p ≡ single q → p ≡ q
single-injective p q e = cc

-- The lock flag is set from the end of the first phase on.
pub unlocked→accepting :
    (sh : Shared) (fp : FlusherPc)
    → FlusherOk sh fp
    → sh.atomic_data.is_locked ≡ false
    → phase fp ≡ accepting
unlocked→accepting sh before ok e = refl
unlocked→accepting sh (loaded d) ok e = refl
unlocked→accepting sh (won p) ok e = absurd cc
unlocked→accepting sh inside ok e = absurd cc
unlocked→accepting sh after ok e = absurd cc

pub locked→not_accepting :
    (sh : Shared) (fp : FlusherPc)
    → FlusherOk sh fp
    → sh.atomic_data.is_locked ≡ true
    → phase fp ≢ accepting
locked→not_accepting sh before ok e z = cc
locked→not_accepting sh (loaded d) ok e z = cc
locked→not_accepting sh (won p) ok e z = cc
locked→not_accepting sh inside ok e z = cc
locked→not_accepting sh after ok e z = cc

-- Data stored with the flag clear suits a flusher that has not set it.
pub FlusherOk-unlocked :
    (sh : Shared) (fp : FlusherPc) (sh' : Shared)
    → FlusherOk sh fp
    → sh.atomic_data.is_locked ≡ false
    → sh'.atomic_data.is_locked ≡ false
    → FlusherOk sh' fp
FlusherOk-unlocked sh before sh' ok e z = z
FlusherOk-unlocked sh (loaded d) sh' ok e z = z
FlusherOk-unlocked sh (won p) sh' ok e z = absurd cc
FlusherOk-unlocked sh inside sh' ok e z = absurd cc
FlusherOk-unlocked sh after sh' ok e z = absurd cc

-- Who holds the mutex matters only to a flusher that holds it.
FlusherOk-lock :
    (sh : Shared) (fp : FlusherPc) (l : Holder)
    → FlusherOk sh fp
    → sh.lock ≢ flusher
    → FlusherOk (record sh { lock = l }) fp
FlusherOk-lock sh before l ok ne = ok
FlusherOk-lock sh (loaded d) l ok ne = ok
FlusherOk-lock sh (won p) l ok ne = ok
FlusherOk-lock sh inside l ok ne = absurd (ne ok.2)
FlusherOk-lock sh after l ok ne = ok

FlusherOk-vector :
    (sh : Shared) (fp : FlusherPc) (v : List ℕ)
    → FlusherOk sh fp
    → phase fp ≢ closed
    → FlusherOk (record sh { vector = v }) fp
FlusherOk-vector sh before v ok ne = ok
FlusherOk-vector sh (loaded d) v ok ne = ok
FlusherOk-vector sh (won p) v ok ne = ok
FlusherOk-vector sh inside v ok ne = ok
FlusherOk-vector sh after v ok ne = absurd (ne refl)

module _ {i : ℕ} (sh : Shared) (fp : FlusherPc) where
  pub AdderMove-FlusherOk :
      {sh' : Shared} {pc pc' : AdderPc} {e : Event}
      → FlusherOk sh fp
      → AdderOk i sh fp pc
      → AdderMove i sh pc e sh' pc'
      → FlusherOk sh' fp
  AdderMove-FlusherOk ok a (load t ne) = ok
  AdderMove-FlusherOk ok a (refuse l) = ok
  AdderMove-FlusherOk ok a (see_vector l p) = ok
  AdderMove-FlusherOk ok a (see_task l p ne) = ok
  AdderMove-FlusherOk ok a (no_memory l p ne) = ok
  AdderMove-FlusherOk ok a (see_none l p) = ok
  AdderMove-FlusherOk {sh'} ok a (install_first h) = FlusherOk-unlocked sh fp sh' ok (cc) refl
  AdderMove-FlusherOk {sh'} ok a (install_vector h) = FlusherOk-unlocked sh fp sh' ok (cc) refl
  AdderMove-FlusherOk ok a again_first = ok
  AdderMove-FlusherOk ok a again_vector = ok
  AdderMove-FlusherOk ok a (enter h) = FlusherOk-lock sh fp (adder i) ok (λ z. cc)
  AdderMove-FlusherOk ok a (too_late h) = FlusherOk-lock sh fp nobody ok (λ z. cc)
  AdderMove-FlusherOk ok a (in_time h) = ok
  AdderMove-FlusherOk ok a (push_back {t}) =
      FlusherOk-lock (record sh { vector = sh.vector ++ (t ∷ []) }) fp nobody
        (FlusherOk-vector sh fp (sh.vector ++ (t ∷ [])) ok a.2) (λ z. cc)
  AdderMove-FlusherOk ok a push_throws = FlusherOk-lock sh fp nobody ok (λ z. cc)

-- Another thread that holds the mutex keeps it.
Kept-refl : (j : ℕ) (sh : Shared) (fp : FlusherPc) → Kept j sh fp sh fp
Kept-refl j sh fp = record {
  locked_up = λ e. e;
  many_up = λ e. e;
  only = λ p ne h. h;
  owned = λ e. e;
  not_closed = λ m l h. h;
}

Kept-store :
    (j : ℕ) (sh : Shared) (fp : FlusherPc) (d : InternalData) (v : List ℕ)
    → sh.atomic_data.is_locked ≡ false
    → (sh.atomic_data.pointer ≡ many → d.pointer ≡ many)
    → ((p : ℕ) → p ≢ 0 → OnlyInline p sh → (q : ℕ) → d.pointer ≡ single q → q ≡ p)
    → Kept j sh fp (record sh { atomic_data = d; vector = v }) fp
Kept-store j sh fp d v open_ ma on = record {
  locked_up = λ e. absurd cc;
  many_up = ma;
  only = on;
  owned = λ e. e;
  not_closed = λ m l h. h;
}

Kept-lock :
    (j : ℕ) (sh : Shared) (fp : FlusherPc) (v : List ℕ) (l : Holder)
    → sh.lock ≢ adder j
    → Kept j sh fp (record sh { vector = v; lock = l }) fp
Kept-lock j sh fp v l ne = record {
  locked_up = λ e. e;
  many_up = λ e. e;
  only = λ p n h. h;
  owned = λ e. absurd (ne e);
  not_closed = λ m e h. h;
}

module _ (i j : ℕ) (sh : Shared) (fp : FlusherPc) (ne : i ≢ j) where
  other : sh.lock ≡ adder i → sh.lock ≢ adder j
  other h z = ne cc

  pub AdderMove-Kept :
      {sh' : Shared} {pc pc' : AdderPc} {e : Event}
      → AdderOk i sh fp pc
      → AdderMove i sh pc e sh' pc'
      → Kept j sh fp sh' fp
  AdderMove-Kept a (load t z) = Kept-refl j sh fp
  AdderMove-Kept a (refuse l) = Kept-refl j sh fp
  AdderMove-Kept a (see_vector l p) = Kept-refl j sh fp
  AdderMove-Kept a (see_task l p z) = Kept-refl j sh fp
  AdderMove-Kept a (no_memory l p z) = Kept-refl j sh fp
  AdderMove-Kept a (see_none l p) = Kept-refl j sh fp
  AdderMove-Kept a (install_first {t} h) =
      Kept-store j sh fp (record { pointer = single t; is_locked = false }) sh.vector (cc)
        (λ m. absurd cc) (λ p z on q w. absurd (z (sym (on 0 cc))))
  AdderMove-Kept a (install_vector {c = c} h) =
      Kept-store j sh fp (record { pointer = many; is_locked = false }) (as_list c) (cc) (λ m. refl)
        (λ p z on q w. absurd cc)
  AdderMove-Kept a again_first = Kept-refl j sh fp
  AdderMove-Kept a again_vector = Kept-refl j sh fp
  AdderMove-Kept a (enter h) = Kept-lock j sh fp sh.vector (adder i) (λ z. cc)
  AdderMove-Kept a (too_late h) = Kept-lock j sh fp sh.vector nobody (other a.1)
  AdderMove-Kept a (in_time h) = Kept-refl j sh fp
  AdderMove-Kept a (push_back {t}) = Kept-lock j sh fp (sh.vector ++ (t ∷ [])) nobody (other a.1)
  AdderMove-Kept a push_throws = Kept-lock j sh fp sh.vector nobody (other a.1)

-- The data that a thread has just loaded.
Past-now : (sh : Shared) → Past sh.atomic_data sh
Past-now sh = (λ e. e, λ e. e, λ p e z q w. cc)

CachedOk-elements :
    (t p : ℕ) (d : InternalData) (c : Option (ℕ × ℕ)) (sh : Shared)
    → Past d sh
    → d.pointer ≡ single p
    → p ≢ 0
    → CachedOk t c sh
    → CachedOk t (some (elements_for c p t)) sh
CachedOk-elements t p d none sh h e z k = (refl, z, h.2 p e z)
CachedOk-elements t p d (some c) sh h e z k = k

module _ {i : ℕ} (sh : Shared) (fp : FlusherPc) where
  pub AdderMove-AdderOk :
      {sh' : Shared} {pc pc' : AdderPc} {e : Event}
      → FlusherOk sh fp
      → AdderOk i sh fp pc
      → AdderMove i sh pc e sh' pc'
      → AdderOk i sh' fp pc'
  AdderMove-AdderOk ok a (load t ne) = (ne, Past-now sh, tt)
  AdderMove-AdderOk ok a (refuse l) = tt
  AdderMove-AdderOk ok a (see_vector l p) = a.1.1 p
  AdderMove-AdderOk ok a (see_task {t} {p} {d} {c} l h z) =
      (a.0, l, (p, h), CachedOk-elements t p d c sh a.1 h z a.2)
  AdderMove-AdderOk ok a (no_memory l p z) = tt
  AdderMove-AdderOk ok a (see_none l p) = (a.0, l, p, a.2)
  AdderMove-AdderOk ok a (install_first h) = tt
  AdderMove-AdderOk ok a (install_vector h) = tt
  AdderMove-AdderOk ok a again_first = (a.0, Past-now sh, a.3)
  AdderMove-AdderOk ok a again_vector = (a.0, Past-now sh, a.3)
  AdderMove-AdderOk ok a (enter h) = (a, refl)
  AdderMove-AdderOk ok a (too_late h) = tt
  AdderMove-AdderOk ok a (in_time h) = (a.0, a.1, λ z. cc (unlocked→accepting sh fp ok h))
  AdderMove-AdderOk ok a push_back = tt
  AdderMove-AdderOk ok a push_throws = tt
