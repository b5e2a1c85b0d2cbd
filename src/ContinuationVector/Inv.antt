-- ===== src/ContinuationVector/Inv.antt =====
-- The invariant of the vector between the accesses of its threads.
use asyncplusplus.Prelude.{ℕ, ◌≡◌, ◌≢◌, refl, List, [], true, false, Option, none, some}
use asyncplusplus.ContinuationVector.Contract.{Phase, accepting, closing, closed}
use asyncplusplus.ContinuationVector.Moves.{
  Pointer, single, many, InternalData, flusher, adder, Shared, AdderPc, outside, trying,
  swapping_first, swapping_vector, blocking, holding, storing, FlusherPc, before, loaded, won,
  inside, after, inline_tasks, System,
}

abbrev pub phase : FlusherPc → Phase
phase before = accepting
phase (loaded d) = accepting
phase (won p) = closing
phase inside = closing
phase after = closed

-- The tasks that wait. After the flush the pointer to a single task is stale.
abbrev pub stored : Pointer → List ℕ → Phase → List ℕ
stored many v ph = v
stored (single p) v closed = []
stored (single p) v accepting = inline_tasks p
stored (single p) v closing = inline_tasks p

abbrev pub tasks : Shared → FlusherPc → List ℕ
tasks sh pc = stored sh.atomic_data.pointer sh.vector (phase pc)

pub stored-many : (q : Pointer) (v : List ℕ) (ph : Phase) → q ≡ many → stored q v ph ≡ v
stored-many (single p) v ph e = absurd cc
stored-many many v ph e = refl

pub stored-closed : (q : Pointer) (v : List ℕ) → (q ≡ many → v ≡ []) → stored q v closed ≡ []
stored-closed (single p) v h = refl
stored-closed many v h = h refl

-- Setting the lock flag moves no task.
pub stored-closing : (q : Pointer) (v : List ℕ) → stored q v closing ≡ stored q v accepting
stored-closing (single p) v = refl
stored-closing many v = refl

-- The members, by the place of the thread that flushes.
abbrev pub FlusherOk : Shared → FlusherPc → Type 0
FlusherOk sh before = sh.atomic_data.is_locked ≡ false
FlusherOk sh (loaded d) = sh.atomic_data.is_locked ≡ false
FlusherOk sh (won p) = (sh.atomic_data.is_locked ≡ true) × (sh.atomic_data.pointer ≡ p)
FlusherOk sh inside =
    (sh.atomic_data.is_locked ≡ true) × (sh.atomic_data.pointer ≡ many) × (sh.lock ≡ flusher)
FlusherOk sh after =
    (sh.atomic_data.is_locked ≡ true) × (sh.atomic_data.pointer ≡ many → sh.vector ≡ [])

-- The pointer to a single task is `p`, unless it has become the pointer to a vector.
abbrev pub OnlyInline : ℕ → Shared → Type 0
OnlyInline p sh = (q : ℕ) → sh.atomic_data.pointer ≡ single q → q ≡ p

-- What data that was read earlier says of the members now.
abbrev pub Past : InternalData → Shared → Type 0
Past d sh =
    (d.is_locked ≡ true → sh.atomic_data.is_locked ≡ true)
    × (d.pointer ≡ many → sh.atomic_data.pointer ≡ many)
    × ((p : ℕ) → d.pointer ≡ single p → p ≢ 0 → OnlyInline p sh)

abbrev pub CachedOk : ℕ → Option (ℕ × ℕ) → Shared → Type 0
CachedOk t none sh = Unit
CachedOk t (some (p, u)) sh = (u ≡ t) × (p ≢ 0) × OnlyInline p sh

-- What the locals of a thread in `try_add` say.
abbrev pub AdderOk : ℕ → Shared → FlusherPc → AdderPc → Type 0
AdderOk i sh fp outside = Unit
AdderOk i sh fp (trying t d c) = (t ≢ 0) × Past d sh × CachedOk t c sh
AdderOk i sh fp (swapping_first t d c) =
    (t ≢ 0) × (d.is_locked ≡ false) × (d.pointer ≡ single 0) × CachedOk t c sh
AdderOk i sh fp (swapping_vector t d c) =
    (t ≢ 0) × (d.is_locked ≡ false) × ((q : ℕ) × (d.pointer ≡ single q)) × CachedOk t (some c) sh
AdderOk i sh fp (blocking t) = sh.atomic_data.pointer ≡ many
AdderOk i sh fp (holding t) = (sh.atomic_data.pointer ≡ many) × (sh.lock ≡ adder i)
AdderOk i sh fp (storing t) =
    (sh.atomic_data.pointer ≡ many) × (sh.lock ≡ adder i) × (phase fp ≢ closed)

pub record Inv (s : System) : Type 0 where
  pub flush : FlusherOk s.shared s.finisher
  pub add : (i : ℕ) → AdderOk i s.shared s.finisher (s.adders i)

-- What a change must leave alone for the sake of thread `j`, which does not move.
pub record Kept (j : ℕ) (sh : Shared) (fp : FlusherPc) (sh' : Shared) (fp' : FlusherPc)
    : Type 0 where
  pub locked_up : sh.atomic_data.is_locked ≡ true → sh'.atomic_data.is_locked ≡ true
  pub many_up : sh.atomic_data.pointer ≡ many → sh'.atomic_data.pointer ≡ many
  pub only : (p : ℕ) → p ≢ 0 → OnlyInline p sh → OnlyInline p sh'
  pub owned : sh.lock ≡ adder j → sh'.lock ≡ adder j
  pub not_closed :
      sh.atomic_data.pointer ≡ many → sh.lock ≡ adder j → phase fp ≢ closed → phase fp' ≢ closed

module _ {j : ℕ} {sh : Shared} {fp : FlusherPc} {sh' : Shared} {fp' : FlusherPc}
    (k : Kept j sh fp sh' fp') where
  CachedOk-Kept : (t : ℕ) (c : Option (ℕ × ℕ)) → CachedOk t c sh → CachedOk t c sh'
  CachedOk-Kept t none h = tt
  CachedOk-Kept t (some (p, u)) (e, ne, h) = (e, ne, k.only p ne h)

  pub AdderOk-Kept : (pc : AdderPc) → AdderOk j sh fp pc → AdderOk j sh' fp' pc
  AdderOk-Kept outside h = tt
  AdderOk-Kept (trying t d c) (ne, (lo, ma, on), h) = (
    ne,
    (λ e. k.locked_up (lo e), λ e. k.many_up (ma e), λ p e z. k.only p z (on p e z)),
    CachedOk-Kept t c h,
  )
  AdderOk-Kept (swapping_first t d c) (ne, lo, e, h) = (ne, lo, e, CachedOk-Kept t c h)
  AdderOk-Kept (swapping_vector t d c) (ne, lo, e, h) = (ne, lo, e, CachedOk-Kept t (some c) h)
  AdderOk-Kept (blocking t) h = k.many_up h
  AdderOk-Kept (holding t) (ma, ow) = (k.many_up ma, k.owned ow)
  AdderOk-Kept (storing t) (ma, ow, op) = (k.many_up ma, k.owned ow, k.not_closed ma ow op)
