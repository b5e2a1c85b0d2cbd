-- ===== src/ContinuationVector/Moves.antt =====
-- `try_add` and `flush_and_lock`, one access of a shared variable at a time.
use asyncplusplus.Prelude.{
  ℕ, ◌≡◌, ◌≢◌, List, [], ◌∷◌, ◌++◌, Bool, true, false, Option, none, some, update, ◌==◌,
  if◌then◌else◌,
}
use asyncplusplus.ContinuationVector.Contract.{
  Event, silent, added, rejected, threw, locked, flushed,
}

-- The pointer in `internal_data`: a `task_base*`, 0 if there is none, or with the flag `is_vector`
-- a `vector_data*`, of which there is only one.
pub data Pointer : Type 0 where
  single : ℕ → Pointer
  many : Pointer

-- `internal_data`, with the flag `is_locked` as a Boolean.
pub record InternalData : Type 0 where
  pub pointer : Pointer
  pub is_locked : Bool

-- `atomic_data`; the elements of the `vector_data`, once it is there; and who holds its mutex.
pub data Holder : Type 0 where
  nobody flusher : Holder
  adder : ℕ → Holder

pub record Shared : Type 0 where
  pub atomic_data : InternalData
  pub vector : List ℕ
  pub lock : Holder

-- Where a thread stands in `try_add`. `cached` is the content of the `vector_data` that the call
-- has allocated in an earlier round of its loop.
pub data AdderPc : Type 0 where
  outside : AdderPc
  trying : (t : ℕ) (data_ : InternalData) (cached : Option (ℕ × ℕ)) → AdderPc  -- head of the loop
  swapping_first : (t : ℕ) (data_ : InternalData) (cached : Option (ℕ × ℕ)) → AdderPc  -- 0 to 1 elements
  swapping_vector : (t : ℕ) (data_ : InternalData) (elements : ℕ × ℕ) → AdderPc  -- 1 to 2 elements
  blocking : (t : ℕ) → AdderPc  -- before the mutex
  holding : (t : ℕ) → AdderPc  -- has the mutex: before the second look at the lock flag
  storing : (t : ℕ) → AdderPc  -- the flag was not set: before `push_back`

-- Where the thread that finishes the task stands in `flush_and_lock`.
pub data FlusherPc : Type 0 where
  before : FlusherPc
  loaded : (data_ : InternalData) → FlusherPc
  won : (pointer : Pointer) → FlusherPc  -- the lock flag is set
  inside : FlusherPc  -- has the mutex
  after : FlusherPc

-- The elements that a call of `try_add` puts in its `vector_data`, cached or new.
abbrev pub elements_for : Option (ℕ × ℕ) → ℕ → ℕ → ℕ × ℕ
elements_for (some c) p t = c
elements_for none p t = (p, t)

abbrev pub as_list : ℕ × ℕ → List ℕ
as_list (a, b) = a ∷ b ∷ []

-- The tasks that the flush passes on if the pointer is a `task_base*`.
abbrev pub inline_tasks : ℕ → List ℕ
inline_tasks p = if p == 0 then [] else p ∷ []

-- A step of thread `i` in `try_add(t)`.
pub data AdderMove (i : ℕ) (sh : Shared) : AdderPc → Event → Shared → AdderPc → Type 0 where
  load : (t : ℕ) → t ≢ 0 → AdderMove i sh outside silent sh (trying t sh.atomic_data none)
  refuse :
      {t : ℕ} {d : InternalData} {c : Option (ℕ × ℕ)}
      → d.is_locked ≡ true
      → AdderMove i sh (trying t d c) (rejected t) sh outside
  see_vector :
      {t : ℕ} {d : InternalData} {c : Option (ℕ × ℕ)}
      → d.is_locked ≡ false
      → d.pointer ≡ many
      → AdderMove i sh (trying t d c) silent sh (blocking t)
  see_task :
      {t p : ℕ} {d : InternalData} {c : Option (ℕ × ℕ)}
      → d.is_locked ≡ false
      → d.pointer ≡ single p
      → p ≢ 0
      → AdderMove i sh (trying t d c) silent sh (swapping_vector t d (elements_for c p t))
  no_memory :
      {t p : ℕ} {d : InternalData}
      → d.is_locked ≡ false
      → d.pointer ≡ single p
      → p ≢ 0
      → AdderMove i sh (trying t d none) (threw t) sh outside
  see_none :
      {t : ℕ} {d : InternalData} {c : Option (ℕ × ℕ)}
      → d.is_locked ≡ false
      → d.pointer ≡ single 0
      → AdderMove i sh (trying t d c) silent sh (swapping_first t d c)
  install_first :
      {t : ℕ} {d : InternalData} {c : Option (ℕ × ℕ)}
      → sh.atomic_data ≡ d
      → AdderMove i sh
          (swapping_first t d c)
          (added t)
          (record sh { atomic_data = record { pointer = single t; is_locked = false } })
          outside
  install_vector :
      {t : ℕ} {d : InternalData} {c : ℕ × ℕ}
      → sh.atomic_data ≡ d
      → AdderMove i sh
          (swapping_vector t d c)
          (added t)
          (record sh {
            atomic_data = record { pointer = many; is_locked = false };
            vector = as_list c;
          })
          outside
  -- A weak compare-exchange may fail for no reason; it reloads the data.
  again_first :
      {t : ℕ} {d : InternalData} {c : Option (ℕ × ℕ)}
      → AdderMove i sh (swapping_first t d c) silent sh (trying t sh.atomic_data c)
  again_vector :
      {t : ℕ} {d : InternalData} {c : ℕ × ℕ}
      → AdderMove i sh (swapping_vector t d c) silent sh (trying t sh.atomic_data (some c))
  enter :
      {t : ℕ}
      → sh.lock ≡ nobody
      → AdderMove i sh (blocking t) silent (record sh { lock = adder i }) (holding t)
  too_late :
      {t : ℕ}
      → sh.atomic_data.is_locked ≡ true
      → AdderMove i sh (holding t) (rejected t) (record sh { lock = nobody }) outside
  in_time :
      {t : ℕ} → sh.atomic_data.is_locked ≡ false → AdderMove i sh (holding t) silent sh (storing t)
  push_back :
      {t : ℕ}
      → AdderMove i sh
          (storing t)
          (added t)
          (record sh { vector = sh.vector ++ (t ∷ []); lock = nobody })
          outside
  push_throws : {t : ℕ} → AdderMove i sh (storing t) (threw t) (record sh { lock = nobody }) outside

-- A step of the thread in `flush_and_lock`.
pub data FlusherMove (sh : Shared) : FlusherPc → Event → Shared → FlusherPc → Type 0 where
  read : FlusherMove sh before silent sh (loaded sh.atomic_data)
  reread : {d : InternalData} → FlusherMove sh (loaded d) silent sh (loaded sh.atomic_data)
  set_lock :
      {d : InternalData}
      → sh.atomic_data ≡ d
      → FlusherMove sh
          (loaded d)
          locked
          (record sh { atomic_data = record d { is_locked = true } })
          (won d.pointer)
  pass_on : {p : ℕ} → FlusherMove sh (won (single p)) (flushed (inline_tasks p)) sh after
  acquire :
      sh.lock ≡ nobody → FlusherMove sh (won many) silent (record sh { lock = flusher }) inside
  pass_all :
      FlusherMove sh inside (flushed sh.vector) (record sh { vector = []; lock = nobody }) after

pub record System : Type 0 where
  pub shared : Shared
  pub adders : ℕ → AdderPc
  pub finisher : FlusherPc

pub data Step (s : System) : Event → System → Type 0 where
  add :
      (i : ℕ) {e : Event} {sh : Shared} {pc : AdderPc}
      → AdderMove i s.shared (s.adders i) e sh pc
      → Step s e (record s { shared = sh; adders = update s.adders i pc })
  flush :
      {e : Event} {sh : Shared} {pc : FlusherPc}
      → FlusherMove s.shared s.finisher e sh pc
      → Step s e (record s { shared = sh; finisher = pc })

-- A new vector, which no thread uses yet.
abbrev pub init : System
init = record {
  shared = record {
    atomic_data = record { pointer = single 0; is_locked = false };
    vector = [];
    lock = nobody;
  };
  adders = λ _. outside;
  finisher = before;
}

pub data Reach : List Event → System → Type 0 where
  start : Reach [] init
  later : {tr : List Event} {e : Event} {s t : System} → Reach tr s → Step s e t → Reach (e ∷ tr) t
