-- ===== src/Singleton.antt =====
-- `singleton::get_instance` of src/singleton.h where the language does not make it safe: any number
-- of threads, one access of a shared member per step. The constructor of the object may throw.
pub mod Laws
mod Tests
use asyncplusplus.Prelude.{
  ℕ, ◌+◌, ◌≡◌, Bool, true, false, Option, none, some, if◌then◌else◌, update,
}

-- `constructed` counts the objects that were made in the storage.
pub record Singleton : Type 0 where
  pub lock : Option ℕ
  pub init_flag : Bool
  pub constructed : ℕ

abbrev pub instance_at_start : Singleton
instance_at_start = record { lock = none; init_flag = false; constructed = 0 }

pub data Pc : Type 0 where
  calling : Pc  -- before `get_instance`
  locking : Pc  -- before the mutex is locked
  rechecking : Pc  -- before the second load of the flag
  constructing : Pc  -- before the constructor
  storing : Pc  -- before the store of the flag
  leaving : Pc  -- before the unlock
  unwinding : Pc  -- before the unlock that the exception makes
  got_instance : Pc
  thrown : Pc

-- A step of thread `i`.
pub data Move (i : ℕ) (s : Singleton) : Pc → Pc → Singleton → Type 0 where
  sees_instance : s.init_flag ≡ true → Move i s calling got_instance s
  sees_none : s.init_flag ≡ false → Move i s calling locking s
  locks : s.lock ≡ none → Move i s locking rechecking (record s { lock = some i })
  too_late : s.init_flag ≡ true → Move i s rechecking leaving s
  still_none : s.init_flag ≡ false → Move i s rechecking constructing s
  constructs : Move i s constructing storing (record s { constructed = s.constructed + 1 })
  throws : Move i s constructing unwinding s
  stores : Move i s storing leaving (record s { init_flag = true })
  unlocks : Move i s leaving got_instance (record s { lock = none })
  unwinds : Move i s unwinding thrown (record s { lock = none })
  calls_again : Move i s got_instance calling s
  tries_again : Move i s thrown calling s

pub record World : Type 0 where
  pub threads : ℕ → Pc
  pub instance : Singleton

pub data Step (w : World) : World → Type 0 where
  acts :
      (i : ℕ) {pc : Pc} {s : Singleton}
      → Move i w.instance (w.threads i) pc s
      → Step w (record { threads = update w.threads i pc; instance = s })

abbrev pub start : World
start = record { threads = λ i. calling; instance = instance_at_start }

pub data Reach : World → Type 0 where
  begin : Reach start
  later : {w w' : World} → Reach w → Step w w' → Reach w'

-- How many objects the destructor of the singleton destroys.
abbrev pub destroyed : Singleton → ℕ
destroyed s = if s.init_flag then 1 else 0
