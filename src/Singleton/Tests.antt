-- ===== src/Singleton/Tests.antt =====
-- Two threads that call `get_instance` at once.
use asyncplusplus.Prelude.{ℕ, ◌≡◌, refl, true}
use asyncplusplus.Singleton
use asyncplusplus.Singleton.{World, Step, acts, Reach, begin, later, start, got_instance, destroyed}
use asyncplusplus.Singleton.Laws.{one_instance}

abbrev Run : Type 0
Run = (w : World) × Reach w

abbrev go :
    (r : Run) (i : ℕ) {pc : Singleton.Pc} {s : Singleton.Singleton}
    → Singleton.Move i r.0.instance (r.0.threads i) pc s
    → Run
go r i m = (_, later r.1 (acts i m))

-- Both see no instance; thread 1 makes it, thread 0 comes too late.
abbrev both : Run
both =
    let r : Run = (start, begin) in
    let r : Run = go r 0 (Singleton.sees_none refl) in
    let r : Run = go r 1 (Singleton.sees_none refl) in
    let r : Run = go r 1 (Singleton.locks refl) in
    let r : Run = go r 1 (Singleton.still_none refl) in
    let r : Run = go r 1 Singleton.constructs in
    let r : Run = go r 1 Singleton.stores in
    let r : Run = go r 1 Singleton.unlocks in
    let r : Run = go r 0 (Singleton.locks refl) in
    let r : Run = go r 0 (Singleton.too_late refl) in go r 0 Singleton.unlocks

one_instance_example :
    (both.0.instance.constructed ≡ 1)
    × (both.0.instance.init_flag ≡ true)
    × (destroyed both.0.instance ≡ 1)
one_instance_example = one_instance both.0 0 both.1 refl
