-- ===== src/Prelude/Ranges.antt =====
-- Positions inside a range.
use Prim.Native.Nat.{ℕ, ◌+◌, ◌≤◌, ◌<◌}
use mathlib.Core.Path.{◌≡◌}
use mathlib.Core.Bool.{◌&&◌}
use native.Mathlib.Omega.{arith}
use asyncplusplus.Prelude.Tests.{ltb, leb, if◌then◌else◌}

-- 1 for a position from `b` up to `e`, 0 for another.
unfoldable pub inside : ℕ → ℕ → ℕ → ℕ
inside b e i = if leb b i && ltb i e then 1 else 0

pub inside-split : (b m e i : ℕ) → b ≤ m → m ≤ e → inside b e i ≡ inside b m i + inside m e i
unfolding inside
inside-split b m e i h k = ground arith

pub inside-first : (b e i : ℕ) → b < e → inside b e i ≡ inside b (b + 1) i + inside (b + 1) e i
inside-first b e i h = inside-split b (b + 1) e i (omega arith) (omega arith)

pub inside-le : (b e i : ℕ) → inside b e i ≤ 1
unfolding inside
inside-le b e i = ground arith

pub inside-none : (b i : ℕ) → inside b b i ≡ 0
unfolding inside
inside-none b i = ground arith
