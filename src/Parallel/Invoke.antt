-- ===== src/Parallel/Invoke.antt =====
-- `parallel_invoke`: each function is called once.
use asyncplusplus.Prelude.{
  ℕ, zero, suc, ◌+◌, ◌-◌, ◌/◌, ◌≤◌, ◌<◌, refl, List, [], ◌∷◌, Option, none, some, Bool,
  if◌then◌else◌, arith,
}
use asyncplusplus.Parallel.Interleave.{Interleave, Interleave-append}
use asyncplusplus.Parallel.Covers.{join, Covers, Covers-cast, Covers-join, Covers-none, Covers-one}

module _ (throws : ℕ → Bool) where
  -- `parallel_invoke_internal<start, number>::run`: the arguments called, by their positions in the
  -- tuple, and where the exception that comes out is from. Argument `i` throws if `throws i`.
  pub data Invoke : ℕ → ℕ → List ℕ → Option ℕ → Type 0 where
    nothing : {start : ℕ} → Invoke start 0 [] none
    call : {start : ℕ} → Invoke start 1 (start ∷ []) (if throws start then some start else none)
    halves :
        {start number : ℕ}
        → 2 ≤ number
        → {ours theirs calls : List ℕ} {our_thrown their_thrown : Option ℕ}
        → Invoke (start + number / 2) (number - number / 2) theirs their_thrown
        → Invoke start (number / 2) ours our_thrown
        → Interleave ours theirs calls
        → Invoke start number calls (join our_thrown their_thrown)

  -- Whatever the order of the calls: no argument is called twice; if no exception comes out, each
  -- of the `number` arguments from `start` on was called exactly once and none threw; and an
  -- exception that comes out is that of one of them.
  pub Invoke-Covers :
      {start number : ℕ} {calls : List ℕ} {thrown : Option ℕ}
      → Invoke start number calls thrown
      → Covers throws start (start + number) calls thrown
  Invoke-Covers (nothing {start}) = Covers-none throws start
  Invoke-Covers (call {start}) = Covers-one throws start
  Invoke-Covers
        (halves {start} {number} two {our_thrown = ours} {their_thrown = theirs} child rest mix) =
      Covers-join throws start (start + number / 2) (start + number) (omega arith) (omega arith) mix
        ours theirs (Invoke-Covers rest) (Covers-cast (Invoke-Covers child) refl (omega arith))

  -- `parallel_invoke` ends.
  pub Invoke-total :
      (n start number : ℕ)
      → number < n
      → (calls : List ℕ) × (thrown : Option ℕ) × Invoke start number calls thrown
  Invoke-total zero start number h = absurd (omega arith)
  Invoke-total (suc n) start zero h = (_, _, nothing)
  Invoke-total (suc n) start (suc zero) h = (_, _, call)
  Invoke-total (suc n) start (suc (suc k)) h =
      let number = suc (suc k) in
      let (theirs, their_thrown, child) =
        Invoke-total n (start + number / 2) (number - number / 2) (omega arith) in
      let (ours, our_thrown, rest) = Invoke-total n start (number / 2) (omega arith) in
      (_, _, halves (omega arith) child rest (Interleave-append ours theirs))
