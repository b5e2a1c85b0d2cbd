-- ===== src/Partitioner/Static.antt =====
-- `static_partitioner_impl`: splits in halves until the grain size is reached.
use asyncplusplus.Prelude.{
  ℕ, ◌+◌, ◌-◌, ◌/◌, ◌^◌, ◌≤◌, ◌<◌, ◌≡◌, ◌≢◌, arith, leb, if◌then◌else◌, Bool-cases, inl, inr, ◌⊎◌,
}
use asyncplusplus.Partitioner.Interface.{Partitioner}
use asyncplusplus.Word.{add_size, sub_size}

pub record StaticPartitioner : Type 0 where
  pub iter_begin : ℕ
  pub iter_end : ℕ
  pub grain : ℕ

-- `length` is computed by `std::distance`; the result is what is left of the partitioner, and what
-- `split` returns.
unfoldable pub split : StaticPartitioner → StaticPartitioner × StaticPartitioner
split p =
    let length = sub_size p.iter_end p.iter_begin in
    let out = record p { iter_begin = p.iter_end } in
    let middle = p.iter_begin + add_size length 1 / 2 in
    if leb length p.grain
    then (p, out)
    else (record p { iter_end = middle }, record out { iter_begin = middle })

-- A range of a length that `std::ptrdiff_t` can hold.
abbrev pub IsRange : StaticPartitioner → Type 0
IsRange p = (p.iter_begin ≤ p.iter_end) × (p.iter_end < 2 ^ 63)

module _ (p : StaticPartitioner) where
  -- What the partitioner keeps, and what `split` returns.
  abbrev pub rest : StaticPartitioner
  rest = (split p).0

  abbrev pub out : StaticPartitioner
  out = (split p).1

  -- Splitting cuts the range in two parts that lie end to end.
  pub split_lem :
      IsRange p
      → (rest.iter_begin ≡ p.iter_begin)
        × (out.iter_begin ≡ rest.iter_end)
        × (out.iter_end ≡ p.iter_end)
        × IsRange rest
        × IsRange out
  unfolding split
  split_lem r = ground arith

  pub split_both : IsRange p → out.iter_begin ≢ out.iter_end → rest.iter_begin < rest.iter_end
  unfolding split
  split_both r ne = ground arith

  -- A range longer than the grain is halved, the odd element staying; another is kept whole.
  pub split_halves :
      IsRange p
      → ((p.grain < p.iter_end - p.iter_begin)
          × (rest.iter_end - rest.iter_begin ≡ (p.iter_end - p.iter_begin + 1) / 2)
          × (out.iter_end - out.iter_begin ≡ (p.iter_end - p.iter_begin) / 2))
        ⊎ ((p.iter_end - p.iter_begin ≤ p.grain) × (rest ≡ p) × (out.iter_begin ≡ out.iter_end))
  unfolding split
  split_halves r = elim (Bool-cases (leb (sub_size p.iter_end p.iter_begin) p.grain)) [
    | inl short ↦ inr (ground arith)
    | inr long ↦ inl (ground arith)
  ]

-- The interface of the parallel algorithms.
unfoldable pub static_partitioner : Partitioner StaticPartitioner
static_partitioner = record {
  begin = λ p. p.iter_begin;
  finish = λ p. p.iter_end;
  split = λ t. split;
  IsRange = IsRange;
  ordered = λ p r. r.0;
  kept = λ t p r. let s = split_lem p r in (s.3, s.0);
  given = λ t p r. let s = split_lem p r in (s.4, s.1, s.2);
  both = λ t p r. split_both p r;
}
