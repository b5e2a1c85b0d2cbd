-- ===== src/IntRange.antt =====
-- include/async++/range.h: pairs of iterators, and `int_range`, whose iterators are the integers.
pub mod Laws
mod Tests
use asyncplusplus.Prelude.{
  ℕ, zero, suc, ◌+◌, ◌-◌, ◌*◌, ◌%◌, ◌^◌, ◌<◌, ◌==◌, List, [], ◌∷◌, Option, none, some, Bool, not,
  ltb, leb, true, false,
}
use mathlib.Core.Option

-- `range`, with iterators of any type.
pub record Range {ℓ} (Iter : Type ℓ) : Type ℓ where
  pub iter_begin : Iter
  pub iter_end : Iter

abbrev pub make_range {ℓ} : {Iter : Type ℓ} → Iter → Iter → Range Iter
make_range a b = record { iter_begin = a; iter_end = b }

-- The integers are unsigned, of `w` bits, at least those of an `int`: their sums and differences
-- wrap. An offset is a `std::ptrdiff_t`, which the sum takes modulo 2 ^ w: it is given as a word.
pub record IntRange : Type 0 where
  pub value_begin : ℕ
  pub value_end : ℕ

pub record Iterator : Type 0 where
  pub current : ℕ

abbrev iterator : ℕ → Iterator
iterator a = record { current = a }

abbrev pub begin : IntRange → Iterator
begin r = iterator r.value_begin

abbrev pub end : IntRange → Iterator
end r = iterator r.value_end

abbrev pub irange : ℕ → ℕ → IntRange
irange a b = record { value_begin = a; value_end = b }

abbrev pub deref : Iterator → ℕ
deref it = it.current

abbrev pub equal : Iterator → Iterator → Bool
equal a b = a.current == b.current

abbrev pub less : Iterator → Iterator → Bool
less a b = ltb a.current b.current

abbrev pub less_equal : Iterator → Iterator → Bool
less_equal a b = leb a.current b.current

module _ (w : ℕ) where
  abbrev pub index : Iterator → ℕ → ℕ
  index it offset = (it.current + offset) % 2 ^ w

  abbrev pub increment : Iterator → Iterator
  increment it = record { current = (it.current + 1) % 2 ^ w }

  -- The value of `it++` and the iterator after it.
  abbrev pub post_increment : Iterator → Iterator × Iterator
  post_increment it = (it, increment it)

  abbrev pub decrement : Iterator → Iterator
  decrement it = record { current = (it.current + 2 ^ w - 1) % 2 ^ w }

  abbrev pub post_decrement : Iterator → Iterator × Iterator
  post_decrement it = (it, decrement it)

  abbrev pub add_assign : Iterator → ℕ → Iterator
  add_assign it offset = record { current = (it.current + offset) % 2 ^ w }

  abbrev pub sub_assign : Iterator → ℕ → Iterator
  sub_assign it offset = record { current = (it.current + 2 ^ w - offset % 2 ^ w) % 2 ^ w }

  abbrev pub plus : Iterator → ℕ → Iterator
  plus it offset = iterator ((it.current + offset) % 2 ^ w)

  abbrev pub minus : Iterator → ℕ → Iterator
  minus it offset = iterator ((it.current + 2 ^ w - offset % 2 ^ w) % 2 ^ w)

  -- `a.current - b.current`, before it is converted to a `std::ptrdiff_t`.
  abbrev pub difference : Iterator → Iterator → ℕ
  difference a b = (a.current + 2 ^ w - b.current) % 2 ^ w

  -- The loop `for (it = first; it != last; ++it)`: the integers that it sees; `none` if it has not
  -- ended within the fuel.
  unfoldable pub traverse : ℕ → Iterator → Iterator → Option (List ℕ)
  traverse zero first last = none
  traverse (suc fuel) first last = elim (equal first last) [
    | true ↦ some []
    | false ↦ Option.map (λ l. deref first ∷ l) (traverse fuel (increment first) last)
  ]
