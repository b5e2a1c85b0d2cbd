-- ===== src/FifoQueue/Order.antt =====
-- The operations of fifo_queue.h against a plain list, front first.
use asyncplusplus.Prelude.{
  ℕ, suc, ◌+◌, ◌%◌, ◌*◌, ◌≡◌, refl, ap, ap₂, ◌∙◌, ◌≤◌, ◌<◌, ◌^◌, true, false, get_or, inl, inr,
  List, [], ◌∷◌, ◌++◌, none, some, length, arith, Bool-cases, Option-cases, ◌==◌, ==_iff, ◌≢◌, sym,
}
use native.Mathlib.Nat.{mod-eq_of_lt, mod-add-mod}
use mathlib.Core.Option.{some-injective}
use mathlib.Core.Path.{subst}
use asyncplusplus.Prelude.Segment.{segment, segment-congr}
use asyncplusplus.Word.{mul_size, sub_size, mask, add_size}
use asyncplusplus.Memory.{Memory}
use asyncplusplus.FifoQueue.{
  FifoQueue, Outcome, ok, bad_alloc, resize, put, init, push, pop, is_full,
}
use asyncplusplus.FifoQueue.Circle.{circle_pop, circle_full}
use asyncplusplus.FifoQueue.Inv.{
  IsValid, count, length-copy_items, next_lem, put-IsValid, resize-IsValid,
}
use asyncplusplus.FifoQueue.Refine.{slot, contents, contents-put, contents-resize}

-- What a list does at `pop`: 0 stands for the empty handle.
unfoldable pub pop_front : List ℕ → ℕ × List ℕ
pop_front [] = (0, [])
pop_front (x ∷ xs) = (x, xs)

-- What a `push` that ends with `s` and leaves `q'` has done to `q`.
abbrev pub Pushed : Memory → FifoQueue → ℕ → Outcome → FifoQueue → Type 0
Pushed m q t ok q' = contents q' ≡ contents q ++ (t ∷ [])
Pushed m q t bad_alloc q' =
    (q' ≡ q) × (suc (count q) ≡ length q.items) × (m.alloc (length q.items * 2) ≡ none)

module _ {q : FifoQueue} (v : IsValid q) where
  wrapped : is_full q ≡ true → q.head ≡ (q.tail + 1) % length q.items
  wrapped full = (==_iff q.head _).0 full ∙ next_lem v q.tail v.tail_in

  not_full : is_full q ≡ false → q.head ≢ (q.tail + 1) % length q.items
  not_full room e = cc (room, (==_iff q.head _).1 (e ∙ sym (next_lem v q.tail v.tail_in)))

  full_lem : is_full q ≡ true → suc (count q) ≡ length q.items
  full_lem full = omega (
    arith,
    circle_full (length q.items) q.head q.tail v.head_in v.tail_in (wrapped full),
    v.head_in,
  )

  doubled : mul_size (length q.items) 2 ≡ length q.items * 2
  doubled = omega (arith, v.small)

  module _ (m : Memory) where
    no_memory : m.alloc (mul_size (length q.items) 2) ≡ none → m.alloc (length q.items * 2) ≡ none
    no_memory thrown = ap m.alloc (sym doubled) ∙ thrown

    grown :
        (xs : List ℕ)
        → m.alloc (mul_size (length q.items) 2) ≡ some xs
        → (length xs ≡ length q.items * 2) × (length xs ≤ 2 ^ 60)
    grown xs got = omega (arith, m.alloc_sized (mul_size (length q.items) 2) xs got, doubled)

  resize-room :
      (xs : List ℕ)
      → length xs ≡ length q.items * 2
      → length xs ≤ 2 ^ 60
      → (resize q xs).head ≢ ((resize q xs).tail + 1) % length (resize q xs).items
  unfolding resize
  resize-room xs len room =
      rw (length-copy_items q.items q.head (length q.items) 0 xs, len)
        (omega (arith, v.head_in, v.small, mod-eq_of_lt last_in))
    where
      last_in : sub_size (length q.items) 1 + 1 < length q.items * 2
      last_in = omega (arith, v.head_in, v.small)

  -- Storing into the grown buffer appends too: it has room.
  contents-grown :
      (t : ℕ) (xs : List ℕ)
      → length xs ≡ length q.items * 2
      → length xs ≤ 2 ^ 60
      → q.head ≡ (q.tail + 1) % length q.items
      → contents (put (resize q xs) t) ≡ contents q ++ (t ∷ [])
  contents-grown t xs len room full =
      contents-put (resize-IsValid v xs len room) t (resize-room xs len room)
      ∙ ap (λ l. l ++ (t ∷ [])) (contents-resize v xs len full)

-- A successful push appends the task, also when it has to grow the buffer; a push fails only if
-- the queue is full and the allocation of twice its size throws, and then changes nothing. Either
-- way the queue stays valid.
pub push-Pushed :
    (m : Memory) {q : FifoQueue} (t : ℕ)
    → IsValid q
    → IsValid (push m q t).1 × Pushed m q t (push m q t).0 (push m q t).1
unfolding push
push-Pushed m {q} t v = elim (Bool-cases (is_full q)) [
  | inl full ↦ elim (Option-cases (m.alloc (mul_size (length q.items) 2))) [
    | inl thrown ↦ rw (full, thrown) (v, (refl, full_lem v full, no_memory v m thrown))
    | inr (xs, got) ↦
        rw (full, got)
          let (len, room) = grown v m xs got in
            (
              put-IsValid (resize-IsValid v xs len room) t,
              contents-grown v t xs len room (wrapped v full),
            )
  ]
  | inr room ↦ rw room (put-IsValid v t, contents-put v t (λ e. not_full v room e))
]

module _ {q : FifoQueue} (v : IsValid q) where
  pub contents-empty : q.head ≡ q.tail → contents q ≡ []
  unfolding segment
  contents-empty e = ap (segment (slot q) q.head) empty
    where
      empty : count q ≡ 0
      empty = grind (arith, v.tail_in)

  -- The queue with its head moved on, as `pop` leaves it.
  pub contents-cons :
      q.head ≢ q.tail
      → contents q
        ≡ get_or q.items q.head 0
          ∷ contents (record q { head = mask (length q.items) (add_size q.head 1) })
  unfolding segment
  contents-cons ne =
      ap (segment (slot q) q.head)
        (circle_pop (length q.items) q.head q.tail v.head_in v.tail_in ne)
      ∙ rw (next_lem v q.head v.head_in) (
          ap₂ ◌∷◌ (ap (λ i. get_or q.items i 0) (mod-eq_of_lt v.head_in)) (
            segment-congr (slot q) (slot q) (q.head + 1) ((q.head + 1) % length q.items) _ (λ k lt.
              ap (λ i. get_or q.items i 0) (sym (mod-add-mod (q.head + 1) (length q.items) k)))))

-- `pop` takes the front of the list; on an empty queue it returns the empty handle.
pub pop_refines :
    {q : FifoQueue} → IsValid q → ((pop q).0, contents (pop q).1) ≡ pop_front (contents q)
unfolding pop pop_front
pop_refines {q} v = elim (Bool-cases (q.head == q.tail)) [
  | inl e ↦ rw (e, contents-empty v ((==_iff q.head q.tail).0 e))
  | inr e ↦ rw (e, contents-cons v (λ p. cc (e, (==_iff q.head q.tail).1 p)))
]

abbrev fresh : List ℕ → FifoQueue
fresh xs = record { items = xs; head = 0; tail = 0 }

fresh-IsValid : (xs : List ℕ) → length xs ≡ 32 → IsValid (fresh xs)
fresh-IsValid xs len = record {
  pow2 = (5, len);
  small = omega (arith, len);
  head_in = omega (arith, len);
  tail_in = omega (arith, len);
}

-- The constructor makes a valid empty queue.
pub init-IsValid : (m : Memory) {q : FifoQueue} → init m ≡ some q → IsValid q × (contents q ≡ [])
unfolding init
init-IsValid m {q} e = elim (Option-cases (m.alloc 32)) [
  | inl thrown ↦ absurd (cc (rw thrown at e))
  | inr (xs, got) ↦
      subst (λ r. IsValid r × (contents r ≡ [])) (some-injective (fresh xs) q (rw got at e))
        (let valid = fresh-IsValid xs (m.alloc_sized 32 xs got).0 in
          (valid, contents-empty valid refl))
]
