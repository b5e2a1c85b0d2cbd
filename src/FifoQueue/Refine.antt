-- ===== src/FifoQueue/Refine.antt =====
-- The circular buffer behaves as a list: tasks leave in the order in which they came.
use asyncplusplus.Prelude.{
  ℕ, suc, ◌+◌, ◌-◌, ◌%◌, ◌*◌, ◌<◌, ◌≡◌, ap, ◌∙◌, ◌≢◌, List, [], ◌∷◌, ◌++◌, get_or, length,
  length-set, get_or-set_self, get_or-set_ne, arith, sym,
}
use native.Mathlib.Nat.{mod-eq_of_lt, mod-lt, zero-add}
use asyncplusplus.Prelude.Segment.{segment, segment-congr, segment-snoc}
use asyncplusplus.Word.{add_size, sub_size}
use asyncplusplus.FifoQueue.{FifoQueue, copy_items, resize, put}
use asyncplusplus.FifoQueue.Circle.{wrap_once, circle_end, circle_ne, circle_grow, circle_full}
use asyncplusplus.FifoQueue.Inv.{
  IsValid, count, mask_lem, next_lem, length-copy_items, copy_items_at,
}

-- The task at index `i` of the unrolled circle.
abbrev pub slot : FifoQueue → ℕ → ℕ
slot q i = get_or q.items (i % length q.items) 0

-- The waiting tasks, front first.
abbrev pub contents : FifoQueue → List ℕ
contents q = segment (slot q) q.head (count q)

module _ {q : FifoQueue} (v : IsValid q) where
  open q use {items, head, tail}

  count-put : (t : ℕ) → head ≢ (tail + 1) % length items → count (put q t) ≡ suc (count q)
  unfolding put
  count-put t room =
      rw (length-set items tail t, next_lem v tail v.tail_in)
        (circle_grow (length items) head tail v.head_in v.tail_in room)

  slot-put_old : (t k : ℕ) → k < count q → slot (put q t) (head + k) ≡ slot q (head + k)
  unfolding put
  slot-put_old t k lt = rw (length-set items tail t) (
      get_or-set_ne items tail ((head + k) % length items) t 0
        (λ e. circle_ne (length items) head tail k v.head_in v.tail_in lt (sym e)))

  slot-put_new : (t : ℕ) → slot (put q t) (head + count q) ≡ t
  unfolding put
  slot-put_new t =
      rw (length-set items tail t, circle_end (length items) head tail v.head_in v.tail_in)
        (get_or-set_self items tail t 0 v.tail_in)

  -- Storing at the tail of a queue with room appends the task.
  pub contents-put :
      (t : ℕ) → head ≢ (tail + 1) % length items → contents (put q t) ≡ contents q ++ (t ∷ [])
  unfolding put
  contents-put t room =
      rw (count-put t room, segment-snoc (slot (put q t)) head (count q), slot-put_new t)
        (ap (λ l. l ++ (t ∷ []))
          (segment-congr (slot (put q t)) (slot q) head head (count q) (slot-put_old t)))

  module _ (xs : List ℕ) (len : length xs ≡ length items * 2)
      (full : head ≡ (tail + 1) % length items) where
    length-resize : length (resize q xs).items ≡ length items * 2
    unfolding resize
    length-resize = length-copy_items items head (length items) 0 xs ∙ len

    count-resize : count (resize q xs) ≡ count q
    unfolding resize
    count-resize =
        rw (length-copy_items items head (length items) 0 xs, len)
          (wrapped ∙ sym (circle_full (length items) head tail v.head_in v.tail_in full))
      where
        wrapped :
            (sub_size (length items) 1 + length items * 2 - 0) % (length items * 2)
            ≡ length items - 1
        wrapped = ground (
          arith,
          v.small,
          v.head_in,
          wrap_once (sub_size (length items) 1 + length items * 2 - 0) (length items * 2),
        )

    slot-resize : (k : ℕ) → k < count q → slot (resize q xs) (0 + k) ≡ slot q (head + k)
    unfolding resize
    slot-resize k lt =
        rw (length-copy_items items head (length items) 0 xs, len)
          (ap (λ i. get_or (copy_items items head (length items) 0 xs) i 0) small_index
            ∙ copy_items_at items head (length items) 0 xs k (omega arith) (omega (arith, below))
                (omega arith) (omega (arith, v.small))
            ∙ ap (λ i. get_or items i 0)
                (mask_lem v (add_size k head)
                  ∙ ap (λ i. i % length items) (omega (arith, below, v.small, v.head_in))))
      where
        below : k < length items
        below = omega (
          arith,
          lt,
          mod-lt (tail + length items - head) {m = length items} (omega (arith, v.head_in)),
        )

        small_index : (0 + k) % (length items * 2) ≡ k
        small_index = mod-eq_of_lt (omega (arith, below)) ∙ zero-add k

    -- Growing a full queue unrolls the circle and keeps the tasks.
    pub contents-resize : contents (resize q xs) ≡ contents q
    unfolding resize
    contents-resize =
        ap (segment (slot (resize q xs)) 0) count-resize
        ∙ segment-congr (slot (resize q xs)) (slot q) 0 head (count q) slot-resize
