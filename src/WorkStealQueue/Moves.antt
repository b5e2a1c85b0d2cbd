-- ===== src/WorkStealQueue/Moves.antt =====
-- `push`, `pop` and `steal` of src/work_steal_queue.h, one access of a shared variable at a time.
-- Accesses are sequentially consistent: the fences that make them so are not modelled.
-- `bottom`, `array` and the slots are stored by the owner alone, so its own loads of them are taken
-- together with the access that comes next.
use asyncplusplus.Prelude.{ℕ, ◌+◌, ◌≡◌, ◌≢◌, List, true, false, none, some, length, update}
use asyncplusplus.Word.{add_size, sub_size, mul_size}
use asyncplusplus.Memory.{Memory}
use asyncplusplus.WorkStealQueue.Signed.{is_empty, is_negative, is_full}
use asyncplusplus.WorkStealQueue.Array.{get, put}
use asyncplusplus.WorkStealQueue.Deque.{
  Event, silent, pushed, push_threw, popped, pop_none, stolen, steal_none,
}

-- The members. A `circular_array*` is an index into all the arrays made so far; the `previous` of
-- array `a + 1` is array `a`, and none is freed before the deque.
pub record Shared : Type 0 where
  pub arrays : ℕ → List ℕ
  pub array : ℕ
  pub top : ℕ
  pub bottom : ℕ

abbrev pub current : Shared → List ℕ
current sh = sh.arrays sh.array

-- Where the owner stands, with the locals that are live.
pub data OwnerPc : Type 0 where
  idle : OwnerPc
  pushing : (x b t : ℕ) → OwnerPc  -- `b` and `t` loaded
  -- In the loop of `grow`, at index `i`, with the new array, which no other thread can see yet.
  copying : (x b i : ℕ) (new : List ℕ) → OwnerPc
  placing : (x b : ℕ) → OwnerPc  -- there is room: before `a->put`
  publishing : (x b : ℕ) → OwnerPc  -- before the store of `bottom`
  popping : (b : ℕ) → OwnerPc  -- not empty: before the store of `bottom`
  claimed : (b : ℕ) → OwnerPc  -- `b` decremented and stored: before the second load of `top`
  racing : (b t x : ℕ) → OwnerPc  -- the last task: before the compare-exchange
  restoring : (b : ℕ) → OwnerPc  -- before the store that restores `bottom`

-- Where a thief stands in the loop of `steal`; `waiting` is its head, and outside of `steal`.
pub data ThiefPc : Type 0 where
  waiting : ThiefPc
  got_top : (t : ℕ) → ThiefPc
  nonempty : (t : ℕ) → ThiefPc  -- `bottom` loaded and tested
  got_array : (t a : ℕ) → ThiefPc
  got_item : (t x : ℕ) → ThiefPc  -- before the compare-exchange

module _ (m : Memory) (sh : Shared) where
  open sh use {arrays, array, top, bottom}

  pub data OwnerMove : OwnerPc → Event → Shared → OwnerPc → Type 0 where
    load_top : (x : ℕ) → OwnerMove idle silent sh (pushing x bottom top)
    allocate :
        {x b t : ℕ} (xs : List ℕ)
        → is_full (length (current sh)) b t ≡ true
        → m.alloc (mul_size (length (current sh)) 2) ≡ some xs
        → OwnerMove (pushing x b t) silent sh (copying x b t xs)
    copy_one :
        {x b i : ℕ} {new : List ℕ}
        → i ≢ b
        → OwnerMove
            (copying x b i new)
            silent
            sh
            (copying x b (add_size i 1) (put new i (get (current sh) i)))
    switch :
        {x b i : ℕ} {new : List ℕ}
        → i ≡ b
        → OwnerMove
            (copying x b i new)
            silent
            (record sh { arrays = update arrays (array + 1) new; array = array + 1 })
            (placing x b)
    throw :
        {x b t : ℕ}
        → is_full (length (current sh)) b t ≡ true
        → m.alloc (mul_size (length (current sh)) 2) ≡ none
        → OwnerMove (pushing x b t) (push_threw x) sh idle
    enough :
        {x b t : ℕ}
        → is_full (length (current sh)) b t ≡ false
        → OwnerMove (pushing x b t) silent sh (placing x b)
    place :
        {x b : ℕ}
        → OwnerMove
            (placing x b)
            silent
            (record sh { arrays = update arrays array (put (current sh) b x) })
            (publishing x b)
    publish :
        {x b : ℕ} → OwnerMove (publishing x b) (pushed x) (record sh { bottom = add_size b 1 }) idle
    give_up : is_empty bottom top ≡ true → OwnerMove idle pop_none sh idle
    go_on : is_empty bottom top ≡ false → OwnerMove idle silent sh (popping bottom)
    claim :
        {b : ℕ}
        → OwnerMove
            (popping b)
            silent
            (record sh { bottom = sub_size b 1 })
            (claimed (sub_size b 1))
    too_late : {b : ℕ} → is_negative b top ≡ true → OwnerMove (claimed b) pop_none sh (restoring b)
    take :
        {b : ℕ}
        → is_negative b top ≡ false
        → b ≢ top
        → OwnerMove (claimed b) (popped (get (current sh) b)) sh idle
    take_last :
        {b : ℕ}
        → is_negative b top ≡ false
        → b ≡ top
        → OwnerMove (claimed b) silent sh (racing b top (get (current sh) b))
    win :
        {b t x : ℕ}
        → top ≡ t
        → OwnerMove (racing b t x) (popped x) (record sh { top = add_size t 1 }) (restoring b)
    lose : {b t x : ℕ} → top ≢ t → OwnerMove (racing b t x) pop_none sh (restoring b)
    restore : {b : ℕ} → OwnerMove (restoring b) silent (record sh { bottom = add_size b 1 }) idle

  pub data ThiefMove : ThiefPc → Event → Shared → ThiefPc → Type 0 where
    read_top : ThiefMove waiting silent sh (got_top top)
    find_empty : {t : ℕ} → is_empty bottom t ≡ true → ThiefMove (got_top t) steal_none sh waiting
    find_task : {t : ℕ} → is_empty bottom t ≡ false → ThiefMove (got_top t) silent sh (nonempty t)
    read_array : {t : ℕ} → ThiefMove (nonempty t) silent sh (got_array t array)
    read_item : {t a : ℕ} → ThiefMove (got_array t a) silent sh (got_item t (get (arrays a) t))
    steal :
        {t x : ℕ}
        → top ≡ t
        → ThiefMove (got_item t x) (stolen x) (record sh { top = add_size t 1 }) waiting
    -- A weak compare-exchange may fail for no reason.
    retry : {t x : ℕ} → ThiefMove (got_item t x) silent sh waiting
