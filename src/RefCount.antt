-- ===== src/RefCount.antt =====
-- include/async++/ref_count.h: the reference counts of shared objects and the handles that own them.
-- Each access of a count is atomic; an operation of a handle is taken as a whole.
pub mod Counts
pub mod Handles
pub mod Operations
pub mod Raw
pub mod Runs
mod Tests
use asyncplusplus.Prelude.{ℕ, Bool, ◌+◌, ◌-◌, ◌≡◌, ◌==◌, List, [], ◌∷◌, if◌then◌else◌, update}
use asyncplusplus.Word.{add_size, sub_size}

-- The counts by the address of the object, and the objects deleted, the newest first. `handles`
-- gives the member `p` of each `ref_count_ptr` variable, 0 for a null pointer and for a variable
-- that is not constructed; `raw` is how many references plain pointers own, by address.
pub record Heap : Type 0 where
  pub ref_count : ℕ → ℕ
  pub deleted : List ℕ
  pub handles : ℕ → ℕ
  pub raw : ℕ → ℕ

unfoldable pub add_ref : Heap → ℕ → ℕ → Heap
add_ref h p count = record h { ref_count = update h.ref_count p (add_size (h.ref_count p) count) }

unfoldable pub remove_ref : Heap → ℕ → ℕ → Heap
remove_ref h p count = record h {
  ref_count = update h.ref_count p (sub_size (h.ref_count p) count);
  deleted = (if h.ref_count p == count then p ∷ h.deleted else h.deleted);
}

-- The constructor of an object at `p`, whose count is owned by plain pointers.
unfoldable pub construct : Heap → ℕ → ℕ → Heap
construct h p count = record h {
  ref_count = update h.ref_count p count;
  raw = update h.raw p count;
}

unfoldable pub add_ref_unlocked : Heap → ℕ → Heap
add_ref_unlocked h p = record h { ref_count = update h.ref_count p (add_size (h.ref_count p) 1) }

abbrev pub is_unique_ref : Heap → ℕ → Bool
is_unique_ref h p = h.ref_count p == 1

-- `if (p) p->add_ref()` and `if (p) p->remove_ref()`
unfoldable pub take : Heap → ℕ → Heap
unfolding add_ref
take h p = if p == 0 then h else add_ref h p 1

unfoldable pub drop : Heap → ℕ → Heap
unfolding remove_ref
drop h p = if p == 0 then h else remove_ref h p 1

abbrev pub set_handle : Heap → ℕ → ℕ → Heap
set_handle h d p = record h { handles = update h.handles d p }

-- `ref_count_ptr(const ref_count_ptr&)`, of a new variable `d`.
unfoldable pub copy : Heap → ℕ → ℕ → Heap
unfolding take
copy h d s = take (set_handle h d (h.handles s)) (h.handles s)

-- `ref_count_ptr(ref_count_ptr&&)`
unfoldable pub move : Heap → ℕ → ℕ → Heap
move h d s = set_handle (set_handle h d (h.handles s)) s 0

-- `operator=(std::nullptr_t)`, and the destructor.
unfoldable pub clear : Heap → ℕ → Heap
unfolding drop
clear h d = set_handle (drop h (h.handles d)) d 0

-- `operator=(const ref_count_ptr&)`
unfoldable pub copy_assign : Heap → ℕ → ℕ → Heap
unfolding take drop
copy_assign h d s =
    let dropped = drop h (h.handles d) in
    if d == s then h else take (set_handle dropped d (h.handles s)) (h.handles s)

-- `operator=(ref_count_ptr&&)`
unfoldable pub move_assign : Heap → ℕ → ℕ → Heap
unfolding drop
move_assign h d s =
    let dropped = drop h (h.handles d) in
    if d == s then h else set_handle (set_handle dropped d (h.handles s)) s 0

-- `release`: a plain pointer owns the reference from now on.
unfoldable pub release : Heap → ℕ → Heap
release h d =
    let p = h.handles d in set_handle (record h { raw = update h.raw p (h.raw p + 1) }) d 0

-- `ref_count_ptr(T*)`: the new variable `d` takes the reference of a plain pointer over.
unfoldable pub adopt : Heap → ℕ → ℕ → Heap
adopt h d p = set_handle (record h { raw = update h.raw p (h.raw p - 1) }) d p
