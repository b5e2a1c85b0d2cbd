-- ===== src/AlignedArray/Handles.antt =====
-- The variables of type `aligned_array` and the storage that they own: the constructors, the
-- assignments and the destructor of include/async++/aligned_alloc.h, when no element throws.
use asyncplusplus.Prelude.{ℕ, ◌+◌, ◌==◌, List, [], ◌∷◌, Option, none, some, update, if◌then◌else◌}

pub record AlignedArray : Type 0 where
  pub length : ℕ
  pub ptr : Option ℕ

abbrev pub null_array : AlignedArray
null_array = record { length = 0; ptr = none }

-- The variables by number, the next address of `aligned_alloc`, the storage allocated so far, with
-- its number of elements, and that freed so far, with the number of elements destroyed before.
pub record Arrays : Type 0 where
  pub handles : ℕ → AlignedArray
  pub next : ℕ
  pub allocated : List (ℕ × ℕ)
  pub freed : List (ℕ × ℕ)

abbrev pub no_arrays : Arrays
no_arrays = record { handles = λ h. null_array; next = 0; allocated = []; freed = [] }

-- The loop over the elements and `aligned_free`, which does nothing for a null pointer.
abbrev pub free_array : AlignedArray → List (ℕ × ℕ) → List (ℕ × ℕ)
free_array array freed = elim array.ptr [ none ↦ freed | some a ↦ (a, array.length) ∷ freed ]

-- The destructor of a temporary that has taken what the variable owned, or that of the variable,
-- whose number then stands for a new variable.
abbrev pub release_array : Arrays → ℕ → Arrays
release_array s d = record s {
  handles = update s.handles d null_array;
  freed = free_array (s.handles d) s.freed;
}

abbrev swap : Arrays → ℕ → ℕ → Arrays
swap s d other = record s {
  handles = update (update s.handles d (s.handles other)) other (s.handles d);
}

abbrev pub assign_array : Arrays → ℕ → ℕ → Arrays
assign_array s d other = swap (release_array s d) d other

-- `d = aligned_array(length)`: the temporary is left with the null pointer.
abbrev pub assign_new : Arrays → ℕ → ℕ → Arrays
assign_new s d length =
    let r = release_array s d in
    record {
      handles = update r.handles d (record { length = length; ptr = some r.next });
      next = r.next + 1;
      allocated = (r.next, length) ∷ r.allocated;
      freed = r.freed;
    }

-- A new variable, constructed from another.
abbrev pub move_construct : Arrays → ℕ → ℕ → Arrays
move_construct s d other =
    let r = release_array s d in
    record r { handles = update (update r.handles d (r.handles other)) other null_array }

pub data Operation : Type 0 where
  assigns_new : (d length : ℕ) → Operation
  assigns : (d other : ℕ) → Operation
  assigns_null : (d : ℕ) → Operation
  constructs : (d other : ℕ) → Operation
  destroys : (d : ℕ) → Operation

abbrev pub apply : Arrays → Operation → Arrays
apply s (assigns_new d length) = assign_new s d length
apply s (assigns d other) = assign_array s d other
apply s (assigns_null d) = release_array s d
apply s (constructs d other) = if d == other then s else move_construct s d other
apply s (destroys d) = release_array s d

abbrev pub run : Arrays → List Operation → Arrays
run s [] = s
run s (op ∷ ops) = run (apply s op) ops
