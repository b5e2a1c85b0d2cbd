-- ===== src/AlignedArray/Ownership.antt =====
-- Each storage of an `aligned_array` has one owner, or was freed once with all its elements.
use asyncplusplus.Prelude.{
  ℕ, ◌+◌, ◌<◌, ◌≡◌, ◌==◌, refl, sym, ap, ◌∙◌, List, [], ◌∷◌, ◌&&◌, Option, none, some, update,
  update_ne, update_self, if◌then◌else◌, arith, ℕ_discrete, Every,
}
use mathlib.Core.Path.{subst}
use asyncplusplus.Prelude.Among.{eq-true, eq-false}
use asyncplusplus.Prelude.Sum.{sum_to, sum_to-none, sum_to-change}
use asyncplusplus.AlignedArray.Handles
use asyncplusplus.AlignedArray.Handles.{
  AlignedArray, null_array, Arrays, no_arrays, free_array, release_array, assign_array, assign_new,
  move_construct, Operation, apply, run,
}

-- 1 if these are the storage at `a` with `l` elements.
abbrev one : ℕ → ℕ → ℕ → ℕ → ℕ
one a l b length = if a == b && l == length then 1 else 0

abbrev points : ℕ → ℕ → Option ℕ → ℕ → ℕ
points a l none length = 0
points a l (some b) length = one a l b length

-- 1 if the variable owns that storage.
abbrev pub owns : ℕ → ℕ → AlignedArray → ℕ
owns a l array = points a l array.ptr array.length

-- How often that storage is in the list.
abbrev pub times : ℕ → ℕ → List (ℕ × ℕ) → ℕ
times a l [] = 0
times a l (f ∷ fs) = one a l f.0 f.1 + times a l fs

times-free_array :
    (length : ℕ) (p : Option ℕ) (freed : List (ℕ × ℕ)) (a l : ℕ)
    → times a l (free_array (record { length = length; ptr = p }) freed)
      ≡ times a l freed + points a l p length
times-free_array length none freed a l = omega arith
times-free_array length (some b) freed a l = omega arith

abbrev pub IsOperation : ℕ → Operation → Type 0
IsOperation n (Handles.assigns_new d length) = d < n
IsOperation n (Handles.assigns d other) = (d < n) × (other < n)
IsOperation n (Handles.assigns_null d) = d < n
IsOperation n (Handles.constructs d other) = (d < n) × (other < n)
IsOperation n (Handles.destroys d) = d < n

module _ (n a l : ℕ) where
  -- How many of the first `n` variables own the storage, and how often it was freed.
  abbrev held : Arrays → ℕ
  held s = sum_to (λ h. owns a l (s.handles h)) n + times a l s.freed

  -- Another value in one variable.
  owners :
      (handles : ℕ → AlignedArray) (d : ℕ) (array : AlignedArray)
      → d < n
      → sum_to (λ h. owns a l (update handles d array h)) n + owns a l (handles d)
        ≡ sum_to (λ h. owns a l (handles h)) n + owns a l array
  owners handles d array lt = omega (
    arith,
    sum_to-change (λ h. owns a l (handles h)) (λ h. owns a l (update handles d array h)) d n lt
        (λ h ne. ap (owns a l) (update_ne handles d h array (λ e. ne (sym e)))),
    ap (owns a l) (update_self handles d array),
  )

  held-release_array : (s : Arrays) (d : ℕ) → d < n → held (release_array s d) ≡ held s
  held-release_array s d lt = omega (
    arith,
    owners s.handles d null_array lt,
    times-free_array (s.handles d).length (s.handles d).ptr s.freed a l,
  )

  released : (s : Arrays) (d : ℕ) → owns a l ((release_array s d).handles d) ≡ 0
  released s d = ap (owns a l) (update_self s.handles d null_array)

  -- Two variables change, and what they own together does not.
  two_owners :
      (handles : ℕ → AlignedArray) (d other : ℕ) (array : AlignedArray)
      → d < n
      → other < n
      → owns a l (handles d) ≡ owns a l array
      → sum_to (λ h. owns a l (update (update handles d (handles other)) other array h)) n
        ≡ sum_to (λ h. owns a l (handles h)) n
  two_owners handles d other array lt lt' e = omega (
    arith,
    owners handles d (handles other) lt,
    owners (update handles d (handles other)) other array lt',
    there,
    e,
  )
    where
      there : owns a l (update handles d (handles other) other) ≡ owns a l (handles other)
      there = elim (ℕ_discrete d other) [
        | yes q ↦
            ap (λ k. owns a l (update handles d (handles other) k)) (sym q)
            ∙ ap (owns a l) (update_self handles d (handles other))
        | no ne ↦ ap (owns a l) (update_ne handles d other (handles other) ne)
      ]

  abbrev Owned : Arrays → Type 0
  Owned s = held s ≡ times a l s.allocated

  apply-Owned : (s : Arrays) (op : Operation) → IsOperation n op → Owned s → Owned (apply s op)
  apply-Owned s (Handles.assigns_new d length) lt o =
      let r = release_array s d in
      omega (
        arith,
        owners r.handles d (record { length = length; ptr = some r.next }) lt,
        held-release_array s d lt,
        released s d,
        o,
      )
  apply-Owned s (Handles.assigns d other) (lt, lt') o = omega (
    arith,
    two_owners (release_array s d).handles d other ((release_array s d).handles d) lt lt' refl,
    held-release_array s d lt,
    o,
  )
  apply-Owned s (Handles.assigns_null d) lt o = held-release_array s d lt ∙ o
  apply-Owned s (Handles.constructs d other) (lt, lt') o = elim (ℕ_discrete d other) [
    | yes q ↦ subst (λ b. Owned (if b then s else move_construct s d other)) (sym (eq-true q)) o
    | no ne ↦
        subst (λ b. Owned (if b then s else move_construct s d other)) (sym (eq-false ne))
          (omega (
            arith,
            two_owners (release_array s d).handles d other null_array lt lt' (released s d),
            held-release_array s d lt,
            o,
          ))
  ]
  apply-Owned s (Handles.destroys d) lt o = held-release_array s d lt ∙ o

  run-Owned :
      (s : Arrays) (ops : List Operation) → Every (IsOperation n) ops → Owned s → Owned (run s ops)
  run-Owned s [] h o = o
  run-Owned s (op ∷ ops) h o = run-Owned (apply s op) ops h.1 (apply-Owned s op h.0 o)

-- After any sequence of allocations, assignments, move constructions and destructions of `n`
-- variables of type `aligned_array`, self-assignment included, each storage is owned by a variable
-- that knows its number of elements, or was freed after that many were destroyed, exactly as often
-- as it was allocated.
pub one_owner :
    (n : ℕ) (ops : List Operation) (a l : ℕ)
    → Every (IsOperation n) ops
    → sum_to (λ h. owns a l ((run no_arrays ops).handles h)) n + times a l (run no_arrays ops).freed
      ≡ times a l (run no_arrays ops).allocated
one_owner n ops a l h = run-Owned n a l no_arrays ops h (omega (arith, sum_to-none n))
