-- ===== src/WorkStealQueue/Inv.antt =====
-- The invariant of the deque between the accesses of its threads.
use asyncplusplus.Prelude.{ℕ, suc, ◌-◌, ◌≤◌, ◌<◌, ◌≡◌, ◌*◌, refl, sym, ◌∙◌, List, length, arith}
use mathlib.Core.Path.{subst}
use asyncplusplus.Prelude.Segment.{segment}
use asyncplusplus.WorkStealQueue.Array.{get, copy_range, IsArray}
use asyncplusplus.WorkStealQueue.Moves.{
  Shared, current, OwnerPc, idle, pushing, copying, placing, publishing, popping, claimed, racing,
  restoring, ThiefPc, waiting, got_top, nonempty, got_array, got_item,
}
use asyncplusplus.WorkStealQueue.System.{System}

-- The end of the deque. While the owner pops, `bottom` is one too low.
abbrev pub limit : Shared → OwnerPc → ℕ
limit sh (claimed b) = suc b
limit sh (racing b t x) = suc b
limit sh (restoring b) = suc b
limit sh _ = sh.bottom

-- The tasks that no thread has taken, the thieves' end first.
abbrev pub contents : Shared → OwnerPc → List ℕ
contents sh pc = segment (get (current sh)) sh.top (limit sh pc - sh.top)

-- The array can take the place of the current one.
abbrev pub Filled : Shared → ℕ → List ℕ → Type 0
Filled sh b new =
    IsArray new
    × (length new ≡ length (current sh) * 2)
    × ((j : ℕ) → sh.top ≤ j → j < b → get new j ≡ get (current sh) j)

-- What the owner's locals say about the shared members.
abbrev pub OwnerOk : Shared → OwnerPc → Type 0
OwnerOk sh idle = Unit
OwnerOk sh (pushing x b t) = (b ≡ sh.bottom) × (t ≤ sh.top) × (b - t ≤ length (current sh))
OwnerOk sh (copying x b i new) =
    (b ≡ sh.bottom)
    × (i ≤ b)
    × (b - i ≤ length (current sh))
    × Filled sh b (copy_range (current sh) (b - i) i new)
OwnerOk sh (placing x b) = (b ≡ sh.bottom) × (sh.bottom - sh.top < length (current sh))
OwnerOk sh (publishing x b) =
    (b ≡ sh.bottom) × (sh.bottom - sh.top < length (current sh)) × (get (current sh) b ≡ x)
OwnerOk sh (popping b) = (b ≡ sh.bottom) × (0 < b)
OwnerOk sh (claimed b) = b ≡ sh.bottom
OwnerOk sh (racing b t x) = (b ≡ sh.bottom) × (b ≡ t) × (t ≤ sh.top) × (get (current sh) b ≡ x)
OwnerOk sh (restoring b) = (b ≡ sh.bottom) × (sh.top ≡ suc b)

-- What a thief's locals say: as long as `top` is still the one that it read, the slot at `top`
-- holds a task, and the thief has that task.
abbrev pub ThiefOk : Shared → ℕ → ThiefPc → Type 0
ThiefOk sh lim waiting = Unit
ThiefOk sh lim (got_top t) = t ≤ sh.top
ThiefOk sh lim (nonempty t) = (t ≤ sh.top) × (sh.top ≡ t → t < lim)
ThiefOk sh lim (got_array t a) =
    (t ≤ sh.top)
    × (a ≤ sh.array)
    × (sh.top ≡ t → t < lim)
    × (sh.top ≡ t → get (sh.arrays a) t ≡ get (current sh) t)
ThiefOk sh lim (got_item t x) =
    (t ≤ sh.top) × (sh.top ≡ t → t < lim) × (sh.top ≡ t → get (current sh) t ≡ x)

-- The members, when at most `n` tasks have been pushed.
pub record Core (n : ℕ) (sh : Shared) (pc : OwnerPc) : Type 0 where
  pub sized : IsArray (current sh)
  pub ordered : sh.top ≤ limit sh pc
  pub fits : limit sh pc - sh.top ≤ length (current sh)
  pub counted : limit sh pc ≤ n
  pub own : OwnerOk sh pc

pub record Inv (n : ℕ) (s : System) : Type 0 where
  pub core : Core n s.shared s.owner
  pub thief : (i : ℕ) → ThiefOk s.shared (limit s.shared s.owner) (s.thieves i)

-- What a change of the members must leave alone for the sake of the thieves.
pub record Kept (sh : Shared) (lim : ℕ) (sh' : Shared) (lim' : ℕ) : Type 0 where
  pub top_up : sh.top ≤ sh'.top
  pub array_up : sh.array ≤ sh'.array
  pub limit_up : sh'.top ≡ sh.top → sh.top < lim → sh.top < lim'
  pub old :
      sh'.top ≡ sh.top
      → sh.top < lim
      → (a : ℕ) → a ≤ sh.array
      → get (sh'.arrays a) sh.top ≡ get (sh.arrays a) sh.top
  pub same : sh'.top ≡ sh.top → sh.top < lim → get (current sh') sh.top ≡ get (current sh) sh.top

pub Kept-refl : (sh : Shared) (lim : ℕ) → Kept sh lim sh lim
Kept-refl sh lim = record {
  top_up = omega arith;
  array_up = omega arith;
  limit_up = λ e h. h;
  old = λ e h a le. refl;
  same = λ e h. refl;
}

module _ {sh : Shared} {lim : ℕ} {sh' : Shared} {lim' : ℕ} (k : Kept sh lim sh' lim') where
  still : (t : ℕ) → t ≤ sh.top → sh'.top ≡ t → (sh'.top ≡ sh.top) × (sh.top ≡ t)
  still t le e = omega (arith, k.top_up)

  module _ (t : ℕ) (le : t ≤ sh.top) (room : sh.top ≡ t → t < lim) where
    room-Kept : sh'.top ≡ t → t < lim'
    room-Kept e = let (p, q) = still t le e in omega (arith, k.limit_up p (omega (arith, room q)))

    below : sh.top ≡ t → sh.top < lim
    below q = omega (arith, room q)

    item-Kept : sh'.top ≡ t → get (current sh') t ≡ get (current sh) t
    item-Kept e =
        let (p, q) = still t le e in
        subst (λ u. get (current sh') u ≡ get (current sh) u) q (k.same p (below q))

    old-Kept : (a : ℕ) → a ≤ sh.array → sh'.top ≡ t → get (sh'.arrays a) t ≡ get (sh.arrays a) t
    old-Kept a h e =
        let (p, q) = still t le e in
        subst (λ u. get (sh'.arrays a) u ≡ get (sh.arrays a) u) q (k.old p (below q) a h)

  -- A thief that does not move keeps what it knows.
  pub ThiefOk-Kept : (pc : ThiefPc) → ThiefOk sh lim pc → ThiefOk sh' lim' pc
  ThiefOk-Kept waiting h = tt
  ThiefOk-Kept (got_top t) h = omega (arith, k.top_up)
  ThiefOk-Kept (nonempty t) h = (omega (arith, k.top_up), room-Kept t h.0 h.1)
  ThiefOk-Kept (got_array t a) (le, ar, room, same) = (
    omega (arith, k.top_up),
    omega (arith, k.array_up),
    room-Kept t le room,
    λ e. old-Kept t le room a ar e ∙ same (still t le e).1 ∙ sym (item-Kept t le room e),
  )
  ThiefOk-Kept (got_item t x) (le, room, have) = (
    omega (arith, k.top_up),
    room-Kept t le room,
    λ e. item-Kept t le room e ∙ have (still t le e).1,
  )

-- A change of `top` or `bottom` alone.
pub recount :
    (sh : Shared) (top bottom lim lim' : ℕ)
    → sh.top ≤ top
    → (top ≡ sh.top → sh.top < lim → sh.top < lim')
    → Kept sh lim (record sh { top = top; bottom = bottom }) lim'
recount sh top bottom lim lim' up room = record {
  top_up = up;
  array_up = omega arith;
  limit_up = room;
  old = λ e h a le. refl;
  same = λ e h. refl;
}

-- The numbers in the invariant.
abbrev pub Bounds : ℕ → Shared → OwnerPc → Type 0
Bounds n sh pc =
    (sh.top ≤ limit sh pc) × (limit sh pc - sh.top ≤ length (current sh)) × (limit sh pc ≤ n)

pub assemble :
    {n : ℕ} {sh : Shared} {pc : OwnerPc}
    → IsArray (current sh)
    → Bounds n sh pc
    → OwnerOk sh pc
    → Core n sh pc
assemble v (le, fit, few) own = record {
  sized = v;
  ordered = le;
  fits = fit;
  counted = few;
  own = own;
}
