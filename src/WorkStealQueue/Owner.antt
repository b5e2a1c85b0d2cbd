-- ===== src/WorkStealQueue/Owner.antt =====
-- A step of the owner, in `push` or `pop`, keeps the invariant.
use asyncplusplus.Prelude.{
  ℕ, suc, ◌+◌, ◌-◌, ◌*◌, ◌≤◌, ◌<◌, ◌^◌, ◌≡◌, ◌≢◌, refl, sym, ap, ◌∙◌, List, length, arith, some,
  update, update_self, update_ne, ℕ_discrete,
}
use mathlib.Core.Path.{subst}
use asyncplusplus.Word.{add_size, sub_size, mul_size, IsPow2-pos}
use asyncplusplus.Memory.{Memory}
use asyncplusplus.WorkStealQueue.Signed.{not_empty→lt, is_negative→lt, not_negative→le, not_full→lt}
use asyncplusplus.WorkStealQueue.Array.{
  get, put, grow, copy_range, IsArray, length-put, put-IsArray, get-put_self, get-put_before,
  length-grow, grow-IsArray, get-grow,
}
use asyncplusplus.WorkStealQueue.Deque.{Event, pushes}
use asyncplusplus.WorkStealQueue.Moves.{
  Shared, current, OwnerPc, pushing, copying, placing, publishing, OwnerMove, load_top, allocate,
  copy_one, switch, throw, enough, place, publish, give_up, go_on, claim, too_late, take, take_last,
  win, lose, restore,
}
use asyncplusplus.WorkStealQueue.Inv.{limit, Filled, Core, Kept, Kept-refl, recount, assemble}

-- The new array, when `grow` has allocated it: it will be filled.
module _ (m : Memory) {n : ℕ} (sh : Shared) {x : ℕ} (b t : ℕ) (xs : List ℕ)
    (c : Core n sh (pushing x b t)) (got : m.alloc (mul_size (length (current sh)) 2) ≡ some xs)
    (small : n < 2 ^ 62) where
  doubled : (length xs ≡ length (current sh) * 2) × (length xs ≤ 2 ^ 60)
  doubled = omega (arith, m.alloc_sized (mul_size (length (current sh)) 2) xs got, c.sized.small)

  below : t ≤ b
  below = omega (arith, c.own, c.ordered)

  rounds : sub_size b t ≡ b - t
  rounds = omega (arith, below, c.own, c.counted)

  grow-copy_range : grow (current sh) t b xs ≡ copy_range (current sh) (b - t) t xs
  unfolding grow
  grow-copy_range = ap (λ k. copy_range (current sh) k t xs) rounds

  allocate-Core : Core (n + 0) sh (copying x b t xs)
  allocate-Core = record {
    sized = c.sized;
    ordered = c.ordered;
    fits = c.fits;
    counted = omega (arith, c.counted);
    own = (
      c.own.0,
      omega (arith, below),
      omega (arith, c.own),
      subst (Filled sh b) grow-copy_range (
        grow-IsArray c.sized t b xs doubled.0 doubled.1,
        length-grow c.sized t b xs doubled.0,
        λ j le lt.
            get-grow c.sized t b xs doubled.0 doubled.1 (omega (arith, c.own, c.counted))
              (omega (arith, c.own, doubled)) j (omega (arith, c.own, le)) lt,
      ),
    );
  }

-- An iteration of the loop leaves what the new array will be.
copy_one-Core :
    {n : ℕ} (sh : Shared) (x b i : ℕ) (new : List ℕ)
    → n < 2 ^ 62
    → Core n sh (copying x b i new)
    → i ≢ b
    → Core (n + 0) sh (copying x b (add_size i 1) (put new i (get (current sh) i)))
unfolding copy_range
copy_one-Core {n} sh x b i new small c ne = record {
  sized = c.sized;
  ordered = c.ordered;
  fits = c.fits;
  counted = omega (arith, c.counted);
  own = (
    c.own.0,
    omega (arith, le, ne, c.own.0, c.counted),
    omega (arith, c.own.2, left),
    subst (λ k. Filled sh b (copy_range (current sh) k i new)) left c.own.3,
  );
}
  where
    le : i ≤ b
    le = c.own.1

    left : b - i ≡ suc (b - add_size i 1)
    left = omega (arith, le, ne, c.own.0, c.counted)

-- The new array takes the place of the old one.
module _ {n : ℕ} (sh : Shared) (x b i : ℕ) (new : List ℕ) (c : Core n sh (copying x b i new))
    (done : i ≡ b) where
  filled : Filled sh b new
  unfolding copy_range
  filled =
      let none_left : b - i ≡ 0 = omega (arith, done) in
      subst (λ k. Filled sh b (copy_range (current sh) k i new)) none_left c.own.3

  abbrev grown : Shared
  grown = record sh { arrays = update sh.arrays (sh.array + 1) new; array = sh.array + 1 }

  current-grown : current grown ≡ new
  current-grown = update_self sh.arrays (sh.array + 1) new

  length-grown : length (current grown) ≡ length (current sh) * 2
  length-grown = ap length current-grown ∙ filled.1

  pub get-grown : (j : ℕ) → sh.top ≤ j → j < sh.bottom → get (current grown) j ≡ get (current sh) j
  get-grown j le lt = ap (λ a. get a j) current-grown ∙ filled.2 j le (omega (arith, c.own.0, lt))

  switch-Core : Core (n + 0) grown (placing x b)
  switch-Core = record {
    sized = subst IsArray (sym current-grown) filled.0;
    ordered = c.ordered;
    fits = omega (arith, c.fits, length-grown);
    counted = omega (arith, c.counted);
    own = (
      c.own.0,
      omega (arith, c.fits, length-grown, IsPow2-pos (length (current sh)) c.sized.pow2),
    );
  }

  switch-Kept : Kept sh sh.bottom grown sh.bottom
  switch-Kept = record {
    top_up = omega arith;
    array_up = omega arith;
    limit_up = λ e h. h;
    old = λ e h a le. ap (λ l. get l sh.top) (update_ne sh.arrays (sh.array + 1) a _ (omega arith));
    same = λ e h. get-grown sh.top (omega arith) h;
  }

-- The slot that `put` fills is none of those in use.
module _ {n : ℕ} (sh : Shared) (x b : ℕ) (c : Core n sh (placing x b)) where
  abbrev placed : Shared
  placed = record sh { arrays = update sh.arrays sh.array (put (current sh) b x) }

  current-placed : current placed ≡ put (current sh) b x
  current-placed = update_self sh.arrays sh.array (put (current sh) b x)

  pub get-placed :
      (i : ℕ) → sh.top ≤ i → i < sh.bottom → get (current placed) i ≡ get (current sh) i
  get-placed i le lt =
      ap (λ a. get a i) current-placed
      ∙ get-put_before c.sized i b x (omega (arith, c.own)) (omega (arith, c.own))

  length-placed : length (current placed) ≡ length (current sh)
  length-placed = ap length current-placed ∙ length-put (current sh) b x

  place-Core : Core (n + 0) placed (publishing x b)
  place-Core = record {
    sized = rw current-placed (put-IsArray b x c.sized);
    ordered = c.ordered;
    fits = omega (arith, c.fits, length-placed);
    counted = omega (arith, c.counted);
    own = (
      c.own.0,
      omega (arith, c.own, length-placed),
      ap (λ a. get a b) current-placed ∙ get-put_self c.sized b x,
    );
  }

  get-array-placed :
      (a i : ℕ) → sh.top ≤ i → i < sh.bottom → get (placed.arrays a) i ≡ get (sh.arrays a) i
  get-array-placed a i le lt = elim (ℕ_discrete sh.array a) [
    | yes e ↦ subst (λ k. get (placed.arrays k) i ≡ get (sh.arrays k) i) e (get-placed i le lt)
    | no ne ↦ ap (λ l. get l i) (update_ne sh.arrays sh.array a _ ne)
  ]

  place-Kept : Kept sh sh.bottom placed sh.bottom
  place-Kept = record {
    top_up = omega arith;
    array_up = omega arith;
    limit_up = λ e h. h;
    old = λ e h a le. get-array-placed a sh.top (omega arith) h;
    same = λ e h. get-placed sh.top (omega arith) h;
  }

-- A step of the owner keeps the invariant of the members.
pub OwnerMove-Core :
    {m : Memory} {n : ℕ} {sh sh' : Shared} {pc pc' : OwnerPc} {e : Event}
    → n < 2 ^ 62
    → Core n sh pc
    → OwnerMove m sh pc e sh' pc'
    → Core (n + pushes e) sh' pc'
OwnerMove-Core small c (load_top x) = assemble c.sized (omega arith) (omega arith)
OwnerMove-Core {m} {sh = sh} small c (allocate {x} {b} {t} xs full got) =
    allocate-Core m sh b t xs c got small
OwnerMove-Core {sh = sh} small c (copy_one {x} {b} {i} {new} ne) =
    copy_one-Core sh x b i new small c ne
OwnerMove-Core {sh = sh} small c (switch {x} {b} {i} {new} done) = switch-Core sh x b i new c done
OwnerMove-Core small c (throw full thrown) = assemble c.sized (omega arith) tt
OwnerMove-Core {sh = sh} small c (enough {x} {b} {t} room) =
    assemble c.sized (omega arith) (omega (arith, lt))
  where
    lt : b - t < length (current sh)
    lt = not_full→lt (length (current sh)) b t (omega arith) (omega arith) (omega arith) room
OwnerMove-Core {sh = sh} small c (place {x} {b}) = place-Core sh x b c
OwnerMove-Core small c publish = assemble c.sized (omega arith) tt
OwnerMove-Core small c (give_up empty) = assemble c.sized (omega arith) tt
OwnerMove-Core {sh = sh} small c (go_on more) =
    assemble c.sized (omega arith)
      (omega (arith, not_empty→lt sh.bottom sh.top (omega arith) (omega arith) more))
OwnerMove-Core small c claim = assemble c.sized (omega arith) refl
OwnerMove-Core {sh = sh} small c (too_late {b} late) =
    assemble c.sized (omega arith)
      (omega (arith, is_negative→lt b sh.top (omega arith) (omega arith) late))
OwnerMove-Core {sh = sh} small c (take {b} early ne) =
    assemble c.sized (omega (arith, not_negative→le b sh.top (omega arith) (omega arith) early)) tt
OwnerMove-Core small c (take_last early e) =
    assemble c.sized (omega arith) (c.own, e, omega arith, refl)
OwnerMove-Core small c (win e) = assemble c.sized (omega arith) (omega arith)
OwnerMove-Core small c (lose ne) = assemble c.sized (omega arith) (omega arith)
OwnerMove-Core small c restore = assemble c.sized (omega arith) tt

-- A step of the owner leaves alone what a thief relies on.
pub OwnerMove-Kept :
    {m : Memory} {n : ℕ} {sh sh' : Shared} {pc pc' : OwnerPc} {e : Event}
    → n < 2 ^ 62
    → Core n sh pc
    → OwnerMove m sh pc e sh' pc'
    → Kept sh (limit sh pc) sh' (limit sh' pc')
OwnerMove-Kept {sh = sh} small c (allocate xs full got) = Kept-refl sh sh.bottom
OwnerMove-Kept {sh = sh} small c (copy_one ne) = Kept-refl sh sh.bottom
OwnerMove-Kept {sh = sh} small c (switch {x} {b} {i} {new} done) = switch-Kept sh x b i new c done
OwnerMove-Kept {sh = sh} small c (place {x} {b}) = place-Kept sh x b c
OwnerMove-Kept {sh = sh} small c (load_top x) = Kept-refl sh sh.bottom
OwnerMove-Kept {sh = sh} small c (throw full thrown) = Kept-refl sh sh.bottom
OwnerMove-Kept {sh = sh} small c (enough room) = Kept-refl sh sh.bottom
OwnerMove-Kept {sh = sh} small c (publish {x} {b}) =
    recount sh sh.top (add_size b 1) _ _ (omega arith) (λ e h. omega arith)
OwnerMove-Kept {sh = sh} small c (give_up empty) = Kept-refl sh sh.bottom
OwnerMove-Kept {sh = sh} small c (go_on more) = Kept-refl sh sh.bottom
OwnerMove-Kept {sh = sh} small c (claim {b}) =
    recount sh sh.top (sub_size b 1) _ _ (omega arith) (λ e h. omega arith)
OwnerMove-Kept {sh = sh} small c (too_late {b} late) = Kept-refl sh (suc b)
OwnerMove-Kept {sh = sh} small c (take {b} early ne) =
    recount sh sh.top sh.bottom _ _ (omega arith)
      (λ e h. omega (arith, not_negative→le b sh.top (omega arith) (omega arith) early))
OwnerMove-Kept {sh = sh} small c (take_last {b} early e) = Kept-refl sh (suc b)
OwnerMove-Kept {sh = sh} small c (win {b} {t} e) =
    recount sh (add_size t 1) sh.bottom _ _ (omega arith) (λ p h. h)
OwnerMove-Kept {sh = sh} small c (lose {b} ne) = Kept-refl sh (suc b)
OwnerMove-Kept {sh = sh} small c (restore {b}) =
    recount sh sh.top (add_size b 1) _ _ (omega arith) (λ e h. omega arith)
