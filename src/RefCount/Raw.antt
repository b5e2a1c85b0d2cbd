-- ===== src/RefCount/Raw.antt =====
-- References that plain pointers own: objects are made with them, and `add_ref` and `remove_ref` are
-- called on them, as `when_all` does.
use asyncplusplus.Prelude.{
  ℕ, ◌+◌, ◌-◌, ◌≤◌, ◌<◌, ◌^◌, ◌≡◌, ◌≢◌, ◌∷◌, sym, ap, ◌∙◌, update, update_self, update_ne, arith,
  ℕ_discrete,
}
use asyncplusplus.Prelude.Count.{count}
use asyncplusplus.Prelude.Among.{same, same_self, eq-true, eq-false}
use asyncplusplus.Word.{add_size, sub_size}
use asyncplusplus.RefCount.{Heap, add_ref, remove_ref, add_ref_unlocked, construct}
use asyncplusplus.RefCount.Counts.{Inv, owners}

-- Plain pointers own `count` references to `p`, more or less.
abbrev pub set_raw : Heap → ℕ → ℕ → Heap
set_raw h p count = record h { raw = update h.raw p count }

-- The count of `p` and the references of plain pointers to it change, and `p` is not deleted.
Inv-raw :
    {n : ℕ} (h : Heap) (p c k : ℕ)
    → p ≢ 0
    → c ≡ owners n h p + k
    → c < 2 ^ 64
    → count p h.deleted ≡ 0
    → Inv n h
    → Inv n (record h { ref_count = update h.ref_count p c; raw = update h.raw p k })
Inv-raw {n} h p c k ne e small live v = record {
  counted = λ r z. elim (ℕ_discrete p r) [
    | yes q ↦
        ap (update h.ref_count p c) (sym q)
        ∙ update_self h.ref_count p c
        ∙ e
        ∙ omega (arith, ap (owners n h) q, ap (update h.raw p k) q, update_self h.raw p k)
    | no d ↦ omega (arith, update_ne h.ref_count p r c d, update_ne h.raw p r k d, v.counted r z)
  ];
  bounded = λ r. elim (ℕ_discrete p r) [
    | yes q ↦ omega (arith, ap (update h.ref_count p c) q, update_self h.ref_count p c, small)
    | no d ↦ omega (arith, update_ne h.ref_count p r c d, v.bounded r)
  ];
  once = v.once;
  gone = λ r dead. elim (ℕ_discrete p r) [
    | yes q ↦ absurd (omega (arith, dead, live, ap (λ k. count k h.deleted) q))
    | no d ↦ update_ne h.ref_count p r c d ∙ v.gone r dead
  ];
}

-- A count that is not 0 is that of an object which has not been deleted.
counted_alive : {n : ℕ} (h : Heap) (p : ℕ) → 1 ≤ h.ref_count p → Inv n h → count p h.deleted ≡ 0
counted_alive h p pos v = elim (ℕ_discrete (count p h.deleted) 0) [
  | yes e ↦ e
  | no ne ↦ absurd (omega (arith, v.gone p (omega arith), pos))
]

pub construct_lem :
    {n : ℕ} (h : Heap) (p count_ : ℕ)
    → p ≢ 0
    → count_ < 2 ^ 64
    → owners n h p ≡ 0
    → count p h.deleted ≡ 0
    → Inv n h
    → Inv n (construct h p count_)
unfolding construct
construct_lem h p c ne small none_yet live v = Inv-raw h p c c ne (omega arith) small live v

pub add_ref_lem :
    {n : ℕ} (h : Heap) (p k : ℕ)
    → p ≢ 0
    → 1 ≤ h.ref_count p
    → h.ref_count p + k < 2 ^ 64
    → Inv n h
    → Inv n (set_raw (add_ref h p k) p (h.raw p + k))
unfolding add_ref
add_ref_lem h p k ne pos room v =
    Inv-raw h p (add_size (h.ref_count p) k) (h.raw p + k) ne (omega (arith, v.counted p ne))
      (omega arith) (counted_alive h p pos v) v

pub add_ref_unlocked_lem :
    {n : ℕ} (h : Heap) (p : ℕ)
    → p ≢ 0
    → 1 ≤ h.ref_count p
    → h.ref_count p + 1 < 2 ^ 64
    → Inv n h
    → Inv n (set_raw (add_ref_unlocked h p) p (h.raw p + 1))
unfolding add_ref_unlocked
add_ref_unlocked_lem h p ne pos room v =
    Inv-raw h p (add_size (h.ref_count p) 1) (h.raw p + 1) ne (omega (arith, v.counted p ne))
      (omega arith) (counted_alive h p pos v) v

-- The object has lost its last reference, and is deleted.
Inv-deleted :
    {n : ℕ} (h : Heap) (p : ℕ)
    → h.ref_count p ≡ 0
    → count p h.deleted ≡ 0
    → Inv n h
    → Inv n (record h { deleted = p ∷ h.deleted })
unfolding count
Inv-deleted h p e live v = record {
  counted = v.counted;
  bounded = v.bounded;
  once = λ r. elim (ℕ_discrete r p) [
    | yes q ↦ omega (arith, ap (same r) (sym q), same_self r, ap (λ k. count k h.deleted) q, live)
    | no d ↦ rw (eq-false d) (omega (arith, v.once r))
  ];
  gone = λ r dead. elim (ℕ_discrete r p) [
    | yes q ↦ ap h.ref_count q ∙ e
    | no d ↦ v.gone r (ground (arith, dead, d))
  ];
}

pub remove_ref_lem :
    {n : ℕ} (h : Heap) (p k : ℕ)
    → p ≢ 0
    → 1 ≤ k
    → k ≤ h.raw p
    → Inv n h
    → Inv n (set_raw (remove_ref h p k) p (h.raw p - k))
unfolding remove_ref
remove_ref_lem {n} h p k ne pos le v =
    let c = v.counted p ne in
    let live = counted_alive h p (omega arith) v in
    let lower =
      Inv-raw h p (sub_size (h.ref_count p) k) (h.raw p - k) ne (omega (arith, c, v.bounded p))
        (omega (arith, v.bounded p)) live v in
    elim (ℕ_discrete (h.ref_count p) k) [
      | yes last ↦ rw (eq-true last) (
          Inv-deleted
            (record h {
              ref_count = update h.ref_count p (sub_size (h.ref_count p) k);
              raw = update h.raw p (h.raw p - k);
            })
            p
            (update_self h.ref_count p (sub_size (h.ref_count p) k)
              ∙ omega (arith, last, v.bounded p))
            live lower)
      | no more ↦ rw (eq-false more) lower
    ]
