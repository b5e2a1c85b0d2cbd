-- ===== src/ContinuationVector/CompressedPtr.antt =====
-- `compressed_ptr<3, true>` of include/async++/continuation_vector.h: two flags in the low bits of a
-- pointer whose target is aligned to at least 4 bytes.
use asyncplusplus.Prelude.{
  ℕ, ◌+◌, ◌-◌, ◌%◌, ◌<◌, ◌^◌, ◌≡◌, ap, ◌∙◌, arith, bit_and, bit_or, bit_or_flags, bit_and_flags,
  bit_and_clear,
}
use asyncplusplus.Word.{size_mod}

abbrev pub flags_mask : ℕ
flags_mask = 3

-- `~Mask`
abbrev pub not_mask : ℕ
not_mask = size_mod - 1 - flags_mask

-- The constructor, which gives the one member, `data`.
unfoldable pub compressed_ptr : ℕ → ℕ → ℕ
compressed_ptr ptr flags = bit_or ptr flags

unfoldable pub get_ptr : ℕ → ℕ
get_ptr data_ = bit_and data_ not_mask

unfoldable pub get_flags : ℕ → ℕ
get_flags data_ = bit_and data_ flags_mask

unfoldable pub set_ptr : ℕ → ℕ → ℕ
set_ptr data_ p = bit_or p (bit_and data_ flags_mask)

unfoldable pub set_flags : ℕ → ℕ → ℕ
set_flags data_ f = bit_or (bit_and data_ not_mask) f

-- An address that a `compressed_ptr` can hold, and flags that fit beside it.
abbrev pub IsAligned : ℕ → Type 0
IsAligned p = (p % 4 ≡ 0) × (p < 2 ^ 64)

abbrev pub IsFlags : ℕ → Type 0
IsFlags f = f < 4

compressed_ptr-sum : (p f : ℕ) → IsAligned p → IsFlags f → compressed_ptr p f ≡ p + f
unfolding compressed_ptr
compressed_ptr-sum p f h k = bit_or_flags p f h.0 k

get_ptr-clear : (d : ℕ) → d < 2 ^ 64 → get_ptr d ≡ d - d % 4
unfolding get_ptr
get_ptr-clear d h = bit_and_clear d h

get_flags-mod : (d : ℕ) → get_flags d ≡ d % 4
unfolding get_flags
get_flags-mod d = bit_and_flags d

-- A pointer and flags are read back as they were stored.
pub get-compressed_ptr :
    (p f : ℕ)
    → IsAligned p
    → IsFlags f
    → (get_ptr (compressed_ptr p f) ≡ p) × (get_flags (compressed_ptr p f) ≡ f)
get-compressed_ptr p f h k =
    let sum = compressed_ptr-sum p f h k in
    (
      ap get_ptr sum ∙ omega (arith, get_ptr-clear (p + f) (omega arith)),
      ap get_flags sum ∙ omega (arith, get_flags-mod (p + f)),
    )

-- `set_ptr` stores the pointer and leaves the flags; `set_flags` stores the flags and leaves the
-- pointer. So the `set_flags` of `flush_and_lock` only adds the lock flag.
pub get-set :
    (p q f g : ℕ)
    → IsAligned p
    → IsAligned q
    → IsFlags f
    → IsFlags g
    → (set_ptr (compressed_ptr p f) q ≡ compressed_ptr q f)
      × (set_flags (compressed_ptr p f) g ≡ compressed_ptr p g)
unfolding set_ptr set_flags compressed_ptr get_ptr get_flags
get-set p q f g a b k l =
    let (ptr, flags) = get-compressed_ptr p f a k in (ap (bit_or q) flags, ap (λ u. bit_or u g) ptr)

-- A pointer and flags are read back as they were stored, and each can be set without the other.
pub get-set-get :
    (p q f g : ℕ)
    → IsAligned p
    → IsAligned q
    → IsFlags f
    → IsFlags g
    → (get_ptr (compressed_ptr p f) ≡ p)
      × (get_flags (compressed_ptr p f) ≡ f)
      × (set_ptr (compressed_ptr p f) q ≡ compressed_ptr q f)
      × (set_flags (compressed_ptr p f) g ≡ compressed_ptr p g)
get-set-get p q f g a b k l =
    let (ptr, flags) = get-compressed_ptr p f a k in
    let (new_ptr, new_flags) = get-set p q f g a b k l in (ptr, flags, new_ptr, new_flags)

-- Two of them are the same word only if they hold the same pointer and flags, so the
-- compare-exchange of that word compares both.
pub compressed_ptr-injective :
    (p q f g : ℕ)
    → IsAligned p
    → IsAligned q
    → IsFlags f
    → IsFlags g
    → compressed_ptr p f ≡ compressed_ptr q g
    → (p ≡ q) × (f ≡ g)
compressed_ptr-injective p q f g a b k l e =
    omega (arith, compressed_ptr-sum p f a k, compressed_ptr-sum q g b l)
