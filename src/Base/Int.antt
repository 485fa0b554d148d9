-- ===== src/Base/Int.antt =====
-- Signed integers over the native numbers, under the library's names, and the conversion to the
-- C type `int`.
use pecl_eio.Base.{
  ℕ, ◌+◌, ◌-◌, ◌*◌, ◌%◌, ◌^◌, ◌<◌, ◌≡◌, refl, Bool, true, false, arith, ltb, if◌then◌else◌,
}

-- `negsuc n` is -(n + 1).
pub data ℤ : Type 0 where
  pos : ℕ → ℤ
  negsuc : ℕ → ℤ

abbrev pub is_neg : ℤ → Bool
is_neg (pos n) = false
is_neg (negsuc n) = true

-- Two's complement: the integer that a 32-bit pattern stands for.
abbrev pub signed32 : ℕ → ℤ
signed32 m = if ltb m (2 ^ 31) then pos m else negsuc (2 ^ 32 - 1 - m)

-- `(int) z`
unfoldable pub to_int32 : ℤ → ℤ
to_int32 (pos n) = signed32 (n % 2 ^ 32)
to_int32 (negsuc n) = signed32 (2 ^ 32 - 1 - n % 2 ^ 32)

-- The bit pattern of `z` in `w` bits, as an unsigned number: `(uid_t) z`, `(size_t) z`.
unfoldable pub to_uint : ℕ → ℤ → ℕ
to_uint w (pos n) = n % 2 ^ w
to_uint w (negsuc n) = 2 ^ w - 1 - n % 2 ^ w

-- A number below 2^31 is its own `int`.
pub to_int32-pos : (n : ℕ) → n < 2 ^ 31 → to_int32 (pos n) ≡ pos n
unfolding to_int32
to_int32-pos n h = ground arith

-- A number of 64 bits loses its upper half.
pub to_int32-alias : (n k : ℕ) → to_int32 (pos (n + k * 2 ^ 32)) ≡ to_int32 (pos n)
unfolding to_int32
to_int32-alias n k = rw alias refl
  where
    alias : (n + k * 2 ^ 32) % 2 ^ 32 ≡ n % 2 ^ 32
    alias = omega arith
