-- ===== src/Memory/Bitmap.antt =====
-- The macros `setavl`, `unavl` and `isavl` of kernel/memory.c, over a byte array in memory.
use chouryos.Base.{
  ℕ, ◌+◌, ◌-◌, ◌*◌, ◌/◌, ◌%◌, ◌^◌, ◌<◌, bit_and, bit_or, ◌≡◌, refl, Bool, true, false, not, arith,
  ◌==◌, if◌then◌else◌, u8, ◌<<<◌, ◌>>>◌, update, ltb, leb, ◌&&◌, Bool-cases, inl, inr,
}
use chouryos.Base.Bits.{holds_below, holds_below_at, zero-bit_and}

-- An array of `uint8`, by its index.
abbrev pub Bytes : Type 0
Bytes = ℕ → ℕ

-- What the type `uint8` promises of every element.
abbrev pub IsBytes : Bytes → Type 0
IsBytes m = (i : ℕ) → m i < 256

unfoldable pub setavl : Bytes → ℕ → Bytes
setavl m x = update m (x >>> 3) (u8 (bit_or (m (x >>> 3)) (1 <<< (x % 8))))

-- `~` is the complement of an `int`, and the assignment cuts the result to a byte.
unfoldable pub unavl : Bytes → ℕ → Bytes
unavl m x = update m (x >>> 3) (u8 (bit_and (m (x >>> 3)) (2 ^ 32 - 1 - 1 <<< (x % 8))))

-- A bit test as a condition: true where the masked byte is not 0.
unfoldable pub isavl : Bytes → ℕ → Bool
isavl m x = not (bit_and (m (x >>> 3)) (1 <<< (x % 8)) == 0)

-- `memset` of the first `n` bytes to `v`.
abbrev pub memset : ℕ → ℕ → Bytes → Bytes
memset n v m i = if ltb i n then v else m i

same : Bool → Bool → Bool
same true b = b
same false b = not b

same_sound : (a b : Bool) → same a b ≡ true → a ≡ b
unfolding same
same_sound a b h = ground arith

-- One byte: what setting or clearing bit `j` does to bit `k`.
bit : ℕ → ℕ → Bool
bit b k = not (bit_and b (1 <<< k) == 0)

set_row : ℕ → Bool
set_row n =
    let b = n / 64 in
    let j = n / 8 % 8 in
    let k = n % 8 in same (bit (u8 (bit_or b (1 <<< j))) k) (if j == k then true else bit b k)

unset_row : ℕ → Bool
unset_row n =
    let b = n / 64 in
    let j = n / 8 % 8 in
    let k = n % 8 in
    same (bit (u8 (bit_and b (2 ^ 32 - 1 - 1 <<< j))) k) (if j == k then false else bit b k)

set_table : holds_below 16384 set_row ≡ true
unfolding holds_below set_row same bit
set_table = refl

unset_table : holds_below 16384 unset_row ≡ true
unfolding holds_below unset_row same bit
unset_table = refl

module _ (b j k : ℕ) (hb : b < 256) (hj : j < 8) (hk : k < 8) where
  row_at :
      (n : ℕ)
      → n / 64 ≡ b
      → n / 8 % 8 ≡ j
      → n % 8 ≡ k
      → n < 16384
      → (bit (u8 (bit_or b (1 <<< j))) k ≡ (if j == k then true else bit b k))
        × (bit (u8 (bit_and b (2 ^ 32 - 1 - 1 <<< j))) k ≡ (if j == k then false else bit b k))
  unfolding set_row unset_row
  row_at n eb ej ek h =
      rw (← eb, ← ej, ← ek)
        (
          same_sound _ _ (holds_below_at 16384 set_row n set_table h),
          same_sound _ _ (holds_below_at 16384 unset_row n unset_table h),
        )

  bit_set : bit (u8 (bit_or b (1 <<< j))) k ≡ (if j == k then true else bit b k)
  bit_set = (row_at (b * 64 + j * 8 + k) (omega arith) (omega arith) (omega arith) (omega arith)).0

  bit_unset : bit (u8 (bit_and b (2 ^ 32 - 1 - 1 <<< j))) k ≡ (if j == k then false else bit b k)
  bit_unset =
      (row_at (b * 64 + j * 8 + k) (omega arith) (omega arith) (omega arith) (omega arith)).1

module _ (m : Bytes) (x y : ℕ) (hm : IsBytes m) where
  -- Setting the bit of `x` makes `x` available and leaves every other number alone.
  pub isavl-setavl : isavl (setavl m x) y ≡ (if x == y then true else isavl m y)
  unfolding isavl setavl bit
  isavl-setavl =
      ground (arith, bit_set (m (x / 8)) (x % 8) (y % 8) (hm (x / 8)) (omega arith) (omega arith))

  pub isavl-unavl : isavl (unavl m x) y ≡ (if x == y then false else isavl m y)
  unfolding isavl unavl bit
  isavl-unavl =
      ground (arith, bit_unset (m (x / 8)) (x % 8) (y % 8) (hm (x / 8)) (omega arith) (omega arith))

pub setavl-IsBytes : (m : Bytes) (x : ℕ) → IsBytes m → IsBytes (setavl m x)
unfolding setavl
setavl-IsBytes m x hm i = ground (arith, hm i)

pub unavl-IsBytes : (m : Bytes) (x : ℕ) → IsBytes m → IsBytes (unavl m x)
unfolding unavl
unavl-IsBytes m x hm i = ground (arith, hm i)

pub isavl-memset : (n : ℕ) (m : Bytes) (j : ℕ) → isavl (memset n 0 m) j ≡ leb (n * 8) j && isavl m j
unfolding isavl
isavl-memset n m j = elim (Bool-cases (ltb (j / 8) n)) [
  | inl h ↦ rw (h, zero-bit_and) (ground arith)
  | inr h ↦ rw h (ground arith)
]

pub memset-IsBytes : (n : ℕ) (m : Bytes) → IsBytes m → IsBytes (memset n 0 m)
memset-IsBytes n m hm i = ground (arith, hm i)

ones_row : ℕ → Bool
ones_row k = bit 0xff k

ones_table : holds_below 8 ones_row ≡ true
unfolding holds_below ones_row bit
ones_table = refl

bit-ones : (k : ℕ) → k < 8 → bit 0xff k ≡ true
unfolding ones_row
bit-ones k h = holds_below_at 8 ones_row k ones_table h

pub isavl-memset_ones :
    (n : ℕ) (m : Bytes) (j : ℕ)
    → isavl (memset n 0xff m) j ≡ (if ltb j (n * 8) then true else isavl m j)
unfolding isavl bit
isavl-memset_ones n m j = elim (Bool-cases (ltb (j / 8) n)) [
  | inl h ↦ rw h (ground (arith, bit-ones (j % 8) (omega arith)))
  | inr h ↦ rw h (ground arith)
]
