-- ===== src/PacketData/Encode.antt =====
-- Big-endian groups of bytes, and the bytes of `addVarint` in plain arithmetic.
use grumble.Common.{
  ℕ, suc, ◌+◌, ◌*◌, ◌/◌, ◌%◌, ◌^◌, ◌≤◌, ◌<◌, ◌≡◌, refl, Bool, List, [], ◌∷◌, ◌++◌, append_assoc,
  append-nil, length, All, arith, bit_and,
}
use grumble.Common.Bits.{bit_or_disjoint, bit_and_mask}
use grumble.Common.Bits.Byte.{or_80, or_c0}
use grumble.PacketData.{next_be, prefixed, magnitude_bytes}
use grumble.PacketData.Cursor.{cursor, next-cursor}
use native.Mathlib.Numerals.{towards_suc}

abbrev pub IsByte : ℕ → Type 0
IsByte b = b < 256

abbrev pub be_value : List ℕ → ℕ
be_value [] = 0
be_value (b ∷ bs) = b * 2 ^ (8 * length bs) + be_value bs

pow_bytes : (n : ℕ) → 2 ^ (8 * suc n) ≡ 256 * 2 ^ (8 * n)
pow_bytes n = let e : 8 * suc n ≡ 8 * n + 8 = omega arith in rw e (simp towards_suc (omega arith))

pub be_value-lt : (bs : List ℕ) → All IsByte bs → be_value bs < 2 ^ (8 * length bs)
be_value-lt [] h = omega arith
be_value-lt (b ∷ bs) h =
    let ih = be_value-lt bs h.1 in let p = pow_bytes (length bs) in rw p (grind arith)

pub next_be-cursor :
    (bs pre post : List ℕ) (over : ℕ) (ok : Bool)
    → All IsByte bs
    → next_be (length bs) (cursor pre (bs ++ post) over ok)
      ≡ (be_value bs, cursor (pre ++ bs) post over ok)
unfolding next_be
next_be-cursor [] pre post over ok h = rw append-nil refl
next_be-cursor (b ∷ bs) pre post over ok h =
    let step = next-cursor pre b (bs ++ post) over ok in
    let rest = next_be-cursor bs (pre ++ (b ∷ [])) post over ok h.1 in
    let join = bit_or_disjoint (8 * length bs) b (be_value bs) (be_value-lt bs h.1) in
    rw (step, rest, join, append_assoc pre (b ∷ []) bs) refl

pub prefixed-cursor :
    (v : ℕ) (bs pre post : List ℕ) (over : ℕ) (ok : Bool)
    → All IsByte bs
    → prefixed v (length bs) (cursor pre (bs ++ post) over ok)
      ≡ (v * 2 ^ (8 * length bs) + be_value bs, cursor (pre ++ bs) post over ok)
prefixed-cursor v bs pre post over ok h =
    rw
      (
        next_be-cursor bs pre post over ok h,
        bit_or_disjoint (8 * length bs) v (be_value bs) (be_value-lt bs h),
      )
      refl

-- The low byte of a number.
pub low_byte : (i : ℕ) → bit_and i 0xff ≡ i % 256
low_byte i = bit_and_mask 8 i

-- The values of `magnitude_bytes`, range by range.
pub magnitude_one : (i : ℕ) → i < 0x80 → magnitude_bytes i ≡ i ∷ []
unfolding magnitude_bytes
magnitude_one i h = ground arith

pub magnitude_two :
    (i : ℕ) → 0x80 ≤ i → i < 0x4000 → magnitude_bytes i ≡ (i / 256 + 128) ∷ i % 256 ∷ []
unfolding magnitude_bytes
magnitude_two i l h = ground (arith, or_80 (i / 256), low_byte i)

pub magnitude_three :
    (i : ℕ)
    → 0x4000 ≤ i
    → i < 0x20_0000
    → magnitude_bytes i ≡ (i / 65536 + 192) ∷ i / 256 % 256 ∷ i % 256 ∷ []
unfolding magnitude_bytes
magnitude_three i l h = ground (arith, or_c0 (i / 65536), low_byte i, low_byte (i / 256))

pub magnitude_five :
    (i : ℕ)
    → 0x1000_0000 ≤ i
    → i < 0x1_0000_0000
    → magnitude_bytes i ≡ 0xf0 ∷ i / 16777216 % 256 ∷ i / 65536 % 256 ∷ i / 256 % 256 ∷ i % 256 ∷ []
unfolding magnitude_bytes
magnitude_five i l h =
    ground (arith, low_byte i, low_byte (i / 256), low_byte (i / 65536), low_byte (i / 16777216))

abbrev pub eight_bytes : ℕ → List ℕ
eight_bytes i =
    i / 2 ^ 56 % 256
    ∷ i / 2 ^ 48 % 256
    ∷ i / 2 ^ 40 % 256
    ∷ i / 2 ^ 32 % 256
    ∷ i / 2 ^ 24 % 256
    ∷ i / 2 ^ 16 % 256
    ∷ i / 2 ^ 8 % 256
    ∷ i % 256
    ∷ []

pub magnitude_nine : (i : ℕ) → 0x1_0000_0000 ≤ i → magnitude_bytes i ≡ 0xf4 ∷ eight_bytes i
unfolding magnitude_bytes
magnitude_nine i l =
    rw
      (
        low_byte i,
        low_byte (i / 2 ^ 8),
        low_byte (i / 2 ^ 16),
        low_byte (i / 2 ^ 24),
        low_byte (i / 2 ^ 32),
        low_byte (i / 2 ^ 40),
        low_byte (i / 2 ^ 48),
        low_byte (i / 2 ^ 56),
      )
      (ground arith)

pub eight_bytes_value : (i : ℕ) → i < 2 ^ 64 → be_value (eight_bytes i) ≡ i
eight_bytes_value i h = omega arith
