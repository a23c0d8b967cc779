-- ===== src/PacketData/Floats.antt =====
-- Floats in a buffer (PutFloat32, GetFloat32, PutFloat64, GetFloat64), and the widths of integers.
use grumble.Common.{
  ℕ, ◌/◌, ◌%◌, ◌^◌, ◌<◌, ◌≡◌, refl, ap, ◌∙◌, Bool, false, List, [], ◌∷◌, ◌++◌, some, length,
  length-append, ◌⊎◌, inl, inr, All, arith, ltb, ◌≤◌,
}
use native.Mathlib.Nat.{mod-eq_of_lt}
use grumble.PacketData.{
  PacketData, add_varint, append_all, left, put_int, sign_extended, put_float32, put_float64,
  get_float, get_uint, varint_bytes,
}
use grumble.PacketData.Cursor.{cursor, append_all-cursor}
use grumble.PacketData.Encode.{
  IsByte, be_value, next_be-cursor, low_byte, eight_bytes, eight_bytes_value,
}
use grumble.PacketData.RoundTrip.{rewind, IsFaithful, get_varint-add_varint}

abbrev four_bytes : ℕ → List ℕ
four_bytes i = i / 2 ^ 24 % 256 ∷ i / 2 ^ 16 % 256 ∷ i / 2 ^ 8 % 256 ∷ i % 256 ∷ []

put_float32_bytes :
    (bits : ℕ) (pds : PacketData) → put_float32 bits pds ≡ append_all (four_bytes bits) pds
unfolding put_float32
put_float32_bytes bits pds =
    rw (low_byte bits, low_byte (bits / 2 ^ 8), low_byte (bits / 2 ^ 16), low_byte (bits / 2 ^ 24))
      refl

put_float64_bytes :
    (bits : ℕ) (pds : PacketData) → put_float64 bits pds ≡ append_all (eight_bytes bits) pds
unfolding put_float64
put_float64_bytes bits pds =
    rw
      (
        low_byte bits,
        low_byte (bits / 2 ^ 8),
        low_byte (bits / 2 ^ 16),
        low_byte (bits / 2 ^ 24),
        low_byte (bits / 2 ^ 32),
        low_byte (bits / 2 ^ 40),
        low_byte (bits / 2 ^ 48),
        low_byte (bits / 2 ^ 56),
      )
      refl

not_short : (n k : ℕ) → k ≤ n → ltb n k ≡ false
not_short n k h = ground arith

get_float-cursor :
    (bytes pre post : List ℕ) (over : ℕ) (ok : Bool)
    → All IsByte bytes
    → get_float (length bytes) (cursor pre (bytes ++ post) over ok)
      ≡ (be_value bytes, cursor (pre ++ bytes) post over ok)
unfolding get_float
get_float-cursor bytes pre post over ok b =
    let room : length bytes ≤ left (cursor pre (bytes ++ post) over ok) =
      omega (arith, length-append bytes post) in
    rw (not_short (left (cursor pre (bytes ++ post) over ok)) (length bytes) room)
      (next_be-cursor bytes pre post over ok b)

-- Bytes that were appended are read back as the number that they spell.
get_float-append_all :
    (bytes pre room post : List ℕ) (over : ℕ) (ok : Bool)
    → length room ≡ length bytes
    → All IsByte bytes
    → let written = append_all bytes (cursor pre (room ++ post) over ok) in
      get_float (length bytes) (record written { offset = length pre }) ≡ (be_value bytes, written)
get_float-append_all bytes pre room post over ok h b =
    let put = append_all-cursor bytes pre room post over ok h b in
    rw put (
      ap (get_float (length bytes)) (rewind pre bytes post over ok)
      ∙ get_float-cursor bytes pre post over ok b)

-- With room for its eight bytes, the bits of a float64 that are put are the bits that are got from
-- the old offset, and the state after getting is that after putting.
pub get_float-put_float64 :
    (bits : ℕ) (pre room post : List ℕ) (over : ℕ) (ok : Bool)
    → bits < 2 ^ 64
    → length room ≡ 8
    → let written = put_float64 bits (cursor pre (room ++ post) over ok) in
      get_float 8 (record written { offset = length pre }) ≡ (bits, written)
get_float-put_float64 bits pre room post over ok p h =
    let e = put_float64_bytes bits (cursor pre (room ++ post) over ok) in
    let r = get_float-append_all (eight_bytes bits) pre room post over ok h (omega arith) in
    rw e (rw (eight_bytes_value bits p) at r)

four_bytes_value : (i : ℕ) → i < 2 ^ 32 → be_value (four_bytes i) ≡ i
four_bytes_value i h = omega arith

-- With room for its four bytes, the bits of a float32 that are put are the bits that are got from
-- the old offset, and the state after getting is that after putting.
pub get_float-put_float32 :
    (bits : ℕ) (pre room post : List ℕ) (over : ℕ) (ok : Bool)
    → bits < 2 ^ 32
    → length room ≡ 4
    → let written = put_float32 bits (cursor pre (room ++ post) over ok) in
      get_float 4 (record written { offset = length pre }) ≡ (bits, written)
get_float-put_float32 bits pre room post over ok p h =
    let e = put_float32_bytes bits (cursor pre (room ++ post) over ok) in
    let r = get_float-append_all (four_bytes bits) pre room post over ok h (omega arith) in
    rw e (rw (four_bytes_value bits p) at r)

-- The widths of the integers.
abbrev pub IsWidth : ℕ → Type 0
IsWidth w = (w ≡ 8) ⊎ ((w ≡ 16) ⊎ ((w ≡ 32) ⊎ (w ≡ 64)))

sign_extended-mod : (w bits : ℕ) → IsWidth w → bits < 2 ^ w → sign_extended w bits % 2 ^ w ≡ bits
unfolding sign_extended
sign_extended-mod w bits (inl e) h = rw e (let p = rw e at h in ground arith)
sign_extended-mod w bits (inr (inl e)) h = rw e (let p = rw e at h in ground arith)
sign_extended-mod w bits (inr (inr (inl e))) h = rw e (let p = rw e at h in ground arith)
sign_extended-mod w bits (inr (inr (inr e))) h = rw e (let p = rw e at h in ground arith)

-- A signed number of 8, 16, 32 or 64 bits that is faithful once it is extended is put with room for
-- it, and got from the old offset as the same bits, with the state after putting.
pub get_uint-put_int :
    (w bits : ℕ) (pre room post : List ℕ) (over : ℕ) (ok : Bool)
    → IsWidth w
    → bits < 2 ^ w
    → IsFaithful (sign_extended w bits)
    → length room ≡ length (varint_bytes (sign_extended w bits))
    → let written = put_int w bits (cursor pre (room ++ post) over ok) in
      get_uint w (record written { offset = length pre }) ≡ some (bits, written)
unfolding get_uint put_int
get_uint-put_int w bits pre room post over ok s p f h =
    let val = sign_extended w bits in
    let r = get_varint-add_varint val pre room post over ok f h in
    rw (r.1, get_uint)
      (ap (λ (v : ℕ). some (v, add_varint val (cursor pre (room ++ post) over ok)))
        (sign_extended-mod w bits s p))

-- A faithful number of w bits that is put as a varint, with room for it, is got at the width w from
-- the old offset, with the state after putting.
pub get_uint-add_varint :
    (w val : ℕ) (pre room post : List ℕ) (over : ℕ) (ok : Bool)
    → val < 2 ^ w
    → IsFaithful val
    → length room ≡ length (varint_bytes val)
    → let written = add_varint val (cursor pre (room ++ post) over ok) in
      get_uint w (record written { offset = length pre }) ≡ some (val, written)
unfolding get_uint
get_uint-add_varint w val pre room post over ok p f h =
    let r = get_varint-add_varint val pre room post over ok f h in
    rw (r.1, get_uint)
      (ap (λ (v : ℕ). some (v, add_varint val (cursor pre (room ++ post) over ok)))
        (mod-eq_of_lt p))
