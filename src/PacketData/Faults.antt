-- ===== src/PacketData/Faults.antt =====
-- Where `addVarint` and `getVarint` disagree, and what every read does.
use grumble.Common.{
  ℕ, suc, ◌+◌, ◌/◌, ◌%◌, ◌^◌, ◌≤◌, ◌<◌, ◌≡◌, refl, ap, ◌∙◌, Bool, true, false, List, [], ◌∷◌, ◌++◌,
  append_assoc, some, length, length-append, arith, bit_or,
}
use grumble.Common.Bits.{bit_and_pow, bit_or-ge}
use grumble.Common.Bits.Byte.{or_fc}
use grumble.PacketData.{
  PacketData, magnitude_bytes, varint_bytes, is_signed, not_u64, get_varint, add_varint, left,
  append, append_all,
}
use grumble.PacketData.Cursor.{cursor, append_all-cursor}
use grumble.PacketData.Encode.{low_byte}
use grumble.PacketData.RoundTrip.{loop_step, tail_short, rewind}

short_bytes :
    (val : ℕ)
    → is_signed val ≡ true
    → not_u64 val ≤ 3
    → varint_bytes val ≡ (not_u64 val + 252) ∷ not_u64 val ∷ []
unfolding varint_bytes magnitude_bytes
short_bytes val e h = rw e (ground (arith, or_fc (not_u64 val)))

-- The offset behind the first of two written bytes.
rewind_one :
    (pre : List ℕ) (a b : ℕ) (post : List ℕ) (over : ℕ) (ok : Bool)
    → record (cursor (pre ++ (a ∷ b ∷ [])) post over ok) { offset = length pre + 1 }
      ≡ cursor (pre ++ (a ∷ [])) (b ∷ post) over ok
rewind_one pre a b post over ok = ground (
  arith,
  append_assoc pre (a ∷ b ∷ []) post,
  append_assoc pre (a ∷ []) (b ∷ post),
  length-append pre (a ∷ b ∷ []),
  length-append pre (a ∷ []),
)

get_varint_short :
    (m : ℕ) (pre post : List ℕ) (over : ℕ) (ok : Bool)
    → m ≤ 3
    → get_varint (cursor pre ((m + 252) ∷ post) over ok)
      ≡ some (not_u64 m, cursor (pre ++ ((m + 252) ∷ [])) post over ok)
unfolding get_varint
get_varint_short m pre post over ok h =
    let from : left (cursor pre ((m + 252) ∷ post) over ok) + 2 ≡ suc (length post + 2) =
      omega arith in
    rw from (loop_step (length post + 2) (m + 252) pre post over ok ∙ tail_short m _ _ h)

-- For each of -1 to -4, `addVarint` with two bytes of room writes two bytes, and `getVarint` from
-- the old offset returns the number after the first of them: the second is left to be read as
-- something else.
pub get_varint-add_varint_short :
    (val : ℕ) (pre room post : List ℕ) (over : ℕ) (ok : Bool)
    → val < 2 ^ 64
    → is_signed val ≡ true
    → not_u64 val ≤ 3
    → length room ≡ 2
    → let written = add_varint val (cursor pre (room ++ post) over ok) in
      let m = not_u64 val in
      (written ≡ cursor (pre ++ ((m + 252) ∷ m ∷ [])) post over ok)
      × (get_varint (record written { offset = length pre })
          ≡ some (val, record written { offset = length pre + 1 }))
unfolding add_varint
get_varint-add_varint_short val pre room post over ok b e h r =
    let m = not_u64 val in
    let bytes = (m + 252) ∷ m ∷ [] in
    let put =
      ap (λ (l : List ℕ). append_all l (cursor pre (room ++ post) over ok)) (short_bytes val e h)
      ∙ append_all-cursor bytes pre room post over ok r (omega arith) in
    let twice : not_u64 m ≡ val = omega arith in
    (
      put,
      rw (put, rewind_one pre (m + 252) m post over ok)
          (ap get_varint (rewind pre bytes post over ok)
            ∙ get_varint_short m pre (m ∷ post) over ok h
            ∙ rw twice refl),
    )

append-invalid : (v : ℕ) (pds : PacketData) → pds.valid ≡ false → (append v pds).valid ≡ false
unfolding append
append-invalid v pds h = ground arith

append_all-invalid :
    (vs : List ℕ) (pds : PacketData) → pds.valid ≡ false → (append_all vs pds).valid ≡ false
unfolding append_all
append_all-invalid [] pds h = h
append_all-invalid (v ∷ vs) pds h = append_all-invalid vs (append v pds) (append-invalid v pds h)

append_wide : (v : ℕ) (pds : PacketData) → 255 < v → (append v pds).valid ≡ false
unfolding append
append_wide v pds h = ground arith

wide_bytes :
    (val : ℕ)
    → 0x100_0000 ≤ val
    → val < 0x1000_0000
    → varint_bytes val ≡ bit_or (val / 65536) 0xc0 ∷ val / 256 % 256 ∷ val % 256 ∷ []
unfolding varint_bytes magnitude_bytes
wide_bytes val l h = ground (arith, bit_and_pow 63 val, low_byte val, low_byte (val / 256))

-- For 2^24 <= val < 2^28 the first byte does not fit eight bits: `addVarint` leaves the buffer
-- invalid, however much room there is.
pub add_varint_wide :
    (val : ℕ) (pds : PacketData)
    → 0x100_0000 ≤ val
    → val < 0x1000_0000
    → (add_varint val pds).valid ≡ false
unfolding add_varint append_all
add_varint_wide val pds l h =
    let first = bit_or (val / 65536) 0xc0 in
    let big = bit_or-ge (val / 65536) 0xc0 in
    rw (wide_bytes val l h) (
      append_all-invalid (val / 256 % 256 ∷ val % 256 ∷ []) (append first pds)
        (append_wide first pds (omega arith)))
