-- ===== src/PacketData.antt =====
-- pkg/packetdata/packetdata.go: the byte buffer of voice packets, and its variable-length integers.
pub mod Cursor
pub mod Encode
pub mod RoundTrip
pub mod Faults
pub mod Total
pub mod Bytes
pub mod Floats
pub mod Tests
use grumble.Common.{
  ℕ, zero, suc, ◌+◌, ◌-◌, ◌*◌, ◌/◌, ◌%◌, ◌^◌, ◌<◌, Bool, true, false, not, ◌&&◌, List, [], ◌∷◌,
  ◌++◌, Option, none, some, ltb, leb, ◌==◌, if◌then◌else◌, length, get_or, set, take, drop, bit_and,
  bit_or,
}

-- `valid` is the field `ok`.
pub record PacketData : Type 0 where
  pub buf : List ℕ
  pub offset : ℕ
  pub maxsize : ℕ
  pub overshoot : ℕ
  pub valid : Bool

unfoldable pub new : List ℕ → PacketData
new buf = record { buf = buf; offset = 0; maxsize = length buf; overshoot = 0; valid = true }

-- `maxsize - offset`; the offset stays at most `maxsize`.
abbrev pub left : PacketData → ℕ
left pds = pds.maxsize - pds.offset

-- The callers' counts are not negative.
unfoldable pub skip : ℕ → PacketData → PacketData
skip n pds =
    if leb n (left pds)
    then record pds { offset = pds.offset + n }
    else record pds { valid = false }

-- `next` and `Next8`, which differ in the width of the result alone.
unfoldable pub next : PacketData → ℕ × PacketData
next pds =
    if ltb pds.offset pds.maxsize
    then (get_or pds.buf pds.offset 0, record pds { offset = pds.offset + 1 })
    else (0, record pds { valid = false })

unfoldable pub append : ℕ → PacketData → PacketData
append val pds =
    if ltb 0xff val
    then record pds { valid = false }
    else if ltb pds.offset pds.maxsize
    then record pds { buf = set pds.buf pds.offset val; offset = pds.offset + 1 }
    else record pds { valid = false; overshoot = pds.overshoot + 1 }

-- A sequence of `append` calls.
unfoldable pub append_all : List ℕ → PacketData → PacketData
append_all [] pds = pds
append_all (val ∷ vals) pds = append_all vals (append val pds)

-- `^i` on a uint64, and `i >> k`.
abbrev pub not_u64 : ℕ → ℕ
not_u64 i = 0xffff_ffff_ffff_ffff - i

abbrev pub shr : ℕ → ℕ → ℕ
shr i k = i / 2 ^ k

-- The calls of `append` after the signed case.
unfoldable pub magnitude_bytes : ℕ → List ℕ
magnitude_bytes i =
    if ltb i 0x80
    then i ∷ []
    else if ltb i 0x4000
    then bit_or (shr i 8) 0x80 ∷ bit_and i 0xff ∷ []
    else if ltb i 0x1000_0000
    then bit_or (shr i 16) 0xc0 ∷ bit_and (shr i 8) 0xff ∷ bit_and i 0xff ∷ []
    else if ltb i 0x1_0000_0000
    then 0xf0
      ∷ bit_and (shr i 24) 0xff
      ∷ bit_and (shr i 16) 0xff
      ∷ bit_and (shr i 8) 0xff
      ∷ bit_and i 0xff
      ∷ []
    else 0xf4
      ∷ bit_and (shr i 56) 0xff
      ∷ bit_and (shr i 48) 0xff
      ∷ bit_and (shr i 40) 0xff
      ∷ bit_and (shr i 32) 0xff
      ∷ bit_and (shr i 24) 0xff
      ∷ bit_and (shr i 16) 0xff
      ∷ bit_and (shr i 8) 0xff
      ∷ bit_and i 0xff
      ∷ []

-- `(i&0x8000000000000000) != 0 && ^i < 0x100000000`
abbrev pub is_signed : ℕ → Bool
is_signed i = not (bit_and i 0x8000_0000_0000_0000 == 0) && ltb (not_u64 i) 0x1_0000_0000

-- The values that `addVarint` appends, in order. After the short form of -1 to -4 the code goes on
-- to the tests of the magnitude, as it does after 0xf8.
unfoldable pub varint_bytes : ℕ → List ℕ
varint_bytes val =
    if is_signed val
    then (if leb (not_u64 val) 0x3
        then bit_or 0xfc (not_u64 val) ∷ magnitude_bytes (not_u64 val)
        else 0xf8 ∷ magnitude_bytes (not_u64 val))
    else magnitude_bytes val

unfoldable pub add_varint : ℕ → PacketData → PacketData
add_varint val = append_all (varint_bytes val)

-- `pds.next()<<8*(n-1) | ... | pds.next()`, the calls from left to right.
unfoldable pub next_be : ℕ → PacketData → ℕ × PacketData
next_be zero pds = (0, pds)
next_be (suc n) pds =
    let (b, pds') = next pds in
    let (r, pds'') = next_be n pds' in (bit_or (b * 2 ^ (8 * n)) r, pds'')

-- The bits of the first byte above those that the following calls of `next` fill.
abbrev pub prefixed : ℕ → ℕ → PacketData → ℕ × PacketData
prefixed v n pds = let (r, pds') = next_be n pds in (bit_or (v * 2 ^ (8 * n)) r, pds')

abbrev pub complement : Option (ℕ × PacketData) → Option (ℕ × PacketData)
complement none = none
complement (some (i, pds)) = some (not_u64 i, pds)

-- `v` is the first byte and `inner` the result of the recursive call on what follows.
unfoldable pub varint_tail : ℕ → PacketData → Option (ℕ × PacketData) → Option (ℕ × PacketData)
varint_tail v pds inner =
    if bit_and v 0x80 == 0
    then some (bit_and v 0x7f, pds)
    else if bit_and v 0xc0 == 0x80
    then some (prefixed (bit_and v 0x3f) 1 pds)
    else if bit_and v 0xf0 == 0xf0
    then (if bit_and v 0xfc == 0xf0
        then some (next_be 4 pds)
        else if bit_and v 0xfc == 0xf4
        then some (next_be 8 pds)
        else if bit_and v 0xfc == 0xf8
        then complement inner
        else if bit_and v 0xfc == 0xfc
        then some (not_u64 (bit_and v 0x03), pds)
        else some (0, record pds { valid = false }))
    else if bit_and v 0xf0 == 0xe0
    then some (prefixed (bit_and v 0x0f) 3 pds)
    else if bit_and v 0xe0 == 0xc0
    then some (prefixed (bit_and v 0x1f) 2 pds)
    else some (0, pds)

-- `getVarint` calls itself behind an 0xf8 byte. `none` is out of fuel, no Go value.
unfoldable pub get_varint_loop : ℕ → PacketData → Option (ℕ × PacketData)
get_varint_loop zero pds = none
get_varint_loop (suc fuel) pds =
    let (v, pds') = next pds in let inner = get_varint_loop fuel pds' in varint_tail v pds' inner

-- Each call takes a byte, and at the end of the buffer `next` gives 0, which ends the recursion.
unfoldable pub get_varint : PacketData → Option (ℕ × PacketData)
get_varint pds = get_varint_loop (left pds + 2) pds

-- `uint64(val)` of a signed number of w bits, given as its bits.
unfoldable pub sign_extended : ℕ → ℕ → ℕ
sign_extended w bits = if ltb bits (2 ^ (w - 1)) then bits else bits + (2 ^ 64 - 2 ^ w)

-- `PutInt64`, `PutInt32`, `PutInt16` and `PutInt8`, at w = 64, 32, 16, 8. The unsigned ones are
-- `add_varint`.
unfoldable pub put_int : ℕ → ℕ → PacketData → PacketData
put_int w bits = add_varint (sign_extended w bits)

-- `GetUint64`, `GetUint32`, `GetUint16` and `GetUint8`, at w = 64, 32, 16, 8, and the signed ones,
-- whose results have the same bits.
unfoldable pub get_uint : ℕ → PacketData → Option (ℕ × PacketData)
get_uint w pds = elim (get_varint pds) [ none ↦ none | some (i, pds') ↦ some (i % 2 ^ w, pds') ]

-- `copy(Buf[offset:offset+len(src)], src)`
abbrev pub splice : List ℕ → ℕ → List ℕ → List ℕ
splice buf at src = take at buf ++ (src ++ drop (at + length src) buf)

unfoldable pub put_bytes : List ℕ → PacketData → PacketData
put_bytes src pds =
    if leb (length src) (left pds)
    then record pds { buf = splice pds.buf pds.offset src; offset = pds.offset + length src }
    else record pds { overshoot = pds.overshoot + (length src - left pds); valid = false }

-- `CopyBytes` into a destination of n bytes, `none` where it stays as it was. The offset stays.
unfoldable pub copy_bytes : ℕ → PacketData → Option (List ℕ) × PacketData
copy_bytes n pds =
    if leb n (left pds)
    then (some (take n (drop pds.offset pds.buf)), pds)
    else (none, record pds { valid = false })

-- The floats as their bits, on the native side of `math.Float32bits` and `math.Float64bits`.
unfoldable pub put_float32 : ℕ → PacketData → PacketData
put_float32 bits = append_all (
    bit_and (shr bits 24) 0xff
    ∷ bit_and (shr bits 16) 0xff
    ∷ bit_and (shr bits 8) 0xff
    ∷ bit_and bits 0xff
    ∷ [])

unfoldable pub put_float64 : ℕ → PacketData → PacketData
put_float64 bits = append_all (
    bit_and (shr bits 56) 0xff
    ∷ bit_and (shr bits 48) 0xff
    ∷ bit_and (shr bits 40) 0xff
    ∷ bit_and (shr bits 32) 0xff
    ∷ bit_and (shr bits 24) 0xff
    ∷ bit_and (shr bits 16) 0xff
    ∷ bit_and (shr bits 8) 0xff
    ∷ bit_and bits 0xff
    ∷ [])

-- `GetFloat32` and `GetFloat64`, at n = 4 and 8 bytes.
unfoldable pub get_float : ℕ → PacketData → ℕ × PacketData
get_float n pds = if ltb (left pds) n then (0, record pds { valid = false }) else next_be n pds
