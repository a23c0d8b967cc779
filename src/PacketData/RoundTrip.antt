-- ===== src/PacketData/RoundTrip.antt =====
-- `getVarint` reads back what `addVarint` wrote.
use grumble.Common.{
  ℕ, suc, ◌+◌, ◌*◌, ◌/◌, ◌%◌, ◌^◌, ◌≤◌, ◌<◌, ◌≡◌, refl, ap, ◌∙◌, ◌⊎◌, inl, inr, Bool, true, false,
  List, [], ◌∷◌, ◌++◌, append_assoc, Option, some, if◌then◌else◌, length, length-append, All, arith,
  bit_and, Bool-cases,
}
use grumble.Common.Bits.{bit_and_mask}
use grumble.Common.Bits.Byte.{and_80, and_c0, and_e0, and_f0, and_fc}
use native.Mathlib.Decide.{dec_lt}
use grumble.PacketData.{
  PacketData, next_be, prefixed, magnitude_bytes, varint_bytes, is_signed, not_u64, varint_tail,
  complement, get_varint_loop, get_varint, add_varint, left,
}
use grumble.PacketData.Cursor.{cursor, next-cursor, append_all-cursor}
use grumble.PacketData.Encode.{
  IsByte, be_value, next_be-cursor, prefixed-cursor, magnitude_one, magnitude_two, magnitude_three,
  magnitude_five, magnitude_nine, eight_bytes, eight_bytes_value,
}

-- The first byte decides; what it says in each range of first bytes.
tail_one :
    (v : ℕ) (c : PacketData) (inner : Option (ℕ × PacketData))
    → v < 0x80
    → varint_tail v c inner ≡ some (v, c)
unfolding varint_tail
tail_one v c inner h = ground (arith, and_80 v, bit_and_mask 7 v)

tail_two :
    (q : ℕ) (c : PacketData) (inner : Option (ℕ × PacketData))
    → q < 64
    → varint_tail (q + 128) c inner ≡ some (prefixed q 1 c)
unfolding varint_tail
tail_two q c inner h =
    let m : bit_and (q + 128) 0x3f ≡ q = omega (arith, bit_and_mask 6 (q + 128)) in
    rw m (ground (arith, and_80 (q + 128), and_c0 (q + 128)))

tail_three :
    (q : ℕ) (c : PacketData) (inner : Option (ℕ × PacketData))
    → q < 32
    → varint_tail (q + 192) c inner ≡ some (prefixed q 2 c)
unfolding varint_tail
tail_three q c inner h =
    let m : bit_and (q + 192) 0x1f ≡ q = omega (arith, bit_and_mask 5 (q + 192)) in
    let b = q + 192 in rw m (ground (arith, and_80 b, and_c0 b, and_f0 b, and_e0 b))

tail_five :
    (c : PacketData) (inner : Option (ℕ × PacketData))
    → varint_tail 0xf0 c inner ≡ some (next_be 4 c)
unfolding varint_tail
tail_five c inner = refl

tail_nine :
    (c : PacketData) (inner : Option (ℕ × PacketData))
    → varint_tail 0xf4 c inner ≡ some (next_be 8 c)
unfolding varint_tail
tail_nine c inner = refl

tail_signed :
    (c : PacketData) (inner : Option (ℕ × PacketData)) → varint_tail 0xf8 c inner ≡ complement inner
unfolding varint_tail
tail_signed c inner = refl

pub tail_short :
    (m : ℕ) (c : PacketData) (inner : Option (ℕ × PacketData))
    → m ≤ 3
    → varint_tail (m + 252) c inner ≡ some (not_u64 m, c)
unfolding varint_tail
tail_short m c inner h = ground (
  arith,
  and_80 (m + 252),
  and_c0 (m + 252),
  and_f0 (m + 252),
  and_fc (m + 252),
  bit_and_mask 2 (m + 252),
)

pub loop_step :
    (fuel b : ℕ) (pre post : List ℕ) (over : ℕ) (ok : Bool)
    → let c = cursor (pre ++ (b ∷ [])) post over ok in
      get_varint_loop (suc fuel) (cursor pre (b ∷ post) over ok)
      ≡ varint_tail b c (get_varint_loop fuel c)
unfolding get_varint_loop
loop_step fuel b pre post over ok = rw (next-cursor pre b post over ok) refl

-- The magnitudes that the three-byte form and the others hold.
abbrev pub IsPlain : ℕ → Type 0
IsPlain i = (i < 0x20_0000) ⊎ ((0x1000_0000 ≤ i) × (i < 2 ^ 64))

abbrev Reads : List ℕ → ℕ → ℕ → Type 0
Reads bytes i fuel =
    (pre post : List ℕ) (over : ℕ) (ok : Bool)
    → get_varint_loop fuel (cursor pre (bytes ++ post) over ok)
      ≡ some (i, cursor (pre ++ bytes) post over ok)

Reads-prefixed :
    (b v i fuel : ℕ) (bs : List ℕ)
    → ((c : PacketData) (inner : Option (ℕ × PacketData))
        → varint_tail b c inner ≡ some (prefixed v (length bs) c))
    → All IsByte bs
    → v * 2 ^ (8 * length bs) + be_value bs ≡ i
    → Reads (b ∷ bs) i (suc fuel)
Reads-prefixed b v i fuel bs tail h e pre post over ok =
    loop_step fuel b pre (bs ++ post) over ok
    ∙ tail _ _
    ∙ ap some (prefixed-cursor v bs (pre ++ (b ∷ [])) post over ok h)
    ∙ rw (e, append_assoc pre (b ∷ []) bs) refl

Reads-be :
    (b i fuel : ℕ) (bs : List ℕ)
    → ((c : PacketData) (inner : Option (ℕ × PacketData))
        → varint_tail b c inner ≡ some (next_be (length bs) c))
    → All IsByte bs
    → be_value bs ≡ i
    → Reads (b ∷ bs) i (suc fuel)
Reads-be b i fuel bs tail h e pre post over ok =
    loop_step fuel b pre (bs ++ post) over ok
    ∙ tail _ _
    ∙ ap some (next_be-cursor bs (pre ++ (b ∷ [])) post over ok h)
    ∙ rw (e, append_assoc pre (b ∷ []) bs) refl

Reads-one : (i fuel : ℕ) → i < 0x80 → Reads (i ∷ []) i (suc fuel)
Reads-one i fuel h pre post over ok = loop_step fuel i pre post over ok ∙ tail_one i _ _ h

-- By the ranges of the magnitude.
Reads-two : (i fuel : ℕ) → 0x80 ≤ i → i < 0x4000 → Reads (magnitude_bytes i) i (suc fuel)
Reads-two i fuel l h = rw (magnitude_two i l h) (
    Reads-prefixed (i / 256 + 128) (i / 256) i fuel (i % 256 ∷ [])
      (λ c inner. tail_two (i / 256) c inner (omega arith)) (omega arith) (omega arith))

Reads-three : (i fuel : ℕ) → 0x4000 ≤ i → i < 0x20_0000 → Reads (magnitude_bytes i) i (suc fuel)
Reads-three i fuel l h = rw (magnitude_three i l h) (
    Reads-prefixed (i / 65536 + 192) (i / 65536) i fuel (i / 256 % 256 ∷ i % 256 ∷ [])
      (λ c inner. tail_three (i / 65536) c inner (omega arith)) (omega arith) (omega arith))

Reads-five :
    (i fuel : ℕ) → 0x1000_0000 ≤ i → i < 0x1_0000_0000 → Reads (magnitude_bytes i) i (suc fuel)
Reads-five i fuel l h = rw (magnitude_five i l h) (
    Reads-be 0xf0 i fuel (i / 16777216 % 256 ∷ i / 65536 % 256 ∷ i / 256 % 256 ∷ i % 256 ∷ [])
      tail_five (omega arith) (omega arith))

Reads-nine : (i fuel : ℕ) → 0x1_0000_0000 ≤ i → i < 2 ^ 64 → Reads (magnitude_bytes i) i (suc fuel)
Reads-nine i fuel l h =
    rw (magnitude_nine i l)
      (Reads-be 0xf4 i fuel (eight_bytes i) tail_nine (omega arith) (eight_bytes_value i h))

magnitude-Reads : (i fuel : ℕ) → IsPlain i → Reads (magnitude_bytes i) i (suc fuel)
magnitude-Reads i fuel (inl c) = elim (dec_lt i 0x80) [
  | yes a ↦ rw (magnitude_one i a) (Reads-one i fuel a)
  | no a ↦ elim (dec_lt i 0x4000) [
    | yes b ↦ Reads-two i fuel (omega arith) b
    | no b ↦ Reads-three i fuel (omega arith) c
  ]
]
magnitude-Reads i fuel (inr (c, d)) = elim (dec_lt i 0x1_0000_0000) [
  | yes a ↦ Reads-five i fuel c a
  | no a ↦ Reads-nine i fuel (omega arith) d
]

magnitude-IsByte : (i : ℕ) → IsPlain i → All IsByte (magnitude_bytes i)
magnitude-IsByte i (inl c) = elim (dec_lt i 0x80) [
  | yes a ↦ rw (magnitude_one i a) (omega arith)
  | no a ↦ elim (dec_lt i 0x4000) [
    | yes b ↦ rw (magnitude_two i (omega arith) b) (omega arith)
    | no b ↦ rw (magnitude_three i (omega arith) c) (omega arith)
  ]
]
magnitude-IsByte i (inr (c, d)) = elim (dec_lt i 0x1_0000_0000) [
  | yes a ↦ rw (magnitude_five i c a) (omega arith)
  | no a ↦ rw (magnitude_nine i (omega arith)) (omega arith)
]

-- What `addVarint` encodes: a uint64 whose magnitude has no four-byte form, and that is not one
-- of -1 to -4.
abbrev pub IsFaithful : ℕ → Type 0
IsFaithful val =
    (val < 2 ^ 64)
    × (if is_signed val then (3 < not_u64 val) × IsPlain (not_u64 val) else IsPlain val)

negative_bytes :
    (val : ℕ)
    → is_signed val ≡ true
    → 3 < not_u64 val
    → varint_bytes val ≡ 0xf8 ∷ magnitude_bytes (not_u64 val)
unfolding varint_bytes
negative_bytes val e h = rw e (ground arith)

plain_bytes : (val : ℕ) → is_signed val ≡ false → varint_bytes val ≡ magnitude_bytes val
unfolding varint_bytes
plain_bytes val e = rw e refl

varint-IsByte : (val : ℕ) → IsFaithful val → All IsByte (varint_bytes val)
varint-IsByte val (h, f) = elim (Bool-cases (is_signed val)) [
  | inl e ↦
      let g = rw e at f in
      rw (negative_bytes val e g.0) (omega arith, magnitude-IsByte (not_u64 val) g.1)
  | inr e ↦ rw (plain_bytes val e) (magnitude-IsByte val (rw e at f))
]

negative-Reads :
    (m val fuel : ℕ)
    → IsPlain m
    → not_u64 m ≡ val
    → Reads (0xf8 ∷ magnitude_bytes m) val (suc (suc fuel))
negative-Reads m val fuel p e pre post over ok =
    loop_step (suc fuel) 0xf8 pre (magnitude_bytes m ++ post) over ok
    ∙ tail_signed _ _
    ∙ ap complement (magnitude-Reads m fuel p (pre ++ (0xf8 ∷ [])) post over ok)
    ∙ rw (e, append_assoc pre (0xf8 ∷ []) (magnitude_bytes m)) refl

varint-Reads : (val fuel : ℕ) → IsFaithful val → Reads (varint_bytes val) val (suc (suc fuel))
varint-Reads val fuel (h, f) = elim (Bool-cases (is_signed val)) [
  | inl e ↦
      let g = rw e at f in
      rw (negative_bytes val e g.0) (negative-Reads (not_u64 val) val fuel g.1 (omega arith))
  | inr e ↦ rw (plain_bytes val e) (magnitude-Reads val (suc fuel) (rw e at f))
]

-- The written buffer read from where the write began.
pub rewind :
    (pre bytes post : List ℕ) (over : ℕ) (ok : Bool)
    → record (cursor (pre ++ bytes) post over ok) { offset = length pre }
      ≡ cursor pre (bytes ++ post) over ok
rewind pre bytes post over ok =
    ground (arith, append_assoc pre bytes post, length-append pre bytes, length-append bytes post)

get_varint-Reads :
    (val : ℕ) (pre post : List ℕ) (over : ℕ) (ok : Bool)
    → IsFaithful val
    → get_varint (cursor pre (varint_bytes val ++ post) over ok)
      ≡ some (val, cursor (pre ++ varint_bytes val) post over ok)
unfolding get_varint
get_varint-Reads val pre post over ok f =
    let bytes = varint_bytes val in
    let from : left (cursor pre (bytes ++ post) over ok) + 2 ≡ suc (suc (length (bytes ++ post))) =
      omega arith in
    rw from (varint-Reads val (length (bytes ++ post)) f pre post over ok)

-- For a uint64 that is faithful (its magnitude is not in [2^21, 2^28), and it is none of -1 to
-- -4), `addVarint` with room for its bytes writes them at the offset and moves the offset behind
-- them, and `getVarint` from the old offset returns the number and ends at that same state.
pub get_varint-add_varint :
    (val : ℕ) (pre room post : List ℕ) (over : ℕ) (ok : Bool)
    → IsFaithful val
    → length room ≡ length (varint_bytes val)
    → let written = add_varint val (cursor pre (room ++ post) over ok) in
      (written ≡ cursor (pre ++ varint_bytes val) post over ok)
      × (get_varint (record written { offset = length pre }) ≡ some (val, written))
unfolding add_varint
get_varint-add_varint val pre room post over ok f h =
    let bytes = varint_bytes val in
    let put = append_all-cursor bytes pre room post over ok h (varint-IsByte val f) in
    (
      put,
      rw put
          (ap get_varint (rewind pre bytes post over ok) ∙ get_varint-Reads val pre post over ok f),
    )
