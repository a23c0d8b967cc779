-- ===== src/PacketData/Total.antt =====
-- `getVarint` ends on every buffer.
use grumble.Common.{
  ℕ, zero, suc, ◌+◌, ◌<◌, ◌≡◌, true, false, ◌≢◌, inl, inr, Option, none, ltb, arith, Bool-cases,
}
use grumble.PacketData.{PacketData, next, varint_tail, get_varint_loop, get_varint, left}

tail-ne-none :
    (v : ℕ) (pds : PacketData) (inner : Option (ℕ × PacketData))
    → inner ≢ none
    → varint_tail v pds inner ≢ none
unfolding varint_tail
tail-ne-none v pds inner h = ground arith

loop_end :
    (fuel : ℕ) (pds : PacketData)
    → ltb pds.offset pds.maxsize ≡ false
    → get_varint_loop (suc fuel) pds ≢ none
unfolding get_varint_loop next varint_tail
loop_end fuel pds e = rw e (λ p. cc)

loop_more :
    (fuel : ℕ) (pds : PacketData)
    → ltb pds.offset pds.maxsize ≡ true
    → get_varint_loop fuel (record pds { offset = pds.offset + 1 }) ≢ none
    → get_varint_loop (suc fuel) pds ≢ none
unfolding get_varint_loop next
loop_more fuel pds e ih = rw e (tail-ne-none _ _ _ ih)

loop-ne-none : (fuel : ℕ) (pds : PacketData) → left pds < fuel → get_varint_loop fuel pds ≢ none
loop-ne-none zero pds h = absurd (omega arith)
loop-ne-none (suc fuel) pds h = elim (Bool-cases (ltb pds.offset pds.maxsize)) [
  | inl e ↦ loop_more fuel pds e (loop-ne-none fuel _ (ground arith))
  | inr e ↦ loop_end fuel pds e
]

-- On every buffer, well formed or not, `getVarint` returns: its recursion behind 0xf8 bytes ends
-- within the bytes that are left, so the model's fuel does not run out.
pub get_varint-ne-none : (pds : PacketData) → get_varint pds ≢ none
unfolding get_varint
get_varint-ne-none pds = loop-ne-none (left pds + 2) pds (omega arith)
