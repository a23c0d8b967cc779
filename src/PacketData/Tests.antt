-- ===== src/PacketData/Tests.antt =====
-- Concrete runs of the packet buffer.
use grumble.Common.{◌≡◌, refl, ◌≢◌, true, false, [], ◌∷◌, none, some, arith, inl, replicate}
use grumble.PacketData.{
  new, next, magnitude_bytes, varint_bytes, add_varint, next_be, varint_tail, get_varint_loop,
  get_varint, skip,
}
use grumble.PacketData.Cursor.{cursor}
use grumble.PacketData.RoundTrip.{get_varint-add_varint}
use grumble.PacketData.Faults.{get_varint-add_varint_short, add_varint_wide}
use grumble.PacketData.Total.{get_varint-ne-none}

three_bytes : varint_bytes 0x12345 ≡ 0xc1 ∷ 0x23 ∷ 0x45 ∷ []
unfolding varint_bytes magnitude_bytes
three_bytes = refl

minus_ten : varint_bytes 0xffff_ffff_ffff_fff6 ≡ 0xf8 ∷ 9 ∷ []
unfolding varint_bytes magnitude_bytes
minus_ten = refl

-- 2^21 is written in three bytes and read in four.
misread :
    get_varint (new (0xe0 ∷ 0 ∷ 0 ∷ 7 ∷ []))
    ≡ some (7, record (new (0xe0 ∷ 0 ∷ 0 ∷ 7 ∷ [])) { offset = 4 })
unfolding get_varint get_varint_loop varint_tail next next_be new
misread = refl

skip_past : (skip 3 (new (1 ∷ 2 ∷ []))).valid ≡ false
unfolding skip new
skip_past = refl

get_varint-add_varint_example :
    let written = add_varint 0x12345 (cursor (9 ∷ []) (0 ∷ 0 ∷ 0 ∷ 8 ∷ []) 0 true) in
    (written ≡ cursor (9 ∷ 0xc1 ∷ 0x23 ∷ 0x45 ∷ []) (8 ∷ []) 0 true)
    × (get_varint (record written { offset = 1 }) ≡ some (0x12345, written))
unfolding varint_bytes magnitude_bytes
get_varint-add_varint_example =
    get_varint-add_varint 0x12345 (9 ∷ []) (0 ∷ 0 ∷ 0 ∷ []) (8 ∷ []) 0 true
      (omega arith, inl (omega arith)) refl

get_varint-add_varint_short_example :
    let written = add_varint 0xffff_ffff_ffff_fffe (cursor [] (0 ∷ 0 ∷ []) 0 true) in
    (written ≡ cursor (253 ∷ 1 ∷ []) [] 0 true)
    × (get_varint (record written { offset = 0 })
        ≡ some (0xffff_ffff_ffff_fffe, record written { offset = 1 }))
get_varint-add_varint_short_example =
    get_varint-add_varint_short 0xffff_ffff_ffff_fffe [] (0 ∷ 0 ∷ []) [] 0 true (omega arith) refl
      (omega arith) refl

add_varint_wide_example : (add_varint 0x123_4567 (new (replicate 16 0))).valid ≡ false
add_varint_wide_example =
    add_varint_wide 0x123_4567 (new (replicate 16 0)) (omega arith) (omega arith)

get_varint-ne-none_example : get_varint (new (0xf8 ∷ 0xf8 ∷ [])) ≢ none
get_varint-ne-none_example = get_varint-ne-none (new (0xf8 ∷ 0xf8 ∷ []))
