-- ===== src/PacketData/Bytes.antt =====
-- Whole slices, and integers of fewer bits.
use grumble.Common.{
  ℕ, suc, ◌+◌, ◌-◌, ◌≤◌, ◌<◌, ◌≡◌, refl, sym, Bool, true, false, List, [], ◌∷◌, ◌++◌, append_assoc,
  some, leb, length, drop, take_front, drop_front, length-append, arith,
}
use grumble.PacketData.{PacketData, left, put_bytes, copy_bytes, splice}
use grumble.PacketData.Cursor.{cursor}
use grumble.PacketData.RoundTrip.{rewind}

le→leb : (a b : ℕ) → a ≤ b → leb a b ≡ true
le→leb a b h = ground arith

lt→leb : (a b : ℕ) → b < a → leb a b ≡ false
lt→leb a b h = ground arith

drop-append : (xs ys : List ℕ) (n : ℕ) → drop (length xs + n) (xs ++ ys) ≡ drop n ys
drop-append [] ys n = let e : 0 + n ≡ n = omega arith in rw e refl
drop-append (x ∷ xs) ys n =
    let e : suc (length xs) + n ≡ suc (length xs + n) = omega arith in rw e (drop-append xs ys n)

splice-cursor :
    (pre room src post : List ℕ)
    → length room ≡ length src
    → splice (pre ++ (room ++ post)) (length pre) src ≡ (pre ++ src) ++ post
splice-cursor pre room src post e =
    rw
      (
        take_front pre (room ++ post),
        drop-append pre (room ++ post) (length src),
        ← e,
        drop_front room post,
      )
      (sym (append_assoc pre src post))

put_bytes-cursor :
    (pre room src post : List ℕ) (over : ℕ) (ok : Bool)
    → length room ≡ length src
    → put_bytes src (cursor pre (room ++ post) over ok) ≡ cursor (pre ++ src) post over ok
unfolding put_bytes
put_bytes-cursor pre room src post over ok e =
    let size = length-append room post in
    rw (le→leb (length src) (left (cursor pre (room ++ post) over ok)) (omega arith))
      (ground (arith, splice-cursor pre room src post, length-append pre src))

copy_bytes-cursor :
    (pre src post : List ℕ) (over : ℕ) (ok : Bool)
    → copy_bytes (length src) (cursor pre (src ++ post) over ok)
      ≡ (some src, cursor pre (src ++ post) over ok)
unfolding copy_bytes
copy_bytes-cursor pre src post over ok =
    let size = length-append src post in
    rw
      (
        le→leb (length src) (left (cursor pre (src ++ post) over ok)) (omega arith),
        drop_front pre (src ++ post),
        take_front src post,
      )
      refl

-- With room, `PutBytes` puts the slice at the offset and moves the offset behind it, and
-- `CopyBytes` of as many bytes from the old offset returns the slice and leaves the state alone.
pub copy_bytes-put_bytes :
    (pre room src post : List ℕ) (over : ℕ) (ok : Bool)
    → length room ≡ length src
    → let written = put_bytes src (cursor pre (room ++ post) over ok) in
      let back = record written { offset = length pre } in
      (written ≡ cursor (pre ++ src) post over ok)
      × (copy_bytes (length src) back ≡ (some src, back))
copy_bytes-put_bytes pre room src post over ok e =
    let put = put_bytes-cursor pre room src post over ok e in
    let back = rewind pre src post over ok in
    (put, rw (put, back) (copy_bytes-cursor pre src post over ok))

-- Without room `PutBytes` changes no byte and no offset, adds what is missing to the overshoot,
-- and the buffer is invalid.
pub put_bytes_full :
    (src : List ℕ) (pds : PacketData)
    → left pds < length src
    → ((put_bytes src pds).buf ≡ pds.buf)
      × ((put_bytes src pds).offset ≡ pds.offset)
      × ((put_bytes src pds).overshoot ≡ pds.overshoot + (length src - left pds))
      × ((put_bytes src pds).valid ≡ false)
unfolding put_bytes
put_bytes_full src pds h = rw (lt→leb (length src) (left pds) h) (refl, refl, refl, refl)
