-- ===== src/PacketData/Cursor.antt =====
-- A buffer seen as what is before the offset and what is after it.
use grumble.Common.{
  ℕ, ◌+◌, ◌<◌, ◌≡◌, refl, ap, ◌∙◌, Bool, false, List, [], ◌∷◌, ◌++◌, append_assoc, append-nil, ltb,
  length, get_or, set, length-append, All, arith, lt→ltb,
}
use grumble.PacketData.{PacketData, next, append, append_all}

abbrev pub cursor : List ℕ → List ℕ → ℕ → Bool → PacketData
cursor pre post over ok = record {
  buf = pre ++ post;
  offset = length pre;
  maxsize = length pre + length post;
  overshoot = over;
  valid = ok;
}

get_or_at : (pre : List ℕ) (b : ℕ) (post : List ℕ) → get_or (pre ++ (b ∷ post)) (length pre) 0 ≡ b
get_or_at [] b post = refl
get_or_at (x ∷ pre) b post = get_or_at pre b post

set_at :
    (pre : List ℕ) (a b : ℕ) (post : List ℕ)
    → set (pre ++ (a ∷ post)) (length pre) b ≡ pre ++ (b ∷ post)
set_at [] a b post = refl
set_at (x ∷ pre) a b post = ap (◌∷◌ x) (set_at pre a b post)

-- The same buffer with one byte moved over.
pub cursor_move :
    (pre : List ℕ) (b : ℕ) (post : List ℕ) (over : ℕ) (ok : Bool)
    → record {
      buf = pre ++ (b ∷ post);
      offset = length pre + 1;
      maxsize = length pre + length (b ∷ post);
      overshoot = over;
      valid = ok;
    }
      ≡ cursor (pre ++ (b ∷ [])) post over ok
cursor_move pre b post over ok =
    let l = length-append pre (b ∷ []) in ground (arith, append_assoc pre (b ∷ []) post, l)

pub next-cursor :
    (pre : List ℕ) (b : ℕ) (post : List ℕ) (over : ℕ) (ok : Bool)
    → next (cursor pre (b ∷ post) over ok) ≡ (b, cursor (pre ++ (b ∷ [])) post over ok)
unfolding next
next-cursor pre b post over ok =
    rw (lt→ltb (length pre) (length pre + length (b ∷ post)) (omega arith), get_or_at pre b post)
      (ap (λ (p : PacketData). (b, p)) (cursor_move pre b post over ok))

pub append-cursor :
    (pre : List ℕ) (a b : ℕ) (post : List ℕ) (over : ℕ) (ok : Bool)
    → b < 256
    → append b (cursor pre (a ∷ post) over ok) ≡ cursor (pre ++ (b ∷ [])) post over ok
unfolding append
append-cursor pre a b post over ok h =
    rw
      (
        (let e : ltb 0xff b ≡ false = ground arith in e),
        lt→ltb (length pre) (length pre + length (a ∷ post)) (omega arith),
        set_at pre a b post,
      )
      (cursor_move pre b post over ok)

-- Appending bytes for which there is room puts them in place of the bytes there.
pub append_all-cursor :
    (bytes pre room post : List ℕ) (over : ℕ) (ok : Bool)
    → length room ≡ length bytes
    → All (λ b. b < 256) bytes
    → append_all bytes (cursor pre (room ++ post) over ok) ≡ cursor (pre ++ bytes) post over ok
unfolding append_all
append_all-cursor [] pre [] post over ok e h = rw append-nil refl
append_all-cursor [] pre (a ∷ room) post over ok e h = absurd (omega arith)
append_all-cursor (b ∷ bytes) pre [] post over ok e h = absurd (omega arith)
append_all-cursor (b ∷ bytes) pre (a ∷ room) post over ok e h =
    ap (append_all bytes) (append-cursor pre a b (room ++ post) over ok h.0)
    ∙ append_all-cursor bytes (pre ++ (b ∷ [])) room post over ok (omega arith) h.1
    ∙ ap (λ (l : List ℕ). cursor l post over ok) (append_assoc pre (b ∷ []) bytes)
