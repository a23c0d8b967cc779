-- ===== src/Tokens/Unquoting.antt =====
-- What the recursion of parsePermissions rests on: a text in JSON, read by encoding/json, against
-- the JSON, and the steps that are enough.
use grumble.Common.{
  ℕ, zero, suc, ◌*◌, ◌≤◌, ◌<◌, ◌≡◌, Bool, true, false, ◌&&◌, [], ◌∷◌, Option, none, some, leb,
  length, arith, if◌then◌else◌,
}
use grumble.Common.Names.{Name}
use grumble.Tokens.{Libs}

-- How many bytes follow the first byte of a character in UTF-8, and the range of the next one.
abbrev starts : ℕ → Option (ℕ × (ℕ × ℕ))
starts c =
    if leb c 127
    then some (0, (0, 0))
    else if leb c 193
    then none
    else if leb c 223
    then some (1, (128, 191))
    else if leb c 224
    then some (2, (160, 191))
    else if leb c 236
    then some (2, (128, 191))
    else if leb c 237
    then some (2, (128, 159))
    else if leb c 239
    then some (2, (128, 191))
    else if leb c 240
    then some (3, (144, 191))
    else if leb c 243
    then some (3, (128, 191))
    else if leb c 244
    then some (3, (128, 143))
    else none

-- The rest of a text, of whose character `more` bytes are still to come.
abbrev well_formed : ℕ → ℕ → ℕ → Name → Bool
well_formed zero lo hi [] = true
well_formed (suc more) lo hi [] = false
well_formed zero lo hi (c ∷ text) = elim (starts c) [
  | none ↦ false
  | some s ↦ well_formed s.0 s.1.0 s.1.1 text
]
well_formed (suc more) lo hi (c ∷ text) = leb lo c && (leb c hi && well_formed more 128 191 text)

-- A text in UTF-8.
abbrev pub valid_utf8 : Name → Bool
valid_utf8 text = well_formed 0 0 0 text

-- json.Unmarshal into a text puts the three bytes of U+FFFD for a byte that is not UTF-8, so that
-- what it reads is UTF-8 and at most three times as long; JSON in UTF-8 loses its quotes at least.
-- TrimSpace cuts off whole characters.
pub record IsUnquoting (libs : Libs) : Type 0 where
  pub valid_read : (raw text : Name) → libs.json_string raw ≡ some text → valid_utf8 text ≡ true
  pub length_read :
      (raw text : Name) → libs.json_string raw ≡ some text → length text ≤ 3 * length raw
  pub shorter :
      (raw text : Name)
      → valid_utf8 raw ≡ true
      → libs.json_string raw ≡ some text
      → length text < length raw
  pub valid_trimmed :
      (text : Name) → valid_utf8 text ≡ true → valid_utf8 (libs.trim.trim_space text) ≡ true
  pub length_trimmed : (text : Name) → length (libs.trim.trim_space text) ≤ length text

-- The fuel is enough: one step for a text that is not UTF-8, and behind it less than the length.
pub data IsCovered : ℕ → Name → Type 0 where
  valid_text :
      (fuel : ℕ) (raw : Name) → valid_utf8 raw ≡ true → length raw < fuel → IsCovered fuel raw
  any_text : (fuel : ℕ) (raw : Name) → suc (3 * length raw) < fuel → IsCovered fuel raw

pub not_covered : (raw : Name) (A : Type 0) → IsCovered 0 raw → A
not_covered raw A (valid_text _ _ v l) = absurd (omega arith)
not_covered raw A (any_text _ _ l) = absurd (omega arith)

pub next-IsCovered :
    (libs : Libs) (fuel : ℕ) (raw text : Name)
    → IsUnquoting libs
    → libs.json_string raw ≡ some text
    → IsCovered (suc fuel) raw
    → IsCovered fuel (libs.trim.trim_space text)
next-IsCovered libs fuel raw text law e (valid_text _ _ v l) =
    let less = law.shorter raw text v e in
    let cut = law.length_trimmed text in
    valid_text fuel (libs.trim.trim_space text) (law.valid_trimmed text (law.valid_read raw text e))
      (omega arith)
next-IsCovered libs fuel raw text law e (any_text _ _ l) =
    let less = law.length_read raw text e in
    let cut = law.length_trimmed text in
    valid_text fuel (libs.trim.trim_space text) (law.valid_trimmed text (law.valid_read raw text e))
      (omega arith)
