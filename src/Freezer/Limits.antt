-- ===== src/Freezer/Limits.antt =====
-- The limits of a transaction in writer.go, against the limit of a record in walker.go.
use grumble.Common.{
  ℕ, ◌+◌, ◌-◌, ◌*◌, ◌^◌, ◌≤◌, ◌<◌, ◌≡◌, refl, true, false, List, ◌++◌, some, ltb, arith, length,
  length-append, [], ◌∷◌,
}
use grumble.Freezer.{
  Value, Codec, LogTx, written, begin_tx, put_value, put_values, op_bytes, commit, next_group,
  failed, record_too_big, max_record, to_le, code_of,
}
use grumble.Freezer.Bytes.{read_le-to_le, length-to_le}
use grumble.Freezer.RoundTrip.{commit-append}

length-op_bytes :
    {M : Type 0} (v : Value M) (buf : List ℕ) → length (op_bytes v.kind buf) ≡ 4 + length buf
unfolding op_bytes
length-op_bytes v buf = omega (
  arith,
  length-append (to_le 2 (code_of v.kind)) (to_le 2 (length buf) ++ buf),
  length-append (to_le 2 (length buf)) buf,
  length-to_le 2 (code_of v.kind),
  length-to_le 2 (length buf),
)

put_value_fits :
    {M : Type 0} (codec : Codec M) (v : Value M) (buf : List ℕ) (tx : LogTx)
    → codec.marshal v.kind v.body ≡ some buf
    → length buf ≤ 65535
    → tx.numops ≤ 255
    → put_value codec v tx
      ≡ written (record { buf = tx.buf ++ op_bytes v.kind buf; numops = tx.numops + 1 })
unfolding put_value
put_value_fits codec v buf tx m l few =
    let room : ltb 255 tx.numops ≡ false = ground arith in
    let fits : ltb 65535 (length buf) ≡ false = ground arith in rw (put_value, room, m, fits) refl

-- The values are marshalled to 65535 bytes each, to the same ones or to others.
abbrev pub AreLargest : {M : Type 0} → Codec M → List (Value M) → Type 0
AreLargest codec [] = Unit {0}
AreLargest codec (v ∷ vs) =
    ((buf : List ℕ) × ((codec.marshal v.kind v.body ≡ some buf) × (length buf ≡ 65535)))
    × AreLargest codec vs

length-put_values :
    {M : Type 0} (codec : Codec M) (vs : List (Value M)) (before : LogTx)
    → AreLargest codec vs
    → before.numops + length vs ≤ 256
    → (tx : LogTx) × ((put_values codec vs before ≡ written tx)
        × (length tx.buf ≡ length before.buf + length vs * 65539))
unfolding put_values
length-put_values codec [] before all few = (before, (refl, omega arith))
length-put_values codec (v ∷ vs) before all few =
    let (buf, (m, l)) = all.0 in
    let mid : LogTx = record {
      buf = before.buf ++ op_bytes v.kind buf;
      numops = before.numops + 1;
    } in
    let (tx, (p, e)) = length-put_values codec vs mid all.1 (omega arith) in
    (
      tx,
      (
        rw (put_values, put_value_fits codec v buf before m (omega arith) (omega arith)) p,
        omega (arith, e, l, length-append before.buf (op_bytes v.kind buf), length-op_bytes v buf),
      ),
    )

next_group_big :
    {M : Type 0} (codec : Codec M) (tx : LogTx) (rest : List ℕ)
    → max_record < length tx.buf
    → length tx.buf < 2 ^ 31
    → next_group codec (commit codec tx ++ rest) ≡ failed record_too_big
unfolding next_group
next_group_big codec tx rest big small =
    let size = 8 + length tx.buf in
    let after = to_le 4 tx.numops ++ (to_le 4 (codec.crc tx.buf) ++ (tx.buf ++ rest)) in
    let header : ltb size 8 ≡ false = ground arith in
    let over : ltb max_record (size - 8) ≡ true = ground arith in
    rw
      (
        commit-append codec tx rest,
        next_group,
        read_le-to_le 4 size after (omega arith),
        header,
        over,
      )
      refl

-- 255 or 256 values that are marshalled to 65535 bytes each are all put without an error, and
-- Next refuses the commit of them with ErrRecordTooBig.
pub full_group_too_big :
    {M : Type 0} (codec : Codec M) (vs : List (Value M)) (rest : List ℕ)
    → AreLargest codec vs
    → 255 ≤ length vs
    → length vs ≤ 256
    → (tx : LogTx) × ((put_values codec vs begin_tx ≡ written tx)
        × (next_group codec (commit codec tx ++ rest) ≡ failed record_too_big))
full_group_too_big codec vs rest all low high =
    let (tx, (p, e)) = length-put_values codec vs begin_tx all (omega arith) in
    (tx, (p, next_group_big codec tx rest (omega arith) (omega arith)))
