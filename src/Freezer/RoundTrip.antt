-- ===== src/Freezer/RoundTrip.antt =====
-- What is committed is read back: one group, and a log of many.
use grumble.Common.{
  ℕ, ◌+◌, ◌-◌, ◌≤◌, ◌≡◌, refl, ◌∙◌, false, List, ◌++◌, append_assoc, ltb, ==_refl, arith, length,
  length-append, take_front,
}
use grumble.Freezer.{
  Value, Codec, LogTx, written, begin_tx, put_values, commit, read_ops, ended, finish, next_record,
  next_group, group, max_record, to_le,
}
use grumble.Freezer.Bytes.{read_le-to_le}
use grumble.Freezer.Group.{Encodes, IsCodec, put_values-Extends, read_ops-Encodes}

-- Behind the length of a committed record.
pub next_record-commit :
    {M : Type 0} (codec : Codec M) (tx : LogTx) (rest : List ℕ)
    → IsCodec codec
    → tx.numops ≤ 256
    → next_record codec
        (length tx.buf)
        (to_le 4 tx.numops ++ (to_le 4 (codec.crc tx.buf) ++ (tx.buf ++ rest)))
      ≡ finish codec
          (length tx.buf)
          (codec.crc tx.buf)
          (tx.buf ++ rest)
          (read_ops codec tx.numops (tx.buf ++ rest) false)
unfolding next_record
next_record-commit codec tx rest law few =
    rw
      (
        next_record,
        read_le-to_le 4 tx.numops (to_le 4 (codec.crc tx.buf) ++ (tx.buf ++ rest)) (omega arith),
        read_le-to_le 4 (codec.crc tx.buf) (tx.buf ++ rest) (omega (arith, law.crc-lt tx.buf)),
      )
      refl

pub commit-append :
    {M : Type 0} (codec : Codec M) (tx : LogTx) (rest : List ℕ)
    → commit codec tx ++ rest
      ≡ to_le 4 (8 + length tx.buf)
        ++ (to_le 4 tx.numops ++ (to_le 4 (codec.crc tx.buf) ++ (tx.buf ++ rest)))
unfolding commit
commit-append codec tx rest = simp append_assoc refl

pub next_group-commit :
    {M : Type 0} (codec : Codec M) (tx : LogTx) (rest : List ℕ)
    → IsCodec codec
    → tx.numops ≤ 256
    → length tx.buf ≤ max_record
    → next_group codec (commit codec tx ++ rest)
      ≡ finish codec
          (length tx.buf)
          (codec.crc tx.buf)
          (tx.buf ++ rest)
          (read_ops codec tx.numops (tx.buf ++ rest) false)
unfolding next_group
next_group-commit codec tx rest law few small =
    let size = 8 + length tx.buf in
    let after = to_le 4 tx.numops ++ (to_le 4 (codec.crc tx.buf) ++ (tx.buf ++ rest)) in
    let big : ltb size 8 ≡ false = ground arith in
    let fits : ltb max_record (size - 8) ≡ false = ground arith in
    let same : size - 8 ≡ length tx.buf = omega arith in
    rw
      (
        commit-append codec tx rest,
        next_group,
        read_le-to_le 4 size after (omega arith),
        big,
        fits,
        same,
      )
      (next_record-commit codec tx rest law few)

finish_group :
    {M : Type 0} (codec : Codec M) (bytes rest : List ℕ) (vs : List (Value M))
    → finish codec (length bytes) (codec.crc bytes) (bytes ++ rest) (ended vs rest false)
      ≡ group vs rest
unfolding finish
finish_group codec bytes rest vs =
    let consumed : length (bytes ++ rest) - length rest ≡ length bytes =
      omega (arith, length-append bytes rest) in
    rw (consumed, ==_refl (length bytes), take_front bytes rest, ==_refl (codec.crc bytes)) refl

-- A committed transaction, seen by its values: it has at most 16711425 bytes.
pub record Commits {M : Type 0} (codec : Codec M) (vs : List (Value M)) (tx : LogTx) : Type 0 where
  pub puts : put_values codec vs begin_tx ≡ written tx
  pub small : length tx.buf ≤ max_record

finish_ops :
    {M : Type 0} (codec : Codec M) (vs : List (Value M)) (bytes rest buf : List ℕ) (ops : ℕ)
    → IsCodec codec
    → Encodes codec vs bytes
    → buf ≡ bytes
    → ops ≡ length vs
    → finish codec
        (length buf)
        (codec.crc buf)
        (buf ++ rest)
        (read_ops codec ops (buf ++ rest) false)
      ≡ group vs rest
finish_ops codec vs bytes rest buf ops law enc eb eo =
    rw (eb, eo, read_ops-Encodes codec vs bytes rest law enc) (finish_group codec bytes rest vs)

pub next_group-Commits :
    {M : Type 0} (codec : Codec M) (vs : List (Value M)) (tx : LogTx) (rest : List ℕ)
    → IsCodec codec
    → Commits codec vs tx
    → next_group codec (commit codec tx ++ rest) ≡ group vs rest
next_group-Commits codec vs tx rest law c =
    let x = put_values-Extends codec vs begin_tx tx c.puts in
    next_group-commit codec tx rest law (x.few_ops (omega arith)) c.small
    ∙ finish_ops codec vs x.bytes rest tx.buf tx.numops law x.encodes x.same_buf
        (omega (arith, x.same_ops))
