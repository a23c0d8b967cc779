-- ===== src/Freezer/Torn.antt =====
-- A commit of which the file holds only the first bytes, as after a crash in the middle of the write.
use grumble.Common.{
  ℕ, zero, suc, ◌+◌, ◌-◌, ◌^◌, ◌≤◌, ◌<◌, ◌≡◌, refl, ap, sym, ◌∙◌, true, false, List, [], ◌∷◌, ◌++◌,
  append_assoc, none, some, ltb, arith, length, length-append, if◌then◌else◌, ◌⊎◌, inl, inr,
  Bool-cases, lt→ltb,
}
use grumble.Freezer.{
  Value, Codec, LogTx, begin_tx, commit, next_group, next_record, end_of_file, failed, finish,
  ended, cons_entry, unexpected_end_of_record, read_ops, read_value, Walked, walked, broken,
  walk_log, read_log, to_le, read_le, read_full, max_record, code_of, op_bytes,
}
use grumble.Freezer.Bytes.{
  read_le_short, read_le-to_le, read_full_short, read_full-append, length-to_le,
}
use grumble.Freezer.Group.{
  IsCodec, Encodes, done, op, put_values-Extends, read_value_known, code_of-lt,
}
use grumble.Freezer.RoundTrip.{Commits}
use grumble.Freezer.Log.{IsLog, walk_log-IsLog, prepend-walked, prepend-broken}

-- Of two ways to cut a list, the longer first part goes on where the shorter one ends.
split_parts :
    (a b part missing : List ℕ)
    → a ++ b ≡ part ++ missing
    → (length part < length a) ⊎ ((part' : List ℕ) × ((part ≡ a ++ part') × (b ≡ part' ++ missing)))
split_parts [] b part missing e = inr (part, (refl, e))
split_parts (x ∷ a) b [] missing e = inl (omega arith)
split_parts (x ∷ a) b (y ∷ part) missing e = elim (split_parts a b part missing (cc e)) [
  | inl l ↦ inl (omega arith)
  | inr (part', (p, q)) ↦ inr (part', (cc (e, p), q))
]

-- A number of the commit is missing in part, or is read.
read_le_part :
    (n x : ℕ) (after part missing : List ℕ)
    → x < 256 ^ n
    → to_le n x ++ after ≡ part ++ missing
    → ((length part < n) × (read_le n part ≡ none))
      ⊎ ((part' : List ℕ) × ((read_le n part ≡ some (x, part'))
            × ((part ≡ to_le n x ++ part') × (after ≡ part' ++ missing))))
read_le_part n x after part missing b e = elim (split_parts (to_le n x) after part missing e) [
  | inl l ↦
      let short : length part < n = omega (arith, l, length-to_le n x) in
      inl (short, read_le_short n part short)
  | inr (part', (p, q)) ↦ inr (part', (rw p (read_le-to_le n x part' b), (p, q)))
]

read_full_part :
    (buf after part missing : List ℕ)
    → buf ++ after ≡ part ++ missing
    → (read_full (length buf) part ≡ none)
      ⊎ ((part' : List ℕ) × ((read_full (length buf) part ≡ some (buf, part'))
            × (after ≡ part' ++ missing)))
read_full_part buf after part missing e = elim (split_parts buf after part missing e) [
  | inl l ↦ inl (read_full_short (length buf) part l)
  | inr (part', (p, q)) ↦ inr (part', (rw p (read_full-append buf part'), q))
]

-- The loop over the operations ends at the end of the file.
EndsEarly : {M : Type 0} → Codec M → ℕ → List ℕ → Type 0
EndsEarly {M} codec ops file =
    (vs : List (Value M)) × ((rest : List ℕ) × (read_ops codec ops file false ≡ ended vs rest true))

cons_early :
    {M : Type 0} (codec : Codec M) (n : ℕ) (v : Value M) (buf part : List ℕ)
    → IsCodec codec
    → codec.marshal v.kind v.body ≡ some buf
    → EndsEarly codec n part
    → (after : List ℕ) × ((w : List (Value M)) × (read_value codec
            (code_of v.kind)
            buf
            (read_ops codec n part)
          ≡ ended w after true))
unfolding EndsEarly
cons_early codec n v buf part law m (vs, (rest, e)) = (
  rest,
  (v ∷ vs, read_value_known codec v buf (read_ops codec n part) law m ∙ ap (cons_entry v) e),
)

-- One operation: its end is missing, or it is read and the loop goes on.
read_ops_part :
    {M : Type 0} (codec : Codec M) (n : ℕ) (v : Value M) (buf after part missing : List ℕ)
    → IsCodec codec
    → codec.marshal v.kind v.body ≡ some buf
    → length buf ≤ 65535
    → to_le 2 (code_of v.kind) ++ (to_le 2 (length buf) ++ (buf ++ after)) ≡ part ++ missing
    → ((part' : List ℕ) → after ≡ part' ++ missing → EndsEarly codec n part')
    → EndsEarly codec (suc n) part
unfolding EndsEarly read_ops
read_ops_part codec n v buf after part missing law m l e rec =
    let c = code_of-lt v.kind in
    elim (read_le_part 2 (code_of v.kind) (to_le 2 (length buf) ++ (buf ++ after)) part missing
      (omega arith) e) [
        | inl (_, none1) ↦ ([], (part, rw (read_ops, none1) refl))
        | inr (part1, (some1, (_, e1))) ↦
            elim (read_le_part 2 (length buf) (buf ++ after) part1 missing (omega arith) e1) [
              | inl (_, none2) ↦ ([], (part1, rw (read_ops, some1, none2) refl))
              | inr (part2, (some2, (_, e2))) ↦ elim (read_full_part buf after part2 missing e2) [
                | inl none3 ↦ ([], (part2, rw (read_ops, some1, some2, none3) refl))
                | inr (part3, (some3, e3)) ↦
                    let (rest, (w, q)) = cons_early codec n v buf part3 law m (rec part3 e3) in
                    (w, (rest, rw (read_ops, some1, some2, some3) q))
              ]
            ]
      ]

read_ops_torn :
    {M : Type 0} (codec : Codec M) (vs : List (Value M)) (bytes part missing : List ℕ)
    → IsCodec codec
    → Encodes codec vs bytes
    → bytes ≡ part ++ missing
    → 0 < length missing
    → EndsEarly codec (length vs) part
unfolding op_bytes
read_ops_torn codec _ _ part missing law done e l =
    absurd (omega (arith, ap length e, length-append part missing))
read_ops_torn codec _ _ part missing law (op v buf vs bytes m small r) e l =
    read_ops_part codec (length vs) v buf bytes part missing law m small
      (sym (
          append_assoc (to_le 2 (code_of v.kind)) (to_le 2 (length buf) ++ buf) bytes
          ∙ ap (λ x. to_le 2 (code_of v.kind) ++ x) (append_assoc (to_le 2 (length buf)) buf bytes))
        ∙ e)
      (λ part' e'. read_ops_torn codec vs bytes part' missing law r e' l)

next_record_torn :
    {M : Type 0} (codec : Codec M) (tx : LogTx) (part missing : List ℕ)
    → tx.numops ≤ 256
    → IsCodec codec
    → to_le 4 tx.numops ++ (to_le 4 (codec.crc tx.buf) ++ tx.buf) ≡ part ++ missing
    → ((part' : List ℕ) → tx.buf ≡ part' ++ missing → EndsEarly codec tx.numops part')
    → next_record codec (length tx.buf) part ≡ failed unexpected_end_of_record
unfolding next_record EndsEarly finish
next_record_torn codec tx part missing few law e torn =
    elim (read_le_part 4 tx.numops (to_le 4 (codec.crc tx.buf) ++ tx.buf) part missing (omega arith)
      e) [
        | inl (_, none1) ↦ rw (next_record, none1) refl
        | inr (part1, (some1, (_, e1))) ↦
            elim (read_le_part 4 (codec.crc tx.buf) tx.buf part1 missing
              (omega (arith, law.crc-lt tx.buf)) e1) [
                | inl (_, none2) ↦ rw (next_record, some1, none2) refl
                | inr (part2, (some2, (_, e2))) ↦
                    let (vs, (rest, q)) = torn part2 e2 in rw (next_record, some1, some2, q) refl
              ]
      ]

next_group_part :
    {M : Type 0} (codec : Codec M) (tx : LogTx) (part missing : List ℕ)
    → tx.numops ≤ 256
    → length tx.buf ≤ max_record
    → IsCodec codec
    → to_le 4 (8 + length tx.buf) ++ (to_le 4 tx.numops ++ (to_le 4 (codec.crc tx.buf) ++ tx.buf))
      ≡ part ++ missing
    → ((part' : List ℕ) → tx.buf ≡ part' ++ missing → EndsEarly codec tx.numops part')
    → next_group codec part
      ≡ (if ltb (length part) 4 then end_of_file else failed unexpected_end_of_record)
unfolding next_group
next_group_part codec tx part missing few small law e torn =
    let size = 8 + length tx.buf in
    let big : ltb size 8 ≡ false = ground arith in
    let fits : ltb max_record (size - 8) ≡ false = ground arith in
    let same : size - 8 ≡ length tx.buf = omega arith in
    elim (read_le_part 4 size (to_le 4 tx.numops ++ (to_le 4 (codec.crc tx.buf) ++ tx.buf)) part
      missing (omega arith) e) [
        | inl (short, none1) ↦ rw (next_group, none1, lt→ltb (length part) 4 short) refl
        | inr (part1, (some1, (p1, e1))) ↦
            let long : ltb (length part) 4 ≡ false =
              ground
                (arith, ap length p1, length-append (to_le 4 size) part1, length-to_le 4 size) in
            rw (next_group, some1, big, fits, same, long)
              (next_record_torn codec tx part1 missing few law e1 torn)
      ]

early_ops :
    {M : Type 0} (codec : Codec M) (vs : List (Value M)) (ops : ℕ) (part : List ℕ)
    → ops ≡ length vs
    → EndsEarly codec (length vs) part
    → EndsEarly codec ops part
early_ops codec vs ops part e r = rw e r

pub next_group_torn :
    {M : Type 0} (codec : Codec M) (vs : List (Value M)) (tx : LogTx) (part missing : List ℕ)
    → IsCodec codec
    → Commits codec vs tx
    → commit codec tx ≡ part ++ missing
    → 0 < length missing
    → next_group codec part
      ≡ (if ltb (length part) 4 then end_of_file else failed unexpected_end_of_record)
unfolding commit
next_group_torn codec vs tx part missing law c e l =
    let x = put_values-Extends codec vs begin_tx tx c.puts in
    next_group_part codec tx part missing (x.few_ops (omega arith)) c.small law e (λ part' e'.
      early_ops codec vs tx.numops part' (omega (arith, x.same_ops))
        (read_ops_torn codec vs x.bytes part' missing law x.encodes (sym x.same_buf ∙ e') l))

-- What the loop gives at the end of a log that a crash cut.
at_cut : {M : Type 0} → ℕ → Walked M
at_cut n = if ltb n 4 then walked [] else broken unexpected_end_of_record

walk_log_cut :
    {M : Type 0} (codec : Codec M) (part : List ℕ)
    → next_group codec part
      ≡ (if ltb (length part) 4 then end_of_file else failed unexpected_end_of_record)
    → (fuel : ℕ) → length part < fuel
    → walk_log codec fuel part ≡ at_cut (length part)
unfolding walk_log at_cut
walk_log_cut codec part e zero l = absurd (omega arith)
walk_log_cut codec part e (suc fuel) l = elim (Bool-cases (ltb (length part) 4)) [
  | inl t ↦ rw (walk_log, e, t) refl
  | inr f ↦ rw (walk_log, e, f) refl
]

-- Where a log of whole commits is followed by a proper part of one more commit, no value of that
-- commit is read: with less than four bytes of it the loop ends with the earlier groups, and
-- with more it ends with ErrUnexpectedEndOfRecord. Messages are unmarshalled as they were
-- marshalled, and checksums have 32 bits.
pub read_log_torn :
    {M : Type 0} (codec : Codec M) (vss : List (List (Value M))) (log : List ℕ)
    (vs : List (Value M)) (tx : LogTx) (part missing : List ℕ)
    → IsCodec codec
    → IsLog codec vss log
    → Commits codec vs tx
    → commit codec tx ≡ part ++ missing
    → 0 < length missing
    → read_log codec (log ++ part)
      ≡ (if ltb (length part) 4 then walked vss else broken unexpected_end_of_record)
unfolding read_log at_cut
read_log_torn codec vss log vs tx part missing law is c e l =
    walk_log-IsLog codec vss log part (at_cut (length part)) law is
      (walk_log_cut codec part (next_group_torn codec vs tx part missing law c e l))
      (suc (length (log ++ part))) (omega arith)
    ∙ elim (Bool-cases (ltb (length part) 4)) [
      | inl t ↦ rw t (prepend-walked vss)
      | inr f ↦ rw f (prepend-broken vss unexpected_end_of_record)
    ]
