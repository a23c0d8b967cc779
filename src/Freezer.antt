-- ===== src/Freezer.antt =====
-- pkg/freezer (writer.go, walker.go, types.go, error.go): the log of a server's changes, in
-- transaction groups with a checksum.
pub mod Bytes
pub mod Group
pub mod RoundTrip
pub mod Log
pub mod Torn
pub mod Limits
pub mod Tests
use grumble.Common.{
  ℕ, zero, suc, ◌+◌, ◌-◌, ◌*◌, ◌/◌, ◌%◌, ◌<◌, Bool, true, false, not, List, [], ◌∷◌, ◌++◌, Option,
  none, some, ltb, ◌==◌, if◌then◌else◌, length, take, drop,
}

pub data TypeKind : Type 0 where
  server_type config_key_value_pair_type ban_list_type user_type : TypeKind
  user_remove_type channel_type channel_remove_type : TypeKind

abbrev pub code_of : TypeKind → ℕ
code_of server_type = 0
code_of config_key_value_pair_type = 1
code_of ban_list_type = 2
code_of user_type = 3
code_of user_remove_type = 4
code_of channel_type = 5
code_of channel_remove_type = 6

-- The cases of the walker's switch; `none` is a kind that it does not know.
unfoldable pub kind_of : ℕ → Option TypeKind
kind_of code =
    if code == 0
    then some server_type
    else if code == 1
    then some config_key_value_pair_type
    else if code == 2
    then some ban_list_type
    else if code == 3
    then some user_type
    else if code == 4
    then some user_remove_type
    else if code == 5
    then some channel_type
    else if code == 6
    then some channel_remove_type
    else none

-- An entry of the log: the pointer's type, and the message that it points to.
pub record Value (M : Type 0) : Type 0 where
  pub kind : TypeKind
  pub body : M

-- What `proto.Unmarshal` gives: the message, io.ErrUnexpectedEOF, or another error.
pub data Unmarshalled (M : Type 0) : Type 0 where
  decoded : M → Unmarshalled M
  cut_short : Unmarshalled M
  malformed : Unmarshalled M

-- The package proto on the seven types, and the checksum of hash/crc32.
pub record Codec (M : Type 0) : Type 0 where
  pub marshal : TypeKind → M → Option (List ℕ)
  pub unmarshal : TypeKind → List ℕ → Unmarshalled M
  pub crc : List ℕ → ℕ

-- A transaction: what its buffer holds, which is what its checksum covers.
pub record LogTx : Type 0 where
  pub buf : List ℕ
  pub numops : ℕ

pub data TxError : Type 0 where
  marshal_error tx_group_full tx_group_value_too_big : TxError

pub data Written : Type 0 where
  written : LogTx → Written
  refused : TxError → Written

-- An unsigned number of n bytes, the lowest first, as binary.Write gives it.
unfoldable pub to_le : ℕ → ℕ → List ℕ
to_le zero x = []
to_le (suc n) x = x % 256 ∷ to_le n (x / 256)

unfoldable pub from_le : List ℕ → ℕ
from_le [] = 0
from_le (b ∷ bs) = b + 256 * from_le bs

abbrev pub begin_tx : LogTx
begin_tx = record { buf = []; numops = 0 }

unfoldable pub op_bytes : TypeKind → List ℕ → List ℕ
op_bytes kind buf = to_le 2 (code_of kind) ++ (to_le 2 (length buf) ++ buf)

-- `LogTx.Put`
unfoldable pub put_value : {M : Type 0} → Codec M → Value M → LogTx → Written
put_value codec v tx =
    if ltb 255 tx.numops then refused tx_group_full else elim (codec.marshal v.kind v.body) [
      | none ↦ refused marshal_error
      | some buf ↦
          if ltb 65535 (length buf)
          then refused tx_group_value_too_big
          else written (record { buf = tx.buf ++ op_bytes v.kind buf; numops = tx.numops + 1 })
    ]

-- Calls of `Put`, one after the other, up to the first error.
unfoldable pub put_values : {M : Type 0} → Codec M → List (Value M) → LogTx → Written
put_values codec [] tx = written tx
put_values codec (v ∷ vs) tx = elim (put_value codec v tx) [
  | written tx' ↦ put_values codec vs tx'
  | refused e ↦ refused e
]

-- `LogTx.Commit`: what it appends to the log file. Errors of the file are left out.
unfoldable pub commit : {M : Type 0} → Codec M → LogTx → List ℕ
commit codec tx =
    to_le 4 (8 + length tx.buf) ++ (to_le 4 tx.numops ++ (to_le 4 (codec.crc tx.buf) ++ tx.buf))

-- What is appended to the log, or the error.
pub data Appended : Type 0 where
  appended : List ℕ → Appended
  not_appended : TxError → Appended

-- `Log.Put`
unfoldable pub put_alone : {M : Type 0} → Codec M → Value M → Appended
put_alone codec v = elim (put_value codec v begin_tx) [
  | written tx ↦ appended (commit codec tx)
  | refused e ↦ not_appended e
]

-- Reading

-- Exactly n bytes of a file, or `none` at its end, after some of them or none.
unfoldable pub read_full : ℕ → List ℕ → Option (List ℕ × List ℕ)
read_full n file = if ltb (length file) n then none else some (take n file, drop n file)

unfoldable pub read_le : ℕ → List ℕ → Option (ℕ × List ℕ)
read_le n file = elim (read_full n file) [
  | none ↦ none
  | some (bytes, rest) ↦ some (from_le bytes, rest)
]

pub data WalkError : Type 0 where
  unmarshal_error unexpected_end_of_record crc32_mismatch : WalkError
  remaining_bytes_for_record record_too_big : WalkError

-- How the loop over the operations ends: by `break` or by its count, with the entries, what is left
-- of the file, and whether the last `err` is an end of file; or by a return.
pub data Ops (M : Type 0) : Type 0 where
  ended : List (Value M) → List ℕ → Bool → Ops M
  stopped : WalkError → Ops M

abbrev pub cons_entry : {M : Type 0} → Value M → Ops M → Ops M
cons_entry v (ended vs rest eof) = ended (v ∷ vs) rest eof
cons_entry v (stopped e) = stopped e

-- The switch. Its `break` after an end of file leaves the switch alone: the loop goes on without
-- the entry, and `err` stays. `next_ops` is the rest of the loop, from the last `err`.
unfoldable pub read_value : {M : Type 0} → Codec M → ℕ → List ℕ → (Bool → Ops M) → Ops M
read_value codec code buf next_ops = elim (kind_of code) [
  | none ↦ next_ops false
  | some kind ↦ elim (codec.unmarshal kind buf) [
    | decoded m ↦ cons_entry (record { kind = kind; body = m }) (next_ops false)
    | cut_short ↦ next_ops true
    | malformed ↦ stopped unmarshal_error
  ]
]

-- `for remainOps > 0 { ... }`
unfoldable pub read_ops : {M : Type 0} → Codec M → ℕ → List ℕ → Bool → Ops M
read_ops codec zero file eof = ended [] file eof
read_ops codec (suc ops) file eof = elim (read_le 2 file) [
  | none ↦ ended [] file true
  | some (code, file1) ↦ elim (read_le 2 file1) [
    | none ↦ ended [] file1 true
    | some (size, file2) ↦ elim (read_full size file2) [
      | none ↦ ended [] file2 true
      | some (buf, file3) ↦ read_value codec code buf (read_ops codec ops file3)
    ]
  ]
]

-- What `Walker.Next` returns, with the rest of the file after a group.
pub data Step (M : Type 0) : Type 0 where
  group : List (Value M) → List ℕ → Step M
  end_of_file : Step M
  failed : WalkError → Step M

-- The checks behind the loop. `start` is the file where the operations begin.
unfoldable pub finish : {M : Type 0} → Codec M → ℕ → ℕ → List ℕ → Ops M → Step M
finish codec remain sum start (stopped e) = failed e
finish codec remain sum start (ended entries rest eof) =
    let consumed = length start - length rest in
    if eof
    then failed unexpected_end_of_record
    else if not (consumed == remain)
    then failed remaining_bytes_for_record
    else if not (codec.crc (take consumed start) == sum)
    then failed crc32_mismatch
    else group entries rest

-- `math.MaxUint8 * math.MaxUint16`
abbrev pub max_record : ℕ
max_record = 16711425

-- `Walker.Next` behind the length of the record.
unfoldable pub next_record : {M : Type 0} → Codec M → ℕ → List ℕ → Step M
next_record codec remain file = elim (read_le 4 file) [
  | none ↦ failed unexpected_end_of_record
  | some (ops, file1) ↦ elim (read_le 4 file1) [
    | none ↦ failed unexpected_end_of_record
    | some (sum, start) ↦ finish codec remain sum start (read_ops codec ops start false)
  ]
]

unfoldable pub next_group : {M : Type 0} → Codec M → List ℕ → Step M
next_group codec file = elim (read_le 4 file) [
  | none ↦ end_of_file
  | some (size, file1) ↦
      if ltb size 8
      then failed unexpected_end_of_record
      else if ltb max_record (size - 8)
      then failed record_too_big
      else next_record codec (size - 8) file1
]

pub data Walked (M : Type 0) : Type 0 where
  walked : List (List (Value M)) → Walked M
  broken : WalkError → Walked M
  out_of_fuel : Walked M

abbrev pub cons_group : {M : Type 0} → List (Value M) → Walked M → Walked M
cons_group entries (walked gs) = walked (entries ∷ gs)
cons_group entries (broken e) = broken e
cons_group entries out_of_fuel = out_of_fuel

-- The loop of NewServerFromFrozen over a log (cmd/grumble/freeze.go): the groups that it applies.
-- Each group takes bytes of the file.
unfoldable pub walk_log : {M : Type 0} → Codec M → ℕ → List ℕ → Walked M
walk_log codec zero file = out_of_fuel
walk_log codec (suc fuel) file = elim (next_group codec file) [
  | end_of_file ↦ walked []
  | failed e ↦ broken e
  | group entries rest ↦ cons_group entries (walk_log codec fuel rest)
]

unfoldable pub read_log : {M : Type 0} → Codec M → List ℕ → Walked M
read_log codec file = walk_log codec (suc (length file)) file
