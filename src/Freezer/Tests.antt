-- ===== src/Freezer/Tests.antt =====
-- Concrete logs, with a codec that keeps a message as its own bytes.
use grumble.Common.{
  ℕ, ◌+◌, ◌%◌, ◌≡◌, refl, List, [], ◌∷◌, ◌++◌, some, arith, length-replicate, replicate, length,
  zero, suc, take, drop,
}
use grumble.Freezer.{
  user_type, channel_remove_type, Value, Codec, LogTx, decoded, written, appended, begin_tx,
  op_bytes, put_value, put_values, put_alone, commit, read_log, read_ops, read_value, read_full,
  read_le, kind_of, finish, next_record, next_group, walked, broken, failed, record_too_big,
  crc32_mismatch, unexpected_end_of_record, to_le, from_le,
}
use grumble.Freezer.Group.{IsCodec}
use grumble.Freezer.RoundTrip.{Commits}
use grumble.Freezer.Log.{IsLog, no_group, commit_first, read_log-IsLog}
use grumble.Freezer.Torn.{read_log_torn}
use grumble.Freezer.Limits.{AreLargest, full_group_too_big}

sum : List ℕ → ℕ
sum [] = 0
sum (b ∷ bs) = b + sum bs

abbrev codec : Codec (List ℕ)
codec = record {
  marshal = λ kind m. some m;
  unmarshal = λ kind bytes. decoded bytes;
  crc = λ bytes. sum bytes % 4294967296;
}

codec-IsCodec : IsCodec codec
codec-IsCodec = record { unmarshal_marshal = λ kind m buf e. cc e; crc-lt = λ bytes. omega arith }

abbrev user : Value (List ℕ)
user = record { kind = user_type; body = 7 ∷ 8 ∷ [] }

abbrev channel_remove : Value (List ℕ)
channel_remove = record { kind = channel_remove_type; body = 9 ∷ [] }

abbrev entries : List (Value (List ℕ))
entries = user ∷ channel_remove ∷ []

abbrev tx : LogTx
tx = record { buf = 3 ∷ 0 ∷ 2 ∷ 0 ∷ 7 ∷ 8 ∷ 6 ∷ 0 ∷ 1 ∷ 0 ∷ 9 ∷ []; numops = 2 }

abbrev committed : List ℕ
committed = 19 ∷ 0 ∷ 0 ∷ 0 ∷ 2 ∷ 0 ∷ 0 ∷ 0 ∷ 36 ∷ 0 ∷ 0 ∷ 0 ∷ tx.buf

tx-Commits : Commits codec entries tx
unfolding put_values put_value op_bytes to_le
tx-Commits = record { puts = refl; small = omega arith }

commit-tx : commit codec tx ≡ committed
unfolding commit to_le sum
commit-tx = refl

put_alone_user :
    put_alone codec channel_remove
    ≡ appended (13 ∷ 0 ∷ 0 ∷ 0 ∷ 1 ∷ 0 ∷ 0 ∷ 0 ∷ 16 ∷ 0 ∷ 0 ∷ 0 ∷ 6 ∷ 0 ∷ 1 ∷ 0 ∷ 9 ∷ [])
unfolding put_alone put_value op_bytes commit to_le sum
put_alone_user = refl

two_groups-IsLog : IsLog codec (entries ∷ entries ∷ []) (commit codec tx ++ (commit codec tx ++ []))
two_groups-IsLog =
    commit_first entries tx (entries ∷ []) (commit codec tx ++ []) tx-Commits
      (commit_first entries tx [] [] tx-Commits no_group)

-- A flipped byte is seen by the checksum.
changed_byte :
    next_group codec (take 17 committed ++ (1 ∷ drop 18 committed)) ≡ failed crc32_mismatch
unfolding next_group next_record read_ops read_value read_full read_le kind_of finish from_le sum
changed_byte = refl

read_log-IsLog_example :
    read_log codec (commit codec tx ++ (commit codec tx ++ [])) ≡ walked (entries ∷ entries ∷ [])
read_log-IsLog_example =
    read_log-IsLog codec (entries ∷ entries ∷ []) (commit codec tx ++ (commit codec tx ++ []))
      codec-IsCodec two_groups-IsLog

read_log_torn_example :
    read_log codec ((commit codec tx ++ (commit codec tx ++ [])) ++ take 20 committed)
    ≡ broken unexpected_end_of_record
read_log_torn_example =
    read_log_torn codec (entries ∷ entries ∷ []) (commit codec tx ++ (commit codec tx ++ []))
      entries tx (take 20 committed) (drop 20 committed) codec-IsCodec two_groups-IsLog tx-Commits
      commit-tx (omega arith)

abbrev largest : ℕ → Value (List ℕ)
largest b = record { kind = user_type; body = replicate 65535 b }

-- Values of two kinds of bytes, one more of the first at the end.
abbrev many : ℕ → List (Value (List ℕ))
many zero = largest 0 ∷ []
many (suc n) = largest 1 ∷ largest 0 ∷ many n

many-AreLargest : (n : ℕ) → AreLargest codec (many n)
many-AreLargest zero = ((replicate 65535 0, (refl, length-replicate {A = ℕ} 65535 0)), tt)
many-AreLargest (suc n) = (
  (replicate 65535 1, (refl, length-replicate {A = ℕ} 65535 1)),
  ((replicate 65535 0, (refl, length-replicate {A = ℕ} 65535 0)), many-AreLargest n),
)

length-many : (n : ℕ) → length (many n) ≡ suc (n + n)
length-many zero = refl
length-many (suc n) = omega (arith, length-many n)

full_group_too_big_example :
    (full : LogTx) × ((put_values codec (many 127) begin_tx ≡ written full)
      × (next_group codec (commit codec full ++ []) ≡ failed record_too_big))
full_group_too_big_example =
    full_group_too_big codec (many 127) [] (many-AreLargest 127) (omega (arith, length-many 127))
      (omega (arith, length-many 127))
