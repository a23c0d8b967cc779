-- ===== src/Freezer/Log.antt =====
-- A whole log: the commits that were appended, one after the other, as the loop of
-- NewServerFromFrozen reads them.
use grumble.Common.{
  ℕ, zero, suc, ◌+◌, ◌<◌, ◌≡◌, refl, ap, ◌∙◌, List, [], ◌∷◌, ◌++◌, append_assoc, append-nil, arith,
  length, length-append,
}
use grumble.Freezer.{
  Value, Codec, LogTx, commit, next_group, cons_group, Walked, walked, WalkError, broken, walk_log,
  read_log, to_le,
}
use grumble.Freezer.Bytes.{read_le_short, length-to_le}
use grumble.Freezer.Group.{IsCodec}
use grumble.Freezer.RoundTrip.{Commits, next_group-Commits}

-- The bytes of a log, and the values that were committed to it.
pub data IsLog {M : Type 0} (codec : Codec M) : List (List (Value M)) → List ℕ → Type 0 where
  no_group : IsLog codec [] []
  commit_first :
      (vs : List (Value M)) (tx : LogTx) (vss : List (List (Value M))) (log : List ℕ)
      → Commits codec vs tx
      → IsLog codec vss log
      → IsLog codec (vs ∷ vss) (commit codec tx ++ log)

-- The result of the loop, when the groups in front of it are read.
pub prepend : {M : Type 0} → List (List (Value M)) → Walked M → Walked M
prepend [] w = w
prepend (vs ∷ vss) w = cons_group vs (prepend vss w)

pub length-commit :
    {M : Type 0} (codec : Codec M) (tx : LogTx) → length (commit codec tx) ≡ 12 + length tx.buf
unfolding commit
length-commit codec tx = omega (
  arith,
  length-append (to_le 4 (8 + length tx.buf))
      (to_le 4 tx.numops ++ (to_le 4 (codec.crc tx.buf) ++ tx.buf)),
  length-append (to_le 4 tx.numops) (to_le 4 (codec.crc tx.buf) ++ tx.buf),
  length-append (to_le 4 (codec.crc tx.buf)) tx.buf,
  length-to_le 4 (8 + length tx.buf),
  length-to_le 4 tx.numops,
  length-to_le 4 (codec.crc tx.buf),
)

-- With fuel for the groups and the rest, the groups are read and the rest is walked.
pub walk_log-IsLog :
    {M : Type 0} (codec : Codec M) (vss : List (List (Value M))) (log rest : List ℕ) (w : Walked M)
    → IsCodec codec
    → IsLog codec vss log
    → ((fuel : ℕ) → length rest < fuel → walk_log codec fuel rest ≡ w)
    → (fuel : ℕ) → length (log ++ rest) < fuel
    → walk_log codec fuel (log ++ rest) ≡ prepend vss w
unfolding walk_log prepend
walk_log-IsLog codec _ _ rest w law no_group h fuel l = h fuel l
walk_log-IsLog codec _ _ rest w law (commit_first vs tx vss log c r) h zero l = absurd (omega arith)
walk_log-IsLog codec _ _ rest w law (commit_first vs tx vss log c r) h (suc fuel) l =
    let assoc = append_assoc (commit codec tx) log rest in
    let l' = ap length assoc ∙ length-append (commit codec tx) (log ++ rest) in
    let n = length-commit codec tx in
    rw (assoc, walk_log, next_group-Commits codec vs tx (log ++ rest) law c)
      (ap (cons_group vs) (walk_log-IsLog codec vss log rest w law r h fuel (omega arith)))

pub walk_log_end :
    {M : Type 0} (codec : Codec M) (rest : List ℕ)
    → length rest < 4
    → (fuel : ℕ) → length rest < fuel
    → walk_log codec fuel rest ≡ walked []
unfolding walk_log next_group
walk_log_end codec rest s zero l = absurd (omega arith)
walk_log_end codec rest s (suc fuel) l = rw (walk_log, next_group, read_le_short 4 rest s) refl

pub prepend-walked :
    {M : Type 0} (vss : List (List (Value M))) → prepend vss (walked []) ≡ walked vss
unfolding prepend
prepend-walked [] = refl
prepend-walked (vs ∷ vss) = ap (cons_group vs) (prepend-walked vss)

pub prepend-broken :
    {M : Type 0} (vss : List (List (Value M))) (e : WalkError) → prepend vss (broken e) ≡ broken e
unfolding prepend
prepend-broken [] e = refl
prepend-broken (vs ∷ vss) e = ap (cons_group vs) (prepend-broken vss e)

-- A log to which transactions were committed, each of at most 16711425 bytes of operations and
-- all of its puts without an error, is read back by the loop over Next as the lists of the
-- values that were put, in order, where what is marshalled is unmarshalled to itself and a
-- checksum has 32 bits.
pub read_log-IsLog :
    {M : Type 0} (codec : Codec M) (vss : List (List (Value M))) (log : List ℕ)
    → IsCodec codec
    → IsLog codec vss log
    → read_log codec log ≡ walked vss
unfolding read_log
read_log-IsLog codec vss log law is =
    let e = append-nil log in
    let all : length (log ++ []) < suc (length log) = omega (arith, ap length e) in
    rw e at (
      walk_log-IsLog codec vss log [] (walked []) law is (walk_log_end codec [] (omega arith))
        (suc (length log)) all
      ∙ prepend-walked vss)
