-- ===== src/Freezer/Bytes.antt =====
-- Numbers of fixed width in the log, lowest byte first, and reads that find their bytes or do not.
use grumble.Common.{
  ℕ, zero, suc, ◌/◌, ◌^◌, ◌<◌, ◌≡◌, refl, ap, List, ◌++◌, none, some, ltb, arith, length,
  length-append, take_front, drop_front, lt→ltb, false,
}
use native.Mathlib.Nat.{pow-suc}
use grumble.Freezer.{to_le, from_le, read_full, read_le}

pub length-to_le : (n x : ℕ) → length (to_le n x) ≡ n
unfolding to_le
length-to_le zero x = refl
length-to_le (suc n) x = ap suc (length-to_le n (x / 256))

pub from_le-to_le : (n x : ℕ) → x < 256 ^ n → from_le (to_le n x) ≡ x
unfolding to_le from_le
from_le-to_le zero x h = omega arith
from_le-to_le (suc n) x h =
    let p = pow-suc 256 n in omega (arith, from_le-to_le n (x / 256) (omega arith))

pub read_full-append :
    (bytes rest : List ℕ) → read_full (length bytes) (bytes ++ rest) ≡ some (bytes, rest)
unfolding read_full
read_full-append bytes rest =
    let e : ltb (length (bytes ++ rest)) (length bytes) ≡ false =
      ground (arith, length-append bytes rest) in
    rw (e, take_front bytes rest, drop_front bytes rest) refl

pub read_full_short : (n : ℕ) (file : List ℕ) → length file < n → read_full n file ≡ none
unfolding read_full
read_full_short n file h = rw (lt→ltb (length file) n h) refl

pub read_le-to_le :
    (n x : ℕ) (rest : List ℕ) → x < 256 ^ n → read_le n (to_le n x ++ rest) ≡ some (x, rest)
unfolding read_le
read_le-to_le n x rest h =
    let e = rw (length-to_le n x) at (read_full-append (to_le n x) rest) in
    rw (e, read_le, from_le-to_le n x h) refl

pub read_le_short : (n : ℕ) (file : List ℕ) → length file < n → read_le n file ≡ none
unfolding read_le
read_le_short n file h = rw (read_full_short n file h, read_le) refl
