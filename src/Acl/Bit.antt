-- ===== src/Acl/Bit.antt =====
-- The bits of a permission word: which of them `&`, `|` and `^` of acl.go set.
use grumble.Common.{
  ℕ, zero, suc, ◌-◌, ◌*◌, ◌/◌, ◌%◌, ◌^◌, ◌<◌, Bool, true, false, not, ◌&&◌, ◌||◌, ◌==◌, bit_and,
  bit_or, ◌≡◌, refl, arith, if◌then◌else◌,
}
use grumble.Common.Bits.{bit_and_low, bit_or_low, bit_and-zero, bit_or-zero}
use native.Mathlib.Nat.{pow-suc, one-le-pow}
use grumble.Acl.{is_set, not_u32, allows, is_spoken}

abbrev pub has_bit : ℕ → ℕ → Bool
has_bit zero a = a % 2 == 1
has_bit (suc k) a = has_bit k (a / 2)

pub has_bit-bit_or : (k a b : ℕ) → has_bit k (bit_or a b) ≡ (has_bit k a || has_bit k b)
has_bit-bit_or zero a b = ground (arith, bit_or_low a b)
has_bit-bit_or (suc k) a b =
    let half : bit_or a b / 2 ≡ bit_or (a / 2) (b / 2) = omega (arith, bit_or_low a b) in
    rw half (has_bit-bit_or k (a / 2) (b / 2))

pub has_bit-bit_and : (k a b : ℕ) → has_bit k (bit_and a b) ≡ (has_bit k a && has_bit k b)
has_bit-bit_and zero a b = ground (arith, bit_and_low a b)
has_bit-bit_and (suc k) a b =
    let half : bit_and a b / 2 ≡ bit_and (a / 2) (b / 2) = omega (arith, bit_and_low a b) in
    rw half (has_bit-bit_and k (a / 2) (b / 2))

-- `^` on w bits.
has_bit_complement : (k w a : ℕ) → k < w → a < 2 ^ w → has_bit k (2 ^ w - 1 - a) ≡ not (has_bit k a)
has_bit_complement k zero a p q = absurd (omega arith)
has_bit_complement zero (suc w) a p q = let d = pow-suc 2 w in ground arith
has_bit_complement (suc k) (suc w) a p q =
    let d : 2 ^ suc w ≡ 2 * 2 ^ w = omega (arith, pow-suc 2 w) in
    let half : (2 ^ suc w - 1 - a) / 2 ≡ 2 ^ w - 1 - a / 2 = omega arith in
    rw half (has_bit_complement k w (a / 2) (omega arith) (omega arith))

pub has_bit-not_u32 : (k a : ℕ) → k < 32 → a < 2 ^ 32 → has_bit k (not_u32 a) ≡ not (has_bit k a)
has_bit-not_u32 k a p q = has_bit_complement k 32 a p q

-- One bit of a word, as a number.
pub bit_value : ℕ → ℕ → ℕ
bit_value k a = if has_bit k a then 2 ^ k else 0

has_pow : (k a : ℕ) → bit_and a (2 ^ k) ≡ bit_value k a
unfolding bit_value
has_pow zero a = let l = bit_and_low a 1 in let z = bit_and-zero (a / 2) in ground arith
has_pow (suc k) a =
    let d : 2 ^ suc k ≡ 2 * 2 ^ k = omega (arith, pow-suc 2 k) in
    let half : 2 ^ suc k / 2 ≡ 2 ^ k = omega arith in
    let low = rw half at (bit_and_low a (2 ^ suc k)) in let ih = has_pow k (a / 2) in ground arith

bit_value-zero : (k a : ℕ) → (bit_value k a == 0) ≡ not (has_bit k a)
unfolding bit_value
bit_value-zero k a = let p = one-le-pow k 2 (omega arith) in ground arith

bit_value-pow : (k a : ℕ) → (bit_value k a == 2 ^ k) ≡ has_bit k a
unfolding bit_value
bit_value-pow k a = let p = one-le-pow k 2 (omega arith) in ground arith

pub is_set-pow : (k a : ℕ) → is_set a (2 ^ k) ≡ has_bit k a
unfolding is_set
is_set-pow k a = rw (has_pow k a) (bit_value-pow k a)

and_pow : (k g : ℕ) → (bit_and g (2 ^ k) == 0) ≡ not (has_bit k g)
and_pow k g = rw (has_pow k g) (bit_value-zero k g)

and_pow_or : (k g : ℕ) → (bit_and g (bit_or (2 ^ k) 1) == 0) ≡ not (has_bit k g || has_bit 0 g)
and_pow_or zero g = let l = bit_and_low g 1 in let z = bit_and-zero (g / 2) in ground arith
and_pow_or (suc k) g =
    let d : 2 ^ suc k ≡ 2 * 2 ^ k = omega (arith, pow-suc 2 k) in
    let z = bit_or-zero (2 ^ k) in
    let half : 2 ^ suc k / 2 ≡ 2 ^ k = omega arith in
    let or_half : bit_or (2 ^ suc k) 1 / 2 ≡ 2 ^ k =
      let low = rw half at (bit_or_low (2 ^ suc k) 1) in omega arith in
    let or_odd : bit_or (2 ^ suc k) 1 % 2 ≡ 1 =
      let low = rw half at (bit_or_low (2 ^ suc k) 1) in omega arith in
    let low = rw (or_half, or_odd) at (bit_and_low g (bit_or (2 ^ suc k) 1)) in
    let ih = and_pow k (g / 2) in ground arith

either_way :
    (s x y : Bool) → (if s then not (not x) else not (not (x || y))) ≡ (if s then x else (x || y))
either_way true true y = refl
either_way true false y = refl
either_way false true y = refl
either_way false false true = refl
either_way false false false = refl

-- The final test of a single permission.
pub allows-pow :
    (k g : ℕ)
    → allows (2 ^ k) g ≡ (if is_spoken (2 ^ k) then has_bit k g else (has_bit k g || has_bit 0 g))
unfolding allows
allows-pow k g =
    rw (and_pow k g, and_pow_or k g) (either_way (is_spoken (2 ^ k)) (has_bit k g) (has_bit 0 g))
