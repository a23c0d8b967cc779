-- ===== src/Common/Bits.antt =====
-- `&`, `|` and `^` on native numbers: one equation for the lowest digit each, and from these the
-- laws at every width. The native operations are a recursion on binary digits with fuel.
pub mod Byte
use Prim.Native.Nat.{
  ℕ, zero, suc, ◌+◌, ◌-◌, ◌*◌, ◌/◌, ◌%◌, ◌^◌, ◌≤◌, ◌<◌, min, max, differ, digits, bitwise, bit_and,
  bit_or, bit_xor, bit_and-bitwise, bit_or-bitwise, bit_xor-bitwise,
}
use mathlib.Core.Path.{◌≡◌, refl, ap, sym, ◌∙◌}
use native.Mathlib.Omega.{arith}
use native.Mathlib.Nat.{pow-suc, one-le-pow, div-add-mod, mod-lt, div-div-eq-div-mul}

-- More fuel than the first number needs changes nothing.
digits_extra :
    (z : ℕ → ℕ) (f : ℕ → ℕ → ℕ) (a b n k : ℕ) → a ≤ n → digits z f (n + k) a b ≡ digits z f n a b
digits_extra z f zero b zero zero h = refl
digits_extra z f zero b zero (suc k) h = let e : 0 + suc k ≡ suc k = omega arith in rw e
digits_extra z f (suc a) b zero k h = absurd (omega arith)
digits_extra z f zero b (suc n) k h = let e : suc n + k ≡ suc (n + k) = omega arith in rw e
digits_extra z f (suc a) b (suc n) k h =
    let e : suc n + k ≡ suc (n + k) = omega arith in
    rw (e, digits_extra z f (suc a / 2) (b / 2) n k (omega arith))

bitwise_low :
    (z : ℕ → ℕ) (f : ℕ → ℕ → ℕ) (a b : ℕ)
    → bitwise z f (suc a) b ≡ bitwise z f (suc a / 2) (b / 2) * 2 + f (suc a % 2) (b % 2)
bitwise_low z f a b =
    let h = suc a / 2 in
    let e : h + (a - h) ≡ a = omega arith in
    let p = digits_extra z f h (b / 2) h (a - h) (omega arith) in
    ap (λ (t : ℕ). t * 2 + f (suc a % 2) (b % 2)) (rw e at p)

pub bit_and_low : (a b : ℕ) → bit_and a b ≡ bit_and (a / 2) (b / 2) * 2 + min (a % 2) (b % 2)
bit_and_low zero b = simp bit_and-bitwise (omega arith)
bit_and_low (suc a) b = simp bit_and-bitwise (bitwise_low (λ y. 0) min a b)

pub bit_or_low : (a b : ℕ) → bit_or a b ≡ bit_or (a / 2) (b / 2) * 2 + max (a % 2) (b % 2)
bit_or_low zero b = simp bit_or-bitwise (omega arith)
bit_or_low (suc a) b = simp bit_or-bitwise (bitwise_low (λ y. y) max a b)

pub bit_xor_low : (a b : ℕ) → bit_xor a b ≡ bit_xor (a / 2) (b / 2) * 2 + differ (a % 2) (b % 2)
bit_xor_low zero b = simp bit_xor-bitwise (omega arith)
bit_xor_low (suc a) b = simp bit_xor-bitwise (bitwise_low (λ y. y) differ a b)

-- Two digits.
differ_digits : (x y : ℕ) → x < 2 → y < 2 → differ x y ≡ (x + y) % 2
differ_digits zero y p q = omega arith
differ_digits (suc zero) zero p q = omega arith
differ_digits (suc zero) (suc zero) p q = omega arith
differ_digits (suc zero) (suc (suc y)) p q = absurd (omega arith)
differ_digits (suc (suc x)) y p q = absurd (omega arith)

pub bit_xor_digit : (a b : ℕ) → bit_xor a b ≡ bit_xor (a / 2) (b / 2) * 2 + (a + b) % 2
bit_xor_digit a b =
    omega (arith, bit_xor_low a b, differ_digits (a % 2) (b % 2) (omega arith) (omega arith))

-- Induction on a bound of the numbers: each step halves them.
xor_comm_below : (n a b : ℕ) → a ≤ n → b ≤ n → bit_xor a b ≡ bit_xor b a
xor_comm_below zero zero zero p q = refl
xor_comm_below zero (suc a) b p q = absurd (omega arith)
xor_comm_below zero zero (suc b) p q = absurd (omega arith)
xor_comm_below (suc n) a b p q = omega (
  arith,
  bit_xor_digit a b,
  bit_xor_digit b a,
  xor_comm_below n (a / 2) (b / 2) (omega arith) (omega arith),
)

pub bit_xor_comm : (a b : ℕ) → bit_xor a b ≡ bit_xor b a
bit_xor_comm a b = xor_comm_below (a + b) a b (omega arith) (omega arith)

xor_assoc_below :
    (n a b c : ℕ) → a ≤ n → b ≤ n → c ≤ n → bit_xor (bit_xor a b) c ≡ bit_xor a (bit_xor b c)
xor_assoc_below zero zero zero zero p q r = refl
xor_assoc_below zero (suc a) b c p q r = absurd (omega arith)
xor_assoc_below zero zero (suc b) c p q r = absurd (omega arith)
xor_assoc_below zero zero zero (suc c) p q r = absurd (omega arith)
xor_assoc_below (suc n) a b c p q r =
    let ab = bit_xor_digit a b in
    let bc = bit_xor_digit b c in
    let half_ab : bit_xor a b / 2 ≡ bit_xor (a / 2) (b / 2) = omega arith in
    let half_bc : bit_xor b c / 2 ≡ bit_xor (b / 2) (c / 2) = omega arith in
    let ih = xor_assoc_below n (a / 2) (b / 2) (c / 2) (omega arith) (omega arith) (omega arith) in
    let left = rw half_ab at (bit_xor_digit (bit_xor a b) c) in
    let right = rw half_bc at (bit_xor_digit a (bit_xor b c)) in omega arith

pub bit_xor_assoc : (a b c : ℕ) → bit_xor (bit_xor a b) c ≡ bit_xor a (bit_xor b c)
bit_xor_assoc a b c = xor_assoc_below (a + b + c) a b c (omega arith) (omega arith) (omega arith)

xor_self_below : (n a : ℕ) → a ≤ n → bit_xor a a ≡ 0
xor_self_below zero zero p = refl
xor_self_below zero (suc a) p = absurd (omega arith)
xor_self_below (suc n) a p =
    omega (arith, bit_xor_digit a a, xor_self_below n (a / 2) (omega arith))

pub bit_xor_self : (a : ℕ) → bit_xor a a ≡ 0
bit_xor_self a = xor_self_below a a (omega arith)

pub zero-bit_xor : (a : ℕ) → bit_xor 0 a ≡ a
zero-bit_xor a = bit_xor-bitwise 0 a

pub bit_xor-zero : (a : ℕ) → bit_xor a 0 ≡ a
bit_xor-zero a = bit_xor_comm a 0 ∙ zero-bit_xor a

-- Xor with the same number twice gives the number back.
pub bit_xor_cancel : (a b : ℕ) → bit_xor a (bit_xor a b) ≡ b
bit_xor_cancel a b =
    sym (bit_xor_assoc a a b) ∙ ap (λ t. bit_xor t b) (bit_xor_self a) ∙ zero-bit_xor b

pow_double : (k : ℕ) → 2 ^ suc k ≡ 2 * 2 ^ k
pow_double k = omega (arith, pow-suc 2 k)

pub bit_xor-lt : (k a b : ℕ) → a < 2 ^ k → b < 2 ^ k → bit_xor a b < 2 ^ k
bit_xor-lt zero zero zero p q = omega (arith, zero-bit_xor 0)
bit_xor-lt zero (suc a) b p q = absurd (omega arith)
bit_xor-lt zero zero (suc b) p q = absurd (omega arith)
bit_xor-lt (suc k) a b p q =
    let d = pow_double k in
    omega (arith, bit_xor_digit a b, bit_xor-lt k (a / 2) (b / 2) (omega arith) (omega arith))

pub bit_or-lt : (k a b : ℕ) → a < 2 ^ k → b < 2 ^ k → bit_or a b < 2 ^ k
bit_or-lt zero zero zero p q = omega (arith, bit_or-bitwise 0 0)
bit_or-lt zero (suc a) b p q = absurd (omega arith)
bit_or-lt zero zero (suc b) p q = absurd (omega arith)
bit_or-lt (suc k) a b p q =
    let d = pow_double k in
    omega (arith, bit_or_low a b, bit_or-lt k (a / 2) (b / 2) (omega arith) (omega arith))

or_zero_below : (n a : ℕ) → a ≤ n → bit_or a 0 ≡ a
or_zero_below zero zero p = refl
or_zero_below zero (suc a) p = absurd (omega arith)
or_zero_below (suc n) a p = omega (arith, bit_or_low a 0, or_zero_below n (a / 2) (omega arith))

pub bit_or-zero : (a : ℕ) → bit_or a 0 ≡ a
bit_or-zero a = or_zero_below a a (omega arith)

and_zero_below : (n a : ℕ) → a ≤ n → bit_and a 0 ≡ 0
and_zero_below zero zero p = refl
and_zero_below zero (suc a) p = absurd (omega arith)
and_zero_below (suc n) a p = omega (arith, bit_and_low a 0, and_zero_below n (a / 2) (omega arith))

pub bit_and-zero : (a : ℕ) → bit_and a 0 ≡ 0
bit_and-zero a = and_zero_below a a (omega arith)

and_comm_below : (n a b : ℕ) → a ≤ n → b ≤ n → bit_and a b ≡ bit_and b a
and_comm_below zero zero zero p q = refl
and_comm_below zero (suc a) b p q = absurd (omega arith)
and_comm_below zero zero (suc b) p q = absurd (omega arith)
and_comm_below (suc n) a b p q = omega (
  arith,
  bit_and_low a b,
  bit_and_low b a,
  and_comm_below n (a / 2) (b / 2) (omega arith) (omega arith),
)

-- `(q << k) | r` is a sum when `r` has k bits at most.
pub bit_or_disjoint : (k q r : ℕ) → r < 2 ^ k → bit_or (q * 2 ^ k) r ≡ q * 2 ^ k + r
bit_or_disjoint zero q zero h =
    let e : q * 2 ^ 0 ≡ q = omega arith in rw e (omega (arith, bit_or-zero q))
bit_or_disjoint zero q (suc r) h = absurd (omega arith)
bit_or_disjoint (suc k) q r h =
    let d = pow_double k in
    let e : q * 2 ^ suc k ≡ 2 * (q * 2 ^ k) = omega (arith, ap (λ (t : ℕ). q * t) d) in
    let half : q * 2 ^ suc k / 2 ≡ q * 2 ^ k = omega arith in
    let low = rw half at (bit_or_low (q * 2 ^ suc k) r) in
    omega (arith, bit_or_disjoint k q (r / 2) (omega arith))

low_field : (k q r : ℕ) → r < 2 ^ k → bit_and (q * 2 ^ k + r) (2 ^ k - 1) ≡ r
low_field zero q r h = rw (bit_and-zero (q * 1 + r)) (omega arith)
low_field (suc k) q r h =
    let d = pow_double k in
    let pos = one-le-pow k 2 (omega arith) in
    let e : q * 2 ^ suc k ≡ 2 * (q * 2 ^ k) = omega (arith, ap (λ (t : ℕ). q * t) d) in
    let half : (q * 2 ^ suc k + r) / 2 ≡ q * 2 ^ k + r / 2 = omega arith in
    let half_mask : (2 ^ suc k - 1) / 2 ≡ 2 ^ k - 1 = omega arith in
    let low = rw (half, half_mask) at (bit_and_low (q * 2 ^ suc k + r) (2 ^ suc k - 1)) in
    omega (arith, low_field k q (r / 2) (omega arith))

-- `|` loses no bit of its first operand.
or_ge_below : (n a b : ℕ) → a ≤ n → a ≤ bit_or a b
or_ge_below zero zero b p = omega arith
or_ge_below zero (suc a) b p = absurd (omega arith)
or_ge_below (suc n) a b p =
    omega (arith, bit_or_low a b, or_ge_below n (a / 2) (b / 2) (omega arith))

pub bit_or-ge : (a b : ℕ) → a ≤ bit_or a b
bit_or-ge a b = or_ge_below a a b (omega arith)

-- A mask of k low bits is the remainder by 2 ^ k.
pub bit_and_mask : (k a : ℕ) → bit_and a (2 ^ k - 1) ≡ a % 2 ^ k
bit_and_mask k a =
    let pos = one-le-pow k 2 (omega arith) in
    let e : a ≡ a / 2 ^ k * 2 ^ k + a % 2 ^ k = omega (arith, div-add-mod a (2 ^ k)) in
    let f = low_field k (a / 2 ^ k) (a % 2 ^ k) (mod-lt a pos) in rw (← e) at f

pub bit_and_comm : (a b : ℕ) → bit_and a b ≡ bit_and b a
bit_and_comm a b = and_comm_below (a + b) a b (omega arith) (omega arith)

-- A single bit is 2 ^ k where it is set, and 0 where it is not.
pub bit_and_pow : (k a : ℕ) → bit_and a (2 ^ k) ≡ a / 2 ^ k % 2 * 2 ^ k
bit_and_pow zero a = omega (arith, bit_and_low a 1, bit_and-zero (a / 2))
bit_and_pow (suc k) a =
    let d = pow_double k in
    let half : 2 ^ suc k / 2 ≡ 2 ^ k = omega arith in
    let low = rw half at (bit_and_low a (2 ^ suc k)) in
    let e : a / 2 / 2 ^ k ≡ a / 2 ^ suc k = rw d (div-div-eq-div-mul a 2 (2 ^ k)) in
    let ih = rw e at (bit_and_pow k (a / 2)) in
    omega (arith, ap (λ (t : ℕ). a / 2 ^ suc k % 2 * t) d)
