-- ===== src/CryptState/Nonce.antt =====
-- Nonces as numbers, lowest byte first, and the steps that the code takes on them.
use grumble.Common.{
  ℕ, zero, suc, ◌+◌, ◌-◌, ◌*◌, ◌%◌, ◌^◌, ◌≤◌, ◌<◌, ◌≡◌, refl, ◌↔◌, ap, ◌∙◌, ◌⊎◌, inl, inr, List, [],
  ◌∷◌, ltb, if◌then◌else◌, length, All, arith, Bool-cases,
}
use grumble.CryptState.{increment, decrement}
use native.Mathlib.Nat.{pow-suc}

abbrev pub IsByte : ℕ → Type 0
IsByte b = b < 256

abbrev pub iv_value : List ℕ → ℕ
iv_value [] = 0
iv_value (b ∷ bs) = b + 256 * iv_value bs

iv_value-lt : (iv : List ℕ) → All IsByte iv → iv_value iv < 256 ^ length iv
iv_value-lt [] h = omega arith
iv_value-lt (b ∷ bs) h = omega (arith, pow-suc 256 (length bs), iv_value-lt bs h.1)

-- The step of `Encrypt`, and of `Decrypt` on the bytes behind the first, adds one to the nonce as
-- a number; the greatest nonce wraps to zero.
pub increment_value :
    (iv : List ℕ)
    → All IsByte iv
    → ((iv_value iv + 1 < 256 ^ length iv) × (iv_value (increment iv) ≡ iv_value iv + 1))
      ⊎ ((iv_value iv + 1 ≡ 256 ^ length iv) × (iv_value (increment iv) ≡ 0))
unfolding increment
increment_value [] h = inr (omega arith, omega arith)
increment_value (b ∷ bs) h =
    ground (arith, pow-suc 256 (length bs), iv_value-lt bs h.1, increment_value bs h.1)

pub increment-IsByte : (iv : List ℕ) → All IsByte iv → All IsByte (increment iv)
unfolding increment
increment-IsByte [] h = tt
increment-IsByte (b ∷ bs) h = ground (arith, increment-IsByte bs h.1)

pub length-increment : (iv : List ℕ) → length (increment iv) ≡ length iv
unfolding increment
length-increment [] = refl
length-increment (b ∷ bs) = ground (arith, length-increment bs)

-- The first byte and the rest of a nonce after one step.
abbrev pub carried : ℕ → List ℕ → List ℕ
carried c rest = if ltb 0 c then rest else increment rest

pub increment-cons :
    (b : ℕ) (rest : List ℕ) → increment (b ∷ rest) ≡ (b + 1) % 256 ∷ carried ((b + 1) % 256) rest
unfolding increment
increment-cons b rest = ground arith

-- A nonce after d steps.
unfoldable pub advance : ℕ → List ℕ → List ℕ
advance zero iv = iv
advance (suc d) iv = increment (advance d iv)

advance-cons_low : (d b : ℕ) (rest : List ℕ) → b + d < 256 → advance d (b ∷ rest) ≡ (b + d) ∷ rest
unfolding advance
advance-cons_low zero b rest h = ap (λ (x : ℕ). x ∷ rest) (omega arith)
advance-cons_low (suc d) b rest h =
    ap increment (advance-cons_low d b rest (omega arith))
    ∙ increment-cons (b + d) rest
    ∙ ground arith

advance-cons_wrapped :
    (d b : ℕ) (rest : List ℕ)
    → 256 ≤ b + d
    → b < 256
    → d ≤ 255
    → advance d (b ∷ rest) ≡ (b + d - 256) ∷ increment rest
unfolding advance
advance-cons_wrapped zero b rest h hb hd = absurd (omega arith)
advance-cons_wrapped (suc d) b rest h hb hd = elim (Bool-cases (ltb (b + d) 256)) [
  | inl low ↦
      ap increment (advance-cons_low d b rest (ground arith))
      ∙ increment-cons (b + d) rest
      ∙ ground arith
  | inr wrapped ↦
      ap increment (advance-cons_wrapped d b rest (ground arith) hb (omega arith))
      ∙ increment-cons (b + d - 256) (increment rest)
      ∙ ground arith
]

pub advance-cons :
    (d b : ℕ) (rest : List ℕ)
    → b < 256
    → d ≤ 255
    → advance d (b ∷ rest)
      ≡ (if ltb (b + d) 256 then (b + d) ∷ rest else (b + d - 256) ∷ increment rest)
advance-cons d b rest hb hd = elim (Bool-cases (ltb (b + d) 256)) [
  | inl low ↦ rw low (advance-cons_low d b rest (ground arith))
  | inr wrapped ↦ rw wrapped (advance-cons_wrapped d b rest (ground arith) hb hd)
]

-- The step back of a late packet from before a wrap, on two or more bytes behind the first: it
-- subtracts one from them as a number exactly when the lowest of them is at least 2. From 0 it
-- does not borrow, and from 1 it borrows though nothing is owed.
pub decrement_value_iff :
    (b c : ℕ) (bs : List ℕ)
    → b < 256
    → c < 256
    → (iv_value (decrement (b ∷ c ∷ bs)) + 1 ≡ iv_value (b ∷ c ∷ bs)) ↔ (2 ≤ b)
unfolding decrement
decrement_value_iff b c bs hb hc = (λ e. ground arith, λ l. ground arith)
