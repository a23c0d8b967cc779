-- ===== src/Common/Bits/Byte.antt =====
-- Masks on one byte as arithmetic: each is checked at all 256 values.
use grumble.Common.{
  ℕ, zero, suc, ◌+◌, ◌*◌, ◌/◌, ◌<◌, ◌≡◌, refl, bit_and, bit_or, Bool, true, ◌&&◌, ◌==◌, arith,
}

agree_to : ℕ → (ℕ → ℕ) → (ℕ → ℕ) → Bool
agree_to zero f g = true
agree_to (suc n) f g = (f n == g n) && agree_to n f g

agree_to_sound : (n : ℕ) (f g : ℕ → ℕ) (x : ℕ) → agree_to n f g ≡ true → x < n → f x ≡ g x
unfolding agree_to
agree_to_sound zero f g x h p = absurd (omega arith)
agree_to_sound (suc n) f g x h p = ground (arith, agree_to_sound n f g x)

pub and_80 : (b : ℕ) → b < 256 → bit_and b 0x80 ≡ b / 128 * 128
unfolding agree_to
and_80 b = agree_to_sound 256 (λ x. bit_and x 0x80) (λ x. x / 128 * 128) b refl

pub and_c0 : (b : ℕ) → b < 256 → bit_and b 0xc0 ≡ b / 64 * 64
unfolding agree_to
and_c0 b = agree_to_sound 256 (λ x. bit_and x 0xc0) (λ x. x / 64 * 64) b refl

pub and_e0 : (b : ℕ) → b < 256 → bit_and b 0xe0 ≡ b / 32 * 32
unfolding agree_to
and_e0 b = agree_to_sound 256 (λ x. bit_and x 0xe0) (λ x. x / 32 * 32) b refl

pub and_f0 : (b : ℕ) → b < 256 → bit_and b 0xf0 ≡ b / 16 * 16
unfolding agree_to
and_f0 b = agree_to_sound 256 (λ x. bit_and x 0xf0) (λ x. x / 16 * 16) b refl

pub and_fc : (b : ℕ) → b < 256 → bit_and b 0xfc ≡ b / 4 * 4
unfolding agree_to
and_fc b = agree_to_sound 256 (λ x. bit_and x 0xfc) (λ x. x / 4 * 4) b refl

pub or_80 : (b : ℕ) → b < 64 → bit_or b 0x80 ≡ b + 128
unfolding agree_to
or_80 b = agree_to_sound 64 (λ x. bit_or x 0x80) (λ x. x + 128) b refl

pub or_c0 : (b : ℕ) → b < 64 → bit_or b 0xc0 ≡ b + 192
unfolding agree_to
or_c0 b = agree_to_sound 64 (λ x. bit_or x 0xc0) (λ x. x + 192) b refl

pub or_fc : (b : ℕ) → b < 4 → bit_or 0xfc b ≡ b + 252
unfolding agree_to
or_fc b = agree_to_sound 4 (λ x. bit_or 0xfc x) (λ x. x + 252) b refl
