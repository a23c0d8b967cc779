-- ===== src/Bans/Masks.antt =====
-- What a mask compares, on addresses of 16 bytes.
use grumble.Common.{
  ℕ, zero, suc, ◌-◌, ◌%◌, ◌^◌, ◌≡◌, refl, ap, ap₂, ◌∙◌, Bool, true, false, ◌&&◌, List, [], ◌∷◌, ltb,
  ◌==◌, arith, Bool-cases, inl, inr, length, min,
}
use grumble.Common.Bits.{bit_and_mask}
use grumble.Common.Names.{same_name}
use grumble.Bans.{Ban, mask_bytes, ip_mask, and_bytes, masked, equal_ip, match_ip}

-- The addresses agree in as many bits, eight of each byte and the low ones of the last.
abbrev pub agree : ℕ → List ℕ → List ℕ → Bool
agree bits [] [] = true
agree bits (a ∷ xs) (b ∷ ys) = (a % 2 ^ min bits 8 == b % 2 ^ min bits 8) && agree (bits - 8) xs ys
agree bits _ _ = false

mask_bytes-suc :
    (n bits : ℕ) → mask_bytes (suc n) bits ≡ (2 ^ min bits 8 - 1) ∷ mask_bytes n (bits - 8)
unfolding mask_bytes
mask_bytes-suc n bits = elim (Bool-cases (ltb 0 bits)) [
  | inl some_bits ↦ elim (Bool-cases (ltb 8 bits)) [
    | inl many ↦ let e : min bits 8 ≡ 8 = ground arith in rw (mask_bytes, some_bits, many, e) refl
    | inr few ↦ let e : min bits 8 ≡ bits = ground arith in rw (mask_bytes, some_bits, few, e) refl
  ]
  | inr no_bits ↦ let e : min bits 8 ≡ 0 = ground arith in rw (mask_bytes, no_bits, e) refl
]

length-mask_bytes : (n bits : ℕ) → length (mask_bytes n bits) ≡ n
unfolding mask_bytes
length-mask_bytes zero bits = refl
length-mask_bytes (suc n) bits =
    ap length (mask_bytes-suc n bits) ∙ ap suc (length-mask_bytes n (bits - 8))

length-and_bytes :
    (n : ℕ) (xs ms : List ℕ) → length xs ≡ n → length ms ≡ n → length (and_bytes xs ms) ≡ n
unfolding and_bytes
length-and_bytes n [] ms p q = p
length-and_bytes n (x ∷ xs) [] p q = absurd (omega (arith, p, q))
length-and_bytes n (x ∷ xs) (m ∷ ms) p q =
    omega (arith, length-and_bytes (n - 1) xs ms (omega arith) (omega arith))

same_masked :
    (n bits : ℕ) (xs ys : List ℕ)
    → length xs ≡ n
    → length ys ≡ n
    → same_name (and_bytes xs (mask_bytes n bits)) (and_bytes ys (mask_bytes n bits))
      ≡ agree bits xs ys
unfolding and_bytes mask_bytes
same_masked n bits [] [] p q = refl
same_masked n bits [] (y ∷ ys) p q = absurd (omega (arith, p, q))
same_masked n bits (x ∷ xs) [] p q = absurd (omega (arith, p, q))
same_masked zero bits (x ∷ xs) (y ∷ ys) p q = absurd (omega (arith, p))
same_masked (suc n) bits (x ∷ xs) (y ∷ ys) p q =
    rw (mask_bytes-suc n bits, bit_and_mask (min bits 8) x, bit_and_mask (min bits 8) y)
      (ap (◌&&◌ (x % 2 ^ min bits 8 == y % 2 ^ min bits 8))
        (same_masked n (bits - 8) xs ys (omega (arith, p)) (omega (arith, q))))

masked_long :
    (ip mask : List ℕ) → length ip ≡ 16 → length mask ≡ 16 → masked ip mask ≡ and_bytes ip mask
unfolding masked
masked_long ip mask p q = rw (masked, p, q) (rw q (rw p refl))

-- On addresses of 16 bytes a ban matches exactly when the two agree in the bits of its mask: in every
-- whole byte, and in the low bits of the byte in which the mask ends.
pub match_ip-agree :
    (ban : Ban) (ip : List ℕ)
    → length ban.ip ≡ 16
    → length ip ≡ 16
    → match_ip ban ip ≡ agree ban.mask ban.ip ip
unfolding match_ip equal_ip ip_mask
match_ip-agree ban ip p q =
    let m = length-mask_bytes 16 ban.mask in
    let a = masked_long ban.ip (mask_bytes 16 ban.mask) p m in
    let b = masked_long ip (mask_bytes 16 ban.mask) q m in
    let la = length-and_bytes 16 ban.ip (mask_bytes 16 ban.mask) p m in
    let lb = length-and_bytes 16 ip (mask_bytes 16 ban.mask) q m in
    ap₂ equal_ip a b ∙ rw (equal_ip, la, lb) (same_masked 16 ban.mask ban.ip ip p q)
