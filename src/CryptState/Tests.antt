-- ===== src/CryptState/Tests.antt =====
-- Concrete runs, with a mode whose tag is the nonce's first byte.
use grumble.Common.{
  ℕ, ◌+◌, ◌≤◌, ◌<◌, ◌≡◌, refl, ◌↔◌, ◌⊎◌, List, [], ◌∷◌, some, arith, ◌==◌, if◌then◌else◌, replicate,
  length,
}
use grumble.CryptState.{
  CryptState, CryptoMode, Opened, plain, mismatch, bad_src, ok, panics, increment, decrement,
  decrypt, encrypt,
}
use grumble.CryptState.Nonce.{iv_value, increment_value, decrement_value_iff, advance}
use grumble.CryptState.Sync.{Accepted, decrypt-encrypt, decrypt_after_loss, decrypt_late}
use grumble.CryptState.Faults.{decrypt_no_text_panics}

abbrev first : List ℕ → ℕ
first [] = 0
first (b ∷ bs) = b

-- As the real modes do, it panics on a ciphertext without text.
abbrev tagged_open : List ℕ → List ℕ → Opened
tagged_open [] iv = bad_src
tagged_open (t ∷ []) iv = bad_src
tagged_open (t ∷ b ∷ text) iv = if t == first iv then plain (b ∷ text) else mismatch

abbrev tagged_mode : CryptoMode
tagged_mode = record {
  nonce_size = 3;
  key_size = 0;
  overhead = 1;
  seal = λ text iv. some (first iv ∷ text);
  unseal = tagged_open;
}

abbrev at_iv : List ℕ → CryptState
at_iv iv = record {
  encrypt_iv = iv;
  decrypt_iv = iv;
  last_good_time = 0;
  good = 4;
  late = 2;
  lost = 9;
  decrypt_history = replicate 256 0;
  mode = tagged_mode;
}

increment_wraps : increment (255 ∷ 255 ∷ 3 ∷ []) ≡ 0 ∷ 0 ∷ 4 ∷ []
unfolding increment
increment_wraps = refl

-- No borrow where the byte is 0.
decrement_zero : decrement (0 ∷ 7 ∷ []) ≡ 255 ∷ 7 ∷ []
unfolding decrement
decrement_zero = refl

increment_value_example :
    ((iv_value (255 ∷ 6 ∷ []) + 1 < 65536)
      × (iv_value (increment (255 ∷ 6 ∷ [])) ≡ iv_value (255 ∷ 6 ∷ []) + 1))
    ⊎ ((iv_value (255 ∷ 6 ∷ []) + 1 ≡ 65536) × (iv_value (increment (255 ∷ 6 ∷ [])) ≡ 0))
increment_value_example = increment_value (255 ∷ 6 ∷ []) (omega arith)

decrement_value_iff_example :
    (iv_value (decrement (0 ∷ 7 ∷ [])) + 1 ≡ iv_value (0 ∷ 7 ∷ [])) ↔ (2 ≤ 0)
decrement_value_iff_example = decrement_value_iff 0 7 [] (omega arith) (omega arith)

tagged_length : (text : List ℕ) → length (5 ∷ text) ≡ length text + 1
tagged_length text = omega arith

decrypt-encrypt_example :
    (r : CryptState) × (decrypt 7 10 (0 ∷ 0 ∷ 65 ∷ 66 ∷ []) (at_iv (255 ∷ 6 ∷ 1 ∷ []))
      ≡ ok (65 ∷ 66 ∷ [], r))
    × Accepted 7 (at_iv (255 ∷ 6 ∷ 1 ∷ [])) r (0 ∷ 7 ∷ 1 ∷ []) 0 0
unfolding encrypt increment
decrypt-encrypt_example =
    decrypt-encrypt 7 10 255 6 (1 ∷ []) (65 ∷ 66 ∷ []) (0 ∷ 0 ∷ 65 ∷ 66 ∷ [])
      (at_iv (255 ∷ 6 ∷ 1 ∷ [])) (record (at_iv (255 ∷ 6 ∷ 1 ∷ [])) { encrypt_iv = 0 ∷ 7 ∷ 1 ∷ [] })
      (at_iv (255 ∷ 6 ∷ 1 ∷ [])) refl refl refl (omega arith) tagged_opens (omega arith)
  where
    tagged_opens :
        (sealed : List ℕ)
        → some (0 ∷ 65 ∷ 66 ∷ []) ≡ some sealed
        → (tagged_open sealed (0 ∷ 7 ∷ 1 ∷ []) ≡ plain (65 ∷ 66 ∷ [])) × (length sealed ≡ 2 + 1)
    tagged_opens sealed e = let same : 0 ∷ 65 ∷ 66 ∷ [] ≡ sealed = cc e in rw (← same) (refl, refl)

decrypt_after_loss_example :
    (r : CryptState) × (decrypt 7 10 (3 ∷ 3 ∷ 65 ∷ []) (at_iv (254 ∷ 6 ∷ 1 ∷ [])) ≡ ok (65 ∷ [], r))
    × Accepted 7 (at_iv (254 ∷ 6 ∷ 1 ∷ [])) r (3 ∷ 7 ∷ 1 ∷ []) 0 4
unfolding advance increment
decrypt_after_loss_example =
    decrypt_after_loss 7 10 5 254 (6 ∷ 1 ∷ []) 3 7 (1 ∷ []) (3 ∷ 65 ∷ []) (65 ∷ [])
      (at_iv (254 ∷ 6 ∷ 1 ∷ [])) refl (omega arith) (omega arith) (omega arith) refl (omega arith)
      (refl, refl) (omega arith)

decrypt_late_example :
    (r : CryptState) × (decrypt 7 10 (9 ∷ 9 ∷ 65 ∷ []) (at_iv (12 ∷ 6 ∷ 1 ∷ [])) ≡ ok (65 ∷ [], r))
    × Accepted 7 (at_iv (12 ∷ 6 ∷ 1 ∷ [])) r (12 ∷ 6 ∷ 1 ∷ []) 1 1
decrypt_late_example =
    decrypt_late 7 10 3 12 6 (1 ∷ []) (9 ∷ 65 ∷ []) (65 ∷ []) (at_iv (12 ∷ 6 ∷ 1 ∷ [])) refl
      (omega arith) (omega arith) (omega arith) (omega arith) (omega arith) (refl, refl)
      (omega arith)

short_is_bad : (src iv : List ℕ) → length src ≤ 1 → tagged_open src iv ≡ bad_src
short_is_bad [] iv h = refl
short_is_bad (t ∷ []) iv h = refl
short_is_bad (t ∷ b ∷ text) iv h = absurd (omega arith)

decrypt_no_text_panics_example : decrypt 7 10 (13 ∷ 99 ∷ []) (at_iv (12 ∷ 6 ∷ [])) ≡ panics
decrypt_no_text_panics_example =
    decrypt_no_text_panics 7 10 12 (6 ∷ []) (99 ∷ []) (at_iv (12 ∷ 6 ∷ [])) short_is_bad refl
      (omega arith) refl
