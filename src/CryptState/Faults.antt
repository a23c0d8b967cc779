-- ===== src/CryptState/Faults.antt =====
-- Errors, replays, and the packet that is as long as the overhead.
use grumble.Common.{
  ℕ, suc, ◌+◌, ◌-◌, ◌%◌, ◌≤◌, ◌<◌, ◌≡◌, refl, false, List, ◌∷◌, ltb, length, arith,
}
use grumble.CryptState.{
  CryptState, bad_src, err, panics, no_matching_ivbyte, attempt, out_of_order, signed_diff,
  open_packet, decrypt, overhead,
}
use grumble.CryptState.Nonce.{carried}
use grumble.CryptState.Sync.{attempt_next}

exact_length : (body : List ℕ) (k : ℕ) → length body ≡ k → (ltb (suc (length body)) (1 + k) ≡ false)
exact_length body k e = ground arith

no_text :
    (body : List ℕ) (k space : ℕ)
    → length body ≡ k
    → ltb space (suc (length body) - (1 + k)) ≡ false
no_text body k space e = ground arith

-- A packet with the next nonce byte and no text, so as long as the overhead, passes the length
-- check, and `Decrypt` panics with a mode that panics on such a ciphertext, as both modes do.
pub decrypt_no_text_panics :
    (now space b : ℕ) (rest body : List ℕ) (cs : CryptState)
    → ((src iv : List ℕ) → length src ≤ cs.mode.overhead → cs.mode.unseal src iv ≡ bad_src)
    → cs.decrypt_iv ≡ b ∷ rest
    → b < 256
    → length body ≡ cs.mode.overhead
    → decrypt now space ((b + 1) % 256 ∷ body) cs ≡ panics
unfolding decrypt open_packet
decrypt_no_text_panics now space b rest body cs law i hb l =
    let iv = (b + 1) % 256 ∷ carried ((b + 1) % 256) rest in
    rw
      (
        exact_length body cs.mode.overhead l,
        no_text body cs.mode.overhead space l,
        i,
        attempt_next b rest cs.decrypt_history hb,
      )
      (rw (law body iv (omega arith), open_packet) refl)

repeat_attempt :
    (b : ℕ) (rest history : List ℕ)
    → b < 256
    → attempt b (b ∷ rest) history ≡ err no_matching_ivbyte
unfolding attempt out_of_order signed_diff
repeat_attempt b rest history h = ground arith

-- A second packet with the nonce byte of the last good one is refused, whatever the mode says.
pub decrypt_repeat :
    (now space b : ℕ) (rest body : List ℕ) (cs : CryptState)
    → cs.decrypt_iv ≡ b ∷ rest
    → b < 256
    → overhead cs ≤ suc (length body)
    → suc (length body) ≤ space + overhead cs
    → decrypt now space (b ∷ body) cs ≡ err no_matching_ivbyte
unfolding decrypt
decrypt_repeat now space b rest body cs i hb lo hi =
    rw
      (
        (let e : ltb (suc (length body)) (overhead cs) ≡ false = ground arith in e),
        (let e : ltb space (suc (length body) - overhead cs) ≡ false = ground arith in e),
        i,
        repeat_attempt b rest cs.decrypt_history hb,
      )
      refl
