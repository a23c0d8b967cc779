-- ===== src/Ocb2/Mode.antt =====
-- pkg/cryptstate/mode_ocb2.go: OCB2 with a tag of three bytes as a CryptoMode, and a client's
-- packets under it.
use grumble.Common.{
  ℕ, ◌+◌, ◌≤◌, ◌<◌, ◌≡◌, refl, ap, ◌∙◌, sym, subst, List, ◌∷◌, ◌++◌, length, length-append,
  length-take, take, drop, take_front, drop_front, All, arith, leb, Bool, true, false, Option, none,
  some, if◌then◌else◌,
}
use grumble.CryptState.{
  CryptState, CryptoMode, Opened, plain, mismatch, bad_src, ok, increment, encrypt, decrypt,
}
use grumble.CryptState.Nonce.{increment-IsByte, length-increment}
use grumble.CryptState.Sync.{Opens, Accepted, decrypt-encrypt}
use grumble.Ocb2.{BlockCipher, Compare, nonce_size}
use grumble.Ocb2
use grumble.Ocb2.Blocks.{IsByte, IsBlock}
use grumble.Ocb2.Inverse.{IsCipher}
use grumble.Ocb2.Inverse

abbrev pub mode_overhead : ℕ
mode_overhead = 3

-- `Encrypt` panics on a destination of three bytes or fewer, so on an empty text.
unfoldable pub seal : BlockCipher → List ℕ → List ℕ → Option (List ℕ)
seal cipher src nonce =
    if leb (length src + mode_overhead) mode_overhead
    then none
    else elim (Ocb2.encrypt cipher src nonce) [
      | none ↦ none
      | some (sealed, tag) ↦ some (take 3 tag ++ sealed)
    ]

abbrev verdict : Option (List ℕ × Bool) → Opened
verdict none = bad_src
verdict (some (text, matches)) = if matches then plain text else mismatch

unfoldable pub unseal : BlockCipher → Compare → List ℕ → List ℕ → Opened
unseal cipher compare src nonce =
    if leb (length src) mode_overhead
    then bad_src
    else verdict (Ocb2.decrypt cipher compare (drop 3 src) nonce (take 3 src))

unfoldable pub ocb2_mode : BlockCipher → Compare → CryptoMode
ocb2_mode cipher compare = record {
  nonce_size = nonce_size;
  key_size = 16;
  overhead = mode_overhead;
  seal = seal cipher;
  unseal = unseal cipher compare;
}

three : (tag : List ℕ) → length tag ≡ 16 → length (take 3 tag) ≡ 3
three tag h = omega (arith, length-take 3 tag)

-- What the mode makes of a text and its encryption.
seal_parts :
    (cipher : BlockCipher) (text nonce sealed tag packet : List ℕ)
    → 0 < length text
    → Ocb2.encrypt cipher text nonce ≡ some (sealed, tag)
    → seal cipher text nonce ≡ some packet
    → packet ≡ take 3 tag ++ sealed
unfolding seal
seal_parts cipher text nonce sealed tag packet h e s = ground arith

unseal_parts :
    (cipher : BlockCipher) (compare : Compare) (text nonce sealed tag : List ℕ)
    → length tag ≡ 16
    → 0 < length sealed
    → Ocb2.decrypt cipher compare sealed nonce (take 3 tag) ≡ some (text, true)
    → unseal cipher compare (take 3 tag ++ sealed) nonce ≡ plain text
unfolding unseal
unseal_parts cipher compare text nonce sealed tag t h e =
    let k = three tag t in
    let long : leb (length (take 3 tag ++ sealed)) 3 ≡ false =
      ground (arith, length-append (take 3 tag) sealed) in
    let front : take 3 (take 3 tag ++ sealed) ≡ take 3 tag =
      subst (λ n. take n (take 3 tag ++ sealed) ≡ take 3 tag) k (take_front (take 3 tag) sealed) in
    let behind : drop 3 (take 3 tag ++ sealed) ≡ sealed =
      subst (λ n. drop n (take 3 tag ++ sealed) ≡ sealed) k (drop_front (take 3 tag) sealed) in
    rw (long, front, behind, e) refl

-- `unseal` opens what `seal` made of a text of one byte or more.
pub unseal-seal :
    (cipher : BlockCipher) (compare : Compare) (text nonce packet : List ℕ)
    → IsCipher cipher
    → ((a : List ℕ) → compare.equal a a ≡ true)
    → IsBlock nonce
    → All IsByte text
    → 0 < length text
    → seal cipher text nonce ≡ some packet
    → Opens (ocb2_mode cipher compare) packet nonce text
unfolding ocb2_mode
unseal-seal cipher compare text nonce packet law same nb bytes h e =
    let (sealed, tag, enc, t, l, dec) =
      Inverse.ocb2_round_trip cipher compare 3 text nonce law same nb bytes in
    let parts = seal_parts cipher text nonce sealed tag packet h enc e in
    let opened = unseal_parts cipher compare text nonce sealed tag t (omega arith) dec in
    (
      subst (λ p. unseal cipher compare p nonce ≡ plain text) (sym parts) opened,
      subst (λ p. length p ≡ length text + 3) (sym parts)
          (omega (arith, length-append (take 3 tag) sealed, three tag t)),
    )

-- A client and the server that hold the same OCB2 key: what one encrypts, a text of one byte or
-- more, under a nonce of 16 bytes, the other decrypts in order to the same text, and their nonces
-- agree again. The block cipher inverts itself on blocks.
pub ocb2_packet :
    (cipher : BlockCipher) (compare : Compare) (now space b b1 : ℕ) (rest text packet : List ℕ)
    (s s' r : CryptState)
    → IsCipher cipher
    → ((a : List ℕ) → compare.equal a a ≡ true)
    → s.mode ≡ ocb2_mode cipher compare
    → r.mode ≡ ocb2_mode cipher compare
    → s.encrypt_iv ≡ b ∷ b1 ∷ rest
    → r.decrypt_iv ≡ s.encrypt_iv
    → IsBlock s.encrypt_iv
    → All IsByte text
    → 0 < length text
    → length text ≤ space
    → encrypt text s ≡ ok (packet, s')
    → (r' : CryptState) × (decrypt now space packet r ≡ ok (text, r'))
      × Accepted now r r' s'.encrypt_iv 0 0
ocb2_packet cipher compare now space b b1 rest text packet s s' r law same ms mr i si nb bytes h fit
      e =
    let next : IsBlock (increment s.encrypt_iv) = record {
      sized = length-increment s.encrypt_iv ∙ nb.sized;
      bytes = increment-IsByte s.encrypt_iv nb.bytes;
    } in
    let first : All IsByte (b ∷ b1 ∷ rest) = subst (All IsByte) i nb.bytes in
    decrypt-encrypt now space b b1 rest text packet s s' r e i si first.0
      (λ sealed q. opens sealed next (ap (λ m. m.seal text (increment s.encrypt_iv)) (sym ms) ∙ q))
      fit
  where
    opens :
        (sealed : List ℕ)
        → IsBlock (increment s.encrypt_iv)
        → (ocb2_mode cipher compare).seal text (increment s.encrypt_iv) ≡ some sealed
        → Opens r.mode sealed (increment s.encrypt_iv) text
    opens sealed next q =
        subst (λ m. Opens m sealed (increment s.encrypt_iv) text) (sym mr)
          (unseal-seal cipher compare text (increment s.encrypt_iv) sealed law same next bytes h
            (unfold ocb2_mode in q))
