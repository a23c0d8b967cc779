-- ===== src/CryptState/Sync.antt =====
-- A sender and a receiver that hold the same mode: in order, after losses, and late.
use grumble.Common.{
  ℕ, suc, ◌+◌, ◌-◌, ◌%◌, ◌^◌, ◌≤◌, ◌<◌, ◌≡◌, refl, ◌≢◌, ap, sym, ◌∙◌, inl, inr, true, false, List,
  ◌∷◌, some, ltb, length, arith, Bool-cases, get_or, set, ==_refl, ==_ne, Option-cases, subst,
}
use grumble.Common.Int.{pos, negsuc}
use grumble.CryptState.{
  CryptState, CryptoMode, plain, ok, Attempt, increment, signed_diff, in_order, out_of_order,
  check_replay, attempt, remember, accepted, open_packet, decrypt, encrypt,
}
use grumble.CryptState.Nonce.{increment-cons, carried, advance, advance-cons}

-- What the receiver relies on: the packet behind the nonce byte opens to the text under the nonce,
-- and has the length of a sealed text.
abbrev pub Opens : CryptoMode → List ℕ → List ℕ → List ℕ → Type 0
Opens mode body iv text =
    (mode.unseal body iv ≡ plain text) × (length body ≡ length text + mode.overhead)

-- The states of a receiver that took a packet sealed under `iv`.
abbrev pub Accepted : ℕ → CryptState → CryptState → List ℕ → ℕ → ℕ → Type 0
Accepted now cs cs' kept late lost =
    (cs'.decrypt_iv ≡ kept)
    × (cs'.good ≡ (cs.good + 1) % 2 ^ 32)
    × (cs'.late ≡ (cs.late + late) % 2 ^ 32)
    × (cs'.lost ≡ lost)
    × (cs'.last_good_time ≡ now)
    × (cs'.mode ≡ cs.mode)
    × (cs'.encrypt_iv ≡ cs.encrypt_iv)

fits :
    (space : ℕ) (body text : List ℕ) (k : ℕ)
    → length body ≡ length text + k
    → length text ≤ space
    → (ltb (suc (length body)) (1 + k) ≡ false) × (ltb space (suc (length body) - (1 + k)) ≡ false)
fits space body text k e h = (ground arith, ground arith)

-- Once the attempt is known, the rest of `decrypt` on a packet that opens.
decrypt-Opens :
    (now space ivbyte : ℕ) (body text : List ℕ) (cs : CryptState) (a : Attempt) (b1 : ℕ)
    (rest : List ℕ)
    → attempt ivbyte cs.decrypt_iv cs.decrypt_history ≡ ok a
    → a.iv ≡ ivbyte ∷ b1 ∷ rest
    → Opens cs.mode body a.iv text
    → length text ≤ space
    → decrypt now space (ivbyte ∷ body) cs
      ≡ ok (text, accepted now cs (set cs.decrypt_history ivbyte b1) a)
unfolding decrypt open_packet remember
decrypt-Opens now space ivbyte body text cs a b1 rest e i (u, l) s =
    let (short, room) = fits space body text cs.mode.overhead l s in
    rw (short, room, e) (rw (u, open_packet) (rw (i, remember) refl))

carried-cons :
    (c b1 : ℕ) (rest : List ℕ) → (x : ℕ) × (xs : List ℕ) × (carried c (b1 ∷ rest) ≡ x ∷ xs)
carried-cons c b1 rest = elim (Bool-cases (ltb 0 c)) [
  | inl e ↦ (b1, rest, rw e refl)
  | inr e ↦ ((b1 + 1) % 256, carried ((b1 + 1) % 256) rest, rw e (increment-cons b1 rest))
]

pub attempt_next :
    (b : ℕ) (rest history : List ℕ)
    → b < 256
    → attempt ((b + 1) % 256) (b ∷ rest) history
      ≡ ok (record {
        iv = (b + 1) % 256 ∷ carried ((b + 1) % 256) rest;
        late = 0;
        lost = pos 0;
        restore = false;
      })
unfolding attempt in_order
attempt_next b rest history h = rw (==_refl ((b + 1) % 256)) (ground arith)

encrypt_inv :
    (text packet : List ℕ) (s s' : CryptState) (c : ℕ) (rs : List ℕ)
    → encrypt text s ≡ ok (packet, s')
    → increment s.encrypt_iv ≡ c ∷ rs
    → (sealed : List ℕ) × (s.mode.seal text (c ∷ rs) ≡ some sealed)
      × (packet ≡ c ∷ sealed)
      × (s'.encrypt_iv ≡ c ∷ rs)
unfolding encrypt
encrypt_inv text packet s s' c rs e i = elim (Option-cases (s.mode.seal text (c ∷ rs))) [
  | inl n ↦ let f = rw (i, encrypt, n) at e in absurd (cc f)
  | inr (sealed, q) ↦ let f = rw (i, encrypt, q) at e in (sealed, q, cc f, ground arith)
]

-- A receiver at nonce b, b1, .. and the packet sealed under the next nonce.
decrypt_next :
    (now space b b1 : ℕ) (rest body text : List ℕ) (r : CryptState)
    → let c = (b + 1) % 256 in
      let iv = c ∷ carried c (b1 ∷ rest) in
      r.decrypt_iv ≡ b ∷ b1 ∷ rest
      → b < 256
      → Opens r.mode body iv text
      → length text ≤ space
      → (r' : CryptState) × (decrypt now space (c ∷ body) r ≡ ok (text, r'))
        × Accepted now r r' iv 0 0
unfolding accepted
decrypt_next now space b b1 rest body text r i hb o fit =
    let c = (b + 1) % 256 in
    let (x, xs, tail) = carried-cons c b1 rest in
    let a : Attempt = record {
      iv = c ∷ carried c (b1 ∷ rest);
      late = 0;
      lost = pos 0;
      restore = false;
    } in
    let tried : attempt c r.decrypt_iv r.decrypt_history ≡ ok a =
      rw i (attempt_next b (b1 ∷ rest) r.decrypt_history hb) in
    (
      accepted now r (set r.decrypt_history c x) a,
      decrypt-Opens now space c body text r a x xs tried (ap (◌∷◌ c) tail) o fit,
      (refl, refl, refl, refl, refl, refl, refl),
    )

-- A receiver whose nonce is the sender's takes the sender's next packet: it returns the text, its
-- nonce is again the sender's, one more packet is counted good and none late, and the count of
-- lost ones becomes 0. The nonce has at least two bytes, and the mode opens what it sealed.
pub decrypt-encrypt :
    (now space b b1 : ℕ) (rest text packet : List ℕ) (s s' r : CryptState)
    → encrypt text s ≡ ok (packet, s')
    → s.encrypt_iv ≡ b ∷ b1 ∷ rest
    → r.decrypt_iv ≡ s.encrypt_iv
    → b < 256
    → ((sealed : List ℕ)
        → s.mode.seal text (increment s.encrypt_iv) ≡ some sealed
        → Opens r.mode sealed (increment s.encrypt_iv) text)
    → length text ≤ space
    → (r' : CryptState) × (decrypt now space packet r ≡ ok (text, r'))
      × Accepted now r r' s'.encrypt_iv 0 0
decrypt-encrypt now space b b1 rest text packet s s' r e i same hb law fit =
    let c = (b + 1) % 256 in
    let next = ap increment i ∙ increment-cons b (b1 ∷ rest) in
    let (sealed, q, p, k) = encrypt_inv text packet s s' c (carried c (b1 ∷ rest)) e next in
    let opens : Opens r.mode sealed (c ∷ carried c (b1 ∷ rest)) text =
      subst (λ iv. Opens r.mode sealed iv text) next
        (law sealed (ap (s.mode.seal text) next ∙ q)) in
    let (r', done, state) =
      decrypt_next now space b b1 rest sealed text r (same ∙ i) hb opens fit in
    (
      r',
      subst (λ q. decrypt now space q r ≡ ok (text, r')) (sym p) done,
      subst (λ iv. Accepted now r r' iv 0 0) (sym k) state,
    )

-- The window's answer when d - 1 packets were lost.
ahead_low :
    (d b : ℕ) (rest : List ℕ)
    → 2 ≤ d
    → d ≤ 128
    → b + d < 256
    → out_of_order (b + d) b rest
      ≡ ok (record { iv = (b + d) ∷ rest; late = 0; lost = pos (d - 1); restore = false })
unfolding out_of_order signed_diff
ahead_low d b rest lo hi h = ground arith

ahead_wrapped :
    (d b : ℕ) (rest : List ℕ)
    → 2 ≤ d
    → d ≤ 128
    → b < 256
    → 256 ≤ b + d
    → out_of_order (b + d - 256) b rest
      ≡ ok (record {
        iv = (b + d - 256) ∷ increment rest;
        late = 0;
        lost = pos (d - 1);
        restore = false;
      })
unfolding out_of_order signed_diff
ahead_wrapped d b rest lo hi hb h = ground arith

out_of_order_ahead :
    (d b : ℕ) (rest : List ℕ) (b0 : ℕ) (bs : List ℕ)
    → b < 256
    → 2 ≤ d
    → d ≤ 128
    → advance d (b ∷ rest) ≡ b0 ∷ bs
    → out_of_order b0 b rest
      ≡ ok (record { iv = b0 ∷ bs; late = 0; lost = pos (d - 1); restore = false })
out_of_order_ahead d b rest b0 bs hb lo hi e = elim (Bool-cases (ltb (b + d) 256)) [
  | inl low ↦
      let p = rw low at (sym (advance-cons d b rest hb (omega arith)) ∙ e) in
      let q = ahead_low d b rest lo hi (ground arith) in
      let head : b + d ≡ b0 = cc p in let tail : rest ≡ bs = cc p in rw (← head) (q ∙ rw tail refl)
  | inr wrapped ↦
      let p = rw wrapped at (sym (advance-cons d b rest hb (omega arith)) ∙ e) in
      let q = ahead_wrapped d b rest lo hi hb (ground arith) in
      let head : b + d - 256 ≡ b0 = cc p in
      let tail : increment rest ≡ bs = cc p in rw (← head) (q ∙ rw tail refl)
]

ahead_not_next :
    (d b : ℕ) (rest : List ℕ) (b0 : ℕ) (bs : List ℕ)
    → b < 256
    → 2 ≤ d
    → d ≤ 128
    → advance d (b ∷ rest) ≡ b0 ∷ bs
    → (b + 1) % 256 ≢ b0
ahead_not_next d b rest b0 bs hb lo hi e = ground (arith, advance-cons d b rest)

attempt_ahead :
    (d b : ℕ) (rest history : List ℕ) (b0 b1 : ℕ) (bs : List ℕ)
    → b < 256
    → 2 ≤ d
    → d ≤ 128
    → advance d (b ∷ rest) ≡ b0 ∷ b1 ∷ bs
    → get_or history b0 256 ≢ b1
    → attempt b0 (b ∷ rest) history
      ≡ ok (record { iv = b0 ∷ b1 ∷ bs; late = 0; lost = pos (d - 1); restore = false })
unfolding attempt check_replay
attempt_ahead d b rest history b0 b1 bs hb lo hi e new =
    rw
      (
        ==_ne ((b + 1) % 256) b0 (ahead_not_next d b rest b0 (b1 ∷ bs) hb lo hi e),
        out_of_order_ahead d b rest b0 (b1 ∷ bs) hb lo hi e,
        ==_ne (get_or history b0 256) b1 new,
      )
      refl

-- After a loss of 1 to 127 packets the receiver takes the next one: it is sealed under the nonce d
-- steps ahead, 2 <= d <= 128, and that nonce's second byte is not the one that the history holds at
-- its first byte. The receiver returns the text, its nonce becomes that nonce, one more packet is
-- counted good, and the count of lost ones becomes d - 1.
pub decrypt_after_loss :
    (now space d b : ℕ) (rest : List ℕ) (b0 b1 : ℕ) (bs body text : List ℕ) (r : CryptState)
    → r.decrypt_iv ≡ b ∷ rest
    → b < 256
    → 2 ≤ d
    → d ≤ 128
    → advance d r.decrypt_iv ≡ b0 ∷ b1 ∷ bs
    → get_or r.decrypt_history b0 256 ≢ b1
    → Opens r.mode body (b0 ∷ b1 ∷ bs) text
    → length text ≤ space
    → (r' : CryptState) × (decrypt now space (b0 ∷ body) r ≡ ok (text, r'))
      × Accepted now r r' (b0 ∷ b1 ∷ bs) 0 (d - 1)
unfolding accepted
decrypt_after_loss now space d b rest b0 b1 bs body text r i hb lo hi e new o fit =
    let a : Attempt = record { iv = b0 ∷ b1 ∷ bs; late = 0; lost = pos (d - 1); restore = false } in
    let tried : attempt b0 r.decrypt_iv r.decrypt_history ≡ ok a =
      rw i (attempt_ahead d b rest r.decrypt_history b0 b1 bs hb lo hi (rw i at e) new) in
    (
      accepted now r (set r.decrypt_history b0 b1) a,
      decrypt-Opens now space b0 body text r a b1 bs tried refl o fit,
      (refl, refl, refl, omega arith, refl, refl, refl),
    )

-- A late packet from the same round of the first byte.
attempt_behind :
    (d b b1 : ℕ) (rest history : List ℕ)
    → b < 256
    → 1 ≤ d
    → d < 30
    → d ≤ b
    → get_or history (b - d) 256 ≢ b1
    → attempt (b - d) (b ∷ b1 ∷ rest) history
      ≡ ok (record { iv = (b - d) ∷ b1 ∷ rest; late = 1; lost = negsuc 0; restore = true })
unfolding attempt check_replay
attempt_behind d b b1 rest history hb lo hi h new =
    let other : (b + 1) % 256 ≢ b - d = λ e. omega arith in
    rw
      (
        ==_ne ((b + 1) % 256) (b - d) other,
        behind,
        check_replay,
        ==_ne (get_or history (b - d) 256) b1 new,
      )
      refl
  where
    behind :
        out_of_order (b - d) b (b1 ∷ rest)
        ≡ ok (record { iv = (b - d) ∷ b1 ∷ rest; late = 1; lost = negsuc 0; restore = true })
    behind = unfold out_of_order signed_diff in ground arith

-- A packet that comes 1 to 29 packets late, in the same round of the nonce's first byte, and is not
-- in the history, is taken: its text is returned, the nonce stays as it was, and one more packet is
-- counted good and late. The count of lost packets becomes 1.
pub decrypt_late :
    (now space d b b1 : ℕ) (rest body text : List ℕ) (r : CryptState)
    → r.decrypt_iv ≡ b ∷ b1 ∷ rest
    → b < 256
    → 1 ≤ d
    → d < 30
    → d ≤ b
    → get_or r.decrypt_history (b - d) 256 ≢ b1
    → Opens r.mode body ((b - d) ∷ b1 ∷ rest) text
    → length text ≤ space
    → (r' : CryptState) × (decrypt now space ((b - d) ∷ body) r ≡ ok (text, r'))
      × Accepted now r r' r.decrypt_iv 1 1
unfolding accepted
decrypt_late now space d b b1 rest body text r i hb lo hi h new o fit =
    let a : Attempt = record {
      iv = (b - d) ∷ b1 ∷ rest;
      late = 1;
      lost = negsuc 0;
      restore = true;
    } in
    let tried : attempt (b - d) r.decrypt_iv r.decrypt_history ≡ ok a =
      rw i (attempt_behind d b b1 rest r.decrypt_history hb lo hi h new) in
    (
      accepted now r (set r.decrypt_history (b - d) b1) a,
      decrypt-Opens now space (b - d) body text r a b1 rest tried refl o fit,
      (refl, refl, refl, refl, refl, refl, refl),
    )
