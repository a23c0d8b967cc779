-- ===== src/CryptState.antt =====
-- pkg/cryptstate/cryptstate.go: the nonces and the replay window of a client's voice packets.
pub mod Nonce
pub mod Sync
pub mod Faults
pub mod Tests
use grumble.Common.{
  ℕ, zero, suc, ◌+◌, ◌-◌, ◌*◌, ◌%◌, ◌^◌, ◌<◌, Bool, true, false, not, ◌&&◌, List, [], ◌∷◌, Option,
  none, some, ltb, leb, ◌==◌, if◌then◌else◌, length, get_or, set,
}
use grumble.Common.Int.{ℤ, pos, negsuc, abs}

-- What `mode.Decrypt` does with a ciphertext; `bad_src` is its panic.
pub data Opened : Type 0 where
  plain : List ℕ → Opened
  mismatch bad_src : Opened

-- The interface CryptoMode with its key set. `seal` is `none` where `Encrypt` panics.
pub record CryptoMode : Type 0 where
  pub nonce_size : ℕ
  pub key_size : ℕ
  pub overhead : ℕ
  pub seal : List ℕ → List ℕ → Option (List ℕ)
  pub unseal : List ℕ → List ℕ → Opened

-- The remote counters, which the server only copies, are left out.
pub record CryptState : Type 0 where
  pub encrypt_iv : List ℕ
  pub decrypt_iv : List ℕ
  pub last_good_time : ℕ
  pub good : ℕ
  pub late : ℕ
  pub lost : ℕ
  pub decrypt_history : List ℕ
  pub mode : CryptoMode

pub data Error : Type 0 where
  too_short no_space invalid_ivbyte no_matching_ivbyte tag_mismatch : Error

-- `panics`: an index out of range or a panic of the mode.
pub data Result {ℓ} (A : Type ℓ) : Type ℓ where
  ok : A → Result A
  err : Error → Result A
  panics : Result A

-- `CryptState.Overhead`
abbrev pub overhead : CryptState → ℕ
overhead cs = 1 + cs.mode.overhead

-- `iv[i] += 1; if iv[i] > 0 { break }`, from the list's first byte on.
unfoldable pub increment : List ℕ → List ℕ
increment [] = []
increment (b ∷ bs) = let c = (b + 1) % 256 in if ltb 0 c then c ∷ bs else c ∷ increment bs

-- `iv[i] -= 1; if iv[i] > 0 { break }`
unfoldable pub decrement : List ℕ → List ℕ
decrement [] = []
decrement (b ∷ bs) = let c = (b + 255) % 256 in if ltb 0 c then c ∷ bs else c ∷ decrement bs

-- `diff`: the byte difference, brought into -127 .. 128.
unfoldable pub signed_diff : ℕ → ℕ → ℤ
signed_diff ivbyte b =
    let d = (ivbyte + 256 - b) % 256 in if ltb 128 d then negsuc (255 - d) else pos d

-- `diff > -30 && diff < 0`
abbrev pub is_behind : ℤ → Bool
is_behind (pos n) = false
is_behind (negsuc n) = ltb n 29

-- `diff > 0`
abbrev pub is_ahead : ℤ → Bool
is_ahead (pos n) = ltb 0 n
is_ahead (negsuc n) = false

-- The nonce to try, with what is to be counted and whether it is to be kept.
pub record Attempt : Type 0 where
  pub iv : List ℕ
  pub late : ℕ
  pub lost : ℤ
  pub restore : Bool

-- "In order as expected"
unfoldable pub in_order : ℕ → ℕ → List ℕ → Result Attempt
in_order ivbyte b rest =
    if ltb b ivbyte
    then ok (record { iv = ivbyte ∷ rest; late = 0; lost = pos 0; restore = false })
    else if ltb ivbyte b
    then ok (record { iv = ivbyte ∷ increment rest; late = 0; lost = pos 0; restore = false })
    else err invalid_ivbyte

-- "Out of order or repeat"
unfoldable pub out_of_order : ℕ → ℕ → List ℕ → Result Attempt
out_of_order ivbyte b rest =
    let diff = signed_diff ivbyte b in
    if ltb ivbyte b && is_behind diff
    then ok (record { iv = ivbyte ∷ rest; late = 1; lost = negsuc 0; restore = true })
    else if ltb b ivbyte && is_behind diff
    then ok (record { iv = ivbyte ∷ decrement rest; late = 1; lost = negsuc 0; restore = true })
    else if ltb b ivbyte && is_ahead diff
    then ok (record {
      iv = ivbyte ∷ rest;
      late = 0;
      lost = pos ((ivbyte + 512 - b - 1) % 256);
      restore = false;
    })
    else if ltb ivbyte b && is_ahead diff
    then ok (record {
      iv = ivbyte ∷ increment rest;
      late = 0;
      lost = pos (256 - b + ivbyte - 1);
      restore = false;
    })
    else err no_matching_ivbyte

-- A nonce whose second byte the history holds at its first byte is a replay: the code puts the
-- saved nonce back and goes on.
unfoldable pub check_replay : List ℕ → List ℕ → Attempt → Result Attempt
check_replay history saved a = elim a.iv [
  | b0 ∷ b1 ∷ rest ↦ if get_or history b0 256 == b1 then ok (record a { iv = saved }) else ok a
  | _ ↦ panics
]

infixl 5 ◌>>=◌
abbrev pub ◌>>=◌ {ℓ κ} : {A : Type ℓ} {B : Type κ} → Result A → (A → Result B) → Result B
ok a >>= f = f a
err e >>= f = err e
panics >>= f = panics

unfoldable pub attempt : ℕ → List ℕ → List ℕ → Result Attempt
attempt ivbyte [] history = panics
attempt ivbyte (b ∷ rest) history =
    if (b + 1) % 256 == ivbyte
    then in_order ivbyte b rest
    else out_of_order ivbyte b rest >>= check_replay history (b ∷ rest)

-- `decryptHistory[iv[0]] = iv[1]`
unfoldable pub remember : List ℕ → List ℕ → Result (List ℕ)
remember history (b0 ∷ b1 ∷ rest) = ok (set history b0 b1)
remember history iv = panics

-- The state after a packet whose tag matched.
unfoldable pub accepted : ℕ → CryptState → List ℕ → Attempt → CryptState
accepted now cs history a = record cs {
  decrypt_iv = if a.restore then cs.decrypt_iv else a.iv;
  decrypt_history = history;
  good = (cs.good + 1) % 2 ^ 32;
  late = (cs.late + a.late) % 2 ^ 32;
  lost = abs a.lost % 2 ^ 32;
  last_good_time = now;
}

unfoldable pub open_packet : ℕ → CryptState → List ℕ → Attempt → Result (List ℕ × CryptState)
open_packet now cs body a = elim (cs.mode.unseal body a.iv) [
  | plain text ↦ remember cs.decrypt_history a.iv >>= λ h. ok (text, accepted now cs h a)
  | mismatch ↦ err tag_mismatch
  | bad_src ↦ panics
]

-- `Decrypt` of `src` into `space` bytes at the time `now`. An error leaves the state as it was:
-- on each error path the code has not changed it yet, or has put the saved nonce back.
unfoldable pub decrypt : ℕ → ℕ → List ℕ → CryptState → Result (List ℕ × CryptState)
decrypt now space [] cs = err too_short
decrypt now space (ivbyte ∷ body) cs =
    if ltb (suc (length body)) (overhead cs)
    then err too_short
    else if ltb space (suc (length body) - overhead cs)
    then err no_space
    else attempt ivbyte cs.decrypt_iv cs.decrypt_history >>= open_packet now cs body

-- `Encrypt`: the nonce is increased first, and its first byte goes in front.
unfoldable pub encrypt : List ℕ → CryptState → Result (List ℕ × CryptState)
encrypt src cs = elim (increment cs.encrypt_iv) [
  | [] ↦ panics
  | b ∷ rest ↦ elim (cs.mode.seal src (b ∷ rest)) [
    | none ↦ panics
    | some sealed ↦ ok (b ∷ sealed, record cs { encrypt_iv = b ∷ rest })
  ]
]
