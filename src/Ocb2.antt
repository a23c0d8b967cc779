-- ===== src/Ocb2.antt =====
-- pkg/cryptstate/ocb2/ocb2.go: OCB2 over a block cipher, and pkg/cryptstate/mode_ocb2.go.
pub mod Blocks
pub mod Inverse
pub mod Mode
pub mod Tests
use grumble.Common.{
  ℕ, zero, suc, ◌+◌, ◌-◌, ◌*◌, ◌/◌, ◌%◌, ◌^◌, ◌<◌, Bool, true, false, ◌&&◌, List, [], ◌∷◌, ◌++◌,
  Option, none, some, ltb, leb, ◌==◌, if◌then◌else◌, length, take, drop, replicate, bit_and, bit_or,
  bit_xor,
}

abbrev pub block_size : ℕ
block_size = 16

abbrev pub nonce_size : ℕ
nonce_size = 16

-- crypto/cipher's Block with its key set: what the code calls of it.
pub record BlockCipher : Type 0 where
  pub encrypt : List ℕ → List ℕ
  pub decrypt : List ℕ → List ℕ

-- Blocks are lists of 16 bytes; `zeros` of one.
abbrev pub zeros : List ℕ
zeros = replicate block_size 0

-- `dst[i] = a[i] ^ b[i]`
unfoldable pub xor : List ℕ → List ℕ → List ℕ
xor (x ∷ xs) (y ∷ ys) = bit_xor x y ∷ xor xs ys
xor _ _ = []

-- `(block[i] << 1) | ((block[i+1] >> 7) & 0x1)`, and on the last byte
-- `(block[15] << 1) ^ (carry * 135)`.
unfoldable pub double : ℕ → List ℕ → List ℕ
double carry [] = []
double carry (b ∷ []) = bit_xor (b * 2 % 256) (carry * 135) ∷ []
double carry (b ∷ c ∷ bs) = bit_or (b * 2 % 256) (bit_and (c / 2 ^ 7) 1) ∷ double carry (c ∷ bs)

-- `(block[0] >> 7) & 0x1`
unfoldable pub carry_of : List ℕ → ℕ
carry_of [] = 0
carry_of (b ∷ bs) = bit_and (b / 2 ^ 7) 1

unfoldable pub times2 : List ℕ → List ℕ
unfolding double carry_of
times2 block = double (carry_of block) block

-- `times3` xors the doubled block into the block, byte by byte.
unfoldable pub times3 : List ℕ → List ℕ
unfolding double carry_of xor
times3 block = xor block (double (carry_of block) block)

-- The block of zeros that ends with the number of bits that remain, in two bytes.
unfoldable pub length_block : ℕ → List ℕ
length_block remain =
    replicate 14 0 ++ (bit_and (remain * 8 / 2 ^ 8) 0xff ∷ bit_and (remain * 8) 0xff ∷ [])

-- The outcome of a loop over whole blocks: the running `delta` and `checksum`, what it wrote, and
-- the input that is left, at most one block.
pub record Run : Type 0 where
  pub delta : List ℕ
  pub checksum : List ℕ
  pub out : List ℕ
  pub last : List ℕ

-- `subtle.ConstantTimeCompare(a, b) == 1`
pub record Compare : Type 0 where
  pub equal : List ℕ → List ℕ → Bool

module _ (cipher : BlockCipher) where
  -- One round of each loop, from the doubled `delta`: the block that it writes, and the checksum.
  unfoldable pub encrypt_block : List ℕ → List ℕ → List ℕ → List ℕ × List ℕ
  encrypt_block delta checksum block =
      (xor delta (cipher.encrypt (xor delta block)), xor checksum block)

  unfoldable pub decrypt_block : List ℕ → List ℕ → List ℕ → List ℕ × List ℕ
  decrypt_block delta checksum block =
      let text = xor delta (cipher.decrypt (xor delta block)) in (text, xor checksum text)

-- `for remain > BlockSize { ... }`. Each round takes 16 bytes, so the input's length is enough fuel.
unfoldable pub rounds :
    (List ℕ → List ℕ → List ℕ → List ℕ × List ℕ) → ℕ → List ℕ → List ℕ → List ℕ → Run
rounds step zero delta checksum src = record {
  delta = delta;
  checksum = checksum;
  out = [];
  last = src;
}
rounds step (suc fuel) delta checksum src =
    let delta' = times2 delta in
    let (block, sum) = step delta' checksum (take block_size src) in
    let rest = rounds step fuel delta' sum (drop block_size src) in
    if ltb block_size (length src)
    then record rest { out = block ++ rest.out }
    else record { delta = delta; checksum = checksum; out = []; last = src }

-- The last block filled up with the pad.
abbrev pub filled : List ℕ → List ℕ → List ℕ
filled last pad = last ++ drop (length last) pad

module _ (cipher : BlockCipher) where
  -- The pad of the last block, from `delta` after the loop and the bytes that are left.
  unfoldable pub final_pad : List ℕ → ℕ → List ℕ
  final_pad delta remain = cipher.encrypt (xor (length_block remain) (times2 delta))

  unfoldable pub final_tag : List ℕ → List ℕ → List ℕ
  final_tag delta checksum = cipher.encrypt (xor (times3 (times2 delta)) checksum)

  -- `Encrypt`: the ciphertext and the whole tag. `none` is its panic on a bad nonce.
  unfoldable pub encrypt : List ℕ → List ℕ → Option (List ℕ × List ℕ)
  encrypt src nonce =
      let r = rounds (encrypt_block cipher) (length src) (cipher.encrypt nonce) zeros src in
      let pad = final_pad r.delta (length r.last) in
      let tmp = filled r.last pad in
      if length nonce == nonce_size
      then some
          (r.out ++ take (length r.last) (xor pad tmp), final_tag r.delta (xor r.checksum tmp))
      else none

  -- `Decrypt` behind the loop: the plaintext, and whether the tag, cut to the length of the one that
  -- came, matches.
  unfoldable pub open_last : Compare → List ℕ → List ℕ → List ℕ → List ℕ → List ℕ → List ℕ × Bool
  open_last compare tag delta checksum last out =
      let pad = final_pad delta (length last) in
      let tmp = xor (last ++ replicate (block_size - length last) 0) pad in
      let calc_tag = final_tag delta (xor checksum tmp) in
      (out ++ take (length last) tmp, compare.equal (take (length tag) calc_tag) tag)

  unfoldable pub decrypt : Compare → List ℕ → List ℕ → List ℕ → Option (List ℕ × Bool)
  decrypt compare encrypted nonce tag =
      let r =
        rounds (decrypt_block cipher) (length encrypted) (cipher.encrypt nonce) zeros encrypted in
      if length nonce == nonce_size
      then some (open_last compare tag r.delta r.checksum r.last r.out)
      else none
