-- ===== src/Ocb2/Tests.antt =====
-- Concrete runs, with exclusive or by a key for the block cipher.
use grumble.Common.{
  ℕ, ◌≡◌, refl, List, [], ◌∷◌, ◌++◌, length, take, replicate, arith, Bool, true, false, ◌&&◌, some,
  ◌==◌, ==_refl,
}
use grumble.CryptState.{CryptState, ok, increment, encrypt, decrypt}
use grumble.CryptState.Sync.{Accepted}
use grumble.Ocb2.{
  BlockCipher, Compare, xor, times2, times3, double, carry_of, rounds, encrypt_block, decrypt_block,
  final_pad, final_tag, length_block, open_last,
}
use grumble.Ocb2
use grumble.Ocb2.Blocks.{IsBlock, xor-IsBlock, xor_cancel}
use grumble.Ocb2.Inverse.{IsCipher}
use grumble.Ocb2.Inverse
use grumble.Ocb2.Mode.{ocb2_mode, seal, ocb2_packet}

abbrev key : List ℕ
key = 3 ∷ 1 ∷ 4 ∷ 1 ∷ 5 ∷ 9 ∷ 2 ∷ 6 ∷ 5 ∷ 3 ∷ 5 ∷ 8 ∷ 9 ∷ 7 ∷ 9 ∷ 3 ∷ []

abbrev key_cipher : BlockCipher
key_cipher = record { encrypt = xor key; decrypt = xor key }

abbrev list_eq : List ℕ → List ℕ → Bool
list_eq [] [] = true
list_eq (x ∷ xs) (y ∷ ys) = x == y && list_eq xs ys
list_eq _ _ = false

abbrev bytes_equal : Compare
bytes_equal = record { equal = list_eq }

list_eq_refl : (a : List ℕ) → list_eq a a ≡ true
list_eq_refl [] = refl
list_eq_refl (x ∷ xs) = rw (==_refl x) (list_eq_refl xs)

key-IsBlock : IsBlock key
key-IsBlock = record { sized = refl; bytes = omega arith }

key_cipher-IsCipher : IsCipher key_cipher
key_cipher-IsCipher = record {
  encrypts = λ b h. xor-IsBlock key b key-IsBlock h;
  inverts = λ b h. xor_cancel key b (omega (arith, h.sized));
}

abbrev nonce : List ℕ
nonce = 255 ∷ replicate 15 7

nonce-IsBlock : IsBlock nonce
nonce-IsBlock = record { sized = refl; bytes = omega arith }

abbrev text : List ℕ
text = 72 ∷ 105 ∷ replicate 18 33

-- Doubling a block whose top bit is set.
times2_carry : times2 (replicate 16 0x81) ≡ replicate 15 3 ++ (0x85 ∷ [])
unfolding times2
times2_carry = refl

ocb2_round_trip_example :
    (sealed tag : List ℕ) × (Ocb2.encrypt key_cipher text nonce ≡ some (sealed, tag))
    × (length tag ≡ 16)
    × (length sealed ≡ 20)
    × (Ocb2.decrypt key_cipher bytes_equal sealed nonce (take 3 tag) ≡ some (text, true))
ocb2_round_trip_example =
    Inverse.ocb2_round_trip key_cipher bytes_equal 3 text nonce key_cipher-IsCipher list_eq_refl
      nonce-IsBlock (omega arith)

abbrev client : CryptState
client = record {
  encrypt_iv = nonce;
  decrypt_iv = nonce;
  last_good_time = 0;
  good = 0;
  late = 0;
  lost = 0;
  decrypt_history = replicate 256 0;
  mode = ocb2_mode key_cipher bytes_equal;
}

abbrev packet : List ℕ
packet = 0 ∷ 72 ∷ 36 ∷ 12 ∷ 68 ∷ []

encrypt_client :
    encrypt (65 ∷ []) client ≡ ok (packet, record client { encrypt_iv = 0 ∷ 8 ∷ replicate 14 7 })
unfolding encrypt increment ocb2_mode seal Ocb2.encrypt rounds encrypt_block final_pad final_tag
    length_block times2 times3 xor
encrypt_client = refl

ocb2_packet_example :
    (r : CryptState) × (decrypt 9 100 packet client ≡ ok (65 ∷ [], r))
    × Accepted 9 client r (0 ∷ 8 ∷ replicate 14 7) 0 0
ocb2_packet_example =
    ocb2_packet key_cipher bytes_equal 9 100 255 7 (replicate 14 7) (65 ∷ []) packet client
      (record client { encrypt_iv = 0 ∷ 8 ∷ replicate 14 7 }) client key_cipher-IsCipher
      list_eq_refl refl refl refl refl nonce-IsBlock (omega arith) (omega arith) (omega arith)
      encrypt_client
