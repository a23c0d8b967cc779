-- ===== src/Ocb2/Blocks.antt =====
-- Lengths, bytes and cancellation of the operations on blocks.
use grumble.Common.{
  ℕ, suc, ◌-◌, ◌*◌, ◌/◌, ◌%◌, ◌^◌, ◌≤◌, ◌<◌, ◌≡◌, refl, ap, ap₂, ◌∙◌, sym, List, [], ◌∷◌, ◌++◌,
  length, take, replicate, All, arith, bit_and, bit_xor,
}
use grumble.Common.Bits.{
  bit_xor-lt, bit_or-lt, bit_xor_cancel, bit_xor_comm, bit_and_mask, zero-bit_xor,
}
use grumble.Ocb2.{xor, double, times2, times3, carry_of, length_block, filled}

abbrev pub IsByte : ℕ → Type 0
IsByte b = b < 256

pub record IsBlock (b : List ℕ) : Type 0 where
  pub sized : length b ≡ 16
  pub bytes : All IsByte b

pub length-xor : (a b : List ℕ) → length a ≡ length b → length (xor a b) ≡ length a
unfolding xor
length-xor [] b e = refl
length-xor (x ∷ xs) [] e = absurd (omega arith)
length-xor (x ∷ xs) (y ∷ ys) e = ap suc (length-xor xs ys (omega arith))

pub xor-IsByte : (a b : List ℕ) → All IsByte a → All IsByte b → All IsByte (xor a b)
unfolding xor
xor-IsByte [] b p q = tt
xor-IsByte (x ∷ xs) [] p q = tt
xor-IsByte (x ∷ xs) (y ∷ ys) p q = (bit_xor-lt 8 x y p.0 q.0, xor-IsByte xs ys p.1 q.1)

pub xor-IsBlock : (a b : List ℕ) → IsBlock a → IsBlock b → IsBlock (xor a b)
xor-IsBlock a b p q = record {
  sized = length-xor a b (p.sized ∙ sym q.sized) ∙ p.sized;
  bytes = xor-IsByte a b p.bytes q.bytes;
}

pub xor_cancel : (a b : List ℕ) → length a ≡ length b → xor a (xor a b) ≡ b
unfolding xor
xor_cancel [] [] e = refl
xor_cancel [] (y ∷ ys) e = absurd (omega arith)
xor_cancel (x ∷ xs) [] e = absurd (omega arith)
xor_cancel (x ∷ xs) (y ∷ ys) e = ap₂ ◌∷◌ (bit_xor_cancel x y) (xor_cancel xs ys (omega arith))

pub xor_comm : (a b : List ℕ) → xor a b ≡ xor b a
unfolding xor
xor_comm [] [] = refl
xor_comm [] (y ∷ ys) = refl
xor_comm (x ∷ xs) [] = refl
xor_comm (x ∷ xs) (y ∷ ys) = ap₂ ◌∷◌ (bit_xor_comm x y) (xor_comm xs ys)

one_bit : (c : ℕ) → bit_and c 1 < 2
one_bit c = omega (arith, bit_and_mask 1 c)

length-double : (k : ℕ) (b : List ℕ) → length (double k b) ≡ length b
unfolding double
length-double k [] = refl
length-double k (b ∷ []) = refl
length-double k (b ∷ c ∷ bs) = ap suc (length-double k (c ∷ bs))

double-IsByte : (k : ℕ) (b : List ℕ) → k < 2 → All IsByte b → All IsByte (double k b)
unfolding double
double-IsByte k [] h p = tt
double-IsByte k (b ∷ []) h p =
    (bit_xor-lt 8 (b * 2 % 256) (k * 135) (omega arith) (omega arith), tt)
double-IsByte k (b ∷ c ∷ bs) h p = (
  bit_or-lt 8 (b * 2 % 256) (bit_and (c / 2 ^ 7) 1) (omega arith)
      (omega (arith, one_bit (c / 2 ^ 7))),
  double-IsByte k (c ∷ bs) h p.1,
)

carry_small : (b : List ℕ) → carry_of b < 2
unfolding carry_of
carry_small [] = omega arith
carry_small (b ∷ bs) = one_bit (b / 2 ^ 7)

pub times2-IsBlock : (b : List ℕ) → IsBlock b → IsBlock (times2 b)
unfolding times2
times2-IsBlock b h = record {
  sized = length-double (carry_of b) b ∙ h.sized;
  bytes = double-IsByte (carry_of b) b (carry_small b) h.bytes;
}

pub times3-IsBlock : (b : List ℕ) → IsBlock b → IsBlock (times3 b)
unfolding times3
times3-IsBlock b h = xor-IsBlock b (double (carry_of b) b) h (record {
  sized = length-double (carry_of b) b ∙ h.sized;
  bytes = double-IsByte (carry_of b) b (carry_small b) h.bytes;
})

pub length_block-IsBlock : (n : ℕ) → IsBlock (length_block n)
unfolding length_block
length_block-IsBlock n = record {
  sized = refl;
  bytes = omega (arith, bit_and_mask 8 (n * 8 / 2 ^ 8), bit_and_mask 8 (n * 8));
}

-- The last block: xor with the pad gives the text back, with the pad behind it.
zeros_xor : (pad : List ℕ) → xor (replicate (length pad) 0) pad ≡ pad
unfolding xor
zeros_xor [] = refl
zeros_xor (p ∷ pad) = ap₂ ◌∷◌ (zero-bit_xor p) (zeros_xor pad)

pub last_block :
    (last pad : List ℕ)
    → length last ≤ length pad
    → let cut = take (length last) (xor pad (filled last pad)) in
      (xor (cut ++ replicate (length pad - length last) 0) pad ≡ filled last pad)
      × (length cut ≡ length last)
unfolding xor
last_block [] pad h =
    let e : length pad - 0 ≡ length pad = omega arith in (rw e (zeros_xor pad), refl)
last_block (x ∷ last) [] h = absurd (omega arith)
last_block (x ∷ last) (p ∷ pad) h =
    let (ih, l) = last_block last pad (omega arith) in
    let e : suc (length pad) - suc (length last) ≡ length pad - length last = omega arith in
    let first = bit_xor_comm (bit_xor p x) p ∙ bit_xor_cancel p x in
    (rw e (ap₂ ◌∷◌ first ih), ap suc l)
