-- ===== src/Ocb2/Inverse.antt =====
-- `Decrypt` undoes `Encrypt` under the same cipher and nonce.
use grumble.Common.{
  ℕ, zero, suc, ◌+◌, ◌-◌, ◌≤◌, ◌<◌, ◌≡◌, refl, ap, ◌∙◌, sym, subst, List, [], ◌∷◌, ◌++◌, length,
  length-append, length-take, length-drop, take, drop, take-append-drop, take_front, drop_front,
  replicate, All, All-append, arith, ltb, lt→ltb, true, false, Bool-cases, inl, inr, some,
  append_assoc,
}
use grumble.Ocb2.{
  BlockCipher, Run, Compare, xor, times2, times3, zeros, rounds, encrypt_block, decrypt_block,
  encrypt, decrypt, final_pad, final_tag, filled, open_last,
}
use grumble.Ocb2.Blocks.{
  IsByte, IsBlock, xor-IsBlock, xor_cancel, times2-IsBlock, times3-IsBlock, length_block-IsBlock,
  last_block,
}

-- What the code relies on: on blocks, the cipher gives blocks, and `Decrypt` inverts `Encrypt`.
pub record IsCipher (cipher : BlockCipher) : Type 0 where
  pub encrypts : (b : List ℕ) → IsBlock b → IsBlock (cipher.encrypt b)
  pub inverts : (b : List ℕ) → IsBlock b → cipher.decrypt (cipher.encrypt b) ≡ b

take-IsByte : (n : ℕ) (xs : List ℕ) → All IsByte xs → All IsByte (take n xs)
take-IsByte zero xs h = tt
take-IsByte (suc n) [] h = tt
take-IsByte (suc n) (x ∷ xs) h = (h.0, take-IsByte n xs h.1)

drop-IsByte : (n : ℕ) (xs : List ℕ) → All IsByte xs → All IsByte (drop n xs)
drop-IsByte zero xs h = h
drop-IsByte (suc n) [] h = tt
drop-IsByte (suc n) (x ∷ xs) h = drop-IsByte n xs h.1

front-IsBlock : (src : List ℕ) → All IsByte src → 16 < length src → IsBlock (take 16 src)
front-IsBlock src h l = record {
  sized = omega (arith, length-take 16 src);
  bytes = take-IsByte 16 src h;
}

-- A list that begins with a block, and has more.
split_block :
    (o rest : List ℕ)
    → length o ≡ 16
    → 0 < length rest
    → (take 16 (o ++ rest) ≡ o) × (drop 16 (o ++ rest) ≡ rest) × (16 < length (o ++ rest))
split_block o rest e h = (
  subst (λ n. take n (o ++ rest) ≡ o) e (take_front o rest),
  subst (λ n. drop n (o ++ rest) ≡ rest) e (drop_front o rest),
  omega (arith, length-append o rest),
)

module _ (cipher : BlockCipher) (law : IsCipher cipher) where
  -- A block that `encrypt_block` wrote decrypts to what it was, with the same checksum.
  decrypt-encrypt_block :
      (delta checksum block : List ℕ)
      → IsBlock delta
      → IsBlock block
      → let (o, sum) = encrypt_block cipher delta checksum block in
        IsBlock o × (decrypt_block cipher delta checksum o ≡ (block, sum))
  unfolding encrypt_block decrypt_block
  decrypt-encrypt_block delta checksum block d b =
      let mixed = xor-IsBlock delta block d b in
      let sealed = law.encrypts (xor delta block) mixed in
      let e1 = xor_cancel delta (cipher.encrypt (xor delta block)) (d.sized ∙ sym sealed.sized) in
      let e2 = law.inverts (xor delta block) mixed in
      let e3 = xor_cancel delta block (d.sized ∙ sym b.sized) in
      (xor-IsBlock delta (cipher.encrypt (xor delta block)) d sealed, rw (e1, e2, e3) refl)

  sum-IsBlock :
      (delta checksum block : List ℕ)
      → IsBlock checksum
      → IsBlock block
      → IsBlock (encrypt_block cipher delta checksum block).1
  unfolding encrypt_block
  sum-IsBlock delta checksum block k b = xor-IsBlock checksum block k b

  -- The loops run side by side, for whatever last block `Y` comes behind.
  Mirrors : ℕ → List ℕ → List ℕ → List ℕ → Run → Type 0
  Mirrors fuel' delta checksum src r =
      (Y : List ℕ)
      → length Y ≡ length r.last
      → length (r.out ++ Y) ≤ fuel'
      → let r' = rounds (decrypt_block cipher) fuel' delta checksum (r.out ++ Y) in
        (r'.delta ≡ r.delta) × (r'.checksum ≡ r.checksum) × (r'.last ≡ Y) × (r'.out ++ r.last ≡ src)

  -- What holds of a run of the encrypting loop.
  record IsRun (delta checksum src : List ℕ) (r : Run) : Type 0 where
    delta_block : IsBlock r.delta
    sum_block : IsBlock r.checksum
    last_short : length r.last ≤ 16
    last_bytes : All IsByte r.last
    total : length r.out + length r.last ≡ length src
    mirrors : (fuel' : ℕ) → Mirrors fuel' delta checksum src r

  stop-Mirrors :
      (fuel' : ℕ) (delta checksum src : List ℕ)
      → length src ≤ 16
      → Mirrors fuel' delta checksum src
          (record { delta = delta; checksum = checksum; out = []; last = src })
  unfolding Mirrors rounds
  stop-Mirrors zero delta checksum src h Y e l = (refl, refl, refl, refl)
  stop-Mirrors (suc fuel') delta checksum src h Y e l =
      let short : ltb 16 (length Y) ≡ false = ground arith in rw short (refl, refl, refl, refl)

  -- One round of the decrypting loop on a written block.
  round_back :
      (fuel : ℕ) (delta checksum block rest : List ℕ)
      → IsBlock delta
      → IsBlock block
      → 0 < length rest
      → let (o, sum) = encrypt_block cipher (times2 delta) checksum block in
        let next = rounds (decrypt_block cipher) fuel (times2 delta) sum rest in
        rounds (decrypt_block cipher) (suc fuel) delta checksum (o ++ rest)
        ≡ record next { out = block ++ next.out }
  unfolding rounds
  round_back fuel delta checksum block rest d b h =
      let (o, sum) = encrypt_block cipher (times2 delta) checksum block in
      let (ob, back) =
        decrypt-encrypt_block (times2 delta) checksum block (times2-IsBlock delta d) b in
      let (front, behind, long) = split_block o rest ob.sized h in
      rw (front, behind, back, lt→ltb 16 (length (o ++ rest)) long) refl

  step-Mirrors :
      (fuel' : ℕ) (delta checksum src : List ℕ) (r : Run)
      → let (o, sum) = encrypt_block cipher (times2 delta) checksum (take 16 src) in
        IsBlock delta
        → All IsByte src
        → 16 < length src
        → length r.out + length r.last ≡ length (drop 16 src)
        → ((fuel : ℕ) → Mirrors fuel (times2 delta) sum (drop 16 src) r)
        → Mirrors fuel' delta checksum src (record r { out = o ++ r.out })
  unfolding Mirrors
  step-Mirrors zero delta checksum src r d bytes h total ih Y e l =
      let (o, sum) = encrypt_block cipher (times2 delta) checksum (take 16 src) in
      let (ob, _) =
        decrypt-encrypt_block (times2 delta) checksum (take 16 src) (times2-IsBlock delta d)
          (front-IsBlock src bytes h) in
      absurd (omega (arith, length-append (o ++ r.out) Y, length-append o r.out, ob.sized))
  step-Mirrors (suc fuel) delta checksum src r d bytes h total ih Y e l =
      let (o, sum) = encrypt_block cipher (times2 delta) checksum (take 16 src) in
      let (ob, _) =
        decrypt-encrypt_block (times2 delta) checksum (take 16 src) (times2-IsBlock delta d)
          (front-IsBlock src bytes h) in
      let sizes = length-append r.out Y in
      let more : 0 < length (r.out ++ Y) = omega (arith, length-drop 16 src) in
      let room : length (r.out ++ Y) ≤ fuel =
        omega (arith, length-append (o ++ r.out) Y, length-append o r.out, ob.sized) in
      let (p, q, s, t) = ih fuel Y e room in
      let back =
        ap (rounds (decrypt_block cipher) (suc fuel) delta checksum) (append_assoc o r.out Y)
        ∙ round_back fuel delta checksum (take 16 src) (r.out ++ Y) d (front-IsBlock src bytes h)
            more in
      rw back (
        p,
        q,
        s,
        append_assoc (take 16 src) _ r.last ∙ ap (◌++◌ (take 16 src)) t ∙ take-append-drop 16 src,
      )

  encrypt-IsRun :
      (fuel : ℕ) (delta checksum src : List ℕ)
      → IsBlock delta
      → IsBlock checksum
      → All IsByte src
      → length src ≤ fuel
      → IsRun delta checksum src (rounds (encrypt_block cipher) fuel delta checksum src)
  unfolding rounds
  encrypt-IsRun zero delta checksum src d k bytes h = record {
    delta_block = d;
    sum_block = k;
    last_short = omega arith;
    last_bytes = bytes;
    total = omega arith;
    mirrors = λ f. stop-Mirrors f delta checksum src (omega arith);
  }
  encrypt-IsRun (suc fuel) delta checksum src d k bytes h =
      elim (Bool-cases (ltb 16 (length src))) [
        | inr short ↦ rw short (record {
          delta_block = d;
          sum_block = k;
          last_short = ground arith;
          last_bytes = bytes;
          total = omega arith;
          mirrors = λ f. stop-Mirrors f delta checksum src (ground arith);
        })
        | inl long ↦
            let more : 16 < length src = ground arith in
            let (o, sum) = encrypt_block cipher (times2 delta) checksum (take 16 src) in
            let (ob, _) =
              decrypt-encrypt_block (times2 delta) checksum (take 16 src) (times2-IsBlock delta d)
                (front-IsBlock src bytes more) in
            let ih =
              encrypt-IsRun fuel (times2 delta) sum (drop 16 src) (times2-IsBlock delta d)
                (sum-IsBlock (times2 delta) checksum (take 16 src) k (front-IsBlock src bytes more))
                (drop-IsByte 16 src bytes) (omega (arith, length-drop 16 src)) in
            let r = rounds (encrypt_block cipher) fuel (times2 delta) sum (drop 16 src) in
            rw long (record {
              delta_block = ih.delta_block;
              sum_block = ih.sum_block;
              last_short = ih.last_short;
              last_bytes = ih.last_bytes;
              total = omega (arith, length-append o r.out, ob.sized, ih.total, length-drop 16 src);
              mirrors = λ f.
                  step-Mirrors f delta checksum src r d bytes more ih.total (λ g. ih.mirrors g);
            })
      ]

take_again : (n : ℕ) (xs : List ℕ) → take (length (take n xs)) xs ≡ take n xs
take_again zero xs = refl
take_again (suc n) [] = refl
take_again (suc n) (x ∷ xs) = ap (◌∷◌ x) (take_again n xs)

final_pad-IsBlock :
    (cipher : BlockCipher)
    → IsCipher cipher
    → (delta : List ℕ) (n : ℕ) → IsBlock delta
    → IsBlock (final_pad cipher delta n)
unfolding final_pad
final_pad-IsBlock cipher law delta n d =
    law.encrypts _ (xor-IsBlock _ _ (length_block-IsBlock n) (times2-IsBlock delta d))

final_pad-length :
    (cipher : BlockCipher)
    → IsCipher cipher
    → (delta : List ℕ) (n : ℕ) → IsBlock delta
    → length (final_pad cipher delta n) ≡ 16
final_pad-length cipher law delta n d = (final_pad-IsBlock cipher law delta n d).sized

filled-IsBlock :
    (last pad : List ℕ)
    → All IsByte last
    → length last ≤ 16
    → IsBlock pad
    → IsBlock (filled last pad)
filled-IsBlock last pad h l p = record {
  sized =
      omega (
        arith,
        length-append last (drop (length last) pad),
        length-drop (length last) pad,
        p.sized,
      );
  bytes = All-append IsByte last _ h (drop-IsByte (length last) pad p.bytes);
}

final_tag-length :
    (cipher : BlockCipher)
    → IsCipher cipher
    → (delta checksum last pad : List ℕ) → IsBlock delta
    → IsBlock checksum
    → All IsByte last
    → length last ≤ 16
    → IsBlock pad
    → length (final_tag cipher delta (xor checksum (filled last pad))) ≡ 16
unfolding final_tag
final_tag-length cipher law delta checksum last pad d k h l p =
    let sum = xor-IsBlock checksum (filled last pad) k (filled-IsBlock last pad h l p) in
    (law.encrypts _ (
      xor-IsBlock (times3 (times2 delta)) _ (times3-IsBlock (times2 delta) (times2-IsBlock delta d))
        sum)).sized

-- What `open_last` makes of a last block that was encrypted under the same `delta`.
open_last-encrypted :
    (cipher : BlockCipher) (compare : Compare) (k : ℕ) (delta checksum last out : List ℕ)
    → ((a : List ℕ) → compare.equal a a ≡ true)
    → length (final_pad cipher delta (length last)) ≡ 16
    → length last ≤ 16
    → let pad = final_pad cipher delta (length last) in
      let tmp = filled last pad in
      let cut = take (length last) (xor pad tmp) in
      let tag = final_tag cipher delta (xor checksum tmp) in
      (length cut ≡ length last)
      × (open_last cipher compare (take k tag) delta checksum cut out ≡ (out ++ last, true))
unfolding open_last
open_last-encrypted cipher compare k delta checksum last out same padded h =
    let pad = final_pad cipher delta (length last) in
    let tmp = filled last pad in
    let cut = take (length last) (xor pad tmp) in
    let tag = final_tag cipher delta (xor checksum tmp) in
    let (tail, size) = last_block last pad (omega arith) in
    let whole : xor (cut ++ replicate (16 - length last) 0) pad ≡ tmp = rw padded at tail in
    (
      size,
      rw
          (
            size,
            whole,
            take_again k tag,
            same (take k tag),
            take_front last (drop (length last) pad),
          )
          refl,
    )

zeros-IsBlock : IsBlock zeros
zeros-IsBlock = record { sized = refl; bytes = omega arith }

-- With a cipher that inverts itself on blocks and a comparison that holds of equal lists, `Encrypt`
-- of any bytes under a 16-byte nonce gives a ciphertext of the same length and a tag of 16 bytes, and
-- `Decrypt` of it under that nonce, with the tag cut to any length, returns the bytes and finds that the tag matches.
pub ocb2_round_trip :
    (cipher : BlockCipher) (compare : Compare) (n : ℕ) (src nonce : List ℕ)
    → IsCipher cipher
    → ((a : List ℕ) → compare.equal a a ≡ true)
    → IsBlock nonce
    → All IsByte src
    → (sealed tag : List ℕ) × (encrypt cipher src nonce ≡ some (sealed, tag))
      × (length tag ≡ 16)
      × (length sealed ≡ length src)
      × (decrypt cipher compare sealed nonce (take n tag) ≡ some (src, true))
unfolding encrypt decrypt Mirrors
ocb2_round_trip cipher compare n src nonce law same nb bytes =
    let start = cipher.encrypt nonce in
    let r = rounds (encrypt_block cipher) (length src) start zeros src in
    let run =
      encrypt-IsRun cipher law (length src) start zeros src (law.encrypts nonce nb) zeros-IsBlock
        bytes (omega arith) in
    let pad = final_pad cipher r.delta (length r.last) in
    let tmp = filled r.last pad in
    let padded = final_pad-length cipher law r.delta (length r.last) run.delta_block in
    let cut = take (length r.last) (xor pad tmp) in
    let sealed = r.out ++ cut in
    let r' = rounds (decrypt_block cipher) (length sealed) start zeros sealed in
    let tag = final_tag cipher r.delta (xor r.checksum tmp) in
    let (size, opened) =
      open_last-encrypted cipher compare n r.delta r.checksum r.last r'.out same padded
        run.last_short in
    let (d, c, l, o) = run.mirrors (length sealed) cut size (omega arith) in
    let behind : open_last cipher compare (take n tag) r'.delta r'.checksum r'.last r'.out
        ≡ (src, true) =
      ap (λ x. open_last cipher compare (take n tag) x r'.checksum r'.last r'.out) d
      ∙ ap (λ x. open_last cipher compare (take n tag) r.delta x r'.last r'.out) c
      ∙ ap (λ x. open_last cipher compare (take n tag) r.delta r.checksum x r'.out) l
      ∙ opened
      ∙ ap (λ x. (x, true)) o in
    (
      sealed,
      tag,
      rw nb.sized refl,
      final_tag-length cipher law r.delta r.checksum r.last pad run.delta_block run.sum_block
          run.last_bytes run.last_short
          (final_pad-IsBlock cipher law r.delta (length r.last) run.delta_block),
      omega (arith, length-append r.out cut, size, run.total),
      rw nb.sized (ap some behind),
    )
