-- ===== src/Tokens/Results.antt =====
-- Inversion of the checks of a token: what a result says of the steps before it.
use grumble.Common.{
  subst, ◌≡◌, refl, ap, sym, ◌∙◌, Bool, true, false, not, ◌||◌, List, [], ◌∷◌, ◌++◌, Option, none,
  some, arith, Bool-cases, Option-cases, inl, inr, if◌then◌else◌,
}
use grumble.Common.Int.{ℤ}
use grumble.Common.Names.{Name, same_name, same_name→eq, mem_name, is_empty}
use grumble.Tokens.{
  TokenError, bad_token, bad_audience, bad_expired, Result, ok, err, ◌>>=◌, guard, from_option,
  Libs, Parts, three_parts, hs256,
}
use grumble.Tokens.Validate.{
  verify_hmac, check_header, check_time, parse_exp, check_audience, parse_audience,
}

pub >>=-ok :
    {A B : Type 0} (m : Result A) (f : A → Result B) (b : B)
    → (m >>= f) ≡ ok b
    → (a : A) × ((m ≡ ok a) × (f a ≡ ok b))
>>=-ok (ok a) f b h = (a, (refl, h))
>>=-ok (err e) f b h = absurd (cc h)

pub guard_on : (b : Bool) (e : TokenError) (u : Unit {0}) → guard b e ≡ ok u → b ≡ true
guard_on true e u h = refl
guard_on false e u h = absurd (cc h)

pub from_option-some :
    {A : Type 0} (e : TokenError) (o : Option A) (a : A) → from_option e o ≡ ok a → o ≡ some a
from_option-some e none a h = absurd (cc h)
from_option-some e (some x) a h = cc h

pub three_parts-ok :
    (texts : List Name) (parts : Parts)
    → three_parts texts ≡ ok parts
    → texts ≡ parts.header ∷ parts.payload ∷ parts.signature ∷ []
three_parts-ok [] parts h = absurd (cc h)
three_parts-ok (a ∷ []) parts h = absurd (cc h)
three_parts-ok (a ∷ b ∷ []) parts h = absurd (cc h)
three_parts-ok (a ∷ b ∷ c ∷ []) parts h =
    let e : record { header = a; payload = b; signature = c } ≡ parts = cc h in
    ap (λ (p : Parts). p.header ∷ p.payload ∷ p.signature ∷ []) e
three_parts-ok (a ∷ b ∷ c ∷ d ∷ texts) parts h = absurd (cc h)

module _ (libs : Libs) where
  -- The algorithm and the signature of a header.
  pub record IsSigned (secret : Name) (parts : Parts) : Type 0 where
    pub header_bytes : Name
    pub header_read : libs.decode parts.header ≡ some header_bytes
    pub algorithm : libs.json_alg header_bytes ≡ some hs256
    pub signature_bytes : Name
    pub signature_read : libs.decode parts.signature ≡ some signature_bytes
    pub verified :
        libs.equal signature_bytes (libs.mac secret (parts.header ++ (b'.' ∷ parts.payload))) ≡ true

  verify_hmac-true :
      (input signature secret : Name)
      → verify_hmac libs input signature secret ≡ true
      → (bytes : Name) × ((libs.decode signature ≡ some bytes)
          × (libs.equal bytes (libs.mac secret input) ≡ true))
  unfolding verify_hmac
  verify_hmac-true input signature secret h = elim (Option-cases (libs.decode signature)) [
    | inl n ↦ absurd (cc (rw (verify_hmac, n) at h))
    | inr (bytes, e) ↦ (bytes, (e, rw (verify_hmac, e) at h))
  ]

  pub check_header-IsSigned :
      (secret : Name) (parts : Parts) (u : Unit {0})
      → check_header libs secret parts ≡ ok u
      → IsSigned secret parts
  unfolding check_header
  check_header-IsSigned secret parts u h =
      let (bytes, (e1, h1)) = >>=-ok (from_option bad_token (libs.decode parts.header)) _ u h in
      let (alg, (e2, h2)) = >>=-ok (from_option bad_token (libs.json_alg bytes)) _ u h1 in
      let (x, (e3, h3)) = >>=-ok (guard (same_name alg hs256) bad_token) _ u h2 in
      let input = parts.header ++ (b'.' ∷ parts.payload) in
      let good = guard_on (verify_hmac libs input parts.signature secret) bad_token u h3 in
      let (signature, (e4, h4)) = verify_hmac-true input parts.signature secret good in
      record {
        header_bytes = bytes;
        header_read = from_option-some bad_token (libs.decode parts.header) bytes e1;
        algorithm =
            from_option-some bad_token (libs.json_alg bytes) alg e2
            ∙ ap some (same_name→eq alg hs256 (guard_on (same_name alg hs256) bad_token x e3));
        signature_bytes = signature;
        signature_read = e4;
        verified = h4;
      }

  pub IsSigned-check_header :
      (secret : Name) (parts : Parts)
      → IsSigned secret parts
      → check_header libs secret parts ≡ ok tt
  unfolding check_header verify_hmac
  IsSigned-check_header secret parts s =
      rw (check_header, s.header_read, s.algorithm, verify_hmac, s.signature_read, s.verified) refl

  -- The time of a claim `exp` in JSON: a whole number, or else a number with a fraction, cut off.
  pub data IsExpiry (raw : Name) (exp : ℤ) : Type 0 where
    whole_seconds : is_empty raw ≡ false → libs.json_int64 raw ≡ some exp → IsExpiry raw exp
    cut_seconds :
        is_empty raw ≡ false
        → libs.json_int64 raw ≡ none
        → libs.json_float64 raw ≡ some exp
        → IsExpiry raw exp

  parse_exp-IsExpiry : (raw : Name) (exp : ℤ) → parse_exp libs raw ≡ ok exp → IsExpiry raw exp
  unfolding parse_exp
  parse_exp-IsExpiry raw exp h = elim (Bool-cases (is_empty raw)) [
    | inl e ↦ absurd (cc (rw (parse_exp, e) at h))
    | inr e ↦ elim (Option-cases (libs.json_int64 raw)) [
      | inl n ↦
          cut_seconds e n
            (from_option-some bad_token (libs.json_float64 raw) exp (rw (parse_exp, e, n) at h))
      | inr (s, y) ↦
          let same : s ≡ exp = cc (rw (parse_exp, e, y) at h) in whole_seconds e (y ∙ ap some same)
    ]
  ]

  IsExpiry-parse_exp : (raw : Name) (exp : ℤ) → IsExpiry raw exp → parse_exp libs raw ≡ ok exp
  unfolding parse_exp
  IsExpiry-parse_exp raw exp (whole_seconds full e) = rw (parse_exp, full, e) refl
  IsExpiry-parse_exp raw exp (cut_seconds full n e) = rw (parse_exp, full, n, e) refl

  -- The time at which a token expires, which is to come.
  pub record IsCurrent (raw : Name) (exp : ℤ) : Type 0 where
    pub read : IsExpiry raw exp
    pub not_after : libs.after exp ≡ false
    pub not_at : libs.at exp ≡ false

  pub check_time-IsCurrent :
      (raw : Name) (exp : ℤ) → check_time libs raw ≡ ok exp → IsCurrent raw exp
  unfolding check_time
  check_time-IsCurrent raw exp h =
      let (e, (e1, h1)) = >>=-ok (parse_exp libs raw) _ exp h in
      let (x, (e2, h2)) = >>=-ok (guard (not (libs.after e || libs.at e)) bad_expired) _ exp h1 in
      let on = guard_on (not (libs.after e || libs.at e)) bad_expired x e2 in
      let same : e ≡ exp = cc h2 in
      record {
        read = parse_exp-IsExpiry raw exp (e1 ∙ ap ok same);
        not_after = sym (ap libs.after same) ∙ ground arith;
        not_at = sym (ap libs.at same) ∙ ground arith;
      }

  pub IsCurrent-check_time :
      (raw : Name) (exp : ℤ) → IsCurrent raw exp → check_time libs raw ≡ ok exp
  unfolding check_time
  IsCurrent-check_time raw exp c =
      rw (check_time, IsExpiry-parse_exp raw exp c.read, c.not_after, c.not_at) refl

  -- The audience of a claim `aud` in JSON: one name that is not blank, or else a list of some.
  pub data IsAudience (raw : Name) : List Name → Type 0 where
    one_name :
        (single : Name)
        → is_empty raw ≡ false
        → libs.json_string raw ≡ some single
        → is_empty (libs.trim.trim_space single) ≡ false
        → IsAudience raw (single ∷ [])
    some_names :
        (names : List Name)
        → is_empty raw ≡ false
        → libs.json_string raw ≡ none
        → libs.json_strings raw ≡ some names
        → is_empty names ≡ false
        → IsAudience raw names

  parse_audience-IsAudience :
      (raw : Name) (audience : List Name)
      → parse_audience libs raw ≡ ok audience
      → IsAudience raw audience
  unfolding parse_audience
  parse_audience-IsAudience raw audience h = elim (Bool-cases (is_empty raw)) [
    | inl e ↦ absurd (cc (rw (parse_audience, e) at h))
    | inr e ↦ elim (Option-cases (libs.json_string raw)) [
      | inr (single, y) ↦ elim (Bool-cases (is_empty (libs.trim.trim_space single))) [
        | inl blank ↦ absurd (cc (rw (parse_audience, e, y, blank) at h))
        | inr full ↦
            let same : single ∷ [] ≡ audience = cc (rw (parse_audience, e, y, full) at h) in
            subst (IsAudience raw) same (one_name single e y full)
      ]
      | inl n ↦ elim (Option-cases (libs.json_strings raw)) [
        | inl m ↦ absurd (cc (rw (parse_audience, e, n, m) at h))
        | inr (names, y) ↦ elim (Bool-cases (is_empty names)) [
          | inl none_of ↦ absurd (cc (rw (parse_audience, e, n, y, none_of) at h))
          | inr full ↦
              let same : names ≡ audience = cc (rw (parse_audience, e, n, y, full) at h) in
              subst (IsAudience raw) same (some_names names e n y full)
        ]
      ]
    ]
  ]

  IsAudience-parse_audience :
      (raw : Name) (audience : List Name)
      → IsAudience raw audience
      → parse_audience libs raw ≡ ok audience
  unfolding parse_audience
  IsAudience-parse_audience raw _ (one_name single e y full) = rw (parse_audience, e, y, full) refl
  IsAudience-parse_audience raw _ (some_names names e n y full) =
      rw (parse_audience, e, n, y, full) refl

  pub record IsMeant (want raw : Name) (audience : List Name) : Type 0 where
    pub read : IsAudience raw audience
    pub named : mem_name want audience ≡ true

  pub check_audience-IsMeant :
      (want raw : Name) (audience : List Name)
      → check_audience libs want raw ≡ ok audience
      → IsMeant want raw audience
  unfolding check_audience
  check_audience-IsMeant want raw audience h = go (parse_audience libs raw) refl h
    where
      go :
          (r : Result (List Name))
          → parse_audience libs raw ≡ r
          → (elim r as (λ _. Result (List Name)) [
            | err e ↦ err bad_audience
            | ok found ↦ if mem_name want found then ok found else err bad_audience
          ])
            ≡ ok audience
          → IsMeant want raw audience
      go (err e) p h = absurd (cc h)
      go (ok found) p h = elim (Bool-cases (mem_name want found)) [
        | inl y ↦
            let same : found ≡ audience = cc (rw y at h) in
            record {
              read = parse_audience-IsAudience raw audience (p ∙ ap ok same);
              named = sym (ap (mem_name want) same) ∙ y;
            }
        | inr n ↦ absurd (cc (rw n at h))
      ]

  pub IsMeant-check_audience :
      (want raw : Name) (audience : List Name)
      → IsMeant want raw audience
      → check_audience libs want raw ≡ ok audience
  unfolding check_audience
  IsMeant-check_audience want raw audience m =
      rw (check_audience, IsAudience-parse_audience raw audience m.read, m.named) refl
