-- ===== src/Tokens/Ends.antt =====
-- Validate ends: the texts in texts of the claim `permissions` become smaller.
use grumble.Common.{
  ℕ, zero, suc, ◌≢◌, Bool, true, false, not, List, [], ◌∷◌, Option, none, some, arith, Bool-cases,
  Option-cases, inl, inr, ◌||◌, ◌++◌, if◌then◌else◌,
}
use grumble.Common.Names.{Name, is_empty, mem_name, same_name}
use grumble.Tokens.{
  TokenError, bad_token, bad_audience, bad_expired, bad_missing_claim, bad_issuer, hs256,
  out_of_fuel, Result, ok, err, ◌>>=◌, guard, from_option, Libs, Validator, RawClaims, Parts,
  three_parts, split, is_quoted, is_nothing,
}
use grumble.Tokens.Unquoting.{IsUnquoting, IsCovered, any_text, not_covered, next-IsCovered}
use grumble.Tokens.Validate.{
  unquoted_permissions, parse_permissions, read_permissions, parse_exp, parse_audience,
  check_audience, check_header, read_claims, check_time, check_claims, has_claims, is_blank,
  verify_hmac, validate,
}

abbrev Ends : {A : Type 0} → Result A → Type 0
Ends r = r ≢ err out_of_fuel

>>=-Ends :
    {A B : Type 0} (m : Result A) (f : A → Result B)
    → Ends m
    → ((a : A) → Ends (f a))
    → Ends (m >>= f)
>>=-Ends (ok a) f e g = g a
>>=-Ends (err x) f e g = λ h. e (cc h)

guard-Ends : (b : Bool) (e : TokenError) → e ≢ out_of_fuel → Ends (guard b e)
guard-Ends true e n = λ h. cc h
guard-Ends false e n = λ h. n (cc h)

from_option-Ends :
    {A : Type 0} (e : TokenError) (o : Option A) → e ≢ out_of_fuel → Ends (from_option e o)
from_option-Ends e none n = λ h. n (cc h)
from_option-Ends e (some a) n = λ h. cc h

three_parts-Ends : (texts : List Name) → Ends (three_parts texts)
three_parts-Ends [] = λ h. cc h
three_parts-Ends (a ∷ []) = λ h. cc h
three_parts-Ends (a ∷ b ∷ []) = λ h. cc h
three_parts-Ends (a ∷ b ∷ c ∷ []) = λ h. cc h
three_parts-Ends (a ∷ b ∷ c ∷ d ∷ texts) = λ h. cc h

module _ (libs : Libs) where
  unquoted-Ends : (raw : Name) → Ends (unquoted_permissions libs raw)
  unfolding unquoted_permissions
  unquoted-Ends raw h = elim (Option-cases (libs.json_strings raw)) [
    | inr (names, e) ↦ cc (rw (unquoted_permissions, e) at h)
    | inl n ↦ elim (Option-cases (libs.json_flags raw)) [
      | inl m ↦ cc (rw (unquoted_permissions, n, m) at h)
      | inr (flags, e) ↦ cc (rw (unquoted_permissions, n, e) at h)
    ]
  ]

  parse_permissions-Ends :
      (fuel : ℕ) (raw : Name)
      → IsUnquoting libs
      → IsCovered fuel raw
      → Ends (parse_permissions libs fuel raw)
  unfolding parse_permissions
  parse_permissions-Ends zero raw law l h = not_covered raw _ l
  parse_permissions-Ends (suc fuel) raw law l h = elim (Bool-cases (is_nothing raw)) [
    | inl n ↦ cc (rw (parse_permissions, n) at h)
    | inr something ↦ elim (Bool-cases (is_quoted (libs.trim.trim_space raw))) [
      | inr plain ↦ unquoted-Ends raw (rw (parse_permissions, something, plain) at h)
      | inl quoted ↦ elim (Option-cases (libs.json_string raw)) [
        | inl n ↦ cc (rw (parse_permissions, something, quoted, n) at h)
        | inr (text, e) ↦ elim (Bool-cases (is_empty (libs.trim.trim_space text))) [
          | inl blank ↦ cc (rw (parse_permissions, something, quoted, e, blank) at h)
          | inr full ↦
              parse_permissions-Ends fuel (libs.trim.trim_space text) law
                (next-IsCovered libs fuel raw text law e l)
                (rw (parse_permissions, something, quoted, e, full) at h)
        ]
      ]
    ]
  ]

  parse_exp-Ends : (raw : Name) → Ends (parse_exp libs raw)
  unfolding parse_exp
  parse_exp-Ends raw h = elim (Bool-cases (is_empty raw)) [
    | inl e ↦ cc (rw (parse_exp, e) at h)
    | inr e ↦ elim (Option-cases (libs.json_int64 raw)) [
      | inl n ↦
          from_option-Ends bad_token (libs.json_float64 raw) (λ x. cc x) (rw (parse_exp, e, n) at h)
      | inr (s, y) ↦ cc (rw (parse_exp, e, y) at h)
    ]
  ]

  check_audience-Ends : (want raw : Name) → Ends (check_audience libs want raw)
  unfolding check_audience
  check_audience-Ends want raw = go (parse_audience libs raw)
    where
      go :
          (r : Result (List Name))
          → Ends (elim r as (λ _. Result (List Name)) [
            | err e ↦ err bad_audience
            | ok audience ↦ if mem_name want audience then ok audience else err bad_audience
          ])
      go (err e) h = cc h
      go (ok audience) h = ground arith

  check_claims-Ends :
      (v : Validator) (raw : RawClaims) → IsUnquoting libs → Ends (check_claims libs v raw)
  unfolding check_claims check_time read_permissions
  check_claims-Ends v raw law =
      >>=-Ends _ _
        (>>=-Ends (parse_exp libs raw.expires_at) _ (parse_exp-Ends raw.expires_at) (λ exp.
          >>=-Ends _ _ (guard-Ends (not (libs.after exp || libs.at exp)) bad_expired (λ x. cc x))
            (λ _ x. cc x)))
        (λ exp. >>=-Ends _ _ (guard-Ends (has_claims libs raw) bad_missing_claim (λ x. cc x)) (λ _.
          >>=-Ends _ _ (guard-Ends (same_name raw.issuer v.issuer) bad_issuer (λ x. cc x)) (λ _.
            >>=-Ends _ _ (check_audience-Ends v.audience raw.audience) (λ audience.
              >>=-Ends _ _
                (parse_permissions-Ends _ raw.permissions law
                  (any_text _ raw.permissions (omega arith)))
                (λ permissions x. cc x)))))

  -- Validate ends on every token: the recursion of parsePermissions is not deeper than three times
  -- the length of the claim and two. json.Unmarshal and TrimSpace keep to UTF-8.
  pub validate-Ends :
      (v : Validator) (token : Name) → IsUnquoting libs → validate libs v token ≢ err out_of_fuel
  unfolding validate check_header read_claims
  validate-Ends v token law =
      >>=-Ends _ _ (guard-Ends (not (is_blank libs token)) bad_token (λ x. cc x)) (λ _.
        >>=-Ends _ _ (three_parts-Ends (split (libs.trim.trim_space token))) (λ parts.
          >>=-Ends _ _ (check_header-Ends v.secret parts) (λ _.
            >>=-Ends _ _ (read_claims-Ends parts.payload) (λ raw. check_claims-Ends v raw law))))
    where
      check_header-Ends : (secret : Name) (parts : Parts) → Ends (check_header libs secret parts)
      check_header-Ends secret parts =
          >>=-Ends _ _ (from_option-Ends bad_token (libs.decode parts.header) (λ x. cc x)) (λ bytes.
            >>=-Ends _ _ (from_option-Ends bad_token (libs.json_alg bytes) (λ x. cc x)) (λ alg.
              >>=-Ends _ _ (guard-Ends (same_name alg hs256) bad_token (λ x. cc x)) (λ _.
                guard-Ends
                  (verify_hmac libs (parts.header ++ (b'.' ∷ parts.payload)) parts.signature secret)
                  bad_token (λ x. cc x))))

      read_claims-Ends : (payload : Name) → Ends (read_claims libs payload)
      read_claims-Ends payload =
          >>=-Ends _ _ (from_option-Ends bad_token (libs.decode payload) (λ x. cc x))
            (λ bytes. from_option-Ends bad_token (libs.json_claims bytes) (λ x. cc x))
