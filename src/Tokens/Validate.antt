-- ===== src/Tokens/Validate.antt =====
-- `Validator.Validate` with its helpers in pkg/teamlancer/auth/jwt/jwt.go, and VoiceToken,
-- Authenticate and mapJWTError of pkg/teamlancer/auth/auth.go.
use grumble.Common.{
  ◌*◌, length, ℕ, zero, suc, Bool, true, false, not, ◌&&◌, ◌||◌, List, [], ◌∷◌, ◌++◌, map, Option,
  none, some, if◌then◌else◌,
}
use grumble.Common.Int.{ℤ}
use grumble.Common.Names.{Name, same_name, is_empty, mem_name}
use grumble.Voice.{Permissions, UserIdentity}
use grumble.Login.{
  AuthError, err_expired_token, err_missing_claim, err_invalid_issuer, err_invalid_audience,
  err_invalid_token, other, Verdict, failed, result,
}
use grumble.Tokens.{
  TokenError, bad_token, bad_expired, bad_missing_claim, bad_issuer, bad_audience, bad_permissions,
  out_of_fuel, Result, ok, err, ◌>>=◌, guard, from_option, RawClaims, Claims, Libs, Validator,
  Permission, voice_join, voice_publish, voice_receive, voice_moderate, permission_name,
  apply_permission, no_permissions, hs256, is_quoted, is_nothing, split, Parts, three_parts,
}

-- `mapJWTError`
abbrev pub map_jwt_error : TokenError → AuthError
map_jwt_error bad_expired = err_expired_token
map_jwt_error bad_missing_claim = err_missing_claim
map_jwt_error bad_issuer = err_invalid_issuer
map_jwt_error bad_audience = err_invalid_audience
map_jwt_error bad_permissions = err_invalid_token
map_jwt_error bad_token = err_invalid_token
map_jwt_error out_of_fuel = other

abbrev pub claims_of : RawClaims → ℤ → List Name → Permissions → Claims
claims_of raw exp audience permissions = record {
  subject = raw.subject;
  name = raw.name;
  expires_at = exp;
  issuer = raw.issuer;
  audience = audience;
  team_id = raw.team_id;
  board_id = raw.board_id;
  permissions = permissions;
}

abbrev pub identity_of : Claims → UserIdentity
identity_of c = record {
  user_id = c.subject;
  display_name = c.name;
  team_id = c.team_id;
  board_id = c.board_id;
  permissions = c.permissions;
}

abbrev pub answer : Result Claims → Verdict
answer (err e) = failed (map_jwt_error e)
answer (ok c) = result (some (identity_of c))

module _ (libs : Libs) where
  unfoldable pub parse_permission_name : Name → Option Permission
  parse_permission_name name =
      let normalized = libs.trim.trim_space name in
      if same_name normalized (permission_name voice_join)
      then some voice_join
      else if same_name normalized (permission_name voice_publish)
      then some voice_publish
      else if same_name normalized (permission_name voice_receive)
      then some voice_receive
      else if same_name normalized (permission_name voice_moderate)
      then some voice_moderate
      else none

  unfoldable pub present : Name → Bool → Permissions → Permissions
  present name enabled perms =
      if enabled then record perms { presented = perms.presented ++ (name ∷ []) } else perms

  -- The body of both loops; a name of a list is enabled.
  unfoldable pub add_flag : Name × Bool → Permissions → Permissions
  add_flag (name, enabled) perms =
      let trimmed = libs.trim.trim_space name in
      if is_empty trimmed then perms else elim (parse_permission_name trimmed) [
        | none ↦ present trimmed enabled perms
        | some p ↦ apply_permission p enabled (present trimmed enabled perms)
      ]

  unfoldable pub add_flags : List (Name × Bool) → Permissions → Permissions
  add_flags [] perms = perms
  add_flags (flag ∷ flags) perms = add_flags flags (add_flag flag perms)

  unfoldable pub unquoted_permissions : Name → Result Permissions
  unquoted_permissions raw = elim (libs.json_strings raw) [
    | some names ↦ ok (add_flags (map (λ n. (n, true)) names) no_permissions)
    | none ↦ elim (libs.json_flags raw) [
      | some flags ↦ ok (add_flags flags no_permissions)
      | none ↦ err bad_permissions
    ]
  ]

  -- `parsePermissions`, on fuel for the texts in texts.
  unfoldable pub parse_permissions : ℕ → Name → Result Permissions
  parse_permissions zero raw = err out_of_fuel
  parse_permissions (suc fuel) raw =
      if is_nothing raw
      then err bad_permissions
      else if is_quoted (libs.trim.trim_space raw)
      then elim (libs.json_string raw) [
        | none ↦ err bad_permissions
        | some encoded ↦
            let text = libs.trim.trim_space encoded in
            let inner = parse_permissions fuel text in
            if is_empty text then err bad_permissions else inner
      ]
      else unquoted_permissions raw

  -- `verifyHMAC`
  unfoldable pub verify_hmac : Name → Name → Name → Bool
  verify_hmac signing_input signature secret = elim (libs.decode signature) [
    | none ↦ false
    | some bytes ↦ libs.equal bytes (libs.mac secret signing_input)
  ]

  unfoldable pub parse_exp : Name → Result ℤ
  parse_exp raw = if is_empty raw then err bad_missing_claim else elim (libs.json_int64 raw) [
    | some seconds ↦ ok seconds
    | none ↦ from_option bad_token (libs.json_float64 raw)
  ]

  unfoldable pub parse_audience : Name → Result (List Name)
  parse_audience raw = if is_empty raw then err bad_missing_claim else elim (libs.json_string raw) [
    | some single ↦
        if is_empty (libs.trim.trim_space single) then err bad_audience else ok (single ∷ [])
    | none ↦ elim (libs.json_strings raw) [
      | none ↦ err bad_audience
      | some multi ↦ if is_empty multi then err bad_audience else ok multi
    ]
  ]

  -- `containsAudience` behind parseAudience, whose errors become one.
  unfoldable pub check_audience : Name → Name → Result (List Name)
  check_audience want raw = elim (parse_audience raw) [
    | err e ↦ err bad_audience
    | ok audience ↦ if mem_name want audience then ok audience else err bad_audience
  ]

  abbrev pub is_blank : Name → Bool
  is_blank text = is_empty (libs.trim.trim_space text)

  unfoldable pub check_header : Name → Parts → Result (Unit {0})
  check_header secret parts = from_option bad_token (libs.decode parts.header) >>= λ bytes.
      from_option bad_token (libs.json_alg bytes) >>= λ alg.
      guard (same_name alg hs256) bad_token >>= λ _.
      guard (verify_hmac (parts.header ++ (b'.' ∷ parts.payload)) parts.signature secret) bad_token

  unfoldable pub read_claims : Name → Result RawClaims
  read_claims payload = from_option bad_token (libs.decode payload) >>= λ bytes.
      from_option bad_token (libs.json_claims bytes)

  unfoldable pub check_time : Name → Result ℤ
  check_time raw = parse_exp raw >>= λ exp.
      guard (not (libs.after exp || libs.at exp)) bad_expired >>= λ _. ok exp

  unfoldable pub has_claims : RawClaims → Bool
  has_claims raw =
      not (is_blank raw.subject || is_blank raw.name)
      && not (is_blank raw.team_id || (is_blank raw.board_id || is_nothing raw.permissions))

  unfoldable pub read_permissions : Name → Result Permissions
  read_permissions raw = parse_permissions (suc (suc (3 * length raw))) raw

  -- From the check of the expiry on.
  unfoldable pub check_claims : Validator → RawClaims → Result Claims
  check_claims v raw = check_time raw.expires_at >>= λ exp.
      guard (has_claims raw) bad_missing_claim >>= λ _.
      guard (same_name raw.issuer v.issuer) bad_issuer >>= λ _.
      check_audience v.audience raw.audience >>= λ audience.
      read_permissions raw.permissions >>= λ permissions.
      ok (claims_of raw exp audience permissions)

  -- `Validate`
  unfoldable pub validate : Validator → Name → Result Claims
  validate v token = guard (not (is_blank token)) bad_token >>= λ _.
      three_parts (split (libs.trim.trim_space token)) >>= λ parts.
      check_header v.secret parts >>= λ _. read_claims parts.payload >>= check_claims v

  -- `VoiceToken`
  unfoldable pub first_token : List Name → Name
  first_token [] = []
  first_token (token ∷ tokens) =
      let rest = first_token tokens in
      let trimmed = libs.trim.trim_space token in if is_empty trimmed then rest else trimmed

  unfoldable pub voice_token : Name → List Name → Name
  voice_token password tokens =
      let trimmed = libs.trim.trim_space password in
      if is_empty trimmed then first_token tokens else trimmed

  -- `Authenticate` with a validator, on a context that is done or not.
  unfoldable pub authenticate : Bool → Option Validator → Name → List Name → Verdict
  authenticate is_done validator password tokens =
      if is_done then failed other else elim validator [
        | none ↦ failed err_invalid_token
        | some v ↦ answer (validate v (voice_token password tokens))
      ]
