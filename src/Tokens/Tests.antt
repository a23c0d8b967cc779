-- ===== src/Tokens/Tests.antt =====
-- A token that is accepted, over libraries that keep texts as they are.
use grumble.Common.{
  ap, sym, ◌∙◌, Bool-cases, inl, inr, ℕ, suc, ◌<◌, ◌≡◌, ◌≢◌, refl, true, false, not, List, [], ◌∷◌,
  ◌++◌, Option, none, some, ◌==◌, arith, length, if◌then◌else◌, ◌↔◌,
}
use grumble.Common.Int.{pos}
use grumble.Common.Names.{Name, same_name}
use grumble.Voice.{Trim, can_join_voice}
use grumble.Voice.Rooms.{IsTrim}
use grumble.Login.{Client, Authenticate, token_authenticate}
use grumble.Tokens.{
  RawClaims, Claims, Libs, Validator, voice_join, permission_name, hs256, ok, err, out_of_fuel,
  bad_token, bad_expired, split,
}
use grumble.Tokens.Validate.{
  validate, voice_token, authenticate, check_header, verify_hmac, read_claims, check_claims,
  check_time, parse_exp, has_claims, check_audience, parse_audience, read_permissions,
  parse_permissions, unquoted_permissions, add_flags, add_flag, present, parse_permission_name,
}
use grumble.Tokens.Accepted.{IsAccepted, validate_iff_IsAccepted}
use grumble.Tokens.Unquoting.{valid_utf8, IsUnquoting}
use grumble.Tokens.Ends.{validate-Ends}
use grumble.Tokens.LogIn.{IsEntitled, token_log_in}

abbrev whole : Trim
whole = record { trim_space = λ name. name }

whole-IsTrim : IsTrim whole
whole-IsTrim = record { trim_twice = λ s. refl }

abbrev without_last : Name → Name
without_last [] = []
without_last (c ∷ []) = []
without_last (c ∷ d ∷ text) = c ∷ without_last (d ∷ text)

abbrev unquote : Name → Option Name
unquote [] = none
unquote (c ∷ text) = if c == 34 then some (without_last text) else none

abbrev only_utf8 : Option Name → Option Name
only_utf8 none = none
only_utf8 (some text) = if valid_utf8 text then some text else none

-- A list has one name.
abbrev names_of : Name → Option (List Name)
names_of [] = none
names_of (c ∷ text) = if c == b'[' then some (without_last text ∷ []) else none

abbrev raw : RawClaims
raw = record {
  subject = b'a' ∷ [];
  name = b'A' ∷ [];
  expires_at = b'9' ∷ [];
  issuer = b'i' ∷ [];
  audience = 34 ∷ b'g' ∷ 34 ∷ [];
  team_id = b't' ∷ [];
  board_id = b'1' ∷ [];
  permissions = 34 ∷ b'[' ∷ (permission_name voice_join ++ (b']' ∷ 34 ∷ []));
}

abbrev libs_at : ℕ → Libs
libs_at now = record {
  trim = whole;
  decode = λ text. some text;
  mac = λ secret input. length input ∷ secret;
  equal = same_name;
  json_alg = λ text. some text;
  json_claims = λ text. if same_name text (b'p' ∷ []) then some raw else none;
  json_int64 = λ text. some (pos 9);
  json_float64 = λ text. none;
  json_string = λ json. only_utf8 (unquote json);
  json_strings = names_of;
  json_flags = λ text. none;
  after = λ exp. not (now == 5);
  at = λ exp. false;
}

abbrev libs : Libs
libs = libs_at 5

abbrev v : Validator
v = record { secret = b'k' ∷ []; issuer = b'i' ∷ []; audience = b'g' ∷ [] }

abbrev token : Name
token = hs256 ++ (b'.' ∷ b'p' ∷ b'.' ∷ 7 ∷ b'k' ∷ [])

abbrev forged : Name
forged = hs256 ++ (b'.' ∷ b'p' ∷ b'.' ∷ 7 ∷ b'x' ∷ [])

abbrev claims : Claims
claims = record {
  subject = b'a' ∷ [];
  name = b'A' ∷ [];
  expires_at = pos 9;
  issuer = b'i' ∷ [];
  audience = (b'g' ∷ []) ∷ [];
  team_id = b't' ∷ [];
  board_id = b'1' ∷ [];
  permissions = record {
    join_voice = true;
    publish_audio = false;
    receive_audio = false;
    moderate_voice = false;
    presented = permission_name voice_join ∷ [];
  };
}

token_accepted : validate libs v token ≡ ok claims
unfolding validate split check_header verify_hmac read_claims check_claims check_time parse_exp
    has_claims check_audience parse_audience read_permissions parse_permissions unquoted_permissions
    add_flags add_flag present parse_permission_name
token_accepted = refl

forged_refused : validate libs v forged ≡ err bad_token
unfolding validate split check_header verify_hmac
forged_refused = refl

token_expired : validate (libs_at 10) v token ≡ err bad_expired
unfolding validate split check_header verify_hmac read_claims check_claims check_time parse_exp
token_expired = refl

without_last_le : (c : ℕ) (text : Name) → length (without_last (c ∷ text)) < suc (length (c ∷ text))
without_last_le c [] = omega arith
without_last_le c (d ∷ text) = let r = without_last_le d text in omega arith

unquote_shorter : (json text : Name) → unquote json ≡ some text → length text < length json
unquote_shorter [] text h = absurd (cc h)
unquote_shorter (c ∷ []) text h = ground arith
unquote_shorter (c ∷ d ∷ json) text h = ground (arith, without_last_le d json)

only_utf8-some :
    (o : Option Name) (text : Name)
    → only_utf8 o ≡ some text
    → (o ≡ some text) × (valid_utf8 text ≡ true)
only_utf8-some none text h = absurd (cc h)
only_utf8-some (some t) text h = elim (Bool-cases (valid_utf8 t)) [
  | inl y ↦ let same : t ≡ text = cc (rw y at h) in (ap some same, sym (ap valid_utf8 same) ∙ y)
  | inr n ↦ absurd (cc (rw n at h))
]

read_shorter : (json text : Name) → only_utf8 (unquote json) ≡ some text → length text < length json
read_shorter json text h = unquote_shorter json text (only_utf8-some (unquote json) text h).0

libs-IsUnquoting : IsUnquoting libs
libs-IsUnquoting = record {
  valid_read = λ json text h. (only_utf8-some (unquote json) text h).1;
  length_read = λ json text h. let r = read_shorter json text h in omega arith;
  shorter = λ json text v h. read_shorter json text h;
  valid_trimmed = λ text h. h;
  length_trimmed = λ text. omega arith;
}

abbrev client : Client
client = record { username = []; user = none; cert_hash = []; identity = none }

abbrev message : Authenticate
message = record { username = some (b'a' ∷ []); password = some token }

validate_iff_IsAccepted_example :
    (validate libs v token ≡ ok claims) ↔ IsAccepted libs whole-IsTrim v token claims
validate_iff_IsAccepted_example =
    validate_iff_IsAccepted libs whole-IsTrim v token claims libs-IsUnquoting

validate-Ends_example : validate libs v token ≢ err out_of_fuel
validate-Ends_example = validate-Ends libs v token libs-IsUnquoting

token_log_in_example :
    IsEntitled libs whole-IsTrim v token
      (token_authenticate client message (authenticate libs false (some v) token [])).0
unfolding token_authenticate can_join_voice authenticate voice_token validate split check_header
    verify_hmac read_claims check_claims check_time parse_exp has_claims check_audience
    parse_audience read_permissions parse_permissions unquoted_permissions add_flags add_flag
    present parse_permission_name
token_log_in_example = token_log_in libs whole-IsTrim v [] client message refl
