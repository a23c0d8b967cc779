-- ===== src/Tokens.antt =====
-- The tokens by which users of boards log in: pkg/teamlancer/auth/jwt/jwt.go, and the authenticator
-- over them in pkg/teamlancer/auth/auth.go.
pub mod Validate
pub mod Permit
pub mod Unquoting
pub mod Means
pub mod Says
pub mod Ends
pub mod Results
pub mod Accepted
pub mod LogIn
pub mod Tests
use grumble.Common.{
  ℕ, zero, suc, Bool, true, false, not, ◌&&◌, ◌||◌, List, [], ◌∷◌, ◌++◌, map, Option, none, some,
  ◌==◌, if◌then◌else◌,
}
use grumble.Common.Int.{ℤ}
use grumble.Common.Names.{Name, same_name, is_empty, mem_name}
use grumble.Voice.{Permissions, UserIdentity, Trim}
use grumble.Login.{
  AuthError, err_expired_token, err_missing_claim, err_invalid_issuer, err_invalid_audience,
  err_invalid_token, other, Verdict, failed, result,
}

pub data TokenError : Type 0 where
  bad_token bad_expired bad_missing_claim bad_issuer bad_audience bad_permissions : TokenError
  out_of_fuel : TokenError

pub data Result (A : Type 0) : Type 0 where
  ok : A → Result A
  err : TokenError → Result A

infixl 5 ◌>>=◌
abbrev pub ◌>>=◌ : {A B : Type 0} → Result A → (A → Result B) → Result B
ok a >>= f = f a
err e >>= f = err e

abbrev pub guard : Bool → TokenError → Result (Unit {0})
guard true e = ok tt
guard false e = err e

abbrev pub from_option : {A : Type 0} → TokenError → Option A → Result A
from_option e none = err e
from_option e (some a) = ok a

-- `rawClaims`. A claim that stays JSON is its bytes, none when it is absent.
pub record RawClaims : Type 0 where
  pub subject : Name
  pub name : Name
  pub expires_at : Name
  pub issuer : Name
  pub audience : Name
  pub team_id : Name
  pub board_id : Name
  pub permissions : Name

-- `Claims`, with the expiry in seconds.
pub record Claims : Type 0 where
  pub subject : Name
  pub name : Name
  pub expires_at : ℤ
  pub issuer : Name
  pub audience : List Name
  pub team_id : Name
  pub board_id : Name
  pub permissions : Permissions

-- The packages that the code calls: strings.TrimSpace; base64; HMAC over a secret, and its
-- comparison; json.Unmarshal into each of the types; and the clock, asked whether it is after a time
-- and whether it is at that time.
pub record Libs : Type 0 where
  pub trim : Trim
  pub decode : Name → Option Name
  pub mac : Name → Name → Name
  pub equal : Name → Name → Bool
  pub json_alg : Name → Option Name
  pub json_claims : Name → Option RawClaims
  pub json_int64 : Name → Option ℤ
  pub json_float64 : Name → Option ℤ
  pub json_string : Name → Option Name
  pub json_strings : Name → Option (List Name)
  pub json_flags : Name → Option (List (Name × Bool))
  pub after : ℤ → Bool
  pub at : ℤ → Bool

pub record Validator : Type 0 where
  pub secret : Name
  pub issuer : Name
  pub audience : Name

-- The four permissions that are known.
pub data Permission : Type 0 where
  voice_join voice_publish voice_receive voice_moderate : Permission

abbrev pub permission_name : Permission → Name
permission_name voice_join =
    b'v' ∷ b'o' ∷ b'i' ∷ b'c' ∷ b'e' ∷ b'.' ∷ b'j' ∷ b'o' ∷ b'i' ∷ b'n' ∷ []
permission_name voice_publish =
    b'v' ∷ b'o' ∷ b'i' ∷ b'c' ∷ b'e' ∷ b'.' ∷ b'p' ∷ b'u' ∷ b'b' ∷ b'l' ∷ b'i' ∷ b's' ∷ b'h' ∷ []
permission_name voice_receive =
    b'v' ∷ b'o' ∷ b'i' ∷ b'c' ∷ b'e' ∷ b'.' ∷ b'r' ∷ b'e' ∷ b'c' ∷ b'e' ∷ b'i' ∷ b'v' ∷ b'e' ∷ []
permission_name voice_moderate =
    b'v' ∷ b'o' ∷ b'i' ∷ b'c' ∷ b'e' ∷ b'.' ∷ b'm' ∷ b'o' ∷ b'd' ∷ b'e' ∷ b'r' ∷ b'a' ∷ b't' ∷ b'e'
    ∷ []

-- `applyPermission`
abbrev pub apply_permission : Permission → Bool → Permissions → Permissions
apply_permission voice_join enabled perms = record perms { join_voice = enabled }
apply_permission voice_publish enabled perms = record perms { publish_audio = enabled }
apply_permission voice_receive enabled perms = record perms { receive_audio = enabled }
apply_permission voice_moderate enabled perms = record perms { moderate_voice = enabled }

abbrev pub no_permissions : Permissions
no_permissions = record {
  join_voice = false;
  publish_audio = false;
  receive_audio = false;
  moderate_voice = false;
  presented = [];
}

abbrev pub null : Name
null = b'n' ∷ b'u' ∷ b'l' ∷ b'l' ∷ []

abbrev pub hs256 : Name
hs256 = b'H' ∷ b'S' ∷ b'2' ∷ b'5' ∷ b'6' ∷ []

-- `len(trimmed) >= 2 && trimmed[0] == '"'`
abbrev pub is_quoted : Name → Bool
is_quoted (c ∷ _ ∷ _) = c == 34
is_quoted _ = false

abbrev pub is_nothing : Name → Bool
is_nothing raw = is_empty raw || same_name raw null

-- `strings.Split(token, ".")`
abbrev pub cons_part : ℕ → List Name → List Name
cons_part c [] = (c ∷ []) ∷ []
cons_part c (part ∷ parts) = (c ∷ part) ∷ parts

unfoldable pub split : Name → List Name
split [] = [] ∷ []
split (c ∷ text) = let rest = split text in if c == b'.' then [] ∷ rest else cons_part c rest

-- A token's three parts.
pub record Parts : Type 0 where
  pub header : Name
  pub payload : Name
  pub signature : Name

abbrev pub three_parts : List Name → Result Parts
three_parts (h ∷ p ∷ s ∷ []) = ok (record { header = h; payload = p; signature = s })
three_parts _ = err bad_token
