-- ===== src/Login.antt =====
-- The two ways to log in (cmd/grumble/teamlancer_auth.go): by a token that an authenticator reads,
-- and the legacy one by name, certificate and passwords.
pub mod Legacy
pub mod Token
pub mod Tests
use grumble.Common.{
  ℕ, Bool, true, false, not, ◌&&◌, ◌||◌, List, [], ◌∷◌, Option, none, some, ltb, length,
  if◌then◌else◌,
}
use grumble.Common.Names.{Name, same_name, is_empty, lookup}
use grumble.Voice.{UserIdentity, can_join_voice}

-- What is read of a registered user. The maps of the server hold the same users.
pub record User : Type 0 where
  pub id : ℕ
  pub cert_hash : Name

pub record Client : Type 0 where
  pub username : Name
  pub user : Option User
  pub cert_hash : Name
  pub identity : Option UserIdentity

-- The message Authenticate; a missing field is `none`.
pub record Authenticate : Type 0 where
  pub username : Option Name
  pub password : Option Name

pub data RejectType : Type 0 where
  wrong_user_pw invalid_username wrong_server_pw : RejectType

-- The reasons that the log gives.
pub data Reason : Type 0 where
  missing_superuser_password invalid_superuser_mapping wrong_superuser_password : Reason
  wrong_certificate_hash wrong_server_password missing_identity permission_denied : Reason
  expired_token missing_claim invalid_issuer invalid_audience invalid_token : Reason
  authentication_failed : Reason

-- The answer of a handler: true, or false after `RejectAuth`.
pub data Answer : Type 0 where
  authenticated : Answer
  rejected : RejectType → Reason → Answer

-- What the handlers read of the server. The two checks of passwords compare with salted hashes.
pub record Server : Type 0 where
  pub user_name_map : List (Name × User)
  pub user_cert_map : List (Name × User)
  pub has_server_password : Bool
  pub check_superuser_password : Name → Bool
  pub check_server_password : Name → Bool

abbrev pub superuser : Name
superuser = b'S' ∷ b'u' ∷ b'p' ∷ b'e' ∷ b'r' ∷ b'U' ∷ b's' ∷ b'e' ∷ b'r' ∷ []

abbrev pub has_certificate : Client → Bool
has_certificate client = not (is_empty client.cert_hash)

abbrev pub text_of : Option Name → Name
text_of none = []
text_of (some name) = name

module _ (server : Server) where
  -- The branch of the super user.
  unfoldable pub login_superuser : Client → Option Name → Client × Answer
  login_superuser client none = (client, rejected wrong_user_pw missing_superuser_password)
  login_superuser client (some password) =
      if server.check_superuser_password password
      then elim (lookup client.username server.user_name_map) [
        | some user ↦ (record client { user = some user }, authenticated)
        | none ↦
            (record client { user = none }, rejected invalid_username invalid_superuser_mapping)
      ]
      else (client, rejected wrong_user_pw wrong_superuser_password)

  -- `if client.user == nil && client.HasCertificate()`
  unfoldable pub login_by_certificate : Client → Client
  login_by_certificate client = elim client.user [
    | some user ↦ client
    | none ↦
        if has_certificate client
        then elim (lookup client.cert_hash server.user_cert_map) [
          | some user ↦ record client { user = some user }
          | none ↦ client
        ]
        else client
  ]

  -- The branch of the other names.
  unfoldable pub login_by_name : Client → Client × Answer
  login_by_name client = elim (lookup client.username server.user_name_map) [
    | some user ↦
        if has_certificate client && same_name user.cert_hash client.cert_hash
        then (login_by_certificate (record client { user = some user }), authenticated)
        else (client, rejected wrong_user_pw wrong_certificate_hash)
    | none ↦ (login_by_certificate client, authenticated)
  ]

  -- The server's password, for clients that are no registered user.
  unfoldable pub check_password : Option Name → Client × Answer → Client × Answer
  check_password password (client, rejected t r) = (client, rejected t r)
  check_password password (client, authenticated) = elim client.user [
    | some user ↦ (client, authenticated)
    | none ↦ if not server.has_server_password then (client, authenticated) else elim password [
      | none ↦ (client, rejected wrong_server_pw wrong_server_password)
      | some p ↦
          if server.check_server_password p
          then (client, authenticated)
          else (client, rejected wrong_server_pw wrong_server_password)
    ]
  ]

  -- `handleLegacyAuthenticate`. The caller has seen that the name is given.
  unfoldable pub legacy_authenticate : Client → Authenticate → Client × Answer
  legacy_authenticate client auth =
      let named = record client { username = text_of auth.username } in
      check_password auth.password (
        if same_name named.username superuser
        then login_superuser named auth.password
        else login_by_name named)

-- The errors of an authenticator, as `errors.Is` tells them apart; `unauthorized` is
-- ErrUnauthorized itself, and `other` none of these.
pub data AuthError : Type 0 where
  err_expired_token err_missing_claim err_invalid_issuer err_invalid_audience : AuthError
  err_permission_denied err_invalid_token unauthorized other : AuthError

unfoldable pub classify_auth_failure : AuthError → Reason
classify_auth_failure err_expired_token = expired_token
classify_auth_failure err_missing_claim = missing_claim
classify_auth_failure err_invalid_issuer = invalid_issuer
classify_auth_failure err_invalid_audience = invalid_audience
classify_auth_failure err_permission_denied = permission_denied
classify_auth_failure err_invalid_token = invalid_token
classify_auth_failure unauthorized = invalid_token
classify_auth_failure other = authentication_failed

-- What the interface Authenticator answers to a request: an error, or a result, whose identity may
-- be missing.
pub data Verdict : Type 0 where
  failed : AuthError → Verdict
  result : Option UserIdentity → Verdict

-- `handleTeamlancerAuthenticate` behind the call of the authenticator.
unfoldable pub token_authenticate : Client → Authenticate → Verdict → Client × Answer
token_authenticate client auth (failed err) =
    (client, rejected wrong_user_pw (classify_auth_failure err))
token_authenticate client auth (result none) = (client, rejected wrong_user_pw missing_identity)
token_authenticate client auth (result (some identity)) =
    if not (can_join_voice (some identity))
    then (client, rejected wrong_user_pw permission_denied)
    else (
      record client {
        identity = some identity;
        username =
            if is_empty identity.display_name then text_of auth.username else identity.display_name;
      },
      authenticated,
    )
