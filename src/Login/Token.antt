-- ===== src/Login/Token.antt =====
-- The log-in by a token (handleTeamlancerAuthenticate): what the authenticator's answer makes of a
-- client.
use grumble.Common.{
  true, false, [], ◌∷◌, if◌then◌else◌, Option, none, some, ◌≡◌, refl, ◌⊎◌, inl, inr, Bool-cases,
}
use grumble.Common.Names.{Name, is_empty}
use grumble.Voice.{UserIdentity, can_join_voice}
use grumble.Login.{
  Client, Authenticate, Answer, Reason, authenticated, rejected, wrong_user_pw, permission_denied,
  missing_identity, text_of, classify_auth_failure, Verdict, failed, result, token_authenticate,
}

abbrev pub identity_of : Verdict → Option UserIdentity
identity_of (failed err) = none
identity_of (result identity) = identity

-- Let in with that identity, and with a name.
abbrev pub IsLetIn : Option UserIdentity → Client × Answer → Type 0
IsLetIn identity after =
    (can_join_voice identity ≡ true)
    × ((after.1 ≡ authenticated)
        × ((after.0.identity ≡ identity) × (is_empty after.0.username ≡ false)))

-- Rejected, and left as before.
abbrev pub IsTurnedAway : Option UserIdentity → Client → Client × Answer → Type 0
IsTurnedAway identity client after =
    (can_join_voice identity ≡ false)
    × ((reason : Reason) × (after ≡ (client, rejected wrong_user_pw reason)))

-- A client whose message gives a name is let in when the authenticator's answer is an identity that
-- may join voice rooms: he has that identity then, and a name that is not empty. On every other
-- answer he is rejected and unchanged.
pub token_authenticate_outcome :
    (client : Client) (auth : Authenticate) (verdict : Verdict)
    → is_empty (text_of auth.username) ≡ false
    → IsLetIn (identity_of verdict) (token_authenticate client auth verdict)
      ⊎ IsTurnedAway (identity_of verdict) client (token_authenticate client auth verdict)
unfolding token_authenticate can_join_voice
token_authenticate_outcome client auth (failed err) n =
    inr (refl, (classify_auth_failure err, refl))
token_authenticate_outcome client auth (result none) n = inr (refl, (missing_identity, refl))
token_authenticate_outcome client auth (result (some identity)) n =
    elim (Bool-cases identity.permissions.join_voice) [
      | inr c ↦ inr (c, (permission_denied, rw (token_authenticate, can_join_voice, c) refl))
      | inl c ↦ inl (
        c,
        (
          rw (token_authenticate, can_join_voice, c) refl,
          (
            rw (token_authenticate, can_join_voice, c) refl,
            rw (token_authenticate, can_join_voice, c) (given identity.display_name),
          ),
        ),
      )
    ]
  where
    given : (name : Name) → is_empty (if is_empty name then text_of auth.username else name) ≡ false
    given [] = n
    given (c ∷ name) = refl
