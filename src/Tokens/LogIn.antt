-- ===== src/Tokens/LogIn.antt =====
-- Who is let in by a token: handleTeamlancerAuthenticate over the authenticator of tokens.
use grumble.Common.{◌≡◌, refl, subst, true, false, List, some, Bool-cases, inl, inr}
use grumble.Common.Names.{Name}
use grumble.Voice.{can_join_voice}
use grumble.Voice.Rooms.{IsTrim}
use grumble.Login.{Client, Authenticate, authenticated, text_of, token_authenticate}
use grumble.Tokens.{Result, ok, err, Libs, Validator, Claims, voice_join}
use grumble.Tokens.Validate.{identity_of, answer, voice_token, authenticate, validate}
use grumble.Tokens.Accepted.{IsAccepted, validate-IsAccepted}
use grumble.Tokens.Says.{Says, Means-Says}

-- The claims of the token that let a client in.
pub record IsEntitled (libs : Libs) (trim_law : IsTrim libs.trim) (v : Validator) (token : Name)
    (after : Client) : Type 0 where
  pub claims : Claims
  pub accepted : IsAccepted libs trim_law v token claims
  pub may_join : Says libs trim_law voice_join accepted.raw.permissions true
  pub identified : after.identity ≡ some (identity_of claims)

let_in :
    (client : Client) (auth : Authenticate) (r : Result Claims)
    → (token_authenticate client auth (answer r)).1 ≡ authenticated
    → (c : Claims) × ((r ≡ ok c)
        × ((c.permissions.join_voice ≡ true)
            × ((token_authenticate client auth (answer r)).0.identity ≡ some (identity_of c))))
unfolding token_authenticate can_join_voice
let_in client auth (err e) h = absurd (cc h)
let_in client auth (ok c) h = elim (Bool-cases c.permissions.join_voice) [
  | inl y ↦ (c, (refl, (y, rw y refl)))
  | inr n ↦ absurd (cc (rw n at h))
]

entitled :
    (libs : Libs) (trim_law : IsTrim libs.trim) (v : Validator) (token : Name) (client : Client)
    (auth : Authenticate)
    → (token_authenticate client auth (answer (validate libs v token))).1 ≡ authenticated
    → IsEntitled libs trim_law v token
        (token_authenticate client auth (answer (validate libs v token))).0
entitled libs trim_law v token client auth h =
    let (c, (e, (join, id))) = let_in client auth (validate libs v token) h in
    let a = validate-IsAccepted libs trim_law v token c e in
    record {
      claims = c;
      accepted = a;
      may_join =
          subst (Says libs trim_law voice_join a.raw.permissions) join (
            Means-Says libs trim_law voice_join a.raw.permissions c.permissions a.claims.permitted);
      identified = id;
    }

-- A client that a token lets in came with a token that Validate should accept, with the
-- validator's signature, issuer and audience and not expired, whose permissions say that
-- voice.join is granted, and the client has the identity of its claims. A second trim changes
-- nothing.
pub token_log_in :
    (libs : Libs) (trim_law : IsTrim libs.trim) (v : Validator) (tokens : List Name)
    (client : Client) (auth : Authenticate)
    → (token_authenticate client auth
        (authenticate libs false (some v) (text_of auth.password) tokens)).1
      ≡ authenticated
    → IsEntitled libs trim_law v
        (voice_token libs (text_of auth.password) tokens)
        (token_authenticate client auth
          (authenticate libs false (some v) (text_of auth.password) tokens)).0
unfolding authenticate
token_log_in libs trim_law v tokens client auth h =
    entitled libs trim_law v (voice_token libs (text_of auth.password) tokens) client auth h
