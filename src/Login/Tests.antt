-- ===== src/Login/Tests.antt =====
-- Concrete users, certificates and passwords.
use grumble.Common.{true, false, [], ◌∷◌, none, some, ◌≡◌, refl, ◌⊎◌}
use grumble.Common.Names.{Name, same_name}
use grumble.Voice.{UserIdentity}
use grumble.Login.{
  User, Client, Authenticate, Server, authenticated, superuser, legacy_authenticate,
  token_authenticate, result,
}
use grumble.Login.Legacy.{
  Justified, by_own_certificate, legacy_authenticate-Justified, legacy_authenticate-Entitled,
}
use grumble.Login.Token.{IsLetIn, IsTurnedAway, token_authenticate_outcome}

abbrev carol : Name
carol = b'c' ∷ []

abbrev hash : Name
hash = 1 ∷ 2 ∷ []

abbrev user : User
user = record { id = 5; cert_hash = hash }

abbrev server : Server
server = record {
  user_name_map = (carol, user) ∷ (superuser, record { id = 0; cert_hash = [] }) ∷ [];
  user_cert_map = (hash, user) ∷ [];
  has_server_password = true;
  check_superuser_password = same_name (b's' ∷ []);
  check_server_password = same_name (b'p' ∷ []);
}

abbrev client : Client
client = record { username = []; user = none; cert_hash = hash; identity = none }

abbrev as_carol : Authenticate
as_carol = record { username = some carol; password = none }

legacy_authenticate-Justified_example :
    Justified server carol hash none (legacy_authenticate server client as_carol)
legacy_authenticate-Justified_example = legacy_authenticate-Justified server client as_carol refl

legacy_authenticate-Entitled_example :
    legacy_authenticate server client as_carol
    ≡ (record client { username = carol; user = some user }, authenticated)
legacy_authenticate-Entitled_example =
    legacy_authenticate-Entitled server client as_carol user refl
      (by_own_certificate refl refl refl refl)

abbrev identity : UserIdentity
identity = record {
  user_id = carol;
  display_name = [];
  team_id = [];
  board_id = [];
  permissions = record {
    join_voice = true;
    publish_audio = true;
    receive_audio = true;
    moderate_voice = false;
    presented = [];
  };
}

token_authenticate_outcome_example :
    IsLetIn (some identity) (token_authenticate client as_carol (result (some identity)))
    ⊎ IsTurnedAway
        (some identity)
        client
        (token_authenticate client as_carol (result (some identity)))
token_authenticate_outcome_example =
    token_authenticate_outcome client as_carol (result (some identity)) refl
