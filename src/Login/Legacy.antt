-- ===== src/Login/Legacy.antt =====
-- The legacy log-in (handleLegacyAuthenticate): as whom a client comes in, and what he needed.
use grumble.Common.{
  Bool, true, false, not, ◌&&◌, ◌||◌, Option, none, some, ◌≡◌, refl, ap, arith, if◌then◌else◌,
}
use grumble.Common.Names.{Name, same_name, is_empty, lookup, both_on}
use grumble.Login.{
  User, Client, Authenticate, Server, Answer, authenticated, rejected, superuser, has_certificate,
  text_of, login_superuser, RejectType, Reason, invalid_username, invalid_superuser_mapping,
  wrong_user_pw, wrong_superuser_password, wrong_server_pw, wrong_server_password,
  wrong_certificate_hash, login_by_certificate, login_by_name, check_password, legacy_authenticate,
}

-- What entitles a client with that name, certificate and password to be the user.
pub data Entitled (server : Server) (name cert_hash : Name) (password : Option Name) (user : User)
    : Type 0 where
  by_superuser_password :
      (p : Name)
      → password ≡ some p
      → server.check_superuser_password p ≡ true
      → same_name name superuser ≡ true
      → lookup name server.user_name_map ≡ some user
      → Entitled server name cert_hash password user
  by_own_certificate :
      is_empty cert_hash ≡ false
      → same_name user.cert_hash cert_hash ≡ true
      → same_name name superuser ≡ false
      → lookup name server.user_name_map ≡ some user
      → Entitled server name cert_hash password user
  by_known_certificate :
      is_empty cert_hash ≡ false
      → same_name name superuser ≡ false
      → lookup name server.user_name_map ≡ none
      → lookup cert_hash server.user_cert_map ≡ some user
      → Entitled server name cert_hash password user

-- Without a registered user, the password of the server, where it has one.
abbrev pub is_let_in : Server → Option Name → Bool
is_let_in server none = not server.has_server_password
is_let_in server (some p) = not server.has_server_password || server.check_server_password p

-- What the handler owes for its answer, to a client with that name, certificate and password.
pub data Justified (server : Server) (name cert_hash : Name) (password : Option Name)
    : Client × Answer → Type 0 where
  as_user :
      (after : Client) (user : User)
      → after.user ≡ some user
      → Entitled server name cert_hash password user
      → Justified server name cert_hash password (after, authenticated)
  as_guest :
      (after : Client)
      → after.user ≡ none
      → same_name name superuser ≡ false
      → lookup name server.user_name_map ≡ none
      → is_let_in server password ≡ true
      → Justified server name cert_hash password (after, authenticated)
  not_let_in :
      (after : Client) (t : RejectType) (r : Reason)
      → Justified server name cert_hash password (after, rejected t r)

superuser-Justified :
    (server : Server) (client : Client) (password : Option Name)
    → same_name client.username superuser ≡ true
    → Justified server client.username client.cert_hash password
        (check_password server password (login_superuser server client password))
unfolding login_superuser check_password
superuser-Justified server client none n = not_let_in _ _ _
superuser-Justified server client (some p) n =
    go (server.check_superuser_password p) (lookup client.username server.user_name_map) refl refl
  where
    go :
        (c : Bool) (found : Option User)
        → server.check_superuser_password p ≡ c
        → lookup client.username server.user_name_map ≡ found
        → Justified server client.username client.cert_hash (some p) (
            check_password server (some p) (
              if c
              then elim found as (λ _. Client × Answer) [
                | some user ↦ (record client { user = some user }, authenticated)
                | none ↦ (
                  record client { user = none },
                  rejected invalid_username invalid_superuser_mapping,
                )
              ]
              else (client, rejected wrong_user_pw wrong_superuser_password)))
    go false found h m = not_let_in _ _ _
    go true none h m = not_let_in _ _ _
    go true (some u) h m =
        as_user (record client { user = some u }) u refl (by_superuser_password p refl h n m)

-- The password of the server, for a client that is no registered user.
guest-Justified :
    (server : Server) (client : Client) (password : Option Name)
    → client.user ≡ none
    → same_name client.username superuser ≡ false
    → lookup client.username server.user_name_map ≡ none
    → Justified server client.username client.cert_hash password
        (check_password server password (client, authenticated))
unfolding check_password
guest-Justified server client password u n m =
    go client.user server.has_server_password password u refl
  where
    go :
        (user : Option User) (has : Bool) (q : Option Name)
        → user ≡ none
        → server.has_server_password ≡ has
        → Justified server client.username client.cert_hash q (elim user as (λ _. Client × Answer) [
          | some user ↦ (client, authenticated)
          | none ↦ if not has then (client, authenticated) else elim q as (λ _. Client × Answer) [
            | none ↦ (client, rejected wrong_server_pw wrong_server_password)
            | some p ↦
                if server.check_server_password p
                then (client, authenticated)
                else (client, rejected wrong_server_pw wrong_server_password)
          ]
        ])
    go (some user) has q e h = absurd (cc e)
    go none false none e h = as_guest client u n m (rw h refl)
    go none false (some p) e h = as_guest client u n m (ground arith)
    go none true none e h = not_let_in _ _ _
    go none true (some p) e h = secured p (server.check_server_password p) refl
      where
        secured :
            (p : Name) (c : Bool)
            → server.check_server_password p ≡ c
            → Justified server client.username client.cert_hash (some p) (
                if c
                then (client, authenticated)
                else (client, rejected wrong_server_pw wrong_server_password))
        secured p true d = as_guest client u n m (ground arith)
        secured p false d = not_let_in _ _ _

not-false : (b : Bool) → not b ≡ true → b ≡ false
not-false b h = ground arith

-- A name that no registered user has: the certificate may still be known.
certificate-Justified :
    (server : Server) (client : Client) (password : Option Name)
    → client.user ≡ none
    → same_name client.username superuser ≡ false
    → lookup client.username server.user_name_map ≡ none
    → Justified server client.username client.cert_hash password
        (check_password server password (login_by_certificate server client, authenticated))
unfolding login_by_certificate check_password
certificate-Justified server client password u n m =
    go client.user (is_empty client.cert_hash) (lookup client.cert_hash server.user_cert_map) u refl
      refl
  where
    go :
        (user : Option User) (empty : Bool) (known : Option User)
        → user ≡ none
        → is_empty client.cert_hash ≡ empty
        → lookup client.cert_hash server.user_cert_map ≡ known
        → Justified server client.username client.cert_hash password (
            check_password server password (
              elim user as (λ _. Client) [
                | some user ↦ client
                | none ↦
                    if not empty
                    then elim known as (λ _. Client) [
                      | some user ↦ record client { user = some user }
                      | none ↦ client
                    ]
                    else client
              ],
              authenticated,
            ))
    go (some user) empty known e c k = absurd (cc e)
    go none true known e c k = guest-Justified server client password u n m
    go none false none e c k = guest-Justified server client password u n m
    go none false (some user) e c k =
        as_user (record client { user = some user }) user refl (by_known_certificate c n m k)

name-Justified :
    (server : Server) (client : Client) (password : Option Name)
    → client.user ≡ none
    → same_name client.username superuser ≡ false
    → Justified server client.username client.cert_hash password
        (check_password server password (login_by_name server client))
unfolding login_by_name login_by_certificate check_password
name-Justified server client password u n = go (lookup client.username server.user_name_map) refl
  where
    go :
        (found : Option User)
        → lookup client.username server.user_name_map ≡ found
        → Justified server client.username client.cert_hash password (
            check_password server password (elim found as (λ _. Client × Answer) [
              | some user ↦
                  if has_certificate client && same_name user.cert_hash client.cert_hash
                  then (
                    login_by_certificate server (record client { user = some user }),
                    authenticated,
                  )
                  else (client, rejected wrong_user_pw wrong_certificate_hash)
              | none ↦ (login_by_certificate server client, authenticated)
            ]))
    go none m = certificate-Justified server client password u n m
    go (some user) m =
        own user m (has_certificate client && same_name user.cert_hash client.cert_hash) refl
      where
        own :
            (user : User)
            → lookup client.username server.user_name_map ≡ some user
            → (c : Bool) → (has_certificate client && same_name user.cert_hash client.cert_hash) ≡ c
            → Justified server client.username client.cert_hash password (
                check_password server password (
                  if c
                  then (
                    login_by_certificate server (record client { user = some user }),
                    authenticated,
                  )
                  else (client, rejected wrong_user_pw wrong_certificate_hash)))
        own user m false d = not_let_in _ _ _
        own user m true d =
            let q =
              both_on (has_certificate client) (same_name user.cert_hash client.cert_hash) d in
            as_user (record client { user = some user }) user refl
              (by_own_certificate (not-false (is_empty client.cert_hash) q.0) q.1 n m)

-- Whoever the legacy log-in lets in is justified: as a registered user, with the super user's
-- password under his name, with the user's own certificate under the user's name, or with a
-- certificate that is known under a name that no user has; or as a guest, under a name that no
-- user has and that is not the super user's, with the server's password where it has one. The
-- client has no user before.
pub legacy_authenticate-Justified :
    (server : Server) (client : Client) (auth : Authenticate)
    → client.user ≡ none
    → Justified server
        (text_of auth.username)
        client.cert_hash
        auth.password
        (legacy_authenticate server client auth)
unfolding legacy_authenticate
legacy_authenticate-Justified server client auth u =
    go (same_name (text_of auth.username) superuser) refl
  where
    named : Client
    named = record client { username = text_of auth.username }

    go :
        (s : Bool)
        → same_name (text_of auth.username) superuser ≡ s
        → Justified server (text_of auth.username) client.cert_hash auth.password (
            check_password server auth.password (
              if s then login_superuser server named auth.password else login_by_name server named))
    go true n = superuser-Justified server named auth.password n
    go false n = name-Justified server named auth.password u n

-- The branch that an entitled user takes.
Entitled-branch :
    (server : Server) (client : Client) (password : Option Name) (user : User)
    → client.user ≡ none
    → Entitled server client.username client.cert_hash password user
    → (if same_name client.username superuser
        then login_superuser server client password
        else login_by_name server client)
      ≡ (record client { user = some user }, authenticated)
unfolding login_superuser login_by_name login_by_certificate
Entitled-branch server client password user u (by_superuser_password p e c n m) =
    rw (n, e, login_superuser, c, m) refl
Entitled-branch server client password user u (by_own_certificate c h n m) =
    rw (n, login_by_name, m, c, h, login_by_certificate) refl
Entitled-branch server client password user u (by_known_certificate c n m k) =
    rw (n, login_by_name, m, login_by_certificate, u, c, k) refl

-- Whoever is entitled to be a registered user is let in as that user, whatever the password of the
-- server. The client has no user before.
pub legacy_authenticate-Entitled :
    (server : Server) (client : Client) (auth : Authenticate) (user : User)
    → client.user ≡ none
    → Entitled server (text_of auth.username) client.cert_hash auth.password user
    → legacy_authenticate server client auth
      ≡ (record client { username = text_of auth.username; user = some user }, authenticated)
unfolding legacy_authenticate check_password
legacy_authenticate-Entitled server client auth user u h =
    ap (check_password server auth.password) (
      Entitled-branch server (record client { username = text_of auth.username }) auth.password user
        u h)
