-- ===== src/Bans/Expiry.antt =====
-- Expired bans: removing them changes no decision, now or later.
use grumble.Common.{ℕ, ◌≤◌, ◌≡◌, refl, true, List, [], ◌∷◌, arith, Bool-cases, inl, inr}
use grumble.Common.Names.{Name}
use grumble.Bans.{
  Ban, is_expired, unexpired, some_expired, remove_expired_bans, is_connection_banned,
  is_cert_hash_banned,
}

-- A ban that has expired stays so.
still_expired :
    (now later : ℕ) (ban : Ban)
    → now ≤ later
    → is_expired now ban ≡ true
    → is_expired later ban ≡ true
unfolding is_expired
still_expired now later ban l h = ground arith

unexpired-connection :
    (now later : ℕ) (ip : List ℕ) (bans : List Ban)
    → now ≤ later
    → is_connection_banned later ip (unexpired now bans) ≡ is_connection_banned later ip bans
unfolding unexpired is_connection_banned
unexpired-connection now later ip [] l = refl
unexpired-connection now later ip (ban ∷ bans) l = elim (Bool-cases (is_expired now ban)) [
  | inl e ↦
      ground (arith, unexpired-connection now later ip bans l, still_expired now later ban l e)
  | inr e ↦ ground (arith, unexpired-connection now later ip bans l)
]

unexpired-cert_hash :
    (now later : ℕ) (hash : Name) (bans : List Ban)
    → now ≤ later
    → is_cert_hash_banned later hash (unexpired now bans) ≡ is_cert_hash_banned later hash bans
unfolding unexpired is_cert_hash_banned
unexpired-cert_hash now later hash [] l = refl
unexpired-cert_hash now later hash (ban ∷ bans) l = elim (Bool-cases (is_expired now ban)) [
  | inl e ↦
      ground (arith, unexpired-cert_hash now later hash bans l, still_expired now later ban l e)
  | inr e ↦ ground (arith, unexpired-cert_hash now later hash bans l)
]

-- RemoveExpiredBans changes no later decision: the same addresses and the same certificates are
-- banned at every time from then on.
pub same_decisions :
    (now later : ℕ) (ip : List ℕ) (hash : Name) (bans : List Ban)
    → now ≤ later
    → (is_connection_banned later ip (remove_expired_bans now bans)
        ≡ is_connection_banned later ip bans)
      × (is_cert_hash_banned later hash (remove_expired_bans now bans)
          ≡ is_cert_hash_banned later hash bans)
unfolding remove_expired_bans
same_decisions now later ip hash bans l = elim (Bool-cases (some_expired now bans)) [
  | inl e ↦
      rw e (unexpired-connection now later ip bans l, unexpired-cert_hash now later hash bans l)
  | inr e ↦ rw e (refl, refl)
]
