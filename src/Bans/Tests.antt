-- ===== src/Bans/Tests.antt =====
-- Bans of addresses in 10.1.0.0.
use grumble.Common.{ℕ, ◌≡◌, refl, true, false, List, [], ◌∷◌, arith}
use grumble.Bans.{
  Ban, mask_bytes, ip_mask, and_bytes, masked, equal_ip, match_ip, is_expired, unexpired,
  some_expired, remove_expired_bans, is_connection_banned, is_cert_hash_banned,
}
use grumble.Bans.Masks.{agree, match_ip-agree}
use grumble.Bans.Expiry.{same_decisions}

-- An IPv4 address as sixteen bytes.
abbrev v4 : ℕ → ℕ → ℕ → ℕ → List ℕ
v4 a b c d = 0 ∷ 0 ∷ 0 ∷ 0 ∷ 0 ∷ 0 ∷ 0 ∷ 0 ∷ 0 ∷ 0 ∷ 255 ∷ 255 ∷ a ∷ b ∷ c ∷ d ∷ []

abbrev subnet : Ban
subnet = record { ip = v4 10 1 0 0; mask = 112; cert_hash = b'h' ∷ []; start = 100; duration = 50 }

-- A mask that ends in the middle of the last byte but two.
abbrev odd_subnet : Ban
odd_subnet = record subnet { mask = 108 }

in_subnet : match_ip subnet (v4 10 1 7 7) ≡ true
unfolding match_ip ip_mask mask_bytes masked and_bytes equal_ip
in_subnet = refl

-- 10.1 and 10.17 agree in the low four bits of their second bytes, and not in the high ones.
odd_subnet_far : match_ip odd_subnet (v4 10 17 7 7) ≡ true
unfolding match_ip ip_mask mask_bytes masked and_bytes equal_ip
odd_subnet_far = refl

odd_subnet_near : match_ip odd_subnet (v4 10 2 7 7) ≡ false
unfolding match_ip ip_mask mask_bytes masked and_bytes equal_ip
odd_subnet_near = refl

removed :
    remove_expired_bans 151 (subnet ∷ record subnet { duration = 0 } ∷ [])
    ≡ record subnet { duration = 0 } ∷ []
unfolding remove_expired_bans some_expired unexpired is_expired
removed = refl

match_ip-agree_example : match_ip odd_subnet (v4 10 17 7 7) ≡ agree 108 (v4 10 1 0 0) (v4 10 17 7 7)
match_ip-agree_example = match_ip-agree odd_subnet (v4 10 17 7 7) refl refl

same_decisions_example :
    (is_connection_banned 160 (v4 10 1 7 7) (remove_expired_bans 151 (subnet ∷ []))
      ≡ is_connection_banned 160 (v4 10 1 7 7) (subnet ∷ []))
    × (is_cert_hash_banned 160 (b'h' ∷ []) (remove_expired_bans 151 (subnet ∷ []))
        ≡ is_cert_hash_banned 160 (b'h' ∷ []) (subnet ∷ []))
same_decisions_example =
    same_decisions 151 160 (v4 10 1 7 7) (b'h' ∷ []) (subnet ∷ []) (omega arith)
