-- ===== src/Bans.antt =====
-- pkg/ban/ban.go, and the bans of a server: RemoveExpiredBans, IsConnectionBanned and
-- IsCertHashBanned of cmd/grumble/server.go.
pub mod Masks
pub mod Expiry
pub mod Tests
use grumble.Common.{
  ℕ, zero, suc, ◌+◌, ◌-◌, ◌^◌, bit_and, Bool, true, false, not, ◌&&◌, ◌||◌, List, [], ◌∷◌, ltb,
  ◌==◌, if◌then◌else◌, length, take, drop,
}
use grumble.Common.Names.{Name, same_name}

-- Bytes of an address; times in seconds.
pub record Ban : Type 0 where
  pub ip : List ℕ
  pub mask : ℕ
  pub cert_hash : Name
  pub start : ℕ
  pub duration : ℕ

-- `IPMask`, of so many bytes. The rest of the bits stops at 0 where the source goes below.
unfoldable pub mask_bytes : ℕ → ℕ → List ℕ
mask_bytes zero allbits = []
mask_bytes (suc n) allbits =
    let rest = mask_bytes n (allbits - 8) in
    if ltb 0 allbits
    then (let bits = (if ltb 8 allbits then 8 else allbits) in (2 ^ bits - 1) ∷ rest)
    else 0 ∷ rest

unfoldable pub ip_mask : Ban → List ℕ
ip_mask ban = mask_bytes 16 ban.mask

abbrev pub v4_in_v6 : List ℕ
v4_in_v6 = 0 ∷ 0 ∷ 0 ∷ 0 ∷ 0 ∷ 0 ∷ 0 ∷ 0 ∷ 0 ∷ 0 ∷ 255 ∷ 255 ∷ []

abbrev pub all_ff : List ℕ → Bool
all_ff [] = true
all_ff (b ∷ bs) = (b == 255) && all_ff bs

unfoldable pub and_bytes : List ℕ → List ℕ → List ℕ
and_bytes (a ∷ xs) (b ∷ ys) = bit_and a b ∷ and_bytes xs ys
and_bytes _ _ = []

-- `net.IP.Mask`; nil is the empty list.
unfoldable pub masked : List ℕ → List ℕ → List ℕ
masked ip mask =
    let mask' =
      if (length mask == 16) && ((length ip == 4) && all_ff (take 12 mask))
      then drop 12 mask
      else mask in
    let ip' =
      if (length mask' == 4) && ((length ip == 16) && same_name (take 12 ip) v4_in_v6)
      then drop 12 ip
      else ip in
    if length ip' == length mask' then and_bytes ip' mask' else []

-- `net.IP.Equal`
unfoldable pub equal_ip : List ℕ → List ℕ → Bool
equal_ip a b =
    if length a == length b
    then same_name a b
    else if (length a == 4) && (length b == 16)
    then same_name (take 12 b) v4_in_v6 && same_name a (drop 12 b)
    else if (length a == 16) && (length b == 4)
    then same_name (take 12 a) v4_in_v6 && same_name (drop 12 a) b
    else false

-- `Match`
unfoldable pub match_ip : Ban → List ℕ → Bool
match_ip ban ip = equal_ip (masked ban.ip (ip_mask ban)) (masked ip (ip_mask ban))

-- `IsExpired`, at a time.
unfoldable pub is_expired : ℕ → Ban → Bool
is_expired now ban = if ban.duration == 0 then false else ltb (ban.start + ban.duration) now

-- The loop of RemoveExpiredBans: the bans that stay, and whether one goes.
unfoldable pub unexpired : ℕ → List Ban → List Ban
unexpired now [] = []
unexpired now (ban ∷ bans) =
    let rest = unexpired now bans in if not (is_expired now ban) then ban ∷ rest else rest

unfoldable pub some_expired : ℕ → List Ban → Bool
some_expired now [] = false
some_expired now (ban ∷ bans) = is_expired now ban || some_expired now bans

-- `RemoveExpiredBans`, without the copy on disk.
unfoldable pub remove_expired_bans : ℕ → List Ban → List Ban
remove_expired_bans now bans = if some_expired now bans then unexpired now bans else bans

-- `IsConnectionBanned`
unfoldable pub is_connection_banned : ℕ → List ℕ → List Ban → Bool
is_connection_banned now ip [] = false
is_connection_banned now ip (ban ∷ bans) =
    (match_ip ban ip && not (is_expired now ban)) || is_connection_banned now ip bans

-- `IsCertHashBanned`
unfoldable pub is_cert_hash_banned : ℕ → Name → List Ban → Bool
is_cert_hash_banned now hash [] = false
is_cert_hash_banned now hash (ban ∷ bans) =
    (same_name ban.cert_hash hash && not (is_expired now ban)) || is_cert_hash_banned now hash bans
