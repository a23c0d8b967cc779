-- ===== src/Connections/Tests.antt =====
-- Two hosts, with room for three connections and two of each host.
use grumble.Common.{suc, ◌≡◌, refl, true, false, [], ◌∷◌, arith}
use grumble.Common.Names.{Name}
use grumble.Connections.{
  RuntimeConfig, Connections, no_connections, count, reserve_connection, release_ip,
  release_reserved_connection, handshake_failed,
}
use grumble.Connections.Balance.{
  IsCounted, Reaches, started, reserving, releasing, releasing_again, Reaches-IsCounted,
  Reaches-IsBalanced, handshake_failed_total,
}

abbrev cfg : RuntimeConfig
cfg = record { teamlancer_mode = true; max_connections = 3; max_connections_per_ip = 2 }

abbrev host_a : Name
host_a = b'a' ∷ []

abbrev host_b : Name
host_b = b'b' ∷ []

abbrev one_a : Connections
one_a = record { total = 1; ip_conns = (host_a, 1) ∷ [] }

abbrev both_hosts : Connections
both_hosts = record { total = 2; ip_conns = (host_b, 1) ∷ (host_a, 1) ∷ [] }

both_hosts-Reaches : Reaches cfg 0 (host_b ∷ host_a ∷ []) both_hosts
unfolding reserve_connection count
both_hosts-Reaches =
    reserving 0 host_b (host_a ∷ []) one_a both_hosts
      (reserving 0 host_a [] no_connections one_a started refl) refl

limit_of_a :
    reserve_connection cfg host_a (record { total = 2; ip_conns = (host_a, 2) ∷ [] })
    ≡ (false, record { total = 2; ip_conns = (host_a, 2) ∷ [] })
unfolding reserve_connection count
limit_of_a = refl

last_released : release_reserved_connection cfg host_a one_a ≡ no_connections
unfolding release_reserved_connection release_ip count
last_released = refl

-- The second host's handshake fails, and is released twice.
abbrev failed_b : Connections
failed_b =
    release_reserved_connection cfg host_b (release_reserved_connection cfg host_b both_hosts)

failed_b-Reaches : Reaches cfg 1 (host_a ∷ []) failed_b
failed_b-Reaches =
    releasing_again 0 host_b (host_a ∷ []) (release_reserved_connection cfg host_b both_hosts)
      (releasing 0 host_b (host_b ∷ host_a ∷ []) both_hosts both_hosts-Reaches (omega arith))

Reaches-IsCounted_example : IsCounted cfg 1 (host_a ∷ []) failed_b
Reaches-IsCounted_example = Reaches-IsCounted cfg 1 (host_a ∷ []) failed_b refl failed_b-Reaches

handshake_failed_total_example : suc (handshake_failed cfg host_b both_hosts).total ≡ 1
handshake_failed_total_example =
    handshake_failed_total cfg host_b (host_a ∷ []) both_hosts refl
      (Reaches-IsBalanced cfg (host_b ∷ host_a ∷ []) both_hosts refl both_hosts-Reaches) refl
      (omega arith)
