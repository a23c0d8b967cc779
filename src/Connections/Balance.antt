-- ===== src/Connections/Balance.antt =====
-- The counters against the connections that are open.
use grumble.Common.{
  ℕ, suc, ◌+◌, ◌≤◌, ◌<◌, ◌≡◌, refl, subst, true, false, List, [], ◌∷◌, leb, arith, length,
  Bool-cases, inl, inr,
}
use grumble.Common.Names.{Name, put}
use grumble.Connections.{
  RuntimeConfig, Connections, no_connections, count, reserve_connection,
  release_reserved_connection, client_removed, handshake_failed,
}
use grumble.Connections.Counts.{
  occurrences, close_one, count_reserved, limited_more, length-close_one, count-release_ip,
  occurrences-close_one, count_less,
}

-- The open connections are counted, and are within both limits.
pub record IsBalanced (cfg : RuntimeConfig) (open_hosts : List Name) (st : Connections)
    : Type 0 where
  pub all : st.total ≡ length open_hosts
  pub each : (host : Name) → count host st.ip_conns ≡ occurrences host open_hosts
  pub within : st.total ≤ cfg.max_connections
  pub within_each : (host : Name) → count host st.ip_conns ≤ cfg.max_connections_per_ip

-- The counters where `extra` releases had no connection of their own: they are at most the open
-- connections, and fall short of them by `extra` at most, and both limits are kept.
pub record IsCounted (cfg : RuntimeConfig) (extra : ℕ) (open_hosts : List Name) (st : Connections)
    : Type 0 where
  pub at_most : st.total ≤ length open_hosts
  pub at_least : length open_hosts ≤ st.total + extra
  pub each_at_most : (host : Name) → count host st.ip_conns ≤ occurrences host open_hosts
  pub each_at_least : (host : Name) → occurrences host open_hosts ≤ count host st.ip_conns + extra
  pub within : st.total ≤ cfg.max_connections
  pub within_each : (host : Name) → count host st.ip_conns ≤ cfg.max_connections_per_ip

-- The states of the counters, with the number of releases that had no connection of their own, as
-- the second one of a failed handshake, and the open connections.
pub data Reaches (cfg : RuntimeConfig) : ℕ → List Name → Connections → Type 0 where
  started : Reaches cfg 0 [] no_connections
  reserving :
      (extra : ℕ) (host : Name) (hosts : List Name) (st next : Connections)
      → Reaches cfg extra hosts st
      → reserve_connection cfg host st ≡ (true, next)
      → Reaches cfg extra (host ∷ hosts) next
  refusing :
      (extra : ℕ) (host : Name) (hosts : List Name) (st next : Connections)
      → Reaches cfg extra hosts st
      → reserve_connection cfg host st ≡ (false, next)
      → Reaches cfg extra hosts next
  releasing :
      (extra : ℕ) (host : Name) (hosts : List Name) (st : Connections)
      → Reaches cfg extra hosts st
      → 0 < occurrences host hosts
      → Reaches cfg extra (close_one host hosts) (release_reserved_connection cfg host st)
  releasing_again :
      (extra : ℕ) (host : Name) (hosts : List Name) (st : Connections)
      → Reaches cfg extra hosts st
      → Reaches cfg (suc extra) hosts (release_reserved_connection cfg host st)

reserved-IsCounted :
    (cfg : RuntimeConfig) (extra : ℕ) (host : Name) (hosts : List Name) (st next : Connections)
    → cfg.teamlancer_mode ≡ true
    → IsCounted cfg extra hosts st
    → reserve_connection cfg host st ≡ (true, next)
    → IsCounted cfg extra (host ∷ hosts) next
unfolding reserve_connection
reserved-IsCounted cfg extra host hosts st next on b h =
    elim (Bool-cases (leb cfg.max_connections st.total)) [
      | inl full ↦ absurd (cc (rw (reserve_connection, on, full) at h))
      | inr room ↦ elim (Bool-cases (leb cfg.max_connections_per_ip (count host st.ip_conns))) [
        | inl full ↦ absurd (cc (rw (reserve_connection, on, room, full) at h))
        | inr room_ip ↦
            let e : record {
              total = st.total + 1;
              ip_conns = put host (count host st.ip_conns + 1) st.ip_conns;
            }
                ≡ next =
              cc (rw (reserve_connection, on, room, room_ip) at h) in
            subst (IsCounted cfg extra (host ∷ hosts)) e (record {
              at_most = omega (arith, b.at_most);
              at_least = omega (arith, b.at_least);
              each_at_most =
                  λ x. rw (count_reserved host x st.ip_conns) (omega (arith, b.each_at_most x));
              each_at_least =
                  λ x. rw (count_reserved host x st.ip_conns) (omega (arith, b.each_at_least x));
              within = ground (arith, b.within);
              within_each = λ x.
                  limited_more host x cfg.max_connections_per_ip st.ip_conns b.within_each room_ip;
            })
      ]
    ]

released-IsCounted :
    (cfg : RuntimeConfig) (extra : ℕ) (host : Name) (hosts : List Name) (st : Connections)
    → cfg.teamlancer_mode ≡ true
    → IsCounted cfg extra hosts st
    → 0 < occurrences host hosts
    → IsCounted cfg extra (close_one host hosts) (release_reserved_connection cfg host st)
unfolding release_reserved_connection
released-IsCounted cfg extra host hosts st on b l =
    let n = length-close_one host hosts l in
    rw (release_reserved_connection, on)
      (record {
        at_most = ground (arith, b.at_most);
        at_least = ground (arith, b.at_least);
        each_at_most = λ x.
            rw (count-release_ip host x st.ip_conns, occurrences-close_one host x hosts)
              (ground (arith, b.each_at_most x));
        each_at_least = λ x.
            rw (count-release_ip host x st.ip_conns, occurrences-close_one host x hosts)
              (ground (arith, b.each_at_least x));
        within = ground (arith, b.within);
        within_each =
            λ x. count_less host x cfg.max_connections_per_ip st.ip_conns (b.within_each x);
      })

released_again-IsCounted :
    (cfg : RuntimeConfig) (extra : ℕ) (host : Name) (hosts : List Name) (st : Connections)
    → cfg.teamlancer_mode ≡ true
    → IsCounted cfg extra hosts st
    → IsCounted cfg (suc extra) hosts (release_reserved_connection cfg host st)
unfolding release_reserved_connection
released_again-IsCounted cfg extra host hosts st on b =
    rw (release_reserved_connection, on)
      (record {
        at_most = ground (arith, b.at_most);
        at_least = ground (arith, b.at_least);
        each_at_most = λ x. count_less host x (occurrences x hosts) st.ip_conns (b.each_at_most x);
        each_at_least =
            λ x. rw (count-release_ip host x st.ip_conns) (ground (arith, b.each_at_least x));
        within = ground (arith, b.within);
        within_each =
            λ x. count_less host x cfg.max_connections_per_ip st.ip_conns (b.within_each x);
      })

refused_same :
    (cfg : RuntimeConfig) (host : Name) (st next : Connections)
    → reserve_connection cfg host st ≡ (false, next)
    → st ≡ next
unfolding reserve_connection
refused_same cfg host st next h = elim (Bool-cases cfg.teamlancer_mode) [
  | inr off ↦ absurd (cc (rw (reserve_connection, off) at h))
  | inl on ↦ elim (Bool-cases (leb cfg.max_connections st.total)) [
    | inl full ↦ cc (rw (reserve_connection, on, full) at h)
    | inr room ↦ elim (Bool-cases (leb cfg.max_connections_per_ip (count host st.ip_conns))) [
      | inl full ↦ cc (rw (reserve_connection, on, room, full) at h)
      | inr room_ip ↦ absurd (cc (rw (reserve_connection, on, room, room_ip) at h))
    ]
  ]
]

-- However connections are reserved, refused and released in Teamlancer mode, with any number of
-- releases that have no connection of their own: the counters, in all and of each host, are at most
-- the open connections and fall short of them by no more than those releases, and both counters
-- keep their limits.
pub Reaches-IsCounted :
    (cfg : RuntimeConfig) (extra : ℕ) (hosts : List Name) (st : Connections)
    → cfg.teamlancer_mode ≡ true
    → Reaches cfg extra hosts st
    → IsCounted cfg extra hosts st
unfolding count
Reaches-IsCounted cfg _ _ _ on started = record {
  at_most = omega arith;
  at_least = omega arith;
  each_at_most = λ h. ground (arith, nothing_open h);
  each_at_least = λ h. ground (arith, nothing_open h);
  within = omega arith;
  within_each = λ h. ground (arith, nothing_open h);
}
  where
    nothing_open : (h : Name) → count h [] ≡ 0
    nothing_open h = refl
Reaches-IsCounted cfg _ _ _ on (reserving extra host hosts st next r h) =
    reserved-IsCounted cfg extra host hosts st next on (Reaches-IsCounted cfg extra hosts st on r) h
Reaches-IsCounted cfg _ _ _ on (refusing extra host hosts st next r h) =
    subst (IsCounted cfg extra hosts) (refused_same cfg host st next h)
      (Reaches-IsCounted cfg extra hosts st on r)
Reaches-IsCounted cfg _ _ _ on (releasing extra host hosts st r l) =
    released-IsCounted cfg extra host hosts st on (Reaches-IsCounted cfg extra hosts st on r) l
Reaches-IsCounted cfg _ _ _ on (releasing_again extra host hosts st r) =
    released_again-IsCounted cfg extra host hosts st on (Reaches-IsCounted cfg extra hosts st on r)

pub Reaches-IsBalanced :
    (cfg : RuntimeConfig) (hosts : List Name) (st : Connections)
    → cfg.teamlancer_mode ≡ true
    → Reaches cfg 0 hosts st
    → IsBalanced cfg hosts st
Reaches-IsBalanced cfg hosts st on r =
    let b = Reaches-IsCounted cfg 0 hosts st on r in
    record {
      all = omega (arith, b.at_most, b.at_least);
      each = λ x. omega (arith, b.each_at_most x, b.each_at_least x);
      within = b.within;
      within_each = b.within_each;
    }

-- A handshake that fails on a host with no other connection, while connections of other hosts are
-- open: the counter says one less than there are.
pub handshake_failed_total :
    (cfg : RuntimeConfig) (host : Name) (hosts : List Name) (st : Connections)
    → cfg.teamlancer_mode ≡ true
    → IsBalanced cfg (host ∷ hosts) st
    → occurrences host hosts ≡ 0
    → 0 < length hosts
    → suc (handshake_failed cfg host st).total ≡ length hosts
unfolding handshake_failed client_removed release_reserved_connection
handshake_failed_total cfg host hosts st on b new others =
    rw (handshake_failed, client_removed, release_reserved_connection, on) (ground (arith, b.all))
