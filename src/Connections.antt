-- ===== src/Connections.antt =====
-- The limits on connections: reserveConnection and releaseReservedConnection of
-- cmd/grumble/server.go, and the path of acceptLoop on which a client cannot be set up.
pub mod Counts
pub mod Balance
pub mod Tests
use grumble.Common.{
  ℕ, zero, suc, ◌+◌, ◌-◌, Bool, true, false, not, List, [], ◌∷◌, Option, none, some, ltb, leb, ◌==◌,
  if◌then◌else◌,
}
use grumble.Common.Names.{Name, lookup, delete, put}

-- The fields of the runtime configuration that are read, as they stand when it is valid.
pub record RuntimeConfig : Type 0 where
  pub teamlancer_mode : Bool
  pub max_connections : ℕ
  pub max_connections_per_ip : ℕ

-- `totalConns` and `ipConns`, by the host of an address.
pub record Connections : Type 0 where
  pub total : ℕ
  pub ip_conns : List (Name × ℕ)

abbrev pub no_connections : Connections
no_connections = record { total = 0; ip_conns = [] }

-- `ipConns[host]`
abbrev pub or_zero : Option ℕ → ℕ
or_zero none = 0
or_zero (some n) = n

unfoldable pub count : Name → List (Name × ℕ) → ℕ
count host conns = or_zero (lookup host conns)

unfoldable pub release_ip : Name → List (Name × ℕ) → List (Name × ℕ)
release_ip host conns =
    let n = count host conns in
    if ltb 0 n then (if n - 1 == 0 then delete host conns else put host (n - 1) conns) else conns

module _ (cfg : RuntimeConfig) (host : Name) where
  unfoldable pub reserve_connection : Connections → Bool × Connections
  reserve_connection st =
      if not cfg.teamlancer_mode
      then (true, st)
      else if leb cfg.max_connections st.total
      then (false, st)
      else if leb cfg.max_connections_per_ip (count host st.ip_conns)
      then (false, st)
      else (
        true,
        record {
          total = st.total + 1;
          ip_conns = put host (count host st.ip_conns + 1) st.ip_conns;
        },
      )

  unfoldable pub release_reserved_connection : Connections → Connections
  release_reserved_connection st = if not cfg.teamlancer_mode then st else record {
    total = if ltb 0 st.total then st.total - 1 else st.total;
    ip_conns = release_ip host st.ip_conns;
  }

  -- What RemoveClient does to the counters.
  unfoldable pub client_removed : Connections → Connections
  client_removed st = release_reserved_connection st

  -- A handshake that fails: Disconnect has come to RemoveClient, and then acceptLoop releases for
  -- the error of handleIncomingClient.
  unfoldable pub handshake_failed : Connections → Connections
  handshake_failed st = release_reserved_connection (client_removed st)
