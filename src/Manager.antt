-- ===== src/Manager.antt =====
-- src/vts_node.rs: `VtsStatsManager`, the process-local store.
pub mod Laws
pub mod Counters
pub mod Invariant
pub mod Totals
use ngx_vts.Prelude.{ℕ, Bytes, Option, [], add64}
use ngx_vts.Float.{F64}
use ngx_vts.HashMap
use ngx_vts.HashMap.{HashMap}
use ngx_vts.Stats.{VtsConnectionStats, VtsServerStats}
use ngx_vts.UpstreamStats
use ngx_vts.UpstreamStats.{UpstreamZone, UpstreamServerStats}
use ngx_vts.Shm.Server
use ngx_vts.Shm.Server.{ServerCounters}

pub record VtsStatsManager : Type 0 where
  pub stats : HashMap ServerCounters
  pub upstream_zones : HashMap UpstreamZone
  pub connections : VtsConnectionStats

unfoldable pub new : VtsStatsManager
new = record {
  stats = [];
  upstream_zones = [];
  connections = record {
    active = 0;
    reading = 0;
    writing = 0;
    waiting = 0;
    accepted = 0;
    handled = 0;
  };
}

unfoldable pub update_server_stats : VtsStatsManager → Bytes → ℕ → ℕ → ℕ → ℕ → VtsStatsManager
update_server_stats m server_name status bytes_in bytes_out request_time = record m {
  stats =
      HashMap.modify (HashMap.or_insert m.stats server_name Server.new) server_name
        (λ c. Server.update c status bytes_in bytes_out request_time);
}

-- The updates that `update_upstream_stats` makes through `server_stats`.
unfoldable pub record_request : UpstreamServerStats → ℕ → ℕ → ℕ → ℕ → ℕ → UpstreamServerStats
unfolding UpstreamStats.update_response_status UpstreamStats.update_timing
record_request s request_time upstream_response_time bytes_sent bytes_received status_code =
    let counted : UpstreamServerStats = record s {
      request_counter = add64 s.request_counter 1;
      in_bytes = add64 s.in_bytes bytes_received;
      out_bytes = add64 s.out_bytes bytes_sent;
    } in
    UpstreamStats.update_timing (UpstreamStats.update_response_status counted status_code)
      request_time upstream_response_time

-- The changes of `update_upstream_stats` to the zone.
unfoldable pub record_in_zone : UpstreamZone → Bytes → ℕ → ℕ → ℕ → ℕ → ℕ → UpstreamZone
unfolding UpstreamStats.get_or_create_server
record_in_zone z upstream_addr request_time upstream_response_time bytes_sent bytes_received
      status_code =
    let created : UpstreamZone = UpstreamStats.get_or_create_server z upstream_addr in
    record created {
      servers = HashMap.modify created.servers upstream_addr (λ s.
          record_request s request_time upstream_response_time bytes_sent bytes_received
            status_code);
    }

unfoldable pub update_upstream_stats :
    VtsStatsManager → Bytes → Bytes → ℕ → ℕ → ℕ → ℕ → ℕ → VtsStatsManager
update_upstream_stats m upstream_name upstream_addr request_time upstream_response_time bytes_sent
      bytes_received status_code =
    record m {
      upstream_zones =
          HashMap.modify
            (HashMap.or_insert m.upstream_zones upstream_name
              (UpstreamStats.new_zone upstream_name))
            upstream_name
            (λ z.
              record_in_zone z upstream_addr request_time upstream_response_time bytes_sent
                bytes_received status_code);
    }

unfoldable pub get_upstream_zone : VtsStatsManager → Bytes → Option UpstreamZone
get_upstream_zone m upstream_name = HashMap.get m.upstream_zones upstream_name

unfoldable pub get_all_upstream_zones : VtsStatsManager → HashMap UpstreamZone
get_all_upstream_zones m = m.upstream_zones

-- `get_or_create_upstream_zone`, as the manager that it leaves.
unfoldable pub get_or_create_upstream_zone : VtsStatsManager → Bytes → VtsStatsManager
get_or_create_upstream_zone m upstream_name = record m {
  upstream_zones =
      HashMap.or_insert m.upstream_zones upstream_name (UpstreamStats.new_zone upstream_name);
}

unfoldable pub update_connection_stats : VtsStatsManager → ℕ → ℕ → ℕ → ℕ → ℕ → ℕ → VtsStatsManager
update_connection_stats m active reading writing waiting accepted handled = record m {
  connections = record {
    active = active;
    reading = reading;
    writing = writing;
    waiting = waiting;
    accepted = accepted;
    handled = handled;
  };
}

unfoldable pub get_connection_stats : VtsStatsManager → VtsConnectionStats
get_connection_stats m = m.connections

module _ (F : F64) where
  unfoldable pub get_all_server_stats : VtsStatsManager → HashMap (VtsServerStats F)
  get_all_server_stats m = HashMap.map_values (Server.into_stats F) m.stats
