-- ===== src/Module/Setup.antt =====
-- src/lib.rs: the upstream zones that module initialization registers.
use ngx_vts.Prelude.{Bytes, codes, [], ◌∷◌, false, ◌≡◌, refl, eqb}
use ngx_vts.HashMap
use ngx_vts.UpstreamStats.{
  UpstreamServerStats, UpstreamZone, no_buckets, new_server, new_zone, status_class, count_buckets,
}
use ngx_vts.Manager
use ngx_vts.Manager.{VtsStatsManager}
use ngx_vts.Shm.Init.{ReturnCode, ngx_ok}
use ngx_vts.Shm.Table.{RbTreeMap}
use ngx_vts.Module.{Globals}

abbrev pub backend : Bytes
backend = codes "backend"

abbrev pub backend_addr : Bytes
backend_addr = codes "127.0.0.1:8080"

-- The seed call leaves no residue in the counters that it touched.
abbrev reset : UpstreamServerStats → UpstreamServerStats
reset s = record s {
  down = false;
  request_counter = 0;
  in_bytes = 0;
  out_bytes = 0;
  request_time_total = 0;
  request_time_counter = 0;
  response_time_total = 0;
  response_time_counter = 0;
  response_buckets = no_buckets;
}

-- The changes to the manager: clear, register the zone by a seed call, reset its server.
unfoldable pub initialize_manager : VtsStatsManager → VtsStatsManager
initialize_manager m =
    let cleared : VtsStatsManager = record m { stats = []; upstream_zones = [] } in
    let seeded : VtsStatsManager =
      Manager.update_upstream_stats cleared backend backend_addr 0 0 0 0 0 in
    record seeded {
      upstream_zones = HashMap.modify seeded.upstream_zones backend (λ (z : UpstreamZone).
          record z { servers = HashMap.modify z.servers backend_addr reset });
    }

module _ (R : RbTreeMap) where
  unfoldable pub initialize_upstream_zones_from_config : Globals R → Globals R
  unfolding initialize_manager
  initialize_upstream_zones_from_config g = record g {
    vts_manager = initialize_manager g.vts_manager;
  }

  -- The initialization never fails.
  unfoldable pub ngx_http_vts_init_rust_module : Globals R → Globals R × ReturnCode
  unfolding initialize_upstream_zones_from_config
  ngx_http_vts_init_rust_module g = (initialize_upstream_zones_from_config g, ngx_ok)

-- Initialization leaves one zone with one server, whose statistics are those of a new server: the
-- seed call leaves no trace. It clears the server zones and keeps the connection counts.
pub initialize_manager_lem :
    (m : VtsStatsManager)
    → initialize_manager m ≡ record {
      stats = [];
      upstream_zones =
          (
            backend,
            record { name = backend; servers = (backend_addr, new_server backend_addr) ∷ [] },
          )
          ∷ [];
      connections = m.connections;
    }
unfolding initialize_manager Manager.update_upstream_stats HashMap.modify HashMap.or_insert eqb
    new_server Manager.record_in_zone Manager.record_request new_zone status_class count_buckets
initialize_manager_lem m = refl
