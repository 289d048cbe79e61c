-- ===== src/Tests/Worker.antt =====
-- A worker's entry points, initialization and the connection counts.
use ngx_vts.Prelude.{
  ◌+◌, ◌*◌, sum_of, arith, Bytes, codes, true, false, none, some, List, [], ◌∷◌, ◌≡◌, ◌↔◌, refl,
  is_utf8, if◌then◌else◌, add64,
}
use ngx_vts.HashMap
use ngx_vts.ConnectionStats.{ConnectionStats, Process, read}
use ngx_vts.ConnectionStats.Laws.{IsCounter, read_iff}
use ngx_vts.CacheStats
use ngx_vts.CacheStats.{
  default_cache, total_requests, update_cache_status, update_zone_size, update_zone_status,
}
use ngx_vts.CacheStats.Totals.{is_status, total_requests-update_cache_status}
use ngx_vts.UpstreamStats
use ngx_vts.Manager
use ngx_vts.Manager.{VtsStatsManager}
use ngx_vts.Shm.Cache
use ngx_vts.Shm.Server.History.{Request}
use ngx_vts.Shm.Record.{shared, record_server, record_upstream, record_cache}
use ngx_vts.Shm.Init.{empty_shared}
use ngx_vts.Module.{
  Globals, Time, to_str_or, cache_status_str, calculate_request_time, vts_update_server_stats_ffi,
  vts_track_upstream_request, vts_update_cache_stats_ffi,
}
use ngx_vts.Module.Laws.{
  calculate_request_time_lem, vts_update_server_stats_ffi_lem, vts_track_upstream_request_lem,
  vts_update_cache_stats_ffi_lem,
}
use ngx_vts.Module.Invariant.{started, Step, Reachable, IsOrderly, Reachable-IsOrderly}
use ngx_vts.Module.Statuses.{into_stats-update_zone}
use ngx_vts.Module.Stores.{serve, server_zone_stats-serve, roomy}
use ngx_vts.Module.Connections.{ℤ, vts_collect_nginx_connections, vts_collect_nginx_connections_lem}
use ngx_vts.Module.Setup.{backend, backend_addr, initialize_manager, initialize_manager_lem}
use ngx_vts.Prometheus.Status.{server_zone_stats}
use ngx_vts.Instances.{list_map, list_map-IsLawful, quotients, ascii}

abbrev pub local : Globals list_map
local = record {
  shm = record { object = none; zone_data = false; published = false };
  vts_manager = record {
    stats = [];
    upstream_zones = [];
    connections = record {
      active = 0;
      reading = 0;
      writing = 0;
      waiting = 0;
      accepted = 0;
      handled = 0;
    };
  };
  poisoned = false;
  cache_manager = record { cache_zones = [] };
  stat_pointers = none;
}

abbrev pub configured : Globals list_map
configured = record local {
  shm = record { object = some (empty_shared list_map); zone_data = true; published = true };
}

pub shared_local : shared list_map local.shm ≡ none
unfolding shared
shared_local = refl

pub shared_configured : shared list_map configured.shm ≡ some (empty_shared list_map)
unfolding shared
shared_configured = refl

abbrev ok : Request
ok = record { status = 200; bytes_in = 10; bytes_out = 20; request_time = 3 }

abbrev requests : List (Bytes × Request)
requests = (codes "a", ok) ∷ (codes "b", ok) ∷ (codes "a", ok) ∷ []

server_zone_stats-serve_example :
    HashMap.get
      (server_zone_stats list_map quotients (serve list_map requests configured))
      (codes "a")
    ≡ HashMap.get (server_zone_stats list_map quotients (serve list_map requests local)) (codes "a")
unfolding is_utf8
server_zone_stats-serve_example =
    server_zone_stats-serve list_map list_map-IsLawful quotients requests configured local
      (codes "a") ((refl, refl), ((refl, refl), ((refl, refl), tt))) shared_configured shared_local
      refl

vts_update_server_stats_ffi_lem_example :
    vts_update_server_stats_ffi list_map local (some (codes "a")) 200 10 20 3 roomy ≡ (
      if is_utf8 (codes "a")
      then (elim (shared list_map local.shm) [
        | some _ ↦ record local {
          shm = (record_server list_map local.shm (codes "a") 200 10 20 3 roomy).0;
        }
        | none ↦ record local {
          vts_manager = Manager.update_server_stats local.vts_manager (codes "a") 200 10 20 3;
        }
      ])
      else local)
vts_update_server_stats_ffi_lem_example =
    vts_update_server_stats_ffi_lem list_map local (codes "a") 200 10 20 3 roomy

abbrev noon : Time
noon = record { sec = 100; msec = 250 }

vts_track_upstream_request_lem_example :
    let u' = to_str_or (codes "unknown") (0xff ∷ []) in
    let a' = to_str_or (codes "unknown:0") (codes "a:80") in
    let t = calculate_request_time noon 100 200 in
    vts_track_upstream_request list_map local
      (some (0xff ∷ []))
      (some (codes "a:80"))
      100
      200
      noon
      5
      10
      20
      200
      roomy
    ≡ (elim (shared list_map local.shm) [
      | some _ ↦ record local {
        shm = (record_upstream list_map local.shm u' a' t 5 10 20 200 roomy).0;
      }
      | none ↦ record local {
        vts_manager = Manager.update_upstream_stats local.vts_manager u' a' t 5 10 20 200;
      }
    ])
vts_track_upstream_request_lem_example =
    vts_track_upstream_request_lem list_map local (0xff ∷ []) (codes "a:80") 100 200 noon 5 10 20
      200 roomy

calculate_request_time_lem_example : 99 * 1000 + 900 + calculate_request_time noon 99 900 ≡ 100250
calculate_request_time_lem_example =
    calculate_request_time_lem noon 99 900 (omega arith) (omega arith) (omega arith)

status_hit : cache_status_str 7 ≡ some (codes "HIT")
unfolding cache_status_str
status_hit = refl

into_stats-update_zone_example :
    update_zone_size
      (update_zone_status ascii (Cache.into_stats Cache.new (codes "c")) (codes "HIT"))
      1000
      500
    ≡ Cache.into_stats (Cache.update Cache.new 7 1000 500) (codes "c")
into_stats-update_zone_example =
    into_stats-update_zone ascii Cache.new (codes "c") (codes "HIT") 7 1000 500 status_hit

-- A process without the symbols, and one where each symbol is found.
abbrev pub plain : Process
plain = record { dlsym = λ _. none; load_pointer = λ _. 0; load_atomic = λ _. 0 }

-- A process where each symbol is found, at the sum of its codes, and points to twice its address.
abbrev stubbed : Process
stubbed = record {
  dlsym = λ name. some (sum_of (λ b. b) name);
  load_pointer = λ a. 2 * a;
  load_atomic = λ p. p + 1;
}

abbrev counted : ConnectionStats
counted = record {
  active = 3207;
  reading = 3395;
  writing = 3479;
  waiting = 3445;
  accepted = 3585;
  handled = 3375;
  requests = 3719;
}

read_iff_example : ((read stubbed none).0 ≡ some counted) ↔ (
    IsCounter stubbed (codes "ngx_stat_active") 3207
    × IsCounter stubbed (codes "ngx_stat_reading") 3395
    × IsCounter stubbed (codes "ngx_stat_writing") 3479
    × IsCounter stubbed (codes "ngx_stat_waiting") 3445
    × IsCounter stubbed (codes "ngx_stat_accepted") 3585
    × IsCounter stubbed (codes "ngx_stat_handled") 3375
    × IsCounter stubbed (codes "ngx_stat_requests") 3719)
read_iff_example = read_iff stubbed counted

read-stubbed : (read stubbed none).0 ≡ some counted
unfolding read
read-stubbed = refl

total_requests-update_cache_status_example :
    total_requests (update_cache_status ascii default_cache (codes "hit")) ≡ (
      if is_status (ascii.to_uppercase (codes "hit"))
      then add64 (total_requests default_cache) 1
      else total_requests default_cache)
total_requests-update_cache_status_example =
    total_requests-update_cache_status ascii default_cache (codes "hit")

abbrev descriptors : List ℤ
descriptors = ℤ.pos 3 ∷ ℤ.negsuc 0 ∷ ℤ.pos 0 ∷ ℤ.negsuc 0 ∷ []

vts_collect_nginx_connections_lem_example :
    (vts_collect_nginx_connections list_map plain
      (some (record { connections = some descriptors }))
      local).vts_manager.connections
    ≡ record { active = 2; reading = 0; writing = 0; waiting = 0; accepted = 2; handled = 2 }
unfolding read
vts_collect_nginx_connections_lem_example =
    vts_collect_nginx_connections_lem list_map plain descriptors local

initialize_manager_lem_example : initialize_manager local.vts_manager ≡ record {
  stats = [];
  upstream_zones =
      (
        backend,
        record {
          name = backend;
          servers = (backend_addr, UpstreamStats.new_server backend_addr) ∷ [];
        },
      )
      ∷ [];
  connections = local.vts_manager.connections;
}
initialize_manager_lem_example = initialize_manager_lem local.vts_manager

vts_update_cache_stats_ffi_lem_example :
    vts_update_cache_stats_ffi list_map ascii local (some (codes "c")) 7 100 40 roomy
    ≡ (elim (cache_status_str 7) [
      | none ↦ local
      | some text ↦
          if is_utf8 (codes "c")
          then (elim (shared list_map local.shm) [
            | some _ ↦ record local {
              shm = (record_cache list_map local.shm (codes "c") 7 100 40 roomy).0;
            }
            | none ↦ record local {
              cache_manager =
                  CacheStats.update_cache_size
                    (CacheStats.update_cache_stats ascii local.cache_manager (codes "c") text)
                    (codes "c")
                    100
                    40;
            }
          ])
          else local
    ])
vts_update_cache_stats_ffi_lem_example =
    vts_update_cache_stats_ffi_lem list_map ascii local (codes "c") 7 100 40 roomy

Reachable-IsOrderly_example :
    let g = started list_map ascii local.shm in
    IsOrderly list_map ascii
      (vts_update_server_stats_ffi list_map g (some (codes "a")) 200 10 20 3 roomy)
Reachable-IsOrderly_example =
    let g = started list_map ascii local.shm in
    Reachable-IsOrderly list_map ascii _ (
      Reachable.step g _ (Reachable.start local.shm)
        (Step.server g (some (codes "a")) 200 10 20 3 roomy))
