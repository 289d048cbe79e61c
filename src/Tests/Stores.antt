-- ===== src/Tests/Stores.antt =====
-- The agreement of the two stores at small histories.
use ngx_vts.Prelude.{Bytes, codes, is_utf8, List, [], ◌∷◌, ◌≡◌, refl, arith}
use ngx_vts.HashMap
use ngx_vts.Shm.Cache.History.{Observation}
use ngx_vts.Shm.Snapshot.Laws.{server_in}
use ngx_vts.Module.Stores.Upstream.{Tracked, track}
use ngx_vts.Module.Stores.Upstream.Laws.{server_in-track}
use ngx_vts.Module.Stores.Cache.{observe}
use ngx_vts.Module.Stores.Cache.Laws.{get-cache_zones-observe}
use ngx_vts.Prometheus.Status.{upstream_zones, cache_zones}
use ngx_vts.Instances.{list_map, list_map-IsLawful, quotients, ascii}
use ngx_vts.Tests.Worker.{local, configured, shared_local, shared_configured}

abbrev hit_one : Tracked
hit_one = record {
  upstream = codes "b";
  server = codes "10.0.0.1:80";
  start_sec = 100;
  start_msec = 900;
  tp = record { sec = 101; msec = 100 };
  response_time = 150;
  bytes_sent = 10;
  bytes_received = 20;
  status = 200;
}

abbrev tracked : List Tracked
tracked = hit_one ∷ record hit_one { server = codes "10.0.0.2:80" } ∷ hit_one ∷ []

server_in-track_example :
    server_in
      (HashMap.get
        (upstream_zones list_map quotients (track list_map tracked configured))
        (codes "b"))
      (codes "10.0.0.1:80")
    ≡ server_in
        (HashMap.get (upstream_zones list_map quotients (track list_map tracked local)) (codes "b"))
        (codes "10.0.0.1:80")
unfolding is_utf8
server_in-track_example =
    server_in-track list_map list_map-IsLawful quotients tracked configured local (codes "b")
      (codes "10.0.0.1:80") (omega arith)
      (
        (refl, refl, refl, refl, omega arith),
        ((refl, refl, refl, refl, omega arith), ((refl, refl, refl, refl, omega arith), tt)),
      )
      shared_configured shared_local refl

abbrev accesses : List (Bytes × Observation)
accesses =
    (codes "c", record { status = 7; max_size = 100; used_size = 60 })
    ∷ (codes "d", record { status = 9; max_size = 10; used_size = 6 })
    ∷ (codes "c", record { status = 1; max_size = 100; used_size = 40 })
    ∷ []

get-cache_zones-observe_example :
    HashMap.get
      (cache_zones list_map quotients (observe list_map ascii accesses configured))
      (codes "c")
    ≡ HashMap.get
        (cache_zones list_map quotients (observe list_map ascii accesses local))
        (codes "c")
unfolding is_utf8
get-cache_zones-observe_example =
    get-cache_zones-observe list_map list_map-IsLawful quotients ascii accesses configured local
      (codes "c") ((refl, refl), ((refl, refl), ((refl, refl), tt))) shared_configured shared_local
      refl
