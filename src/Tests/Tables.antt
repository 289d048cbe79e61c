-- ===== src/Tests/Tables.antt =====
-- The shared tables over a plain list: traces, snapshots and initialization.
use mathlib.Core.Option
use ngx_vts.Prelude.{
  Bytes, codes, true, false, none, some, List, [], ◌∷◌, ◌≡◌, refl, arith, eqb, is_utf8,
  if◌then◌else◌, ◌&&◌,
}
use ngx_vts.HashMap
use ngx_vts.Shm.Server
use ngx_vts.Shm.Server.{ServerCounters}
use ngx_vts.Shm.Server.History.{Request}
use ngx_vts.Shm.Upstream
use ngx_vts.Shm.Upstream.{UpstreamCounters}
use ngx_vts.Shm.Upstream.History.{UpstreamRequest}
use ngx_vts.Shm.Cache
use ngx_vts.Shm.Cache.{CacheCounters}
use ngx_vts.Shm.Cache.History.{Observation}
use ngx_vts.Shm.Keys.{upstream_key_bytes}
use ngx_vts.Shm.Server.History as ServerHistory
use ngx_vts.Shm.Upstream.History as UpstreamHistory
use ngx_vts.Shm.Cache.History as CacheHistory
use ngx_vts.Shm.Record.{is_configured, ShmState, Room, shared}
use ngx_vts.Shm.Record.Laws.{server_counters, upstream_counters, cache_counters}
use ngx_vts.Shm.Init.{
  ngx_ok, ngx_error, Attempts, empty_shared, can_start, vts_init_shm_zone, vts_init_shm_zone_lem,
}
use ngx_vts.Shm.Trace.{Call, run, stored, server_history, upstream_history, cache_history}
use ngx_vts.Shm.Trace.Laws.{server_counters-run, upstream_counters-run, cache_counters-run}
use ngx_vts.Shm.Trace.Start.{fresh, counters-run-fresh}
use ngx_vts.Shm.Snapshot.{build_server_snapshot, build_upstream_snapshot, build_cache_snapshot}
use ngx_vts.Shm.Snapshot.Laws.{
  get-build_server_snapshot, server_in-build_upstream_snapshot, get-build_cache_snapshot, server_in,
}
use ngx_vts.Instances.{list_map, list_map-IsLawful, quotients}

-- A worker's state behind a successful initialization.
abbrev pub started : ShmState list_map
started = record { object = some (empty_shared list_map); zone_data = true; published = true }

shared-started : shared list_map started ≡ some (empty_shared list_map)
unfolding shared
shared-started = refl

abbrev yes_room : Room
yes_room = record { key = true; node = true }

abbrev no_room : Room
no_room = record { key = true; node = false }

abbrev attempts : Attempts
attempts = record { servers = true; upstreams = true; caches = true; root = true }

abbrev hit : Observation
hit = record { status = 7; max_size = 1000; used_size = 500 }

abbrev ok : Request
ok = record { status = 200; bytes_in = 10; bytes_out = 20; request_time = 3 }

abbrev upstream_ok : UpstreamRequest
upstream_ok = record {
  request_time = 7;
  response_time = 5;
  bytes_sent = 10;
  bytes_received = 20;
  status = 200;
}

-- The oldest call finds no memory for its zone; a reload stands in between.
abbrev calls : List Call
calls =
    Call.server (codes "a.test") ok yes_room
    ∷ Call.cache (codes "c") hit yes_room
    ∷ Call.reload attempts
    ∷ Call.upstream (codes "backend") (codes "a:80") upstream_ok yes_room
    ∷ Call.server (codes "a.test") ok yes_room
    ∷ Call.server (codes "a.test") ok no_room
    ∷ []

counted : server_history (codes "a.test") calls ≡ ok ∷ ok ∷ []
unfolding eqb
counted = refl

server_counters-run_example :
    server_counters list_map (run list_map calls started) (codes "a.test")
    ≡ stored Server.History.summary (server_history (codes "a.test") calls)
server_counters-run_example =
    server_counters-run list_map list_map-IsLawful calls started (codes "a.test") shared-started

upstream_counters-run_example :
    let k = upstream_key_bytes (codes "backend") (codes "a:80") in
    upstream_counters list_map (run list_map calls started) k
    ≡ stored Upstream.History.summary (upstream_history k calls)
upstream_counters-run_example =
    upstream_counters-run list_map list_map-IsLawful calls started
      (upstream_key_bytes (codes "backend") (codes "a:80")) shared-started

cache_counters-run_example :
    cache_counters list_map (run list_map calls started) (codes "c")
    ≡ stored Cache.History.summary (cache_history (codes "c") calls)
cache_counters-run_example =
    cache_counters-run list_map list_map-IsLawful calls started (codes "c") shared-started

vts_init_shm_zone_lem_example : vts_init_shm_zone list_map false true attempts started ≡ (
    if can_start list_map false true attempts started
    then (
      record started {
        object = some (Option.get_or started.object (empty_shared list_map));
        zone_data = true;
        published = true;
      },
      ngx_ok,
    )
    else (started, ngx_error))
vts_init_shm_zone_lem_example = vts_init_shm_zone_lem list_map false true attempts started

-- One zone whose name is UTF-8, and one whose name is not.
abbrev servers : List (Bytes × ServerCounters)
servers = (codes "a.test", Server.new) ∷ (0xff ∷ [], Server.new) ∷ []

get-build_server_snapshot_example :
    HashMap.get (build_server_snapshot quotients servers) (0xff ∷ []) ≡ (
      if is_utf8 (0xff ∷ [])
      then Option.map (Server.into_stats quotients) (HashMap.get servers (0xff ∷ []))
      else none)
unfolding HashMap.get eqb
get-build_server_snapshot_example =
    get-build_server_snapshot quotients servers (0xff ∷ []) (refl, (refl, tt))

abbrev caches : List (Bytes × CacheCounters)
caches = (codes "c", Cache.new) ∷ []

get-build_cache_snapshot_example : HashMap.get (build_cache_snapshot caches) (codes "c") ≡ (
    if is_utf8 (codes "c")
    then Option.map (λ c. Cache.into_stats c (codes "c")) (HashMap.get caches (codes "c"))
    else none)
unfolding HashMap.get
get-build_cache_snapshot_example = get-build_cache_snapshot caches (codes "c") (refl, tt)

abbrev upstreams : List (Bytes × UpstreamCounters)
upstreams =
    (b'u' ∷ 0 ∷ b'a' ∷ [], Upstream.new)
    ∷ (b'u' ∷ 0 ∷ b'b' ∷ [], Upstream.new)
    ∷ (codes "stray", Upstream.new)
    ∷ []

server_in-build_upstream_snapshot_example :
    server_in (HashMap.get (build_upstream_snapshot upstreams) (codes "u")) (codes "b") ≡ (
      if is_utf8 (codes "u") && is_utf8 (codes "b")
      then Option.map
          (λ c. Upstream.into_stats c (codes "b"))
          (HashMap.get upstreams (upstream_key_bytes (codes "u") (codes "b")))
      else none)
unfolding HashMap.get eqb
server_in-build_upstream_snapshot_example =
    server_in-build_upstream_snapshot upstreams (codes "u") (codes "b") (omega arith)
      (refl, (refl, (refl, tt)))

-- A request before the zone is up, a start without memory for the root, a start, and a request.
abbrev from_the_start : List Call
from_the_start =
    Call.server (codes "a") ok yes_room
    ∷ Call.reload attempts
    ∷ Call.reload (record attempts { root = false })
    ∷ Call.server (codes "a") ok yes_room
    ∷ []

counters-run-fresh_example :
    (is_configured list_map (run list_map from_the_start (fresh list_map)) ≡ true)
    × (server_counters list_map (run list_map from_the_start (fresh list_map)) (codes "a")
        ≡ some (ServerHistory.summary (ok ∷ [])))
    × (upstream_counters list_map (run list_map from_the_start (fresh list_map)) (codes "a") ≡ none)
    × (cache_counters list_map (run list_map from_the_start (fresh list_map)) (codes "a") ≡ none)
unfolding eqb
counters-run-fresh_example =
    counters-run-fresh list_map list_map-IsLawful from_the_start (codes "a")
