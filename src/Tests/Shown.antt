-- ===== src/Tests/Shown.antt =====
-- From recorded requests to the number on the page, at a small trace.
use ngx_vts.Prelude.{
  codes, is_utf8, some, List, [], ◌∷◌, ◌≡◌, ◌%◌, refl, length, u64_mod, eqb, arith,
}
use ngx_vts.HashMap
use ngx_vts.ConnectionStats.{read}
use ngx_vts.Shm.Server
use ngx_vts.Shm.Server.History.{Request}
use ngx_vts.Shm.Upstream.History.{UpstreamRequest}
use ngx_vts.Shm.Keys.{upstream_key_bytes, split_upstream_key}
use ngx_vts.UpstreamStats.{new_zone}
use ngx_vts.Shm.Record.{shared, record_server, record_upstream, record_entry}
use ngx_vts.Shm.Snapshot.{
  snapshot_servers, snapshot_upstreams, snapshot_caches, add_servers, add_upstream, add_upstreams,
  add_caches,
}
use ngx_vts.Shm.Trace.{Call, run, server_history, upstream_history}
use ngx_vts.Module.{Globals}
use ngx_vts.Module.Connections.{vts_collect_nginx_connections}
use ngx_vts.Module.Stores.{roomy}
use ngx_vts.Prometheus.Status.{
  get_hostname, server_zone_stats, upstream_zones, cache_zones, generate_vts_status_content,
}
use ngx_vts.Prometheus.Samples.Shown.{requests_shown, requests_shown-run}
use ngx_vts.Prometheus.Samples.Shown.Upstream.{upstream_requests_shown, upstream_requests_shown-run}
use ngx_vts.Instances.{list_map, list_map-IsLawful, quotients}
use ngx_vts.Tests.Worker.{configured, shared_configured}
use ngx_vts.Tests.Page.{outside, quotients-float, quotients-in_seconds}

abbrev ok : Request
ok = record { status = 200; bytes_in = 10; bytes_out = 20; request_time = 3 }

abbrev calls : List Call
calls =
    Call.server (codes "a.test") ok roomy
    ∷ Call.server (codes "b.test") ok roomy
    ∷ Call.server (codes "a.test") ok roomy
    ∷ []

abbrev busy : Globals list_map
busy = record configured { shm = run list_map calls configured.shm }

requests_shown-run_example :
    requests_shown (codes "a.test") (generate_vts_status_content list_map quotients outside busy).0
    ≡ some (length (server_history (codes "a.test") calls) % u64_mod)
unfolding eqb get_hostname is_utf8 server_zone_stats snapshot_servers shared
    vts_collect_nginx_connections read run record_server record_entry add_servers HashMap.insert
    HashMap.get HashMap.modify Server.into_stats upstream_zones snapshot_upstreams add_upstreams
    cache_zones snapshot_caches add_caches
requests_shown-run_example =
    requests_shown-run list_map list_map-IsLawful quotients outside busy configured.shm calls
      (codes "a.test") ok (ok ∷ []) quotients-float quotients-in_seconds refl (refl, (refl, _)) _ _
      shared_configured refl refl refl

abbrev upstream_ok : UpstreamRequest
upstream_ok = record {
  request_time = 7;
  response_time = 5;
  bytes_sent = 10;
  bytes_received = 20;
  status = 200;
}

abbrev upstream_calls : List Call
upstream_calls =
    Call.upstream (codes "backend") (codes "10.0.0.1:80") upstream_ok roomy
    ∷ Call.upstream (codes "backend") (codes "10.0.0.1:80") upstream_ok roomy
    ∷ []

abbrev proxying : Globals list_map
proxying = record configured { shm = run list_map upstream_calls configured.shm }

upstream_requests_shown-run_example :
    let key = upstream_key_bytes (codes "backend") (codes "10.0.0.1:80") in
    upstream_requests_shown
      (codes "backend")
      (codes "10.0.0.1:80")
      (generate_vts_status_content list_map quotients outside proxying).0
    ≡ some (length (upstream_history key upstream_calls) % u64_mod)
unfolding eqb get_hostname is_utf8 server_zone_stats snapshot_servers shared
    vts_collect_nginx_connections read run record_upstream record_entry add_servers add_upstreams
    add_upstream split_upstream_key upstream_key_bytes HashMap.or_insert HashMap.insert HashMap.get
    HashMap.modify new_zone upstream_zones snapshot_upstreams cache_zones snapshot_caches add_caches
upstream_requests_shown-run_example =
    upstream_requests_shown-run list_map list_map-IsLawful quotients outside proxying configured.shm
      upstream_calls (codes "backend") (codes "10.0.0.1:80") upstream_ok (upstream_ok ∷ [])
      quotients-float quotients-in_seconds refl _ ((refl, (refl, _)), _) _ (omega arith)
      shared_configured refl refl refl
