-- ===== src/Tests/Page.antt =====
-- The texts of the metrics: what a reader finds in those of a small site.
use ngx_vts.Prelude.{
  ℕ, zero, suc, ◌*◌, ◌/◌, ◌^◌, ◌≤◌, ◌≡◌, refl, Bytes, codes, decimal, decimal-all, is_utf8, true,
  none, some, List, [], ◌∷◌, ◌++◌, all_of, arith,
}
use ngx_vts.HashMap
use ngx_vts.HashMap.{HashMap}
use ngx_vts.Stats.{VtsServerStats, VtsConnectionStats}
use ngx_vts.UpstreamStats
use ngx_vts.UpstreamStats.{UpstreamZone, UpstreamServerStats}
use ngx_vts.CacheStats.{CacheZoneStats, new_zone, update_zone_size}
use ngx_vts.Shm.Server
use ngx_vts.Shm.Server.{ServerCounters}
use ngx_vts.Shm.Snapshot.{snapshot_servers, snapshot_upstreams, snapshot_caches}
use ngx_vts.Shm.Record.{shared}
use ngx_vts.Manager
use ngx_vts.CacheStats
use ngx_vts.ConnectionStats.{read}
use ngx_vts.Module.{Globals, get_all_cache_zones}
use ngx_vts.Module.Connections.{vts_collect_nginx_connections}
use ngx_vts.Prometheus.Lines.{new, with_prefix, default_prefix, header, sample, each}
use ngx_vts.Prometheus.Server.{
  requests_lines, bytes_lines, responses_lines, seconds_lines, format_server_stats,
}
use ngx_vts.Prometheus.Upstream.{thousandth, format_upstream_stats}
use ngx_vts.Prometheus.Status.{
  Outside, get_hostname, server_zone_stats, upstream_zones, cache_zones,
  generate_vts_status_content,
}
use mathlib.Core.List.Permᴰ
use mathlib.Core.List.{Permᴰ}
use ngx_vts.Prometheus.Samples.Order.Page.{generate_vts_status_content-perm}
use ngx_vts.Prometheus.Reader.{Sample, read_page, is_nonempty}
use ngx_vts.Prometheus.Reader.Laws.{is_float, is_float_char, all_of-append}
use ngx_vts.Prometheus.Samples.Upstream.{upstream_samples}
use ngx_vts.Prometheus.Samples.Upstream.Buckets.{in_seconds}
use ngx_vts.Prometheus.Samples.Upstream.Laws.{read_page-format_upstream_stats}
use ngx_vts.Prometheus.Samples.Page.{page_samples, read_page-generate_vts_status_content}
use ngx_vts.Instances.{list_map, quotients, digits}
use ngx_vts.Tests.Worker.{local, plain}

digits-float : (p n : ℕ) → all_of is_float_char (digits p n) ≡ true
digits-float zero n = refl
digits-float (suc p) n =
    all_of-append is_float_char (digits p (n / 10)) _ (digits-float p (n / 10)) (ground arith)

is_nonempty-append : (s : Bytes) (c : ℕ) (t : Bytes) → is_nonempty (s ++ c ∷ t) ≡ true
is_nonempty-append [] c t = refl
is_nonempty-append (d ∷ s) c t = refl

pub quotients-float : (x : ℕ × ℕ) (p : ℕ) → is_float (quotients.to_fixed x p) ≡ true
quotients-float x p =
    let n : ℕ = x.0 * 10 ^ p / x.1 in
    let whole = decimal-all is_float_char (λ d h. ground arith) (n / 10 ^ p) in
    let point = digits-float p n in
    ground (
      arith,
      is_nonempty-append (decimal (n / 10 ^ p)) b'.' (digits p n),
      all_of-append is_float_char (decimal (n / 10 ^ p)) (codes "." ++ digits p n) whole
          (ground arith),
    )

pub quotients-in_seconds :
    (n : ℕ)
    → n ≤ 10000
    → quotients.to_fixed (thousandth quotients (quotients.of_u64 n)) 3 ≡ in_seconds n
quotients-in_seconds n h =
    let cancel : n * 1 * 1000 / 1000 ≡ n = omega arith in
    let hundred : n / 10 / 10 ≡ n / 100 = omega arith in rw (cancel, hundred) refl

abbrev c : VtsConnectionStats
c = record { active = 7; reading = 1; writing = 2; waiting = 4; accepted = 1000; handled = 999 }

abbrev groups : HashMap UpstreamZone
groups =
    (
      codes "backend",
      UpstreamStats.get_or_create_server (UpstreamStats.new_zone (codes "backend"))
          (codes "10.0.0.1:80"),
    )
    ∷ []

read_page-format_upstream_stats_example :
    read_page (format_upstream_stats quotients (with_prefix default_prefix) groups)
    ≡ some (upstream_samples quotients default_prefix groups)
unfolding UpstreamStats.get_or_create_server UpstreamStats.new_zone HashMap.or_insert
read_page-format_upstream_stats_example =
    read_page-format_upstream_stats quotients default_prefix groups quotients-float
      quotients-in_seconds refl ((refl, (refl, _)), _)

abbrev caches : HashMap CacheZoneStats
caches = (codes "c", update_zone_size (new_zone (codes "c")) 100 40) ∷ []

abbrev site : Globals list_map
site = record local {
  vts_manager = record {
    stats = (codes "a.test", Server.update Server.new 200 10 20 3) ∷ [];
    upstream_zones = groups;
    connections = c;
  };
  cache_manager = record { cache_zones = caches };
}

abbrev pub outside : Outside
outside = record {
  process = plain;
  ngx_cycle = none;
  hostname = some (codes "h.test" ++ 0 ∷ 0 ∷ []);
  ngx_time = 1700000000;
}

read_page-generate_vts_status_content_example :
    read_page (generate_vts_status_content list_map quotients outside site).0
    ≡ some (
        page_samples list_map quotients
          (get_hostname outside.hostname)
          (vts_collect_nginx_connections list_map plain none site))
unfolding update_zone_size new_zone get_hostname is_utf8 server_zone_stats snapshot_servers shared
    vts_collect_nginx_connections read Manager.get_all_server_stats HashMap.map_values
    upstream_zones snapshot_upstreams Manager.get_all_upstream_zones
    UpstreamStats.get_or_create_server HashMap.or_insert UpstreamStats.new_zone cache_zones
    snapshot_caches get_all_cache_zones CacheStats.get_all_cache_zones
read_page-generate_vts_status_content_example =
    read_page-generate_vts_status_content list_map quotients outside site quotients-float
      quotients-in_seconds refl (refl, _) ((refl, (refl, _)), _) (refl, _)

abbrev odd_zones : HashMap (VtsServerStats quotients)
odd_zones = (codes "~^w" ++ 92 ∷ codes "d+", Server.into_stats quotients Server.new) ∷ []

-- The name of a zone is not escaped, so that a backslash in it spoils the page.
unescaped : read_page (format_server_stats quotients new odd_zones) ≡ none
unfolding read_page format_server_stats requests_lines bytes_lines responses_lines seconds_lines
    header sample each new decimal Server.into_stats Server.new
unescaped = refl

-- A site with two zones and a group of two servers, and the same site visited in other orders.
abbrev visited : HashMap ServerCounters → HashMap UpstreamServerStats → Globals list_map
visited zones servers = record local {
  vts_manager = record {
    stats = zones;
    upstream_zones = (codes "backend", record { name = codes "backend"; servers = servers }) ∷ [];
    connections = c;
  };
  cache_manager = record { cache_zones = caches };
}

abbrev zone_a : Bytes × ServerCounters
zone_a = (codes "a.test", Server.update Server.new 200 10 20 3)

abbrev zone_b : Bytes × ServerCounters
zone_b = (codes "_", Server.update Server.new 404 1 2 5)

abbrev server_of : Bytes → Bytes × UpstreamServerStats
server_of addr = (addr, UpstreamStats.new_server addr)

abbrev one_order : Globals list_map
one_order =
    visited (zone_a ∷ zone_b ∷ [])
      (server_of (codes "10.0.0.1:80") ∷ server_of (codes "10.0.0.2:80") ∷ [])

abbrev other_order : Globals list_map
other_order =
    visited (zone_b ∷ zone_a ∷ [])
      (server_of (codes "10.0.0.2:80") ∷ server_of (codes "10.0.0.1:80") ∷ [])

generate_vts_status_content-perm_example :
    (a b : List Sample) × (read_page
        (generate_vts_status_content list_map quotients outside one_order).0
      ≡ some a)
    × (read_page (generate_vts_status_content list_map quotients outside other_order).0 ≡ some b)
    × Permᴰ a b
unfolding update_zone_size new_zone get_hostname is_utf8 server_zone_stats snapshot_servers shared
    vts_collect_nginx_connections read Manager.get_all_server_stats HashMap.map_values
    upstream_zones snapshot_upstreams Manager.get_all_upstream_zones cache_zones snapshot_caches
    get_all_cache_zones CacheStats.get_all_cache_zones Manager.get_connection_stats
generate_vts_status_content-perm_example =
    generate_vts_status_content-perm list_map quotients outside one_order other_order
      quotients-float quotients-in_seconds refl (refl, (refl, _)) ((refl, (refl, (refl, _))), _)
      (refl, _)
      (record {
        connections = refl;
        servers = Permᴰ.swap refl refl;
        groups = (_, (refl, Permᴰ.swap refl refl, _), Permᴰ.refl _);
        caches = Permᴰ.refl _;
      })
