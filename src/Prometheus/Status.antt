-- ===== src/Prometheus/Status.antt =====
-- src/prometheus/mod.rs and src/lib.rs: the status page.
use mathlib.Core.Option
use ngx_vts.Prelude.{
  ℕ, Bytes, codes, decimal, is_utf8, Option, none, some, Bool, true, false, ◌||◌, ◌==◌, [], ◌∷◌,
  ◌++◌, if◌then◌else◌,
}
use ngx_vts.Float.{F64}
use ngx_vts.HashMap.{HashMap}
use ngx_vts.Stats.{VtsServerStats}
use ngx_vts.UpstreamStats.{UpstreamZone}
use ngx_vts.CacheStats.{CacheZoneStats}
use ngx_vts.ConnectionStats.{Process}
use ngx_vts.Manager
use ngx_vts.Shm.Table.{RbTreeMap}
use ngx_vts.Shm.Snapshot.{snapshot_servers, snapshot_upstreams, snapshot_caches}
use ngx_vts.Module.{Globals, get_all_cache_zones}
use ngx_vts.Module.Connections.{Cycle, vts_collect_nginx_connections}
use ngx_vts.Prometheus.Lines.{PrometheusFormatter, new, format_nginx_info}
use ngx_vts.Prometheus.Connections.{format_connection_stats}
use ngx_vts.Prometheus.Server.{format_server_stats}
use ngx_vts.Prometheus.Upstream.{format_upstream_stats}
use ngx_vts.Prometheus.Cache.{format_cache_stats}

-- Everything before the first NUL byte, or the whole buffer.
unfoldable pub before_nul : Bytes → Bytes
before_nul [] = []
before_nul (b ∷ bytes) = let rest : Bytes = before_nul bytes in if b == 0 then [] else b ∷ rest

-- `gethostname` fills the buffer, or fails (`none`).
unfoldable pub get_hostname : Option Bytes → Bytes
unfolding before_nul
get_hostname none = codes "localhost"
get_hostname (some buf) =
    let name : Bytes = before_nul buf in if is_utf8 name then name else codes "localhost"

-- `get_current_time`, of a time that is not negative.
unfoldable pub get_current_time : ℕ → Bytes
get_current_time ngx_time = decimal ngx_time

abbrev pub cargo_pkg_version : Bytes
cargo_pkg_version = codes "0.1.0"

-- What the status page reads from outside: nginx's counters, its connection table, the host's name
-- and the clock.
pub record Outside : Type 0 where
  pub process : Process
  pub ngx_cycle : Option Cycle
  pub hostname : Option Bytes
  pub ngx_time : ℕ

unfoldable pub banner : Bytes → Bytes → Bytes
banner hostname time =
    codes "# nginx-vts-rust\n# Version: "
    ++ (cargo_pkg_version
        ++ (codes "\n# Hostname: "
            ++ (hostname
                ++ (codes "\n# Current Time: "
                    ++ (time ++ codes "\n\n# VTS Status: Active\n# Module: nginx-vts-rust\n\n")))))

unfoldable pub no_upstreams : Bytes
no_upstreams =
    codes "# HELP nginx_vts_upstream_zones_total Total number of upstream zones\n"
    ++ (codes "# TYPE nginx_vts_upstream_zones_total gauge\n"
        ++ codes "nginx_vts_upstream_zones_total 0\n\n")

module _ (F : F64) where
  -- The upstream section, with its placeholder.
  unfoldable pub upstream_section : PrometheusFormatter → HashMap UpstreamZone → Bytes
  unfolding no_upstreams
  upstream_section f [] = no_upstreams
  upstream_section f (group ∷ groups) = format_upstream_stats F f (group ∷ groups)

module _ (R : RbTreeMap) (F : F64) where
  -- The stores that the page shows: the shared tables where they are configured.
  unfoldable pub server_zone_stats : Globals R → HashMap (VtsServerStats F)
  server_zone_stats g =
      Option.get_or (snapshot_servers R F g.shm) (Manager.get_all_server_stats F g.vts_manager)

  unfoldable pub upstream_zones : Globals R → HashMap UpstreamZone
  upstream_zones g =
      Option.get_or (snapshot_upstreams R g.shm) (Manager.get_all_upstream_zones g.vts_manager)

  unfoldable pub cache_zones : Globals R → HashMap CacheZoneStats
  cache_zones g = Option.get_or (snapshot_caches R g.shm) (get_all_cache_zones R g)

  -- The page, and the globals after the connections were collected.
  unfoldable pub generate_vts_status_content : Outside → Globals R → Bytes × Globals R
  unfolding banner upstream_section
  generate_vts_status_content o g =
      let g' : Globals R = vts_collect_nginx_connections R o.process o.ngx_cycle g in
      let f : PrometheusFormatter = new in
      (
        banner (get_hostname o.hostname) (get_current_time o.ngx_time)
            ++ (codes "# Prometheus Metrics:\n"
                ++ (format_nginx_info f (get_hostname o.hostname) cargo_pkg_version
                    ++ (format_connection_stats f (Manager.get_connection_stats g'.vts_manager)
                        ++ (format_server_stats F f (server_zone_stats g')
                            ++ (upstream_section F f (upstream_zones g')
                                ++ format_cache_stats F f (cache_zones g')))))),
        g',
      )

-- Whether a text has a NUL byte.
abbrev has_nul : Bytes → Bool
has_nul [] = false
has_nul (b ∷ bytes) = b == 0 || has_nul bytes

-- `ngx_http_vts_get_status`: the C string that it returns, from the content that was generated and
-- whether the lock of the cached string was poisoned.
unfoldable pub get_status_string : Bool → Bytes → Bytes
get_status_string true content = codes "VTS Status: Error"
get_status_string false content =
    if has_nul content then codes "Failed to generate VTS status" else content
