-- ===== src/Prometheus/Samples/Page.antt =====
-- What a reader finds on the status page (src/lib.rs, `generate_vts_status_content`).
use mathlib.Core.List.{append_assoc}
use ngx_vts.Prelude.{
  ℕ, ◌≡◌, ◌≤◌, refl, Bytes, codes, decimal, decimal-all, some, true, List, [], ◌∷◌, ◌++◌, all_of,
  arith,
}
use ngx_vts.Float.{F64}
use ngx_vts.HashMap.{HashMap}
use ngx_vts.UpstreamStats.{UpstreamZone}
use ngx_vts.Manager
use ngx_vts.Shm.Table.{RbTreeMap}
use ngx_vts.Module.{Globals}
use ngx_vts.Module.Connections.{vts_collect_nginx_connections}
use ngx_vts.Prometheus.Lines.{default_prefix, new, with_prefix, format_nginx_info}
use ngx_vts.Prometheus.Upstream.{thousandth}
use ngx_vts.Prometheus.Status.{
  Outside, cargo_pkg_version, get_hostname, get_current_time, banner, no_upstreams,
  upstream_section, server_zone_stats, upstream_zones, cache_zones, generate_vts_status_content,
}
use ngx_vts.Prometheus.Reader.{Sample, counted, has_no_sample, read_page, read_line}
use ngx_vts.Prometheus.Reader.Laws.{is_plain, is_inline, is_float, all_of_mono, all_of-append}
use ngx_vts.Prometheus.Reader.Pages.{
  Reads, Reads-append, Reads-page, Reads-last, Reads-header, Reads-sample, line-reads, PlainKeys,
}
use ngx_vts.Prometheus.Samples.Connections.{connection_samples, connections-Reads}
use ngx_vts.Prometheus.Samples.Server.{server_samples, server-Reads}
use ngx_vts.Prometheus.Samples.Upstream.{upstream_samples}
use ngx_vts.Prometheus.Samples.Upstream.Buckets.{in_seconds}
use ngx_vts.Prometheus.Samples.Upstream.Laws.{PlainGroups, upstream-Reads}
use ngx_vts.Prometheus.Samples.Cache.{PlainNames, cache_samples, cache-Reads}

unfoldable pub info_samples : Bytes → List Sample
info_samples hostname =
    counted (codes "nginx_vts_info")
      ((codes "hostname", hostname) ∷ (codes "version", codes "0.1.0") ∷ []) 1
    ∷ []

-- The samples of the groups, or the number of groups where there is none.
unfoldable pub group_samples : F64 → HashMap UpstreamZone → List Sample
group_samples F [] = counted (codes "nginx_vts_upstream_zones_total") [] 0 ∷ []
group_samples F (group ∷ groups) = upstream_samples F default_prefix (group ∷ groups)

info-Reads :
    (hostname : Bytes)
    → all_of is_plain hostname ≡ true
    → Reads (format_nginx_info new hostname cargo_pkg_version) (info_samples hostname)
unfolding format_nginx_info new info_samples decimal
info-Reads hostname hh =
    Reads-last
      (Reads-header (codes "nginx_vts_info") (codes "Nginx VTS module information") (codes "gauge")
        refl refl refl)
      (Reads-sample (codes "nginx_vts_info") _ _ (codes "1") refl (ground (arith, hh)) refl)

banner-append :
    (hostname time rest : Bytes)
    → banner hostname time ++ rest
      ≡ codes "# nginx-vts-rust"
        ++ 10
          ∷ (codes "# Version: 0.1.0"
              ++ 10
                ∷ ((codes "# Hostname: " ++ hostname)
                    ++ 10
                      ∷ ((codes "# Current Time: " ++ time)
                          ++ 10
                            ∷ ([]
                                ++ 10
                                  ∷ (codes "# VTS Status: Active"
                                      ++ 10
                                        ∷ (codes "# Module: nginx-vts-rust"
                                            ++ 10 ∷ ([] ++ 10 ∷ rest)))))))
unfolding banner
banner-append hostname time rest = simp append_assoc

comment-reads :
    (l rest : Bytes) (out : List Sample)
    → all_of is_inline l ≡ true
    → has_no_sample l ≡ true
    → read_page rest ≡ some out
    → read_page (l ++ 10 ∷ rest) ≡ some out
unfolding read_line
comment-reads l rest out hl hc h = line-reads l [] rest out hl (rw hc refl) h

banner-Reads :
    (hostname : Bytes) (time : ℕ)
    → all_of is_plain hostname ≡ true
    → Reads (banner hostname (get_current_time time)) []
unfolding get_current_time
banner-Reads hostname time hh = record {
  reads = λ rest out h.
      let host = all_of_mono is_plain is_inline hostname (λ c h. ground arith) hh in
      let digits = decimal-all is_inline (λ d h. ground arith) time in
      rw (banner-append hostname (decimal time) rest) (
        comment-reads (codes "# nginx-vts-rust") _ out refl refl (
          comment-reads (codes "# Version: 0.1.0") _ out refl refl (
            comment-reads (codes "# Hostname: " ++ hostname) _ out
              (all_of-append is_inline (codes "# Hostname: ") hostname refl host) refl
              (comment-reads (codes "# Current Time: " ++ decimal time) _ out
                (all_of-append is_inline (codes "# Current Time: ") (decimal time) refl digits) refl
                (comment-reads [] _ out refl refl (
                  comment-reads (codes "# VTS Status: Active") _ out refl refl (
                    comment-reads (codes "# Module: nginx-vts-rust") _ out refl refl
                      (comment-reads [] rest out refl refl h))))))));
}

no_upstreams-Reads : Reads no_upstreams (counted (codes "nginx_vts_upstream_zones_total") [] 0 ∷ [])
unfolding no_upstreams read_line decimal
no_upstreams-Reads = record {
  reads = λ rest out h.
      comment-reads (codes "# HELP nginx_vts_upstream_zones_total Total number of upstream zones") _
        _ refl refl
        (comment-reads (codes "# TYPE nginx_vts_upstream_zones_total gauge") _ _ refl refl (
          line-reads (codes "nginx_vts_upstream_zones_total 0") _ _ _ refl refl
            (comment-reads [] rest out refl refl h)));
}

module _ (F : F64)
    (fixed_is_float : (x : F.Carrier) (digits : ℕ) → is_float (F.to_fixed x digits) ≡ true)
    (to_fixed_in_seconds : (n : ℕ)
      → n ≤ 10000
      → F.to_fixed (thousandth F (F.of_u64 n)) 3 ≡ in_seconds n) where
  groups-Reads :
      (zones : HashMap UpstreamZone)
      → PlainGroups zones
      → Reads (upstream_section F new zones) (group_samples F zones)
  unfolding upstream_section group_samples new with_prefix
  groups-Reads [] hz = no_upstreams-Reads
  groups-Reads (group ∷ groups) hz =
      upstream-Reads F fixed_is_float to_fixed_in_seconds default_prefix refl (group ∷ groups) hz

title-Reads : Reads (codes "# Prometheus Metrics:\n") []
unfolding read_line
title-Reads = record {
  reads = λ rest out h. comment-reads (codes "# Prometheus Metrics:") rest out refl refl h;
}

module _ (R : RbTreeMap) (F : F64) where
  -- The samples of the page of a worker whose connections were collected.
  unfoldable pub page_samples : Bytes → Globals R → List Sample
  unfolding info_samples group_samples
  page_samples hostname g =
      info_samples hostname
      ++ (connection_samples default_prefix (Manager.get_connection_stats g.vts_manager)
          ++ (server_samples F default_prefix (server_zone_stats R F g)
              ++ (group_samples F (upstream_zones R F g)
                  ++ cache_samples F default_prefix (cache_zones R F g))))

-- For a host name, zone names, group names and server names without quotes, backslashes and
-- newlines, floats that print as digits and signs or as the names of the special values, and
-- quotients by 1000 that print exactly up to 10: a reader of the status page finds, in this order and
-- nothing else, the information sample, the connection numbers that were just collected, the server
-- zones, the upstream groups (or their number 0) and the cache zones of the stores in use.
pub read_page-generate_vts_status_content :
    (R : RbTreeMap) (F : F64) (o : Outside) (g : Globals R)
    → ((x : F.Carrier) (digits : ℕ) → is_float (F.to_fixed x digits) ≡ true)
    → ((n : ℕ) → n ≤ 10000 → F.to_fixed (thousandth F (F.of_u64 n)) 3 ≡ in_seconds n)
    → all_of is_plain (get_hostname o.hostname) ≡ true
    → PlainKeys (server_zone_stats R F (vts_collect_nginx_connections R o.process o.ngx_cycle g))
    → PlainGroups (upstream_zones R F (vts_collect_nginx_connections R o.process o.ngx_cycle g))
    → PlainNames (cache_zones R F (vts_collect_nginx_connections R o.process o.ngx_cycle g))
    → read_page (generate_vts_status_content R F o g).0
      ≡ some (
          page_samples R F
            (get_hostname o.hostname)
            (vts_collect_nginx_connections R o.process o.ngx_cycle g))
unfolding generate_vts_status_content page_samples new with_prefix
read_page-generate_vts_status_content R F o g fixed_is_float to_fixed_in_seconds hh hs hu hc =
    Reads-page (
      Reads-append (banner-Reads _ o.ngx_time hh) (
        Reads-append title-Reads (
          Reads-append (info-Reads _ hh) (
            Reads-append (connections-Reads default_prefix _ refl) (
              Reads-append (server-Reads F default_prefix _ fixed_is_float refl hs) (
                Reads-append (groups-Reads F fixed_is_float to_fixed_in_seconds _ hu)
                  (cache-Reads F default_prefix _ fixed_is_float refl hc)))))))
