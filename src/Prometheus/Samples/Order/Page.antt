-- ===== src/Prometheus/Samples/Order/Page.antt =====
-- The status page, where the maps behind it are visited in another order (src/prometheus/mod.rs).
use mathlib.Core.List.Permᴰ
use mathlib.Core.List.{Permᴰ}
use ngx_vts.Prelude.{ℕ, ◌≤◌, ◌≡◌, arith, Bytes, some, true, List, [], ◌∷◌, all_of}
use ngx_vts.Float.{F64}
use ngx_vts.HashMap.{HashMap}
use ngx_vts.UpstreamStats.{UpstreamZone}
use ngx_vts.Manager
use ngx_vts.Shm.Table.{RbTreeMap}
use ngx_vts.Module.{Globals}
use ngx_vts.Module.Connections.{vts_collect_nginx_connections}
use ngx_vts.Prometheus.Lines.{default_prefix}
use ngx_vts.Prometheus.Upstream.{thousandth}
use ngx_vts.Prometheus.Status.{
  Outside, get_hostname, server_zone_stats, upstream_zones, cache_zones,
  generate_vts_status_content,
}
use ngx_vts.Prometheus.Reader.{Sample, read_page}
use ngx_vts.Prometheus.Reader.Laws.{is_plain, is_float}
use ngx_vts.Prometheus.Reader.Pages.{PlainKeys}
use ngx_vts.Prometheus.Samples.Upstream.Buckets.{in_seconds}
use ngx_vts.Prometheus.Samples.Upstream.Laws.{PlainGroups}
use ngx_vts.Prometheus.Samples.Cache.{PlainNames}
use ngx_vts.Prometheus.Samples.Connections.{connection_samples}
use ngx_vts.Prometheus.Samples.Page.{
  info_samples, group_samples, page_samples, read_page-generate_vts_status_content,
}
use ngx_vts.Prometheus.Samples.Order.{
  All-perm, append-perm, IsReordered, length-IsReordered, IsReordered-PlainGroups,
  server_samples-perm, cache_samples-perm, upstream_samples-IsReordered,
}

group_samples-IsReordered :
    (F : F64) (zones zones' : HashMap UpstreamZone)
    → IsReordered zones zones'
    → Permᴰ (group_samples F zones) (group_samples F zones')
unfolding group_samples
group_samples-IsReordered F [] [] p = Permᴰ.refl _
group_samples-IsReordered F [] (h ∷ hs) p =
    let e = length-IsReordered [] (h ∷ hs) p in absurd (omega arith)
group_samples-IsReordered F (g ∷ gs) [] p =
    let e = length-IsReordered (g ∷ gs) [] p in absurd (omega arith)
group_samples-IsReordered F (g ∷ gs) (h ∷ hs) p =
    upstream_samples-IsReordered F default_prefix (g ∷ gs) (h ∷ hs) p

module _ (R : RbTreeMap) (F : F64) where
  -- Two workers whose pages show the same statistics, in maps that are visited in different orders.
  pub record IsReorderedPage (g g' : Globals R) : Type 0 where
    pub connections :
        Manager.get_connection_stats g.vts_manager ≡ Manager.get_connection_stats g'.vts_manager
    pub servers : Permᴰ (server_zone_stats R F g) (server_zone_stats R F g')
    pub groups : IsReordered (upstream_zones R F g) (upstream_zones R F g')
    pub caches : Permᴰ (cache_zones R F g) (cache_zones R F g')

  page_samples-perm :
      (hostname : Bytes) (g g' : Globals R)
      → IsReorderedPage g g'
      → Permᴰ (page_samples R F hostname g) (page_samples R F hostname g')
  unfolding page_samples
  page_samples-perm hostname g g' p =
      let numbers : List Sample =
        connection_samples default_prefix (Manager.get_connection_stats g'.vts_manager) in
      rw p.connections (
        Permᴰ.append_left (info_samples hostname) (
          Permᴰ.append_left numbers (
            append-perm (server_samples-perm F default_prefix _ _ p.servers) (
              append-perm (group_samples-IsReordered F _ _ p.groups)
                (cache_samples-perm F default_prefix _ _ p.caches)))))

  -- For a host name and names without quotes, backslashes and newlines, floats that print as digits
  -- and signs or as the names of the special values, and quotients by 1000 that print exactly up to
  -- 10: if the maps of server zones, of upstream groups, of the servers of each group and of cache
  -- zones are visited in other orders, and the connection numbers are the same, then a reader of the
  -- two pages finds the same samples, each as often, and only their order differs.
  pub generate_vts_status_content-perm :
      (o : Outside) (g g' : Globals R)
      → ((x : F.Carrier) (digits : ℕ) → is_float (F.to_fixed x digits) ≡ true)
      → ((n : ℕ) → n ≤ 10000 → F.to_fixed (thousandth F (F.of_u64 n)) 3 ≡ in_seconds n)
      → all_of is_plain (get_hostname o.hostname) ≡ true
      → PlainKeys (server_zone_stats R F (vts_collect_nginx_connections R o.process o.ngx_cycle g))
      → PlainGroups (upstream_zones R F (vts_collect_nginx_connections R o.process o.ngx_cycle g))
      → PlainNames (cache_zones R F (vts_collect_nginx_connections R o.process o.ngx_cycle g))
      → IsReorderedPage
          (vts_collect_nginx_connections R o.process o.ngx_cycle g)
          (vts_collect_nginx_connections R o.process o.ngx_cycle g')
      → (a b : List Sample) × (read_page (generate_vts_status_content R F o g).0 ≡ some a)
        × (read_page (generate_vts_status_content R F o g').0 ≡ some b)
        × Permᴰ a b
  generate_vts_status_content-perm o g g' ff fs hh hs hu hc p = (
    page_samples R F (get_hostname o.hostname)
        (vts_collect_nginx_connections R o.process o.ngx_cycle g),
    page_samples R F (get_hostname o.hostname)
        (vts_collect_nginx_connections R o.process o.ngx_cycle g'),
    read_page-generate_vts_status_content R F o g ff fs hh hs hu hc,
    read_page-generate_vts_status_content R F o g' ff fs hh (All-perm _ p.servers hs)
        (IsReordered-PlainGroups _ _ p.groups hu) (All-perm _ p.caches hc),
    page_samples-perm (get_hostname o.hostname) _ _ p,
  )
