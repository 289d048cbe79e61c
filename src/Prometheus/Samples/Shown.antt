-- ===== src/Prometheus/Samples/Shown.antt =====
-- From the requests that any workers record (src/shm.rs) to the number on the status page that a
-- worker prints (src/lib.rs, src/prometheus).
pub mod Upstream
use mathlib.Core.Option
use mathlib.Core.List.{append_assoc}
use ngx_vts.Prelude.{
  ℕ, ◌≡◌, ◌≤◌, ◌<◌, ◌%◌, ◌^◌, refl, sym, ap, ◌∙◌, Bytes, codes, decimal, eqb, read_decimal,
  read_decimal-decimal, is_utf8, Option, none, some, true, List, [], ◌∷◌, all_of, length, u64_mod,
  arith,
}
use ngx_vts.Float.{F64}
use ngx_vts.HashMap
use ngx_vts.HashMap.{HashMap}
use ngx_vts.Stats.{VtsServerStats}
use ngx_vts.Shm.Server
use ngx_vts.Shm.Server.History.{Request, summary}
use ngx_vts.Shm.Table.{RbTreeMap, IsLawful}
use ngx_vts.Shm.Record.{ShmState, shared}
use ngx_vts.Shm.Init.{empty_shared}
use ngx_vts.Shm.Trace.{Call, run, server_history}
use ngx_vts.Shm.Trace.Laws.{shared-run, server_counters-run}
use ngx_vts.Module.{Globals, update_connection_stats}
use ngx_vts.Module.Connections.{vts_collect_nginx_connections}
use ngx_vts.Module.Stores.{server_zone_stats-shared}
use ngx_vts.Prometheus.Upstream.{thousandth}
use ngx_vts.Prometheus.Status.{
  Outside, get_hostname, server_zone_stats, upstream_zones, cache_zones,
  generate_vts_status_content,
}
use ngx_vts.Prometheus.Reader.{Sample, read_page}
use ngx_vts.Prometheus.Reader.Laws.{is_plain, is_float}
use ngx_vts.Prometheus.Reader.Pages.{PlainKeys}
use ngx_vts.Prometheus.Samples.Server.{server_samples}
use ngx_vts.Prometheus.Samples.Connections.{connection_samples}
use ngx_vts.Prometheus.Samples.Upstream.Buckets.{in_seconds}
use ngx_vts.Prometheus.Samples.Upstream.Laws.{PlainGroups}
use ngx_vts.Prometheus.Samples.Cache.{PlainNames}
use ngx_vts.Prometheus.Samples.Page.{page_samples, read_page-generate_vts_status_content}
use ngx_vts.Prometheus.Samples.Lookup.{lookup, lookup-request_samples}

abbrev requests_total : Bytes
requests_total = codes "nginx_vts_server_requests_total"

-- The number of requests that a page shows for a server zone.
unfoldable pub requests_shown : Bytes → Bytes → Option ℕ
unfolding lookup
requests_shown k page = elim (read_page page) [
  | none ↦ none
  | some samples ↦
      Option.map (read_decimal 0) (lookup requests_total ((codes "zone", k) ∷ []) samples)
]

requests_shown-eq :
    (k page : Bytes) (samples : List Sample) (n : ℕ)
    → read_page page ≡ some samples
    → lookup requests_total ((codes "zone", k) ∷ []) samples ≡ some (decimal n)
    → n < 10 ^ 20
    → requests_shown k page ≡ some n
unfolding requests_shown
requests_shown-eq k page samples n h e small =
    rw (requests_shown, h, e) (ap some (read_decimal-decimal n small))

module _ (R : RbTreeMap) (F : F64) where
  lookup-page_samples :
      (hostname k : Bytes) (g : Globals R) (stats : VtsServerStats F)
      → HashMap.get (server_zone_stats R F g) k ≡ some stats
      → lookup requests_total ((codes "zone", k) ∷ []) (page_samples R F hostname g)
        ≡ some (decimal stats.requests)
  unfolding page_samples lookup eqb connection_samples server_samples
  lookup-page_samples hostname k g stats h =
      rw append_assoc
        (lookup-request_samples F requests_total k (server_zone_stats R F g) _ stats h)

  -- Collecting the connections leaves the shared memory alone.
  pub shm-collect :
      (o : Outside) (g : Globals R)
      → (vts_collect_nginx_connections R o.process o.ngx_cycle g).shm ≡ g.shm
  unfolding vts_collect_nginx_connections update_connection_stats
  shm-collect o g = ground arith

  into_stats-requests :
      (rs : List Request) → (Server.into_stats F (summary rs)).requests ≡ length rs % u64_mod
  unfolding Server.into_stats
  into_stats-requests rs = refl

pub small : (n : ℕ) → n % u64_mod < 10 ^ 20
small n = omega arith

module _ (R : RbTreeMap) (L : IsLawful R) (F : F64) where
  -- What the page of a worker shows of a zone after a trace.
  stats-run :
      (g : Globals R) (s : ShmState R) (calls : List Call) (k : Bytes) (r : Request)
      (rs : List Request)
      → shared R s ≡ some (empty_shared R)
      → g.shm ≡ run R calls s
      → is_utf8 k ≡ true
      → server_history k calls ≡ r ∷ rs
      → HashMap.get (server_zone_stats R F g) k ≡ some (Server.into_stats F (summary (r ∷ rs)))
  stats-run g s calls k r rs h e valid counted =
      let (sh, now) = shared-run R calls s (empty_shared R) h in
      rw
        (
          server_zone_stats-shared R L F g sh k (ap (shared R) e ∙ now),
          valid,
          e,
          server_counters-run R L calls s k h,
          counted,
        )
        refl

  -- For every lawful map of the slab pool: after any trace of calls of any workers from published
  -- empty tables, a reader of the status page of any worker finds, for a zone with a request that
  -- counts, the number of the requests that count for it, modulo 2 ^ 64. The zone name is UTF-8; the
  -- host name and all names on the page have no quotes, backslashes and newlines; floats print as
  -- digits and signs or as the names of the special values, and quotients by 1000 exactly up to 10.
  pub requests_shown-run :
      (o : Outside) (g : Globals R) (s : ShmState R) (calls : List Call) (k : Bytes) (r : Request)
      (rs : List Request)
      → ((x : F.Carrier) (digits : ℕ) → is_float (F.to_fixed x digits) ≡ true)
      → ((n : ℕ) → n ≤ 10000 → F.to_fixed (thousandth F (F.of_u64 n)) 3 ≡ in_seconds n)
      → all_of is_plain (get_hostname o.hostname) ≡ true
      → PlainKeys (server_zone_stats R F (vts_collect_nginx_connections R o.process o.ngx_cycle g))
      → PlainGroups (upstream_zones R F (vts_collect_nginx_connections R o.process o.ngx_cycle g))
      → PlainNames (cache_zones R F (vts_collect_nginx_connections R o.process o.ngx_cycle g))
      → shared R s ≡ some (empty_shared R)
      → g.shm ≡ run R calls s
      → is_utf8 k ≡ true
      → server_history k calls ≡ r ∷ rs
      → requests_shown k (generate_vts_status_content R F o g).0
        ≡ some (length (server_history k calls) % u64_mod)
  requests_shown-run o g s calls k r rs ff fs hh hs hu hc h e valid counted =
      let g' : Globals R = vts_collect_nginx_connections R o.process o.ngx_cycle g in
      let stats = stats-run g' s calls k r rs h (shm-collect R F o g ∙ e) valid counted in
      requests_shown-eq k (generate_vts_status_content R F o g).0 _ (length (r ∷ rs) % u64_mod)
        (read_page-generate_vts_status_content R F o g ff fs hh hs hu hc)
        (lookup-page_samples R F (get_hostname o.hostname) k g'
            (Server.into_stats F (summary (r ∷ rs))) stats
          ∙ ap (λ n. some (decimal n)) (into_stats-requests R F (r ∷ rs)))
        (small (length (r ∷ rs)))
      ∙ ap (λ history. some (length history % u64_mod)) (sym counted)
