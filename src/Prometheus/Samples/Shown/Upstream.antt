-- ===== src/Prometheus/Samples/Shown/Upstream.antt =====
-- From the upstream requests that any workers record (src/shm.rs) to the number on the status page.
use mathlib.Core.Option
use mathlib.Core.List.{append_assoc}
use ngx_vts.Prelude.{
  ℕ, ◌≡◌, ◌≤◌, ◌<◌, ◌%◌, ◌^◌, refl, sym, ap, ◌∙◌, Bytes, codes, decimal, eqb, read_decimal,
  read_decimal-decimal, is_utf8, Option, none, some, true, List, [], ◌∷◌, ◌++◌, all_of, length,
  u64_mod, arith, ◌&&◌,
}
use ngx_vts.Float.{F64}
use ngx_vts.HashMap
use ngx_vts.HashMap.{HashMap}
use ngx_vts.UpstreamStats.{UpstreamZone, UpstreamServerStats}
use ngx_vts.Stats.{VtsServerStats}
use ngx_vts.Shm.Upstream
use ngx_vts.Shm.Upstream.History.{UpstreamRequest, summary}
use ngx_vts.Shm.Keys.{NulFree, upstream_key_bytes}
use ngx_vts.Shm.Table.{RbTreeMap, IsLawful}
use ngx_vts.Shm.Record.{ShmState, shared}
use ngx_vts.Shm.Init.{empty_shared}
use ngx_vts.Shm.Snapshot.Laws.{server_in}
use ngx_vts.Shm.Trace.{Call, run, upstream_history}
use ngx_vts.Shm.Trace.Laws.{shared-run, upstream_counters-run}
use ngx_vts.Module.{Globals}
use ngx_vts.Module.Connections.{vts_collect_nginx_connections}
use ngx_vts.Module.Stores.Upstream.Laws.{upstream_zones-shared}
use ngx_vts.Prometheus.Upstream.{thousandth}
use ngx_vts.Prometheus.Status.{
  Outside, get_hostname, server_zone_stats, upstream_zones, cache_zones,
  generate_vts_status_content,
}
use ngx_vts.Prometheus.Reader.{Sample, samples_of, read_page}
use ngx_vts.Prometheus.Reader.Laws.{is_plain, is_float}
use ngx_vts.Prometheus.Reader.Pages.{PlainKeys}
use ngx_vts.Prometheus.Lines.{default_prefix}
use ngx_vts.Prometheus.Samples.Server.{
  request_samples, byte_samples, response_samples, second_samples, server_samples,
}
use ngx_vts.Prometheus.Samples.Connections.{connection_samples}
use ngx_vts.Prometheus.Samples.Upstream.{server_labels, upstream_samples}
use ngx_vts.Prometheus.Samples.Upstream.Buckets.{in_seconds}
use ngx_vts.Prometheus.Samples.Upstream.Laws.{PlainGroups}
use ngx_vts.Prometheus.Samples.Cache.{PlainNames}
use ngx_vts.Prometheus.Samples.Page.{
  info_samples, group_samples, page_samples, read_page-generate_vts_status_content,
}
use ngx_vts.Prometheus.Samples.Lookup.{lookup, lookup-append, lookup-samples_of, lookup-server_rows}
use ngx_vts.Prometheus.Samples.Shown.{shm-collect, small}

abbrev requests_total : Bytes
requests_total = codes "nginx_vts_upstream_requests_total"

-- The number of requests that a page shows for a server of an upstream group.
unfoldable pub upstream_requests_shown : Bytes → Bytes → Bytes → Option ℕ
unfolding lookup
upstream_requests_shown u s page = elim (read_page page) [
  | none ↦ none
  | some samples ↦
      Option.map (read_decimal 0) (lookup requests_total (server_labels u s []) samples)
]

upstream_requests_shown-eq :
    (u s page : Bytes) (samples : List Sample) (n : ℕ)
    → read_page page ≡ some samples
    → lookup requests_total (server_labels u s []) samples ≡ some (decimal n)
    → n < 10 ^ 20
    → upstream_requests_shown u s page ≡ some n
unfolding upstream_requests_shown
upstream_requests_shown-eq u s page samples n h e small =
    rw (upstream_requests_shown, h, e) (ap some (read_decimal-decimal n small))

module _ (F : F64) (u s : Bytes) where
  -- The families of the server zones have other names.
  lookup-server_samples :
      (zones : HashMap (VtsServerStats F)) (rest : List Sample)
      → lookup requests_total (server_labels u s []) (server_samples F default_prefix zones ++ rest)
        ≡ lookup requests_total (server_labels u s []) rest
  unfolding lookup eqb server_samples request_samples byte_samples response_samples second_samples
  lookup-server_samples zones rest =
      let labels = server_labels u s [] in
      let skip : (f : Bytes × VtsServerStats F → List Sample) (more : List Sample)
          → ((z : Bytes × VtsServerStats F) → lookup requests_total labels (f z) ≡ none)
          → lookup requests_total labels (samples_of f zones ++ more)
            ≡ lookup requests_total labels more =
        λ f more other.
          lookup-append requests_total labels (samples_of f zones) more
            (lookup-samples_of requests_total labels f zones other) in
      let name : Bytes → Bytes = λ family. default_prefix ++ family in
      rw append_assoc (
        skip (request_samples F (name (codes "server_requests_total"))) _ (λ z. refl)
        ∙ rw append_assoc (
            skip (byte_samples F (name (codes "server_bytes_total"))) _ (λ z. refl)
            ∙ rw append_assoc (
                skip (response_samples F (name (codes "server_responses_total"))) _ (λ z. refl)
                ∙ skip (second_samples F (name (codes "server_request_seconds"))) rest
                    (λ z. refl))))

  lookup-group_samples :
      (zones : HashMap UpstreamZone) (rest : List Sample) (stats : UpstreamServerStats)
      → server_in (HashMap.get zones u) s ≡ some stats
      → lookup requests_total (server_labels u s []) (group_samples F zones ++ rest)
        ≡ some (decimal stats.request_counter)
  unfolding group_samples upstream_samples HashMap.get
  lookup-group_samples [] rest stats h = absurd (ground arith)
  lookup-group_samples (g ∷ gs) rest stats h =
      rw append_assoc (lookup-server_rows requests_total u s (g ∷ gs) _ stats h)

  lookup-page_samples :
      (R : RbTreeMap) (hostname : Bytes) (g : Globals R) (stats : UpstreamServerStats)
      → server_in (HashMap.get (upstream_zones R F g) u) s ≡ some stats
      → lookup requests_total (server_labels u s []) (page_samples R F hostname g)
        ≡ some (decimal stats.request_counter)
  unfolding page_samples lookup eqb info_samples connection_samples
  lookup-page_samples R hostname g stats h =
      lookup-server_samples (server_zone_stats R F g) _
      ∙ lookup-group_samples (upstream_zones R F g) _ stats h

into_stats-requests :
    (s : Bytes) (rs : List UpstreamRequest)
    → (Upstream.into_stats (summary rs) s).request_counter ≡ length rs % u64_mod
unfolding Upstream.into_stats
into_stats-requests s rs = refl

module _ (R : RbTreeMap) (L : IsLawful R) (F : F64) where
  -- What the page of a worker shows of a server after a trace.
  stats-run :
      (g : Globals R) (st : ShmState R) (calls : List Call) (u s : Bytes) (r : UpstreamRequest)
      (rs : List UpstreamRequest)
      → NulFree u
      → shared R st ≡ some (empty_shared R)
      → g.shm ≡ run R calls st
      → (is_utf8 u && is_utf8 s) ≡ true
      → upstream_history (upstream_key_bytes u s) calls ≡ r ∷ rs
      → server_in (HashMap.get (upstream_zones R F g) u) s
        ≡ some (Upstream.into_stats (summary (r ∷ rs)) s)
  stats-run g st calls u s r rs hu h e valid counted =
      let (sh, now) = shared-run R calls st (empty_shared R) h in
      rw
        (
          upstream_zones-shared R L F g sh u s hu (ap (shared R) e ∙ now),
          valid,
          e,
          upstream_counters-run R L calls st (upstream_key_bytes u s) h,
          counted,
        )
        refl

  -- For every lawful map of the slab pool: after any trace of calls of any workers from published
  -- empty tables, a reader of the status page of any worker finds, for a server of an upstream group
  -- with a request that counts, the number of the requests that count for it, modulo 2 ^ 64. The two
  -- names are UTF-8, and the group's has no NUL byte; the host name and all names on the page have no
  -- quotes, backslashes and newlines; floats print as digits and signs or as the names of the special
  -- values, and quotients by 1000 exactly up to 10.
  pub upstream_requests_shown-run :
      (o : Outside) (g : Globals R) (st : ShmState R) (calls : List Call) (u s : Bytes)
      (r : UpstreamRequest) (rs : List UpstreamRequest)
      → ((x : F.Carrier) (digits : ℕ) → is_float (F.to_fixed x digits) ≡ true)
      → ((n : ℕ) → n ≤ 10000 → F.to_fixed (thousandth F (F.of_u64 n)) 3 ≡ in_seconds n)
      → all_of is_plain (get_hostname o.hostname) ≡ true
      → PlainKeys (server_zone_stats R F (vts_collect_nginx_connections R o.process o.ngx_cycle g))
      → PlainGroups (upstream_zones R F (vts_collect_nginx_connections R o.process o.ngx_cycle g))
      → PlainNames (cache_zones R F (vts_collect_nginx_connections R o.process o.ngx_cycle g))
      → NulFree u
      → shared R st ≡ some (empty_shared R)
      → g.shm ≡ run R calls st
      → (is_utf8 u && is_utf8 s) ≡ true
      → upstream_history (upstream_key_bytes u s) calls ≡ r ∷ rs
      → upstream_requests_shown u s (generate_vts_status_content R F o g).0
        ≡ some (length (upstream_history (upstream_key_bytes u s) calls) % u64_mod)
  upstream_requests_shown-run o g st calls u s r rs ff fs hh hs hg hc hu h e valid counted =
      let g' : Globals R = vts_collect_nginx_connections R o.process o.ngx_cycle g in
      let stats = stats-run g' st calls u s r rs hu h (shm-collect R F o g ∙ e) valid counted in
      upstream_requests_shown-eq u s (generate_vts_status_content R F o g).0 _
        (length (r ∷ rs) % u64_mod)
        (read_page-generate_vts_status_content R F o g ff fs hh hs hg hc)
        (lookup-page_samples F u s R (get_hostname o.hostname) g'
            (Upstream.into_stats (summary (r ∷ rs)) s) stats
          ∙ ap (λ n. some (decimal n)) (into_stats-requests s (r ∷ rs)))
        (small (length (r ∷ rs)))
      ∙ ap (λ history. some (length history % u64_mod)) (sym counted)
