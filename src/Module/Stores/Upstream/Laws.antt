-- ===== src/Module/Stores/Upstream/Laws.antt =====
-- What the two stores of upstream requests show (lib.rs, src/prometheus/mod.rs).
use mathlib.Core.Option
use ngx_vts.Prelude.{
  Bytes, is_utf8, none, some, List, [], ◌∷◌, ◌&&◌, ◌≡◌, refl, false, ap, ◌∙◌, arith, eqb_iff, All,
  if◌then◌else◌, Bool-cases, inl, inr,
}
use ngx_vts.Float.{F64}
use ngx_vts.HashMap
use ngx_vts.Shm.Upstream
use ngx_vts.Shm.Keys.{NulFree, upstream_key_bytes}
use ngx_vts.Shm.Table.{RbTreeMap, IsLawful}
use ngx_vts.Shm.Record.{VtsShared, shared}
use ngx_vts.Shm.Record.Laws.{upstream_counters}
use ngx_vts.Shm.Init.{empty_shared}
use ngx_vts.Shm.Snapshot.{snapshot_upstreams}
use ngx_vts.Shm.Snapshot.Laws.{server_in, server_in-build_upstream_snapshot}
use ngx_vts.Shm.Trace
use ngx_vts.Shm.Trace.{Call, accept, fits, stored, upstream_history}
use ngx_vts.Shm.Trace.Laws.{shared-run, upstream_counters-run}
use ngx_vts.Manager
use ngx_vts.Manager.{record_request}
use ngx_vts.Module.{Globals}
use ngx_vts.Prometheus.Status.{upstream_zones}
use ngx_vts.Module.Stores.Upstream.{
  IsNamed, requests_of, to_calls, upstream_history-to_calls, track, track-shared, track_local,
  Tracked,
}

module _ (R : RbTreeMap) (L : IsLawful R) (F : F64) where
  pub upstream_zones-shared :
      (g : Globals R) (sh : VtsShared R) (u s : Bytes)
      → NulFree u
      → shared R g.shm ≡ some sh
      → server_in (HashMap.get (upstream_zones R F g) u) s ≡ (
          if is_utf8 u && is_utf8 s
          then Option.map
              (λ c. Upstream.into_stats c s)
              (upstream_counters R g.shm (upstream_key_bytes u s))
          else none)
  unfolding upstream_zones snapshot_upstreams
  upstream_zones-shared g sh u s hu h = rw (
    h,
    server_in-build_upstream_snapshot (R.entries sh.upstreams) u s hu
        (L.entries-NodupKeys sh.upstreams),
    L.get-entries sh.upstreams (upstream_key_bytes u s),
  )

  upstream_zones-local :
      (g : Globals R) → shared R g.shm ≡ none → upstream_zones R F g ≡ g.vts_manager.upstream_zones
  unfolding upstream_zones snapshot_upstreams Manager.get_all_upstream_zones
  upstream_zones-local g h = rw h refl

requests_of-eq-nil :
    (u s : Bytes) (cs : List Tracked)
    → All IsNamed cs
    → (is_utf8 u && is_utf8 s) ≡ false
    → requests_of u s cs ≡ []
requests_of-eq-nil u s [] _ _ = refl
requests_of-eq-nil u s (c ∷ cs) (z, zs) e =
    ground (arith, z, eqb_iff u c.upstream, eqb_iff s c.server, requests_of-eq-nil u s cs zs e)

module _ (R : RbTreeMap) (L : IsLawful R) (F : F64) where
  -- For every lawful map of the slab pool: a worker with published empty tables that have room, and a
  -- worker with none published and no upstream groups, show the same statistics of every server of
  -- every group after the same upstream requests, if the names are UTF-8, of 1 to 256 bytes, and the
  -- names of the groups have no NUL byte.
  pub server_in-track :
      (cs : List Tracked) (g g' : Globals R) (u s : Bytes)
      → NulFree u
      → All IsNamed cs
      → shared R g.shm ≡ some (empty_shared R)
      → shared R g'.shm ≡ none
      → g'.vts_manager.upstream_zones ≡ []
      → server_in (HashMap.get (upstream_zones R F (track R cs g)) u) s
        ≡ server_in (HashMap.get (upstream_zones R F (track R cs g')) u) s
  server_in-track cs g g' u s hu z h h' e =
      let before : (track R cs g).shm ≡ Trace.run R (to_calls cs) g.shm =
        track-shared R cs g (empty_shared R) z h in
      let (sh, now) = shared-run R (to_calls cs) g.shm (empty_shared R) h in
      let (unset, at_us) = track_local R cs g' u s z h' e in
      rw
        (
          upstream_zones-shared R L F (track R cs g) sh u s hu (ap (shared R) before ∙ now),
          upstream_zones-local R L F (track R cs g') unset,
          at_us,
          before,
          upstream_counters-run R L (to_calls cs) g.shm (upstream_key_bytes u s) h,
          upstream_history-to_calls u s cs hu z,
        )
        (elim (Bool-cases (is_utf8 u && is_utf8 s)) [
          | inl valid ↦ rw valid refl
          | inr invalid ↦ rw (invalid, requests_of-eq-nil u s cs z invalid) refl
        ])
