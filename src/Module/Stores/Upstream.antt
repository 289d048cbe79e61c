-- ===== src/Module/Stores/Upstream.antt =====
-- Upstream requests as calls of the entry point (lib.rs), with a shared zone and without one.
pub mod Laws
use mathlib.Core.Option
use ngx_vts.Prelude.{
  ℕ, Bytes, codes, is_utf8, Option, none, some, List, [], ◌∷◌, ◌&&◌, ◌≡◌, true, refl, sym, false,
  ap, ◌∙◌, arith, eqb, eqb_iff, All, if◌then◌else◌, Bool-cases, Option-cases, inl, inr,
}
use ngx_vts.Float.{F64}
use ngx_vts.HashMap
use ngx_vts.UpstreamStats.{UpstreamServerStats, UpstreamZone, new_server}
use ngx_vts.Shm.Upstream
use ngx_vts.Shm.Upstream.History.{UpstreamRequest, summary, update-summary}
use ngx_vts.Shm.Keys.{NulFree, upstream_key_bytes, upstream_key_bytes_inj}
use ngx_vts.Shm.Table.{RbTreeMap, IsLawful}
use ngx_vts.Shm.Record.{VtsShared, shared, record_upstream}
use ngx_vts.Shm.Record.Laws.{upstream_counters}
use ngx_vts.Shm.Init.{empty_shared}
use ngx_vts.Shm.Snapshot.{snapshot_upstreams}
use ngx_vts.Shm.Snapshot.Laws.{server_in, server_in-build_upstream_snapshot}
use ngx_vts.Shm.Trace
use ngx_vts.Shm.Trace.{Call, accept, fits, stored, upstream_history}
use ngx_vts.Shm.Trace.Laws.{shared-run, upstream_counters-run}
use ngx_vts.Manager
use ngx_vts.Manager.{record_request}
use ngx_vts.Manager.Counters.{into_stats-update, into_stats-new}
use ngx_vts.Manager.Laws.{server_in-update_upstream_stats}
use ngx_vts.Module.{Globals, Time, to_str_or, calculate_request_time, vts_track_upstream_request}
use ngx_vts.Module.Laws.{vts_track_upstream_request_lem}
use ngx_vts.Module.Stores.{roomy, accept-roomy}
use ngx_vts.Prometheus.Status.{upstream_zones}

-- The arguments of a call of `vts_track_upstream_request`, whose names are not null, and the clock.
pub record Tracked : Type 0 where
  pub upstream : Bytes
  pub server : Bytes
  pub start_sec : ℕ
  pub start_msec : ℕ
  pub tp : Time
  pub response_time : ℕ
  pub bytes_sent : ℕ
  pub bytes_received : ℕ
  pub status : ℕ

unfoldable pub request : Tracked → UpstreamRequest
request c = record {
  request_time = calculate_request_time c.tp c.start_sec c.start_msec;
  response_time = c.response_time;
  bytes_sent = c.bytes_sent;
  bytes_received = c.bytes_received;
  status = c.status;
}

-- Names that both stores keep: UTF-8, of 1 to 256 bytes, and without a NUL byte, as a C string is.
abbrev pub IsNamed : Tracked → Type 0
IsNamed c =
    (is_utf8 c.upstream ≡ true)
    × (is_utf8 c.server ≡ true)
    × (fits c.upstream ≡ true)
    × (fits c.server ≡ true)
    × NulFree c.upstream

-- The requests of a server of a group, newest first.
abbrev pub requests_of : Bytes → Bytes → List Tracked → List UpstreamRequest
requests_of u s [] = []
requests_of u s (c ∷ cs) =
    if eqb u c.upstream && eqb s c.server
    then request c ∷ requests_of u s cs
    else requests_of u s cs

abbrev pub to_calls : List Tracked → List Call
to_calls [] = []
to_calls (c ∷ cs) = Call.upstream c.upstream c.server (request c) roomy ∷ to_calls cs

pub upstream_history-to_calls :
    (u s : Bytes) (cs : List Tracked)
    → NulFree u
    → All IsNamed cs
    → upstream_history (upstream_key_bytes u s) (to_calls cs) ≡ requests_of u s cs
upstream_history-to_calls u s [] _ _ = refl
upstream_history-to_calls u s (c ∷ cs) h (z, zs) =
    rw (upstream_history-to_calls u s cs h zs, accept-roomy (request c) (requests_of u s cs))
      (ground (
        arith,
        z,
        eqb_iff (upstream_key_bytes u s) (upstream_key_bytes c.upstream c.server),
        upstream_key_bytes_inj u s c.upstream c.server h z.4,
        eqb_iff u c.upstream,
        eqb_iff s c.server,
      ))

-- What a history shows of a server.
abbrev pub shown : Bytes → List UpstreamRequest → Option UpstreamServerStats
shown s rs = Option.map (λ c. Upstream.into_stats c s) (stored summary rs)

grown :
    (s : Bytes) (r : UpstreamRequest) (rs : List UpstreamRequest)
    → record_request
        (Upstream.into_stats (summary rs) s)
        r.request_time
        r.response_time
        r.bytes_sent
        r.bytes_received
        r.status
      ≡ Upstream.into_stats (summary (r ∷ rs)) s
grown s r rs =
    sym (
      into_stats-update (summary rs) s r.request_time r.response_time r.bytes_sent r.bytes_received
        r.status)
    ∙ ap (λ c. Upstream.into_stats c s) (update-summary r rs)

grow_local :
    (s : Bytes) (r : UpstreamRequest) (rs : List UpstreamRequest)
    → some (
        record_request
          (Option.get_or (shown s rs) (new_server s))
          r.request_time
          r.response_time
          r.bytes_sent
          r.bytes_received
          r.status)
      ≡ shown s (r ∷ rs)
unfolding Upstream.new
grow_local s r [] = rw (sym (into_stats-new s)) (ap some (grown s r []))
grow_local s r (x ∷ rs) = ap some (grown s r (x ∷ rs))

module _ (R : RbTreeMap) where
  -- A worker's entry point, called for each upstream request, the oldest first.
  unfoldable pub track : List Tracked → Globals R → Globals R
  track [] g = g
  track (c ∷ cs) g =
      vts_track_upstream_request R (track cs g) (some c.upstream) (some c.server) c.start_sec
        c.start_msec c.tp c.response_time c.bytes_sent c.bytes_received c.status roomy

  -- One call, for names that are UTF-8.
  track_one :
      (g : Globals R) (c : Tracked)
      → is_utf8 c.upstream ≡ true
      → is_utf8 c.server ≡ true
      → let r = request c in
        vts_track_upstream_request R g
          (some c.upstream)
          (some c.server)
          c.start_sec
          c.start_msec
          c.tp
          c.response_time
          c.bytes_sent
          c.bytes_received
          c.status
          roomy
        ≡ (elim (shared R g.shm) [
          | some _ ↦ record g {
            shm =
                (record_upstream R g.shm c.upstream c.server r.request_time r.response_time
                  r.bytes_sent r.bytes_received r.status roomy).0;
          }
          | none ↦ record g {
            vts_manager =
                Manager.update_upstream_stats g.vts_manager c.upstream c.server r.request_time
                  r.response_time r.bytes_sent r.bytes_received r.status;
          }
        ])
  unfolding request
  track_one g c hu hs =
      vts_track_upstream_request_lem R g c.upstream c.server c.start_sec c.start_msec c.tp
        c.response_time c.bytes_sent c.bytes_received c.status roomy
      ∙ elim (Option-cases (shared R g.shm)) [
        | inl absent ↦ rw (absent, hu, hs) refl
        | inr (sh, found) ↦ rw (found, hu, hs) refl
      ]

  pub track-shared :
      (cs : List Tracked) (g : Globals R) (sh : VtsShared R)
      → All IsNamed cs
      → shared R g.shm ≡ some sh
      → (track cs g).shm ≡ Trace.run R (to_calls cs) g.shm
  unfolding track Trace.run
  track-shared [] g sh _ h = refl
  track-shared (c ∷ cs) g sh (z, zs) h =
      let r = request c in
      let before : (track cs g).shm ≡ Trace.run R (to_calls cs) g.shm = track-shared cs g sh zs h in
      let (sh', e) = shared-run R (to_calls cs) g.shm sh h in
      rw (track_one (track cs g) c z.0 z.1, before, e)
        (ap
          (λ s.
            (record_upstream R s c.upstream c.server r.request_time r.response_time r.bytes_sent
              r.bytes_received r.status roomy).0)
          before)

  pub track_local :
      (cs : List Tracked) (g : Globals R) (u s : Bytes)
      → All IsNamed cs
      → shared R g.shm ≡ none
      → g.vts_manager.upstream_zones ≡ []
      → (shared R (track cs g).shm ≡ none)
        × (server_in (HashMap.get (track cs g).vts_manager.upstream_zones u) s
            ≡ shown s (requests_of u s cs))
  unfolding track HashMap.get
  track_local [] g u s _ h e = (h, rw e refl)
  track_local (c ∷ cs) g u s (z, zs) h e =
      let r = request c in
      let (unset, at_us) = track_local cs g u s zs h e in
      rw (track_one (track cs g) c z.0 z.1, unset)
        (
          unset,
          ground (
            arith,
            server_in-update_upstream_stats (track cs g).vts_manager c.upstream c.server
                r.request_time r.response_time r.bytes_sent r.bytes_received r.status u s,
            (track_local cs g c.upstream c.server zs h e).1,
            at_us,
            grow_local c.server r (requests_of c.upstream c.server cs),
            eqb_iff u c.upstream,
            eqb_iff s c.server,
          ),
        )
