-- ===== src/Module/Stores.antt =====
-- The two stores agree: a worker with a shared zone and room in it, and a worker without one, show
-- the same server zones after the same requests.
pub mod Upstream
pub mod Cache
use mathlib.Core.Option
use ngx_vts.Prelude.{
  Bytes, is_utf8, none, some, true, false, List, [], ◌∷◌, ◌≡◌, refl, ap, ◌∙◌, arith, Bool-cases,
  inl, inr, eqb, eqb_iff, All, if◌then◌else◌,
}
use ngx_vts.Float.{F64}
use ngx_vts.HashMap
use ngx_vts.Shm.Server
use ngx_vts.Shm.Server.History.{Request, summary, update-summary}
use ngx_vts.Shm.Table.{RbTreeMap, IsLawful}
use ngx_vts.Shm.Record.{Room, VtsShared, shared, record_server}
use ngx_vts.Shm.Record.Laws.{server_counters}
use ngx_vts.Shm.Init.{empty_shared}
use ngx_vts.Shm.Snapshot.{snapshot_servers}
use ngx_vts.Shm.Snapshot.Laws.{get-build_server_snapshot}
use ngx_vts.Shm.Trace
use ngx_vts.Shm.Trace.{Call, accept, fits, stored, server_history}
use ngx_vts.Shm.Trace.Laws.{shared-run, server_counters-run}
use ngx_vts.Manager
use ngx_vts.Manager.{VtsStatsManager}
use ngx_vts.Manager.Laws.{get-update_server_stats}
use ngx_vts.Module.{Globals, vts_update_server_stats_ffi}
use ngx_vts.Module.Laws.{vts_update_server_stats_ffi_lem}
use ngx_vts.Prometheus.Status.{server_zone_stats}

-- Memory for every key and node.
abbrev pub roomy : Room
roomy = record { key = true; node = true }

-- The requests of a name, newest first.
abbrev pub requests_of : Bytes → List (Bytes × Request) → List Request
requests_of k [] = []
requests_of k ((name, r) ∷ rs) = if eqb k name then r ∷ requests_of k rs else requests_of k rs

-- A server name that both stores keep: UTF-8, of 1 to 256 bytes.
abbrev pub IsZoneName : Bytes × Request → Type 0
IsZoneName (name, _) = (is_utf8 name ≡ true) × (fits name ≡ true)

-- A trace of recordings, one for each request.
abbrev to_calls : List (Bytes × Request) → List Call
to_calls [] = []
to_calls ((name, r) ∷ rs) = Call.server name r roomy ∷ to_calls rs

pub accept-roomy {ℓ} : {A : Type ℓ} (r : A) (rs : List A) → accept roomy r rs ≡ r ∷ rs
accept-roomy r [] = refl
accept-roomy r (x ∷ rs) = refl

server_history-to_calls :
    (k : Bytes) (rs : List (Bytes × Request))
    → All IsZoneName rs
    → server_history k (to_calls rs) ≡ requests_of k rs
server_history-to_calls k [] _ = refl
server_history-to_calls k ((name, r) ∷ rs) (h, hs) =
    rw (server_history-to_calls k rs hs, accept-roomy r (requests_of k rs), h.1) (ground arith)

requests_of-eq-nil :
    (k : Bytes) (rs : List (Bytes × Request))
    → All IsZoneName rs
    → is_utf8 k ≡ false
    → requests_of k rs ≡ []
requests_of-eq-nil k [] _ _ = refl
requests_of-eq-nil k ((name, r) ∷ rs) (h, hs) e =
    ground (arith, eqb_iff k name, requests_of-eq-nil k rs hs e)

-- A local entry after one more request.
grow_local :
    (r : Request) (rs : List Request)
    → some (
        Server.update
          (Option.get_or (stored summary rs) Server.new)
          r.status
          r.bytes_in
          r.bytes_out
          r.request_time)
      ≡ stored summary (r ∷ rs)
unfolding Server.new
grow_local r [] = ap some (update-summary r [])
grow_local r (x ∷ rs) = ap some (update-summary r (x ∷ rs))

module _ (R : RbTreeMap) where
  -- A worker's entry point, called for each request, the oldest first.
  unfoldable pub serve : List (Bytes × Request) → Globals R → Globals R
  serve [] g = g
  serve ((name, r) ∷ rs) g =
      vts_update_server_stats_ffi R (serve rs g) (some name) r.status r.bytes_in r.bytes_out
        r.request_time roomy

  serve-shared :
      (rs : List (Bytes × Request)) (g : Globals R) (sh : VtsShared R)
      → All IsZoneName rs
      → shared R g.shm ≡ some sh
      → (serve rs g).shm ≡ Trace.run R (to_calls rs) g.shm
  unfolding serve Trace.run
  serve-shared [] g sh _ h = refl
  serve-shared ((name, r) ∷ rs) g sh (z, zs) h =
      let before : (serve rs g).shm ≡ Trace.run R (to_calls rs) g.shm = serve-shared rs g sh zs h in
      let (sh', e) = shared-run R (to_calls rs) g.shm sh h in
      rw
        (
          vts_update_server_stats_ffi_lem R (serve rs g) name r.status r.bytes_in r.bytes_out
              r.request_time roomy,
          z.0,
          before,
          e,
        )
        (ap (λ s. (record_server R s name r.status r.bytes_in r.bytes_out r.request_time roomy).0)
          before)

  serve_local :
      (rs : List (Bytes × Request)) (g : Globals R) (k : Bytes)
      → All IsZoneName rs
      → shared R g.shm ≡ none
      → g.vts_manager.stats ≡ []
      → (shared R (serve rs g).shm ≡ none)
        × (HashMap.get (serve rs g).vts_manager.stats k ≡ stored summary (requests_of k rs))
  unfolding serve HashMap.get
  serve_local [] g k _ h e = (h, rw e)
  serve_local ((name, r) ∷ rs) g k (z, zs) h e =
      let (unset, at_k) = serve_local rs g k zs h e in
      rw
        (
          vts_update_server_stats_ffi_lem R (serve rs g) name r.status r.bytes_in r.bytes_out
              r.request_time roomy,
          z.0,
          unset,
        )
        (
          unset,
          ground (
            arith,
            get-update_server_stats (serve rs g).vts_manager name r.status r.bytes_in r.bytes_out
                r.request_time k,
            (serve_local rs g name zs h e).1,
            at_k,
            grow_local r (requests_of name rs),
            eqb_iff k name,
          ),
        )

module _ (R : RbTreeMap) (L : IsLawful R) (F : F64) where
  -- What the page shows of a zone where the shared tables are configured.
  pub server_zone_stats-shared :
      (g : Globals R) (sh : VtsShared R) (k : Bytes)
      → shared R g.shm ≡ some sh
      → HashMap.get (server_zone_stats R F g) k
        ≡ (if is_utf8 k then Option.map (Server.into_stats F) (server_counters R g.shm k) else none)
  unfolding server_zone_stats snapshot_servers
  server_zone_stats-shared g sh k h = rw (
    h,
    get-build_server_snapshot F (R.entries sh.servers) k (L.entries-NodupKeys sh.servers),
    L.get-entries sh.servers k,
  )

  -- What it shows where they are not.
  server_zone_stats-local :
      (g : Globals R) (k : Bytes)
      → shared R g.shm ≡ none
      → HashMap.get (server_zone_stats R F g) k
        ≡ Option.map (Server.into_stats F) (HashMap.get g.vts_manager.stats k)
  unfolding server_zone_stats snapshot_servers Manager.get_all_server_stats
  server_zone_stats-local g k h =
      rw h (HashMap.get-map_values (Server.into_stats F) g.vts_manager.stats k)

  -- For every lawful map of the slab pool: a worker with published empty tables that have room,
  -- and a worker with none published and no server statistics, show the same statistics of every
  -- zone after the same requests, if the server names are UTF-8 and of 1 to 256 bytes.
  pub server_zone_stats-serve :
      (rs : List (Bytes × Request)) (g g' : Globals R) (k : Bytes)
      → All IsZoneName rs
      → shared R g.shm ≡ some (empty_shared R)
      → shared R g'.shm ≡ none
      → g'.vts_manager.stats ≡ []
      → HashMap.get (server_zone_stats R F (serve R rs g)) k
        ≡ HashMap.get (server_zone_stats R F (serve R rs g')) k
  server_zone_stats-serve rs g g' k z h h' e =
      let before : (serve R rs g).shm ≡ Trace.run R (to_calls rs) g.shm =
        serve-shared R rs g (empty_shared R) z h in
      let (sh, now) = shared-run R (to_calls rs) g.shm (empty_shared R) h in
      let (unset, at_k) = serve_local R rs g' k z h' e in
      rw
        (
          server_zone_stats-shared (serve R rs g) sh k (ap (shared R) before ∙ now),
          server_zone_stats-local (serve R rs g') k unset,
          at_k,
          before,
          server_counters-run R L (to_calls rs) g.shm k h,
          server_history-to_calls k rs z,
        )
        (elim (Bool-cases (is_utf8 k)) [
          | inl valid ↦ rw valid
          | inr invalid ↦ rw (invalid, requests_of-eq-nil k rs z invalid)
        ])
