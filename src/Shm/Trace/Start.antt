-- ===== src/Shm/Trace/Start.antt =====
-- src/shm.rs: traces from the very start, before any zone is published.
use ngx_vts.Prelude.{
  Bytes, Option, none, some, is_some, List, [], ◌∷◌, ◌&&◌, Bool, true, false, ◌≡◌, refl, sym, ap,
  ◌∙◌, arith, inl, inr, Option-cases, Bool-cases, if◌then◌else◌,
}
use ngx_vts.Shm.Server.History as Server
use ngx_vts.Shm.Upstream.History as Upstream
use ngx_vts.Shm.Cache.History as Cache
use ngx_vts.Shm.Table.{RbTreeMap, IsLawful}
use ngx_vts.Shm.Record.{
  VtsShared, ShmState, is_configured, shared, record_server, record_upstream, record_cache,
}
use ngx_vts.Shm.Record.Laws.{server_counters, upstream_counters, cache_counters}
use ngx_vts.Shm.Init.{Attempts, empty_shared, vts_init_shm_zone}
use ngx_vts.Shm.Trace.{
  Call, server, upstream, cache, reload, run, stored, server_history, upstream_history,
  cache_history,
}
use ngx_vts.Shm.Trace.Laws.{
  shared-run, server_counters-run, upstream_counters-run, cache_counters-run,
}

-- Whether a call is an initialization with memory for the three maps and the root.
abbrev pub is_start : Call → Bool
is_start (reload a) = a.servers && (a.upstreams && (a.caches && a.root))
is_start _ = false

-- The calls after the first initialization that succeeds, if there is one.
abbrev pub after_start : List Call → Option (List Call)
after_start [] = none
after_start (c ∷ calls) = elim (after_start calls) [
  | some live ↦ some (c ∷ live)
  | none ↦ if is_start c then some [] else none
]

module _ (R : RbTreeMap) where
  -- Before the first initialization: the static pointer is null, and the pool holds nothing.
  abbrev pub fresh : ShmState R
  fresh = record { object = none; zone_data = false; published = false }

  abbrev pub booted : ShmState R
  booted = record { object = some (empty_shared R); zone_data = true; published = true }

  -- The first initialization that succeeds.
  fresh-init :
      (a : Attempts)
      → (vts_init_shm_zone R false true a fresh).0 ≡ (if is_start (reload a) then booted else fresh)
  unfolding vts_init_shm_zone
  fresh-init a = ground arith

  -- Nothing is recorded before it.
  fresh-step : (c : Call) → run R (c ∷ []) fresh ≡ (if is_start c then booted else fresh)
  unfolding run record_server record_upstream record_cache shared
  fresh-step (server name r room) = refl
  fresh-step (upstream name addr r room) = refl
  fresh-step (cache zone o room) = refl
  fresh-step (reload a) = fresh-init a

  -- A trace depends on the state that it starts from only through its first call.
  pub run-cons :
      (c : Call) (calls : List Call) (s : ShmState R)
      → run R (c ∷ calls) s ≡ run R (c ∷ []) (run R calls s)
  unfolding run
  run-cons (server name r room) calls s = refl
  run-cons (upstream name addr r room) calls s = refl
  run-cons (cache zone o room) calls s = refl
  run-cons (reload a) calls s = refl

  run-nil : (s : ShmState R) → run R [] s ≡ s
  unfolding run
  run-nil s = refl

  run-fresh :
      (calls : List Call)
      → run R calls fresh
        ≡ elim (after_start calls) [ none ↦ fresh | some live ↦ run R live booted ]
  run-fresh [] = run-nil fresh
  run-fresh (c ∷ calls) =
      run-cons c calls fresh
      ∙ ap (run R (c ∷ [])) (run-fresh calls)
      ∙ (elim (Option-cases (after_start calls)) [
        | inl early ↦ rw early (
            fresh-step c ∙ (elim (Bool-cases (is_start c)) [
              | inl up ↦ rw up (sym (run-nil booted))
              | inr down ↦ rw down refl
            ]))
        | inr (live, up) ↦ rw up (sym (run-cons c live booted))
      ])

  shared-fresh : shared R fresh ≡ none
  unfolding shared
  shared-fresh = refl

  pub shared-booted : shared R booted ≡ some (empty_shared R)
  unfolding shared
  shared-booted = refl

  published_of_shared :
      (s : ShmState R) (sh : VtsShared R) → shared R s ≡ some sh → s.published ≡ true
  unfolding shared
  published_of_shared s sh h = ground arith

-- The summary of the history of the calls after the start, if there is one.
abbrev pub stored_after {ℓ κ} :
    {A : Type ℓ} {V : Type κ} → (List A → V) → (List Call → List A) → Option (List Call) → Option V
stored_after summary history none = none
stored_after summary history (some live) = stored summary (history live)

module _ (R : RbTreeMap) (L : IsLawful R) where
  -- For every lawful map of the slab pool: from a zone that was never initialized, and after any trace
  -- of recordings and initializations, the shared tables are in use exactly if an initialization had
  -- memory for its four parts, and then the entry of every key in each of the three tables is the
  -- summary of the calls after the first such initialization that count for the key, and is missing
  -- if there is none. What was recorded before is in no table.
  pub counters-run-fresh :
      (calls : List Call) (k : Bytes)
      → (is_configured R (run R calls (fresh R)) ≡ is_some (after_start calls))
        × (server_counters R (run R calls (fresh R)) k
            ≡ stored_after Server.summary (server_history k) (after_start calls))
        × (upstream_counters R (run R calls (fresh R)) k
            ≡ stored_after Upstream.summary (upstream_history k) (after_start calls))
        × (cache_counters R (run R calls (fresh R)) k
            ≡ stored_after Cache.summary (cache_history k) (after_start calls))
  unfolding is_configured shared
  counters-run-fresh calls k = elim (Option-cases (after_start calls)) [
    | inl early ↦ rw (run-fresh R calls, early) (refl, refl, refl, refl)
    | inr (live, up) ↦
        let (sh, e) = shared-run R live (booted R) _ (shared-booted R) in
        rw (run-fresh R calls, up)
          (
            published_of_shared R (run R live (booted R)) sh e,
            server_counters-run R L live (booted R) k (shared-booted R),
            upstream_counters-run R L live (booted R) k (shared-booted R),
            cache_counters-run R L live (booted R) k (shared-booted R),
          )
  ]
