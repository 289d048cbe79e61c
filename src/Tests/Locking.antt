-- ===== src/Tests/Locking.antt =====
-- Two processes at the shared map of server zones, in one interleaving.
use mathlib.Core.WellFounded.{Acc}
use ngx_vts.Prelude.{
  eqb, List, get_elem?, ℕ, Bytes, codes, true, none, some, [], ◌∷◌, ◌≡◌, arith, refl, ap,
}
use ngx_vts.HashMap
use ngx_vts.Shm.Server.{ServerCounters}
use ngx_vts.Shm.Server.History.{Request, summary}
use ngx_vts.Shm.Trace.{Call, stored, server_history, upstream_history, cache_history}
use ngx_vts.Shm.Locking.Processes.{
  Job, Pc, Memory, Recording, Visit, Move, System, pick, start, Reach, here, later, replay,
}
use ngx_vts.Shm.Locking.Serial.{Reach-lookup, Reach-visited, get-Reach}
use ngx_vts.Shm.Locking.Progress.{is_busy, CanMove, no_deadlock}
use ngx_vts.Shm.Upstream.{UpstreamCounters}
use ngx_vts.Shm.Cache.{CacheCounters}
use ngx_vts.Shm.Upstream.History as UpstreamHistory
use ngx_vts.Shm.Cache.History as CacheHistory
use ngx_vts.Shm.Locking.Jobs.{server_job}
use ngx_vts.Shm.Locking.Termination.{Continue, IsQuietFrom, Acc-Continue}
use ngx_vts.Module.Stores.{roomy}
use ngx_vts.Instances.{list_map, list_map-IsLawful}
use ngx_vts.Instances.Guards.{guards, guards-IsExclusive, guards-IsLive}

abbrev Table : Type 0
Table = System list_map guards ServerCounters

abbrev Run : Type 0
Run = (s : Table) × Reach list_map guards ServerCounters (list_map.empty {V = ServerCounters}) s

abbrev turn :
    (r : Run) (i : ℕ) (m : Memory list_map guards ServerCounters) (p : Pc ServerCounters)
    → Move list_map guards ServerCounters i r.0.memory (r.0.pc i) m p
    → Run
turn r i m p mv = (_, later r.0 _ r.1 (pick i m p mv))

abbrev ok : Request
ok = record { status = 200; bytes_in = 10; bytes_out = 20; request_time = 3 }

abbrev job : Job ServerCounters
job = server_job (codes "a") ok roomy

-- Process 0 has the write guard, and process 1 waits for a read guard.
abbrev contended : Run
contended =
    let r0 : Run =
      (start list_map guards ServerCounters (list_map.empty {V = ServerCounters}), here) in
    let r1 : Run = turn r0 0 _ _ (Move.recording (Recording.call job)) in
    let r2 : Run = turn r1 0 _ _ (Move.recording (Recording.write job (some 0, []) (refl, refl))) in
    turn r2 1 _ _ (Move.visit Visit.snapshot)

-- Process 0 has recorded its request.
abbrev recorded : Run
recorded =
    let r1 : Run =
      turn contended 0 _ _
        (Move.recording (Recording.miss job (list_map-IsLawful.get-empty job.key))) in
    let r2 : Run = turn r1 0 _ _ (Move.recording (Recording.allocate job refl)) in
    turn r2 0 _ _ (Move.recording (Recording.insert job refl))

abbrev calls : List Call
calls = Call.server (codes "a") ok roomy ∷ []

get-Reach_example :
    (list_map.get recorded.0.memory.table (codes "a")
      ≡ stored summary (server_history (codes "a") calls))
    × (list_map.get (list_map.empty {V = UpstreamCounters}) (codes "a")
        ≡ stored UpstreamHistory.summary (upstream_history (codes "a") calls))
    × (list_map.get (list_map.empty {V = CacheCounters}) (codes "a")
        ≡ stored CacheHistory.summary (cache_history (codes "a") calls))
get-Reach_example =
    get-Reach list_map guards calls recorded.0
      (start list_map guards UpstreamCounters (list_map.empty {V = UpstreamCounters}))
      (start list_map guards CacheCounters (list_map.empty {V = CacheCounters})) (codes "a")
      guards-IsExclusive list_map-IsLawful
      (record {
        servers = recorded.1;
        upstreams = here;
        caches = here;
        server_log = refl;
        upstream_log = refl;
        cache_log = refl;
      })

no_deadlock_example :
    (j : ℕ) × ((is_busy (contended.0.pc j) ≡ true)
      × CanMove list_map guards ServerCounters contended.0 j)
no_deadlock_example =
    no_deadlock list_map guards ServerCounters (list_map.empty {V = ServerCounters}) contended.0 1
      guards-IsExclusive guards-IsLive contended.1 refl

contended-IsQuiet : IsQuietFrom list_map guards ServerCounters 2 contended.0
contended-IsQuiet i h = ground arith

Acc-Continue_example : Acc (Continue list_map guards ServerCounters) contended.0
Acc-Continue_example = Acc-Continue list_map guards ServerCounters 2 contended.0 contended-IsQuiet

-- The only entry of the map.
abbrev entry : Bytes × ServerCounters
entry = (job.key, job.change job.new)

entries_recorded : list_map.entries recorded.0.memory.table ≡ entry ∷ []
unfolding HashMap.insert
entries_recorded = refl

abbrev visited : Run
visited =
    let r1 : Run =
      turn recorded 0 _ _ (Move.recording (Recording.drop_write (none, []) (refl, refl))) in
    let r2 : Run = turn r1 1 _ _ (Move.visit (Visit.read (none, 1 ∷ []) (refl, refl))) in
    let r3 : Run =
      turn r2 1 _ _
        (Move.visit (Visit.next [] entry (ap (λ es. get_elem? es 0) entries_recorded))) in
    turn r3 1 _ _
      (Move.visit (Visit.last (entry ∷ []) (ap (λ es. get_elem? es 1) entries_recorded)))

Reach-visited_example :
    list_map.entries (
      replay list_map guards ServerCounters
        (list_map.empty {V = ServerCounters})
        visited.0.memory.log)
    ≡ entry ∷ []
Reach-visited_example =
    Reach-visited list_map guards guards-IsExclusive ServerCounters
      (list_map.empty {V = ServerCounters}) visited.0 1 (entry ∷ []) visited.1 refl

get_recorded : list_map.get recorded.0.memory.table job.key ≡ some entry.1
unfolding HashMap.insert HashMap.get eqb
get_recorded = refl

-- Process 2 has found the entry that process 0 has inserted, while process 1 waits.
abbrev looked : Run
looked =
    let r1 : Run =
      turn recorded 0 _ _ (Move.recording (Recording.drop_write (none, []) (refl, refl))) in
    let r2 : Run = turn r1 2 _ _ (Move.recording (Recording.call job)) in
    let r3 : Run = turn r2 2 _ _ (Move.recording (Recording.write job (some 2, []) (refl, refl))) in
    turn r3 2 _ _ (Move.recording (Recording.hit job entry.1 get_recorded))

Reach-lookup_example : list_map.get looked.0.memory.table (codes "a") ≡ some (job.change job.new)
Reach-lookup_example =
    Reach-lookup list_map guards guards-IsExclusive ServerCounters
      (list_map.empty {V = ServerCounters}) looked.0 2 job (some entry.1) looked.1 refl
