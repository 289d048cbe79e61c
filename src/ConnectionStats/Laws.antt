-- ===== src/ConnectionStats/Laws.antt =====
-- What the counters read are, and when there are none.
use ngx_vts.Prelude.{
  ℕ, Bytes, codes, Option, none, some, ◌≡◌, ◌≢◌, ◌↔◌, ◌==◌, refl, arith, if◌then◌else◌,
}
use ngx_vts.ConnectionStats.{
  ConnectionStats, StatPointers, Process, lookup_symbol, resolve_pointers, read,
}

-- The name is a symbol of the process, the pointer that it holds is not null, and the atomic there
-- is n.
abbrev pub IsCounter : Process → Bytes → ℕ → Type 0
IsCounter P name n =
    (a : ℕ) × ((P.dlsym name ≡ some a)
      × (P.load_pointer a ≢ 0)
      × (P.load_atomic (P.load_pointer a) ≡ n))

module _ (P : Process) where
  -- One counter: the pointer of its symbol, and the atomic there.
  abbrev counter : Bytes → Option ℕ
  counter name = elim (lookup_symbol P name) [ none ↦ none | some p ↦ some (P.load_atomic p) ]

  -- What `lookup_symbol` does with the answer of `dlsym`.
  abbrev deref : Option ℕ → Option ℕ
  deref none = none
  deref (some a) = if P.load_pointer a == 0 then none else some (P.load_atomic (P.load_pointer a))

  counter-deref : (name : Bytes) → counter name ≡ deref (P.dlsym name)
  unfolding lookup_symbol
  counter-deref name = ground arith

  deref-some :
      (o : Option ℕ) (n : ℕ)
      → deref o ≡ some n
      → (a : ℕ) × ((o ≡ some a) × (P.load_pointer a ≢ 0) × (P.load_atomic (P.load_pointer a) ≡ n))
  deref-some none n h = absurd (ground arith)
  deref-some (some a) n h = (a, (refl, ground arith, ground arith))

  counter_iff : (name : Bytes) (n : ℕ) → (counter name ≡ some n) ↔ IsCounter P name n
  counter_iff name n =
      rw (counter-deref name)
        (deref-some (P.dlsym name) n, λ h. let (a, (s, q, l)) = h in rw s (ground (arith, q, l)))

  read-counters :
      (stats : ConnectionStats)
      → ((read P none).0 ≡ some stats) ↔ (
          (counter (codes "ngx_stat_active") ≡ some stats.active)
          × (counter (codes "ngx_stat_reading") ≡ some stats.reading)
          × (counter (codes "ngx_stat_writing") ≡ some stats.writing)
          × (counter (codes "ngx_stat_waiting") ≡ some stats.waiting)
          × (counter (codes "ngx_stat_accepted") ≡ some stats.accepted)
          × (counter (codes "ngx_stat_handled") ≡ some stats.handled)
          × (counter (codes "ngx_stat_requests") ≡ some stats.requests))
  unfolding read resolve_pointers
  read-counters stats = ground arith

  -- The first reading gives seven numbers exactly when the dynamic linker finds each of the seven
  -- symbols of nginx, ngx_stat_active and those for reading, writing, waiting, accepted, handled and
  -- requests, the pointer at each is not null, and each number is the value of the atomic behind the
  -- symbol of its own name.
  pub read_iff :
      (stats : ConnectionStats)
      → ((read P none).0 ≡ some stats) ↔ (
          IsCounter P (codes "ngx_stat_active") stats.active
          × IsCounter P (codes "ngx_stat_reading") stats.reading
          × IsCounter P (codes "ngx_stat_writing") stats.writing
          × IsCounter P (codes "ngx_stat_waiting") stats.waiting
          × IsCounter P (codes "ngx_stat_accepted") stats.accepted
          × IsCounter P (codes "ngx_stat_handled") stats.handled
          × IsCounter P (codes "ngx_stat_requests") stats.requests)
  read_iff stats =
      let (there, back) = read-counters stats in
      (
        λ h.
            let (a, r, w, i, c, d, q) = there h in
            (
              (counter_iff _ _).0 a,
              (counter_iff _ _).0 r,
              (counter_iff _ _).0 w,
              (counter_iff _ _).0 i,
              (counter_iff _ _).0 c,
              (counter_iff _ _).0 d,
              (counter_iff _ _).0 q,
            ),
        λ h.
            let (a, r, w, i, c, d, q) = h in
            back (
              (counter_iff _ _).1 a,
              (counter_iff _ _).1 r,
              (counter_iff _ _).1 w,
              (counter_iff _ _).1 i,
              (counter_iff _ _).1 c,
              (counter_iff _ _).1 d,
              (counter_iff _ _).1 q,
            ),
      )

  -- A later call leaves the cell that an earlier one has filled, whatever the dynamic linker has to
  -- say by then: the symbols are looked up once.
  pub read-read :
      (Q : Process) (cell : Option (Option StatPointers))
      → (read Q (read P cell).1).1 ≡ (read P cell).1
  unfolding read
  read-read Q cell = ground arith
