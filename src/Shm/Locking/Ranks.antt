-- ===== src/Shm/Locking/Ranks.antt =====
-- How far a call at the shared map is from its end.
use ngx_vts.Prelude.{
  get_elem?-lt-length, ℕ, zero, suc, ◌+◌, ◌-◌, ◌<◌, ◌==◌, ==_iff, Bool-cases, true, ◌⊎◌, inl, inr,
  [], ◌∷◌, ◌≡◌, ◌≢◌, refl, arith, length, length-append,
}
use ngx_vts.Shm.Table.{RbTreeMap}
use ngx_vts.Shm.Locking.Lock.{RwLock}
use ngx_vts.Shm.Locking.Processes.{Pc, Memory, Recording, Visit, Move}
use ngx_vts.Shm.Locking.Progress.{is_busy}

-- The sum of the first values of a function.
abbrev pub total : (ℕ → ℕ) → ℕ → ℕ
total g zero = 0
total g (suc n) = g n + total g n

total-eq : (g h : ℕ → ℕ) (n : ℕ) → ((j : ℕ) → j < n → h j ≡ g j) → total h n ≡ total g n
total-eq g h zero e = refl
total-eq g h (suc n) e = omega (arith, e n (omega arith), total-eq g h n (λ j l. e j (omega arith)))

-- A change at one place.
pub total-change :
    (g h : ℕ → ℕ) (i n : ℕ)
    → i < n
    → ((j : ℕ) → j ≢ i → h j ≡ g j)
    → total h n + g i ≡ total g n + h i
total-change g h i zero l e = absurd (omega arith)
total-change g h i (suc n) l e = elim (Bool-cases (n == i)) [
  | inl here ↦
      let at : n ≡ i = (==_iff n i).0 here in
      rw (← at) (omega (arith, total-eq g h n (λ j k. e j (λ q. absurd (omega arith)))))
  | inr other ↦
      let apart : n ≢ i = λ q. absurd (ground arith) in
      omega (arith, e n apart, total-change g h i n (omega arith) e)
]

-- The accesses that a recording has before it.
abbrev pub record_rank : {V : Type 0} → Pc V → ℕ
record_rank (Pc.want_write _) = 5
record_rank (Pc.looking _) = 4
record_rank (Pc.found _ _) = 3
record_rank (Pc.missing _) = 3
record_rank (Pc.allocated _) = 2
record_rank Pc.recorded = 1
record_rank _ = 0

module _ (R : RbTreeMap) (V : Type 0) where
  -- The accesses that a snapshot has before it, while nothing is recorded.
  abbrev pub snapshot_rank : R.Map V → Pc V → ℕ
  snapshot_rank table Pc.want_read = 3 + length (R.entries table)
  snapshot_rank table (Pc.visiting seen) = 2 + (length (R.entries table) - length seen)
  snapshot_rank table (Pc.visited _) = 1
  snapshot_rank table _ = 0

module _ (R : RbTreeMap) (L : RwLock) (V : Type 0) where
  -- An access within a call brings a recording nearer to its end, or it leaves the map and brings a
  -- snapshot nearer to its end.
  pub Move-rank :
      (i : ℕ) (m : Memory R L V) (p : Pc V) (m' : Memory R L V) (p' : Pc V)
      → is_busy p ≡ true
      → Move R L V i m p m' p'
      → (record_rank p' < record_rank p)
        ⊎ ((record_rank p' ≡ record_rank p)
            × (m'.table ≡ m.table)
            × (snapshot_rank R V m'.table p' < snapshot_rank R V m.table p))
  Move-rank i m _ m' p' b (Move.recording (Recording.call j)) = absurd (ground arith)
  Move-rank i m _ m' p' b (Move.recording (Recording.write j s _)) = inl (omega arith)
  Move-rank i m _ m' p' b (Move.recording (Recording.hit j v _)) = inl (omega arith)
  Move-rank i m _ m' p' b (Move.recording (Recording.miss j _)) = inl (omega arith)
  Move-rank i m _ m' p' b (Move.recording (Recording.store j v)) = inl (omega arith)
  Move-rank i m _ m' p' b (Move.recording (Recording.allocate j _)) = inl (omega arith)
  Move-rank i m _ m' p' b (Move.recording (Recording.no_key j _)) = inl (omega arith)
  Move-rank i m _ m' p' b (Move.recording (Recording.insert j _)) = inl (omega arith)
  Move-rank i m _ m' p' b (Move.recording (Recording.no_node j _)) = inl (omega arith)
  Move-rank i m _ m' p' b (Move.recording (Recording.drop_write s _)) = inl (omega arith)
  Move-rank i m _ m' p' b (Move.visit Visit.snapshot) = absurd (ground arith)
  Move-rank i m _ m' p' b (Move.visit (Visit.read s _)) = inr (refl, refl, omega arith)
  Move-rank i m _ m' p' b (Move.visit (Visit.next seen e h)) = inr (
    refl,
    refl,
    omega (
      arith,
      get_elem?-lt-length (R.entries m.table) (length seen) e h,
      length-append seen (e ∷ []),
    ),
  )
  Move-rank i m _ m' p' b (Move.visit (Visit.last seen h)) = inr (refl, refl, omega arith)
  Move-rank i m _ m' p' b (Move.visit (Visit.drop_read seen s _)) = inr (refl, refl, omega arith)
