-- ===== src/Shm/Locking/Termination.antt =====
-- The calls at the shared map end.
use mathlib.Core.WellFounded.{Acc}
use ngx_vts.Prelude.{
  ℕ, zero, suc, ◌<◌, ◌≤◌, ltb, ltb→lt, Bool-cases, true, ◌⊎◌, inl, inr, ◌≡◌, ◌≢◌, arith,
}
use ngx_vts.Shm.Table.{RbTreeMap}
use ngx_vts.Shm.Locking.Lock.{RwLock}
use ngx_vts.Shm.Locking.Processes.{update, Pc, Memory, Move, System}
use ngx_vts.Shm.Locking.Progress.{is_busy}
use ngx_vts.Shm.Locking.Ranks.{total, total-change, record_rank, snapshot_rank, Move-rank}

module _ (R : RbTreeMap) (L : RwLock) (V : Type 0) where
  -- One access within a call: `Continue t s` leads from s to t, and starts no call.
  pub data Continue : System R L V → System R L V → Type 0 where
    go :
        (s : System R L V) (i : ℕ) (m : Memory R L V) (p : Pc V)
        → is_busy (s.pc i) ≡ true
        → Move R L V i s.memory (s.pc i) m p
        → Continue (record { memory = m; pc = update s.pc i p }) s

  -- The processes from n on are between two calls.
  abbrev pub IsQuietFrom : ℕ → System R L V → Type 0
  IsQuietFrom n s = (i : ℕ) → n ≤ i → s.pc i ≡ Pc.idle

  recordings : ℕ → System R L V → ℕ
  recordings n s = total (λ i. record_rank (s.pc i)) n

  snapshots : ℕ → System R L V → ℕ
  snapshots n s = total (λ i. snapshot_rank R V s.memory.table (s.pc i)) n

  busy_below :
      (n : ℕ) (s : System R L V) (i : ℕ) → IsQuietFrom n s → is_busy (s.pc i) ≡ true → i < n
  busy_below n s i quiet b = elim (Bool-cases (ltb i n)) [
    | inl below ↦ ltb→lt i n below
    | inr above ↦ let e = quiet i (ground arith) in absurd (ground arith)
  ]

  update-here : (f : ℕ → Pc V) (i : ℕ) (p : Pc V) (r : Pc V → ℕ) → r (update f i p i) ≡ r p
  update-here f i p r = ground arith

  update-other :
      (f : ℕ → Pc V) (i : ℕ) (p : Pc V) (j : ℕ) (r : Pc V → ℕ)
      → j ≢ i
      → r (update f i p j) ≡ r (f j)
  update-other f i p j r d = ground arith

  quiet-update :
      (n : ℕ) (s : System R L V) (i : ℕ) (m : Memory R L V) (p : Pc V)
      → IsQuietFrom n s
      → i < n
      → IsQuietFrom n (record { memory = m; pc = update s.pc i p })
  quiet-update n s i m p quiet l j h = let e = quiet j h in ground arith

  -- An access within a call lowers the pair of the two sums.
  Continue-ranks :
      (n : ℕ) (s t : System R L V)
      → IsQuietFrom n s
      → Continue t s
      → IsQuietFrom n t
        × ((recordings n t < recordings n s)
            ⊎ ((recordings n t ≡ recordings n s) × (snapshots n t < snapshots n s)))
  unfolding recordings snapshots
  Continue-ranks n s _ quiet (go _ i m p b mv) =
      let l : i < n = busy_below n s i quiet b in
      let g : ℕ → ℕ = λ j. record_rank (s.pc j) in
      let h : ℕ → ℕ = λ j. record_rank (update s.pc i p j) in
      let changed = total-change g h i n l (λ j d. update-other s.pc i p j record_rank d) in
      let here = update-here s.pc i p record_rank in
      (
        quiet-update n s i m p quiet l,
        elim (Move-rank R L V i s.memory (s.pc i) m p b mv) [
          | inl lower ↦ inl (omega arith)
          | inr (same, kept, lower) ↦
              let f = snapshot_rank R V s.memory.table in
              let moved =
                total-change (λ j. f (s.pc j)) (λ j. f (update s.pc i p j)) i n l
                  (λ j d. update-other s.pc i p j f d) in
              let at_i = update-here s.pc i p f in
              inr (omega arith, rw kept (omega (arith, rw kept at lower)))
        ],
      )

  Acc-ranks :
      (a b n : ℕ) (s : System R L V)
      → IsQuietFrom n s
      → recordings n s < a
      → snapshots n s < b
      → Acc Continue s
  Acc-ranks zero b n s q ha hb = absurd (omega arith)
  Acc-ranks (suc a) zero n s q ha hb = absurd (omega arith)
  Acc-ranks (suc a) (suc b) n s q ha hb = Acc.intro s (λ t c.
      let (q', lower) = Continue-ranks n s t q c in
      elim lower [
        | inl fewer ↦ Acc-ranks a (suc (snapshots n t)) n t q' (omega arith) (omega arith)
        | inr (same, fewer) ↦ Acc-ranks (suc a) b n t q' (omega arith) (omega arith)
      ])

-- Termination: in a state of any number of processes, of which finitely many are in the middle of a
-- recording or of a snapshot, there is no infinite sequence of accesses within calls; processes may
-- come in any order, and recordings may add entries between the accesses of a snapshot that waits.
pub Acc-Continue :
    (R : RbTreeMap) (L : RwLock) (V : Type 0) (n : ℕ) (s : System R L V)
    → IsQuietFrom R L V n s
    → Acc (Continue R L V) s
Acc-Continue R L V n s quiet =
    Acc-ranks R L V (suc (recordings R L V n s)) (suc (snapshots R L V n s)) n s quiet (omega arith)
      (omega arith)
