-- ===== src/Shm/Locking/Invariant.antt =====
-- What holds at every access: who holds the lock, what a process knows of the map, and which
-- recordings the map stands for.
use ngx_vts.Prelude.{ℕ, Bytes, Option, none, some, true, false, List, ◌++◌, ◌≡◌, refl, arith}
use ngx_vts.Shm.Table.{RbTreeMap}
use ngx_vts.Shm.Locking.Lock.{RwLock, IsExclusive}
use ngx_vts.Shm.Locking.Processes.{Job, Pc, looked_up, is_writer, is_reader, Memory, start, replay}

module _ (R : RbTreeMap) (V : Type 0) where
  -- What a process knows of the map while it holds a guard.
  abbrev pub Knows : R.Map V → Pc V → Type 0
  Knows table (Pc.found j v) = R.get table j.key ≡ some v
  Knows table (Pc.missing j) = R.get table j.key ≡ none
  Knows table (Pc.allocated j) = (R.get table j.key ≡ none) × (j.room.key ≡ true)
  Knows table (Pc.visiting seen) = (rest : List (Bytes × V)) × (R.entries table ≡ seen ++ rest)
  Knows table (Pc.visited seen) = R.entries table ≡ seen
  Knows table _ = Unit

  -- A process without a guard knows nothing, so that the map may change.
  pub Knows-anywhere :
      (t t' : R.Map V) (p : Pc V)
      → is_writer p ≡ false
      → is_reader p ≡ false
      → Knows t p
      → Knows t' p
  Knows-anywhere t t' Pc.idle w r k = tt
  Knows-anywhere t t' (Pc.want_write j) w r k = tt
  Knows-anywhere t t' (Pc.looking j) w r k = tt
  Knows-anywhere t t' (Pc.found j v) w r k = absurd (ground arith)
  Knows-anywhere t t' (Pc.missing j) w r k = absurd (ground arith)
  Knows-anywhere t t' (Pc.allocated j) w r k = absurd (ground arith)
  Knows-anywhere t t' Pc.recorded w r k = tt
  Knows-anywhere t t' Pc.want_read w r k = tt
  Knows-anywhere t t' (Pc.visiting seen) w r k = absurd (ground arith)
  Knows-anywhere t t' (Pc.visited seen) w r k = absurd (ground arith)

  pub looked_up-Knows :
      (t : R.Map V) (p : Pc V) (j : Job V) (entry : Option V)
      → looked_up p ≡ some (j, entry)
      → Knows t p
      → R.get t j.key ≡ entry
  looked_up-Knows t Pc.idle j entry e k = absurd (ground arith)
  looked_up-Knows t (Pc.want_write q) j entry e k = absurd (ground arith)
  looked_up-Knows t (Pc.looking q) j entry e k = absurd (ground arith)
  looked_up-Knows t (Pc.found q v) j entry e k = ground (arith, k)
  looked_up-Knows t (Pc.missing q) j entry e k = ground (arith, k)
  looked_up-Knows t (Pc.allocated q) j entry e k = ground (arith, k)
  looked_up-Knows t Pc.recorded j entry e k = absurd (ground arith)
  looked_up-Knows t Pc.want_read j entry e k = absurd (ground arith)
  looked_up-Knows t (Pc.visiting seen) j entry e k = absurd (ground arith)
  looked_up-Knows t (Pc.visited seen) j entry e k = absurd (ground arith)

module _ (R : RbTreeMap) (L : RwLock) (V : Type 0) (table : R.Map V) where
  pub record Inv (m : Memory R L V) (pc : ℕ → Pc V) : Type 0 where
    -- The lock knows who holds its guards.
    pub writes : (j : ℕ) → L.writes m.lock j ≡ is_writer (pc j)
    pub reads : (j : ℕ) → L.reads m.lock j ≡ is_reader (pc j)
    -- A writer is alone.
    pub one_writer : (i j : ℕ) → is_writer (pc i) ≡ true → is_writer (pc j) ≡ true → i ≡ j
    pub no_reader : (i j : ℕ) → is_writer (pc i) ≡ true → is_reader (pc j) ≡ false
    pub knows : (j : ℕ) → Knows R V m.table (pc j)
    -- The map is what the finished recordings make of it, each as one step.
    pub serial : m.table ≡ replay R L V table m.log

  pub Inv-start : IsExclusive L → Inv (start R L V table).memory (start R L V table).pc
  unfolding replay
  Inv-start X = record {
    writes = X.unlocked-writes;
    reads = X.unlocked-reads;
    one_writer = λ i j h h'. absurd (ground arith);
    no_reader = λ i j h. refl;
    knows = λ j. tt;
    serial = refl;
  }
