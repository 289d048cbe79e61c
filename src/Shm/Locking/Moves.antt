-- ===== src/Shm/Locking/Moves.antt =====
-- Every access of a process keeps the invariant.
use ngx_vts.Prelude.{
  seen_next, seen_all, ℕ, none, some, Bool, true, false, List, [], ◌∷◌, ◌++◌, ◌==◌, ==_iff, ◌≡◌,
  refl, sym, ap, ◌∙◌, if◌then◌else◌, arith, Bool-cases, inl, inr,
}
use ngx_vts.Shm.Table.{RbTreeMap}
use ngx_vts.Shm.Record.{record_entry}
use ngx_vts.Shm.Locking.Lock.{RwLock, IsExclusive}
use ngx_vts.Shm.Locking.Processes.{
  update, Job, Pc, is_writer, is_reader, Memory, Recording, Visit, Move, replay,
}
use ngx_vts.Shm.Locking.Invariant.{Knows, Knows-anywhere, Inv}

-- A test of the changed family is that of the old one, where it is at the changed process.
test-update {ℓ} :
    {A : Type ℓ} (test : A → Bool) (f : ℕ → A) (i : ℕ) (a : A) (j : ℕ)
    → test a ≡ test (f i)
    → test (update f i a j) ≡ test (f j)
test-update test f i a j e = elim (Bool-cases (j == i)) [
  | inl same ↦ let at_i : j ≡ i = (==_iff j i).0 same in rw (same) (rw at_i e)
  | inr other ↦ rw other refl
]

module _ (R : RbTreeMap) (L : RwLock) (X : IsExclusive L) (V : Type 0) (table : R.Map V)
    (m : Memory R L V) (pc : ℕ → Pc V) (inv : Inv R L V table m pc) (i : ℕ) where
  Knows-update :
      (t : R.Map V) (p : Pc V)
      → Knows R V t p
      → ((j : ℕ) → (j == i) ≡ false → Knows R V t (pc j))
      → (j : ℕ) → Knows R V t (update pc i p j)
  Knows-update t p here others j = elim (Bool-cases (j == i)) [
    | inl same ↦ rw same here
    | inr other ↦ rw other (others j other)
  ]

  -- A change of the map by a process with the write guard.
  Knows-write :
      (t : R.Map V) (p : Pc V)
      → is_writer (pc i) ≡ true
      → Knows R V t p
      → (j : ℕ) → Knows R V t (update pc i p j)
  Knows-write t p w here = Knows-update t p here (λ j other.
      Knows-anywhere R V m.table t (pc j) (ground (arith, inv.one_writer i j w, ==_iff j i))
        (inv.no_reader i j w) (inv.knows j))

  -- An access that takes and drops no guard.
  Inv-guarded :
      (p : Pc V) (t : R.Map V) (log : List (Job V))
      → is_writer p ≡ is_writer (pc i)
      → is_reader p ≡ is_reader (pc i)
      → ((j : ℕ) → Knows R V t (update pc i p j))
      → t ≡ replay R L V table log
      → Inv R L V table (record { table = t; lock = m.lock; log = log }) (update pc i p)
  Inv-guarded p t log w r k s = record {
    writes = λ j. inv.writes j ∙ sym (test-update is_writer pc i p j w);
    reads = λ j. inv.reads j ∙ sym (test-update is_reader pc i p j r);
    one_writer = λ a b ha hb.
        inv.one_writer a b (sym (test-update is_writer pc i p a w) ∙ ha)
          (sym (test-update is_writer pc i p b w) ∙ hb);
    no_reader = λ a b ha.
        test-update is_reader pc i p b r
        ∙ inv.no_reader a b (sym (test-update is_writer pc i p a w) ∙ ha);
    knows = k;
    serial = s;
  }

  -- An access that changes the process alone.
  Inv-local :
      (p : Pc V)
      → is_writer p ≡ is_writer (pc i)
      → is_reader p ≡ is_reader (pc i)
      → Knows R V m.table p
      → Inv R L V table m (update pc i p)
  Inv-local p w r k =
      Inv-guarded p m.table m.log w r (Knows-update m.table p k (λ j _. inv.knows j)) inv.serial

  -- Taking or dropping a guard.
  Inv-lock :
      (p : Pc V) (s : L.State)
      → ((j : ℕ) → L.writes s j ≡ is_writer (update pc i p j))
      → ((j : ℕ) → L.reads s j ≡ is_reader (update pc i p j))
      → ((a b : ℕ)
          → is_writer (update pc i p a) ≡ true
          → is_writer (update pc i p b) ≡ true
          → a ≡ b)
      → ((a b : ℕ) → is_writer (update pc i p a) ≡ true → is_reader (update pc i p b) ≡ false)
      → Knows R V m.table p
      → Inv R L V table (record m { lock = s }) (update pc i p)
  Inv-lock p s w r one apart k = record {
    writes = w;
    reads = r;
    one_writer = one;
    no_reader = apart;
    knows = Knows-update m.table p k (λ j _. inv.knows j);
    serial = inv.serial;
  }

module _ (R : RbTreeMap) (V : Type 0) (t : R.Map V) (j : Job V) where
  -- A recording in one step, where the process knows what its lookup gave.
  entry_found :
      (v : V)
      → R.get t j.key ≡ some v
      → R.write t j.key (j.change v) ≡ record_entry R t j.key j.new j.change j.room
  unfolding record_entry
  entry_found v h = rw (h, record_entry) refl

  entry_missing :
      R.get t j.key ≡ none
      → record_entry R t j.key j.new j.change j.room
        ≡ (if j.room.key then (if j.room.node then R.insert t j.key (j.change j.new) else t) else t)
  unfolding record_entry
  entry_missing h = rw (h, record_entry) refl

  entry_no_key :
      R.get t j.key ≡ none → j.room.key ≡ false → t ≡ record_entry R t j.key j.new j.change j.room
  entry_no_key h k = ground (arith, entry_missing h)

  entry_no_node :
      R.get t j.key ≡ none
      → j.room.key ≡ true
      → j.room.node ≡ false
      → t ≡ record_entry R t j.key j.new j.change j.room
  entry_no_node h k n = ground (arith, entry_missing h)

  entry_inserted :
      R.get t j.key ≡ none
      → j.room.key ≡ true
      → j.room.node ≡ true
      → R.insert t j.key (j.change j.new) ≡ record_entry R t j.key j.new j.change j.room
  entry_inserted h k n = ground (arith, entry_missing h)

module _ (R : RbTreeMap) (L : RwLock) (X : IsExclusive L) (V : Type 0) (table : R.Map V) where
  -- The log and the map after the last access of a recording.
  serial_next :
      (m : Memory R L V) (j : Job V)
      → m.table ≡ replay R L V table m.log
      → record_entry R m.table j.key j.new j.change j.room ≡ replay R L V table (j ∷ m.log)
  unfolding replay
  serial_next m j h = ap (λ t. record_entry R t j.key j.new j.change j.room) h

  pub Move-Inv :
      (m : Memory R L V) (pc : ℕ → Pc V) (i : ℕ) (p : Pc V) (m' : Memory R L V) (p' : Pc V)
      → Inv R L V table m pc
      → pc i ≡ p
      → Move R L V i m p m' p'
      → Inv R L V table m' (update pc i p')
  Move-Inv m pc i _ _ _ inv e (Move.recording (Recording.call j)) =
      Inv-local R L X V table m pc inv i (Pc.want_write j) (rw e refl) (rw e refl) tt
  Move-Inv m pc i _ _ _ inv e (Move.recording (Recording.write j s w)) =
      Inv-lock R L X V table m pc inv i (Pc.looking j) s
        (λ q.
          ground (arith, X.write-writes i m.lock s q w, X.write_free i m.lock s q w, inv.writes q))
        (λ q.
          ground (arith, X.write-reads i m.lock s q w, X.write_free i m.lock s q w, inv.reads q))
        (λ a b. ground (
          arith,
          X.write_free i m.lock s a w,
          inv.writes a,
          X.write_free i m.lock s b w,
          inv.writes b,
          ==_iff a i,
          ==_iff b i,
        ))
        (λ a b. ground (arith, X.write_free i m.lock s b w, inv.reads b)) tt
  Move-Inv m pc i _ _ _ inv e (Move.recording (Recording.hit j v h)) =
      Inv-local R L X V table m pc inv i (Pc.found j v) (rw e refl) (rw e refl) h
  Move-Inv m pc i _ _ _ inv e (Move.recording (Recording.miss j h)) =
      Inv-local R L X V table m pc inv i (Pc.missing j) (rw e refl) (rw e refl) h
  Move-Inv m pc i _ _ _ inv e (Move.recording (Recording.store j v)) =
      let t = R.write m.table j.key (j.change v) in
      let h : R.get m.table j.key ≡ some v = rw e at (inv.knows i) in
      Inv-guarded R L X V table m pc inv i Pc.recorded t (j ∷ m.log) (rw e refl) (rw e refl)
        (Knows-write R L X V table m pc inv i t Pc.recorded (rw e refl) tt)
        (entry_found R V m.table j v h ∙ serial_next m j inv.serial)
  Move-Inv m pc i _ _ _ inv e (Move.recording (Recording.allocate j k)) =
      Inv-local R L X V table m pc inv i (Pc.allocated j) (rw e refl) (rw e refl)
        (rw e at (inv.knows i), k)
  Move-Inv m pc i _ _ _ inv e (Move.recording (Recording.no_key j k)) =
      let h : R.get m.table j.key ≡ none = rw e at (inv.knows i) in
      Inv-guarded R L X V table m pc inv i Pc.recorded m.table (j ∷ m.log) (rw e refl) (rw e refl)
        (Knows-update R L X V table m pc inv i m.table Pc.recorded tt (λ q _. inv.knows q))
        (entry_no_key R V m.table j h k ∙ serial_next m j inv.serial)
  Move-Inv m pc i _ _ _ inv e (Move.recording (Recording.insert j n)) =
      let t = R.insert m.table j.key (j.change j.new) in
      let h : (R.get m.table j.key ≡ none) × (j.room.key ≡ true) = rw e at (inv.knows i) in
      Inv-guarded R L X V table m pc inv i Pc.recorded t (j ∷ m.log) (rw e refl) (rw e refl)
        (Knows-write R L X V table m pc inv i t Pc.recorded (rw e refl) tt)
        (entry_inserted R V m.table j h.0 h.1 n ∙ serial_next m j inv.serial)
  Move-Inv m pc i _ _ _ inv e (Move.recording (Recording.no_node j n)) =
      let h : (R.get m.table j.key ≡ none) × (j.room.key ≡ true) = rw e at (inv.knows i) in
      Inv-guarded R L X V table m pc inv i Pc.recorded m.table (j ∷ m.log) (rw e refl) (rw e refl)
        (Knows-update R L X V table m pc inv i m.table Pc.recorded tt (λ q _. inv.knows q))
        (entry_no_node R V m.table j h.0 h.1 n ∙ serial_next m j inv.serial)
  Move-Inv m pc i _ _ _ inv e (Move.recording (Recording.drop_write s d)) =
      Inv-lock R L X V table m pc inv i Pc.idle s
        (λ q. ground (arith, X.drop_write-writes i m.lock s q d, inv.writes q))
        (λ q. ground (arith, X.drop_write-reads i m.lock s q d, inv.reads q, ==_iff q i))
        (λ a b. ground (arith, inv.one_writer a b)) (λ a b. ground (arith, inv.no_reader a b)) tt
  Move-Inv m pc i _ _ _ inv e (Move.visit Visit.snapshot) =
      Inv-local R L X V table m pc inv i Pc.want_read (rw e refl) (rw e refl) tt
  Move-Inv m pc i _ _ _ inv e (Move.visit (Visit.read s r)) =
      Inv-lock R L X V table m pc inv i (Pc.visiting []) s
        (λ q.
          ground (arith, X.read-writes i m.lock s q r, X.read_free i m.lock s q r, inv.writes q))
        (λ q. ground (arith, X.read-reads i m.lock s q r, inv.reads q))
        (λ a b. ground (arith, X.read_free i m.lock s a r, inv.writes a))
        (λ a b. ground (arith, X.read_free i m.lock s a r, inv.writes a)) (R.entries m.table, refl)
  Move-Inv m pc i _ _ _ inv e (Move.visit (Visit.next seen x h)) =
      Inv-local R L X V table m pc inv i (Pc.visiting (seen ++ x ∷ [])) (rw e refl) (rw e refl)
        (seen_next (R.entries m.table) seen x (rw e at (inv.knows i)) h)
  Move-Inv m pc i _ _ _ inv e (Move.visit (Visit.last seen h)) =
      Inv-local R L X V table m pc inv i (Pc.visited seen) (rw e refl) (rw e refl)
        (seen_all (R.entries m.table) seen (rw e at (inv.knows i)) h)
  Move-Inv m pc i _ _ _ inv e (Move.visit (Visit.drop_read seen s d)) =
      Inv-lock R L X V table m pc inv i Pc.idle s
        (λ q. ground (arith, X.drop_read-writes i m.lock s q d, inv.writes q, ==_iff q i))
        (λ q. ground (arith, X.drop_read-reads i m.lock s q d, inv.reads q))
        (λ a b. ground (arith, inv.one_writer a b)) (λ a b. ground (arith, inv.no_reader a b)) tt
