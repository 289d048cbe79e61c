-- ===== src/Shm/Locking/Processes.antt =====
-- One process at the shared map, and any number of them in any interleaving.
use ngx_vts.Prelude.{
  get_elem?, ℕ, Bytes, Option, none, some, Bool, true, false, List, [], ◌∷◌, ◌++◌, ◌==◌, ◌≡◌,
  length, if◌then◌else◌,
}
use ngx_vts.Shm.Table.{RbTreeMap}
use ngx_vts.Shm.Record.{Room, record_entry}
use ngx_vts.Shm.Locking.Lock.{RwLock}

-- A family changed at one process.
abbrev pub update {ℓ} : {A : Type ℓ} → (ℕ → A) → ℕ → A → ℕ → A
update f i a j = if j == i then a else f j

-- What a recording does to one map: the key, new counters, the change of the counters, and whether
-- the slab pool has memory for the key and the node.
pub record Job (V : Type 0) : Type 0 where
  pub key : Bytes
  pub new : V
  pub change : V → V
  pub room : Room

-- Where a process stands, with the local variables that are live there.
pub data Pc (V : Type 0) : Type 0 where
  -- between two calls
  idle : Pc V
  -- before `write()`
  want_write : Job V → Pc V
  -- with the write guard, before `get_mut`
  looking : Job V → Pc V
  -- `get_mut` gave an entry with these counters
  found : Job V → V → Pc V
  -- `get_mut` gave nothing
  missing : Job V → Pc V
  -- the key is allocated
  allocated : Job V → Pc V
  -- before the write guard is dropped
  recorded : Pc V
  -- before `read()`
  want_read : Pc V
  -- with the read guard, after some rounds of the loop over the entries
  visiting : List (Bytes × V) → Pc V
  -- the loop is over; before the read guard is dropped
  visited : List (Bytes × V) → Pc V

abbrev pub is_writer : {V : Type 0} → Pc V → Bool
is_writer (Pc.looking _) = true
is_writer (Pc.found _ _) = true
is_writer (Pc.missing _) = true
is_writer (Pc.allocated _) = true
is_writer Pc.recorded = true
is_writer _ = false

abbrev pub is_reader : {V : Type 0} → Pc V → Bool
is_reader (Pc.visiting _) = true
is_reader (Pc.visited _) = true
is_reader _ = false

-- The recording between its lookup and its last access to the map, with what the lookup gave.
abbrev pub looked_up : {V : Type 0} → Pc V → Option (Job V × Option V)
looked_up (Pc.found j v) = some (j, some v)
looked_up (Pc.missing j) = some (j, none)
looked_up (Pc.allocated j) = some (j, none)
looked_up _ = none

module _ (R : RbTreeMap) (L : RwLock) (V : Type 0) where
  -- The map, its lock, and the recordings that reached their last access, newest first.
  pub record Memory : Type 0 where
    pub table : R.Map V
    pub lock : L.State
    pub log : List (Job V)

  -- One access of process i in a recording.
  pub data Recording (i : ℕ) (m : Memory) : Pc V → Memory → Pc V → Type 0 where
    call : (j : Job V) → Recording i m Pc.idle m (Pc.want_write j)
    write :
        (j : Job V) (s : L.State)
        → L.Write i m.lock s
        → Recording i m (Pc.want_write j) (record m { lock = s }) (Pc.looking j)
    hit :
        (j : Job V) (v : V)
        → R.get m.table j.key ≡ some v
        → Recording i m (Pc.looking j) m (Pc.found j v)
    miss : (j : Job V) → R.get m.table j.key ≡ none → Recording i m (Pc.looking j) m (Pc.missing j)
    store :
        (j : Job V) (v : V)
        → Recording i m
            (Pc.found j v)
            (record m { table = R.write m.table j.key (j.change v); log = j ∷ m.log })
            Pc.recorded
    allocate : (j : Job V) → j.room.key ≡ true → Recording i m (Pc.missing j) m (Pc.allocated j)
    no_key :
        (j : Job V)
        → j.room.key ≡ false
        → Recording i m (Pc.missing j) (record m { log = j ∷ m.log }) Pc.recorded
    insert :
        (j : Job V)
        → j.room.node ≡ true
        → Recording i m
            (Pc.allocated j)
            (record m { table = R.insert m.table j.key (j.change j.new); log = j ∷ m.log })
            Pc.recorded
    no_node :
        (j : Job V)
        → j.room.node ≡ false
        → Recording i m (Pc.allocated j) (record m { log = j ∷ m.log }) Pc.recorded
    drop_write :
        (s : L.State)
        → L.DropWrite i m.lock s
        → Recording i m Pc.recorded (record m { lock = s }) Pc.idle

  -- One access of process i in a snapshot.
  pub data Visit (i : ℕ) (m : Memory) : Pc V → Memory → Pc V → Type 0 where
    snapshot : Visit i m Pc.idle m Pc.want_read
    read :
        (s : L.State)
        → L.Read i m.lock s
        → Visit i m Pc.want_read (record m { lock = s }) (Pc.visiting [])
    next :
        (seen : List (Bytes × V)) (e : Bytes × V)
        → get_elem? (R.entries m.table) (length seen) ≡ some e
        → Visit i m (Pc.visiting seen) m (Pc.visiting (seen ++ e ∷ []))
    last :
        (seen : List (Bytes × V))
        → get_elem? (R.entries m.table) (length seen) ≡ none
        → Visit i m (Pc.visiting seen) m (Pc.visited seen)
    drop_read :
        (seen : List (Bytes × V)) (s : L.State)
        → L.DropRead i m.lock s
        → Visit i m (Pc.visited seen) (record m { lock = s }) Pc.idle

  -- One access of process i.
  pub data Move (i : ℕ) (m : Memory) (p : Pc V) (m' : Memory) (p' : Pc V) : Type 0 where
    recording : Recording i m p m' p' → Move i m p m' p'
    visit : Visit i m p m' p' → Move i m p m' p'

  pub record System : Type 0 where
    pub memory : Memory
    pub pc : ℕ → Pc V

  pub data Step (s : System) : System → Type 0 where
    pick :
        (i : ℕ) (m : Memory) (p : Pc V)
        → Move i s.memory (s.pc i) m p
        → Step s (record { memory = m; pc = update s.pc i p })

  -- A map that the master process has built, before any process uses it.
  abbrev pub start : R.Map V → System
  start table = record {
    memory = record { table = table; lock = L.unlocked; log = [] };
    pc = λ _. Pc.idle;
  }

  pub data Reach (table : R.Map V) : System → Type 0 where
    here : Reach table (start table)
    later : (s t : System) → Reach table s → Step s t → Reach table t

  -- The recordings of a log, each as one step, the oldest first.
  unfoldable pub replay : R.Map V → List (Job V) → R.Map V
  replay table [] = table
  replay table (j ∷ js) = record_entry R (replay table js) j.key j.new j.change j.room
