-- ===== src/Shm/Locking/Progress.antt =====
-- No deadlock at the shared map.
use ngx_vts.Prelude.{
  get_elem?, ℕ, Bool, true, false, ◌||◌, ◌≡◌, refl, ◌∙◌, arith, length, Bool-cases, Option-cases,
  inl, inr,
}
use ngx_vts.Shm.Table.{RbTreeMap}
use ngx_vts.Shm.Locking.Lock.{RwLock, IsExclusive, IsLive}
use ngx_vts.Shm.Locking.Processes.{
  Pc, is_writer, is_reader, Memory, Recording, Visit, Move, System, Reach,
}
use ngx_vts.Shm.Locking.Invariant.{Inv}
use ngx_vts.Shm.Locking.Serial.{Reach-Inv}

-- A process in the middle of a call.
abbrev pub is_busy : {V : Type 0} → Pc V → Bool
is_busy Pc.idle = false
is_busy _ = true

module _ (R : RbTreeMap) (L : RwLock) (V : Type 0) where
  -- An access that a process can make.
  abbrev pub CanMove : System R L V → ℕ → Type 0
  CanMove s i = (m : Memory R L V) × (p : Pc V) × Move R L V i s.memory (s.pc i) m p

  module _ (A : IsLive L) (table : R.Map V) where
    -- A process with a guard never waits.
    guard_moves :
        (m : Memory R L V) (i : ℕ) (p : Pc V)
        → (is_writer p ≡ true → L.writes m.lock i ≡ true)
        → (is_reader p ≡ true → L.reads m.lock i ≡ true)
        → (is_writer p || is_reader p) ≡ true
        → (m' : Memory R L V) × (p' : Pc V) × Move R L V i m p m' p'
    guard_moves m i Pc.idle w r g = absurd (ground arith)
    guard_moves m i (Pc.want_write j) w r g = absurd (ground arith)
    guard_moves m i (Pc.looking j) w r g = elim (Option-cases (R.get m.table j.key)) [
      | inl h ↦ (_, _, Move.recording (Recording.miss j h))
      | inr (v, h) ↦ (_, _, Move.recording (Recording.hit j v h))
    ]
    guard_moves m i (Pc.found j v) w r g = (_, _, Move.recording (Recording.store j v))
    guard_moves m i (Pc.missing j) w r g = elim (Bool-cases j.room.key) [
      | inl h ↦ (_, _, Move.recording (Recording.allocate j h))
      | inr h ↦ (_, _, Move.recording (Recording.no_key j h))
    ]
    guard_moves m i (Pc.allocated j) w r g = elim (Bool-cases j.room.node) [
      | inl h ↦ (_, _, Move.recording (Recording.insert j h))
      | inr h ↦ (_, _, Move.recording (Recording.no_node j h))
    ]
    guard_moves m i Pc.recorded w r g =
        let (s, d) = A.can_drop_write i m.lock (w refl) in
        (_, _, Move.recording (Recording.drop_write s d))
    guard_moves m i Pc.want_read w r g = absurd (ground arith)
    guard_moves m i (Pc.visiting seen) w r g =
        elim (Option-cases (get_elem? (R.entries m.table) (length seen))) [
          | inl h ↦ (_, _, Move.visit (Visit.last seen h))
          | inr (e, h) ↦ (_, _, Move.visit (Visit.next seen e h))
        ]
    guard_moves m i (Pc.visited seen) w r g =
        let (s, d) = A.can_drop_read i m.lock (r refl) in
        (_, _, Move.visit (Visit.drop_read seen s d))

    -- In a reachable state, the holder of a guard can go on.
    holder_moves :
        (s : System R L V) (j : ℕ)
        → Inv R L V table s.memory s.pc
        → (L.writes s.memory.lock j || L.reads s.memory.lock j) ≡ true
        → (is_busy (s.pc j) ≡ true) × CanMove s j
    holder_moves s j inv h =
        let g : (is_writer (s.pc j) || is_reader (s.pc j)) ≡ true =
          ground (arith, inv.writes j, inv.reads j) in
        (
          ground arith,
          guard_moves s.memory j (s.pc j) (λ w. inv.writes j ∙ w) (λ r. inv.reads j ∙ r) g,
        )

    waiting_moves :
        (s : System R L V) (i : ℕ) (p : Pc V)
        → Inv R L V table s.memory s.pc
        → s.pc i ≡ p
        → is_busy p ≡ true
        → (j : ℕ) × ((is_busy (s.pc j) ≡ true) × CanMove s j)
    waiting_moves s i Pc.idle inv e b = absurd (ground arith)
    waiting_moves s i (Pc.want_write job) inv e b = elim (A.can_write i s.memory.lock) [
      | inl (t, w) ↦ (i, (rw e refl, rw e (_, _, Move.recording (Recording.write job t w))))
      | inr (j, held) ↦ (j, holder_moves s j inv held)
    ]
    waiting_moves s i Pc.want_read inv e b = elim (A.can_read i s.memory.lock) [
      | inl (t, r) ↦ (i, (rw e refl, rw e (_, _, Move.visit (Visit.read t r))))
      | inr (j, held) ↦ (j, holder_moves s j inv (ground arith))
    ]
    waiting_moves s i (Pc.looking j) inv e b =
        (i, holder_moves s i inv (ground (arith, e, inv.writes i)))
    waiting_moves s i (Pc.found j v) inv e b =
        (i, holder_moves s i inv (ground (arith, e, inv.writes i)))
    waiting_moves s i (Pc.missing j) inv e b =
        (i, holder_moves s i inv (ground (arith, e, inv.writes i)))
    waiting_moves s i (Pc.allocated j) inv e b =
        (i, holder_moves s i inv (ground (arith, e, inv.writes i)))
    waiting_moves s i Pc.recorded inv e b =
        (i, holder_moves s i inv (ground (arith, e, inv.writes i)))
    waiting_moves s i (Pc.visiting seen) inv e b =
        (i, holder_moves s i inv (ground (arith, e, inv.reads i)))
    waiting_moves s i (Pc.visited seen) inv e b =
        (i, holder_moves s i inv (ground (arith, e, inv.reads i)))

-- No deadlock: for every lock with the laws and the progress of an `RwLock`, whenever some process is
-- in the middle of a recording or of a snapshot, some process in the middle of one can make its next
-- access.
pub no_deadlock :
    (R : RbTreeMap) (L : RwLock) (V : Type 0) (table : R.Map V) (s : System R L V) (i : ℕ)
    → IsExclusive L
    → IsLive L
    → Reach R L V table s
    → is_busy (s.pc i) ≡ true
    → (j : ℕ) × ((is_busy (s.pc j) ≡ true) × CanMove R L V s j)
no_deadlock R L V table s i X A r b =
    waiting_moves R L V A table s i (s.pc i) (Reach-Inv R L X V table s r) refl b
