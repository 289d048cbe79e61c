-- ===== src/Module/Connections.antt =====
-- src/lib.rs: `vts_collect_nginx_connections`, from nginx's counters or its connection table.
use ngx_vts.Prelude.{
  ℕ, zero, suc, ◌+◌, ◌%◌, Option, none, some, Bool, true, false, List, [], ◌∷◌, ◌≡◌, if◌then◌else◌,
  add64, u64_mod, ◌-◌, length, refl, arith,
}
use ngx_vts.ConnectionStats.{Process, read}
use ngx_vts.Manager
use ngx_vts.Shm.Table.{RbTreeMap}
use ngx_vts.Module.{Globals, update_connection_stats}

-- A C `int`: `pos n` is n, and `negsuc n` is -(n + 1).
pub data ℤ : Type 0 where
  pos : ℕ → ℤ
  negsuc : ℕ → ℤ

-- `fd != -1`
abbrev pub is_open : ℤ → Bool
is_open (pos n) = true
is_open (negsuc zero) = false
is_open (negsuc (suc n)) = true

-- `ngx_cycle`: the descriptors of its connection table, if there is one.
pub record Cycle : Type 0 where
  pub connections : Option (List ℤ)

-- The loop over the table, from the number of open connections so far.
unfoldable pub count_open : ℕ → List ℤ → ℕ
count_open active [] = active
count_open active (fd ∷ fds) = count_open (if is_open fd then add64 active 1 else active) fds

module _ (R : RbTreeMap) where
  unfoldable pub vts_collect_nginx_connections : Process → Option Cycle → Globals R → Globals R
  vts_collect_nginx_connections P ngx_cycle g =
      let (stats, cell) = read P g.stat_pointers in
      let g' : Globals R = record g { stat_pointers = cell } in
      elim stats [
        | some s ↦
            update_connection_stats R g' s.active s.reading s.writing s.waiting s.accepted s.handled
        | none ↦ elim ngx_cycle [
          | none ↦ g'
          | some cycle ↦ elim cycle.connections [
            | none ↦ g'
            | some connections ↦
                let active : ℕ = count_open 0 connections in
                update_connection_stats R g' active 0 0 0 active active
          ]
        ]
      ]

  -- `vts_update_statistics`
  unfoldable pub vts_update_statistics : Process → Option Cycle → Globals R → Globals R
  unfolding vts_collect_nginx_connections
  vts_update_statistics P ngx_cycle g = vts_collect_nginx_connections P ngx_cycle g

-- The free slots of the table, whose descriptor is -1.
abbrev pub free_slots : List ℤ → ℕ
free_slots [] = 0
free_slots (ℤ.negsuc zero ∷ fds) = suc (free_slots fds)
free_slots (ℤ.negsuc (suc n) ∷ fds) = free_slots fds
free_slots (ℤ.pos n ∷ fds) = free_slots fds

count_open-free_slots :
    (fds : List ℤ) (active : ℕ)
    → (c : ℕ) × ((count_open (active % u64_mod) fds ≡ (active + c) % u64_mod)
        × (c + free_slots fds ≡ length fds))
unfolding count_open
count_open-free_slots [] active = (0, (omega arith, refl))
count_open-free_slots (ℤ.negsuc zero ∷ fds) active =
    let (c, (e, h)) = count_open-free_slots fds active in (c, (e, omega (arith, h)))
count_open-free_slots (ℤ.negsuc (suc n) ∷ fds) active =
    let (c, (e, h)) = count_open-free_slots fds (active + 1) in
    (suc c, (ground (arith, e), omega (arith, h)))
count_open-free_slots (ℤ.pos n ∷ fds) active =
    let (c, (e, h)) = count_open-free_slots fds (active + 1) in
    (suc c, (ground (arith, e), omega (arith, h)))

count_open-length : (fds : List ℤ) → count_open 0 fds ≡ (length fds - free_slots fds) % u64_mod
count_open-length fds = let (c, (e, h)) = count_open-free_slots fds 0 in ground (arith, e, h)

module _ (R : RbTreeMap) where
  -- Where nginx has a connection table: with nginx's own counters, six of them are shown as they
  -- were read; without them, the connections shown are the slots of the table but those with the
  -- descriptor -1, modulo 2 ^ 64, as active, accepted and handled, and with no other state.
  pub vts_collect_nginx_connections_lem :
      (P : Process) (connections : List ℤ) (g : Globals R)
      → let cycle : Cycle = record { connections = some connections } in
        let n = (length connections - free_slots connections) % u64_mod in
        (vts_collect_nginx_connections R P (some cycle) g).vts_manager.connections
        ≡ (elim (read P g.stat_pointers).0 [
          | some s ↦ record {
            active = s.active;
            reading = s.reading;
            writing = s.writing;
            waiting = s.waiting;
            accepted = s.accepted;
            handled = s.handled;
          }
          | none ↦ record {
            active = n;
            reading = 0;
            writing = 0;
            waiting = 0;
            accepted = n;
            handled = n;
          }
        ])
  unfolding vts_collect_nginx_connections update_connection_stats Manager.update_connection_stats
  vts_collect_nginx_connections_lem P connections g = ground (arith, count_open-length connections)
