-- ===== src/Manager/Laws.antt =====
-- What an update does to the zones of the manager.
use mathlib.Core.Option
use ngx_vts.Prelude.{
  ℕ, ◌≡◌, Bytes, eqb, some, if◌then◌else◌, ◌&&◌, eqb_iff, arith, Option-cases, inl, inr,
}
use ngx_vts.Shm.Snapshot.Laws.{server_in}
use ngx_vts.HashMap
use ngx_vts.UpstreamStats.{UpstreamZone, new_zone, new_server}
use ngx_vts.Shm.Server
use ngx_vts.Manager.{
  VtsStatsManager, update_server_stats, update_upstream_stats, record_in_zone, record_request,
}

pub get-update_server_stats :
    (m : VtsStatsManager) (name : Bytes) (status i o t : ℕ) (j : Bytes)
    → HashMap.get (update_server_stats m name status i o t).stats j ≡ (
        if eqb j name
        then some (Server.update (Option.get_or (HashMap.get m.stats name) Server.new) status i o t)
        else HashMap.get m.stats j)
unfolding update_server_stats
get-update_server_stats m name status i o t j =
    HashMap.get-modify-or_insert m.stats name Server.new (λ c. Server.update c status i o t) j

pub get-record_in_zone :
    (z : UpstreamZone) (addr : Bytes) (t u s r status : ℕ) (j : Bytes)
    → HashMap.get (record_in_zone z addr t u s r status).servers j ≡ (
        if eqb j addr
        then some (
            record_request
              (Option.get_or (HashMap.get z.servers addr) (new_server addr))
              t
              u
              s
              r
              status)
        else HashMap.get z.servers j)
unfolding record_in_zone
get-record_in_zone z addr t u s r status j =
    HashMap.get-modify-or_insert z.servers addr (new_server addr)
      (λ c. record_request c t u s r status) j

pub get-update_upstream_stats :
    (m : VtsStatsManager) (name addr : Bytes) (t u s r status : ℕ) (j : Bytes)
    → HashMap.get (update_upstream_stats m name addr t u s r status).upstream_zones j ≡ (
        if eqb j name
        then some (
            record_in_zone
              (Option.get_or (HashMap.get m.upstream_zones name) (new_zone name))
              addr
              t
              u
              s
              r
              status)
        else HashMap.get m.upstream_zones j)
unfolding update_upstream_stats
get-update_upstream_stats m name addr t u s r status j =
    HashMap.get-modify-or_insert m.upstream_zones name (new_zone name)
      (λ z. record_in_zone z addr t u s r status) j

-- An upstream request changes the one server that it is for, which is created if it is missing.
pub server_in-update_upstream_stats :
    (m : VtsStatsManager) (name addr : Bytes) (t x b r status : ℕ) (u s : Bytes)
    → server_in (HashMap.get (update_upstream_stats m name addr t x b r status).upstream_zones u) s
      ≡ (if eqb u name && eqb s addr
          then some (
              record_request
                (Option.get_or
                  (server_in (HashMap.get m.upstream_zones name) addr)
                  (new_server addr))
                t
                x
                b
                r
                status)
          else server_in (HashMap.get m.upstream_zones u) s)
unfolding new_zone HashMap.get
server_in-update_upstream_stats m name addr t x b r status u s =
    elim (Option-cases (HashMap.get m.upstream_zones name)) [
      | inl none_yet ↦ ground (
        arith,
        get-update_upstream_stats m name addr t x b r status u,
        get-record_in_zone (new_zone name) addr t x b r status s,
        eqb_iff u name,
        none_yet,
      )
      | inr (z, found) ↦ ground (
        arith,
        get-update_upstream_stats m name addr t x b r status u,
        get-record_in_zone z addr t x b r status s,
        eqb_iff u name,
        found,
      )
    ]
