-- ===== src/Manager/Invariant.antt =====
-- The names that the process-local manager stores agree with the keys that it stores them under.
use ngx_vts.Prelude.{ℕ, Bytes, ◌≡◌, refl, arith}
use ngx_vts.HashMap
use ngx_vts.HashMap.{HashMap, NodupKeys}
use ngx_vts.HashMap.Keys.{Each, or_insert-NodupKeys, modify-NodupKeys, or_insert-Each, modify-Each}
use ngx_vts.UpstreamStats
use ngx_vts.UpstreamStats.{UpstreamZone, UpstreamServerStats}
use ngx_vts.Shm.Server
use ngx_vts.Manager.{
  VtsStatsManager, new, update_server_stats, update_upstream_stats, record_in_zone, record_request,
}

abbrev pub IsNamed : Bytes → UpstreamServerStats → Type 0
IsNamed addr s = s.server ≡ addr

pub record IsZone (name : Bytes) (z : UpstreamZone) : Type 0 where
  pub named : z.name ≡ name
  pub distinct : NodupKeys z.servers
  pub servers : Each IsNamed z.servers

pub record IsValid (m : VtsStatsManager) : Type 0 where
  pub stats_distinct : NodupKeys m.stats
  pub zones_distinct : NodupKeys m.upstream_zones
  pub zones : Each IsZone m.upstream_zones

pub new-IsValid : IsValid new
unfolding new
new-IsValid = record { stats_distinct = tt; zones_distinct = tt; zones = tt }

record_request-IsNamed :
    (addr : Bytes) (s : UpstreamServerStats) (t u b r status : ℕ)
    → IsNamed addr s
    → IsNamed addr (record_request s t u b r status)
unfolding record_request
record_request-IsNamed addr s t u b r status h = ground arith

record_in_zone-IsZone :
    (name : Bytes) (z : UpstreamZone) (addr : Bytes) (t u b r status : ℕ)
    → IsZone name z
    → IsZone name (record_in_zone z addr t u b r status)
unfolding record_in_zone UpstreamStats.new_server
record_in_zone-IsZone name z addr t u b r status h = record {
  named = h.named;
  distinct =
      modify-NodupKeys (HashMap.or_insert z.servers addr (UpstreamStats.new_server addr)) addr
        (λ s. record_request s t u b r status)
        (or_insert-NodupKeys z.servers addr (UpstreamStats.new_server addr) h.distinct);
  servers =
      modify-Each IsNamed (HashMap.or_insert z.servers addr (UpstreamStats.new_server addr)) addr
        (λ s. record_request s t u b r status)
        (λ s e. record_request-IsNamed addr s t u b r status e)
        (or_insert-Each IsNamed z.servers addr (UpstreamStats.new_server addr) refl h.servers);
}

new_zone-IsZone : (name : Bytes) → IsZone name (UpstreamStats.new_zone name)
unfolding UpstreamStats.new_zone
new_zone-IsZone name = record { named = refl; distinct = tt; servers = tt }

pub update_server_stats-IsValid :
    (m : VtsStatsManager) (name : Bytes) (status i o t : ℕ)
    → IsValid m
    → IsValid (update_server_stats m name status i o t)
unfolding update_server_stats
update_server_stats-IsValid m name status i o t h = record {
  stats_distinct =
      modify-NodupKeys (HashMap.or_insert m.stats name Server.new) name
        (λ c. Server.update c status i o t)
        (or_insert-NodupKeys m.stats name Server.new h.stats_distinct);
  zones_distinct = h.zones_distinct;
  zones = h.zones;
}

-- An upstream request keeps the invariant: no zone and no server stands twice, each zone is stored
-- under its name and each server under its address.
pub update_upstream_stats-IsValid :
    (m : VtsStatsManager) (name addr : Bytes) (t u b r status : ℕ)
    → IsValid m
    → IsValid (update_upstream_stats m name addr t u b r status)
unfolding update_upstream_stats
update_upstream_stats-IsValid m name addr t u b r status h =
    let zone : UpstreamZone = UpstreamStats.new_zone name in
    record {
      stats_distinct = h.stats_distinct;
      zones_distinct =
          modify-NodupKeys (HashMap.or_insert m.upstream_zones name zone) name
            (λ z. record_in_zone z addr t u b r status)
            (or_insert-NodupKeys m.upstream_zones name zone h.zones_distinct);
      zones =
          modify-Each IsZone (HashMap.or_insert m.upstream_zones name zone) name
            (λ z. record_in_zone z addr t u b r status)
            (λ z e. record_in_zone-IsZone name z addr t u b r status e)
            (or_insert-Each IsZone m.upstream_zones name zone (new_zone-IsZone name) h.zones);
    }
