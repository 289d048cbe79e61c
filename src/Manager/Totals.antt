-- ===== src/Manager/Totals.antt =====
-- The totals of an upstream group (src/upstream_stats.rs) under the requests that the manager
-- records (src/vts_node.rs).
use ngx_vts.Prelude.{
  ℕ, Bytes, ◌≡◌, refl, arith, [], ◌∷◌, map, add64, eqb, eqb_refl, Bool-cases, inl, inr,
}
use ngx_vts.HashMap
use ngx_vts.HashMap.{HashMap}
use ngx_vts.UpstreamStats.{
  UpstreamServerStats, UpstreamZone, new_server, sum64, total_requests, total_bytes,
  get_or_create_server,
}
use ngx_vts.Manager.{record_request, record_in_zone}

module _ {ℓ} {V : Type ℓ} (p : V → ℕ) (k : Bytes) (v : V) (f : V → V) (d : ℕ) (fresh : p v ≡ 0)
    (raises : (w : V) → p (f w) ≡ add64 (p w) d) where
  -- A change of one entry by d, which is created at 0, changes the sum by d.
  sum64-modify :
      (m : HashMap V)
      → sum64 (map p (HashMap.values (HashMap.modify (HashMap.or_insert m k v) k f)))
        ≡ add64 (sum64 (map p (HashMap.values m))) d
  unfolding HashMap.modify HashMap.or_insert sum64
  sum64-modify [] = rw (eqb_refl k) (omega (arith, fresh, raises v))
  sum64-modify ((j, w) ∷ m) = elim (Bool-cases (eqb k j)) [
    | inl same ↦ rw (same) (rw (same) (omega (arith, raises w)))
    | inr other ↦ rw (other) (rw (other) (omega (arith, sum64-modify m)))
  ]

record_request-counts :
    (s : UpstreamServerStats) (t u sent received status : ℕ)
    → let s' = record_request s t u sent received status in
      (s'.request_counter ≡ add64 s.request_counter 1)
      × (s'.in_bytes ≡ add64 s.in_bytes received)
      × (s'.out_bytes ≡ add64 s.out_bytes sent)
unfolding record_request
record_request-counts s t u sent received status = ground arith

-- Each request that is recorded in a group raises its total of requests by one and its two totals of
-- bytes by the bytes received and sent, modulo 2 ^ 64, whether or not the server was known.
pub totals-record_in_zone :
    (z : UpstreamZone) (addr : Bytes) (t u sent received status : ℕ)
    → let z' = record_in_zone z addr t u sent received status in
      (total_requests z' ≡ add64 (total_requests z) 1)
      × ((total_bytes z').0 ≡ add64 (total_bytes z).0 received)
      × ((total_bytes z').1 ≡ add64 (total_bytes z).1 sent)
unfolding record_in_zone record_request get_or_create_server total_requests total_bytes new_server
totals-record_in_zone z addr t u sent received status =
    let f : UpstreamServerStats → UpstreamServerStats =
      λ s. record_request s t u sent received status in
    let counts = λ (s : UpstreamServerStats). record_request-counts s t u sent received status in
    (
      sum64-modify (λ s. s.request_counter) addr (new_server addr) f 1 refl (λ s. (counts s).0)
          z.servers,
      sum64-modify (λ s. s.in_bytes) addr (new_server addr) f received refl (λ s. (counts s).1)
          z.servers,
      sum64-modify (λ s. s.out_bytes) addr (new_server addr) f sent refl (λ s. (counts s).2)
          z.servers,
    )
