-- ===== src/Prometheus/Samples/Order.antt =====
-- The order in which a map is visited (src/prometheus): it is not specified, and shows in the order
-- of the lines only.
pub mod Page
use mathlib.Core.List.Permᴰ
use mathlib.Core.List.{append_assoc, Permᴰ}
use ngx_vts.Prelude.{
  ℕ, suc, ◌+◌, ◌≡◌, refl, sym, arith, Bytes, some, true, codes, List, [], ◌∷◌, ◌++◌, All, all_of,
  length,
}
use ngx_vts.Float.{F64}
use ngx_vts.HashMap.{HashMap}
use ngx_vts.Stats.{VtsServerStats}
use ngx_vts.UpstreamStats.{UpstreamZone, UpstreamServerStats}
use ngx_vts.CacheStats.{CacheZoneStats}
use ngx_vts.Prometheus.Reader.{Sample, samples_of}
use ngx_vts.Prometheus.Reader.Pages.{PlainKeys}
use ngx_vts.Prometheus.Samples.Server
use ngx_vts.Prometheus.Samples.Server.{server_samples}
use ngx_vts.Prometheus.Samples.Upstream
use ngx_vts.Prometheus.Samples.Upstream.{server_rows, upstream_samples}
use ngx_vts.Prometheus.Samples.Upstream.Laws.{PlainGroups}
use ngx_vts.Prometheus.Samples.Cache
use ngx_vts.Prometheus.Samples.Cache.{cache_samples}

pub All-perm {ℓ κ} :
    {A : Type ℓ} (P : A → Type κ) {xs ys : List A} → Permᴰ xs ys → All P xs → All P ys
All-perm P Permᴰ.nil h = h
All-perm P (Permᴰ.cons e p) (h, hs) = (rw e at h, All-perm P p hs)
All-perm P (Permᴰ.swap e d) (h, (k, hs)) = (rw d at k, (rw e at h, hs))
All-perm P (Permᴰ.trans p q) h = All-perm P q (All-perm P p h)

exchange : (a b rest : List Sample) → Permᴰ (a ++ (b ++ rest)) (b ++ (a ++ rest))
exchange a b rest =
    rw (sym (append_assoc a b rest), sym (append_assoc b a rest))
      (Permᴰ.append_right rest (Permᴰ.append_comm a b))

samples_of-perm {ℓ} :
    {A : Type ℓ} (f : A → List Sample) {xs ys : List A}
    → Permᴰ xs ys
    → Permᴰ (samples_of f xs) (samples_of f ys)
samples_of-perm f Permᴰ.nil = Permᴰ.nil
samples_of-perm f {ys = y ∷ ys} (Permᴰ.cons e p) =
    rw e (Permᴰ.append_left (f y) (samples_of-perm f p))
samples_of-perm f {xs = a ∷ b ∷ xs} (Permᴰ.swap e d) =
    rw (sym e, sym d) (exchange (f a) (f b) (samples_of f xs))
samples_of-perm f (Permᴰ.trans p q) = Permᴰ.trans (samples_of-perm f p) (samples_of-perm f q)

append-perm : {a a' b b' : List Sample} → Permᴰ a a' → Permᴰ b b' → Permᴰ (a ++ b) (a' ++ b')
append-perm {a} {a'} {b} {b'} p q = Permᴰ.trans (Permᴰ.append_right b p) (Permᴰ.append_left a' q)

length-perm {ℓ} : {A : Type ℓ} {xs ys : List A} → Permᴰ xs ys → length xs ≡ length ys
length-perm Permᴰ.nil = refl
length-perm (Permᴰ.cons e p) = omega (arith, length-perm p)
length-perm (Permᴰ.swap e d) = refl
length-perm (Permᴰ.trans p q) = omega (arith, length-perm p, length-perm q)

-- The same groups in the same order, with the servers of each in any order.
abbrev pub SameGroups : HashMap UpstreamZone → HashMap UpstreamZone → Type 0
SameGroups [] [] = Unit
SameGroups [] (h ∷ hs) = ⊥
SameGroups (g ∷ gs) [] = ⊥
SameGroups (g ∷ gs) (h ∷ hs) = (g.0 ≡ h.0) × Permᴰ g.1.servers h.1.servers × SameGroups gs hs

-- A map of groups visited in another order, and so are the servers of each group.
abbrev pub IsReordered : HashMap UpstreamZone → HashMap UpstreamZone → Type 0
IsReordered gs hs = (ms : HashMap UpstreamZone) × SameGroups gs ms × Permᴰ ms hs

length-SameGroups : (gs hs : HashMap UpstreamZone) → SameGroups gs hs → length gs ≡ length hs
length-SameGroups [] [] s = refl
length-SameGroups [] (h ∷ hs) s = absurd s
length-SameGroups (g ∷ gs) [] s = absurd s
length-SameGroups (g ∷ gs) (h ∷ hs) (_, _, s) = omega (arith, length-SameGroups gs hs s)

pub length-IsReordered : (gs hs : HashMap UpstreamZone) → IsReordered gs hs → length gs ≡ length hs
length-IsReordered gs hs (ms, s, p) = omega (arith, length-SameGroups gs ms s, length-perm p)

SameGroups-PlainGroups :
    (gs hs : HashMap UpstreamZone) → SameGroups gs hs → PlainGroups gs → PlainGroups hs
SameGroups-PlainGroups [] [] s h = h
SameGroups-PlainGroups [] (h ∷ hs) s _ = absurd s
SameGroups-PlainGroups (g ∷ gs) [] s _ = absurd s
SameGroups-PlainGroups (g ∷ gs) (h ∷ hs) (e, p, s) ((name, servers), rest) =
    ((rw e at name, All-perm _ p servers), SameGroups-PlainGroups gs hs s rest)

pub IsReordered-PlainGroups :
    (gs hs : HashMap UpstreamZone) → IsReordered gs hs → PlainGroups gs → PlainGroups hs
IsReordered-PlainGroups gs hs (ms, s, p) h = All-perm _ p (SameGroups-PlainGroups gs ms s h)

module _ (row : Bytes → Bytes × UpstreamServerStats → List Sample) where
  server_rows-SameGroups :
      (gs hs : HashMap UpstreamZone)
      → SameGroups gs hs
      → Permᴰ (server_rows row gs) (server_rows row hs)
  unfolding server_rows
  server_rows-SameGroups [] [] s = Permᴰ.nil
  server_rows-SameGroups [] (h ∷ hs) s = absurd s
  server_rows-SameGroups (g ∷ gs) [] s = absurd s
  server_rows-SameGroups (g ∷ gs) (h ∷ hs) (e, p, s) =
      rw e (append-perm (samples_of-perm (row h.0) p) (server_rows-SameGroups gs hs s))

  server_rows-IsReordered :
      (gs hs : HashMap UpstreamZone)
      → IsReordered gs hs
      → Permᴰ (server_rows row gs) (server_rows row hs)
  unfolding server_rows
  server_rows-IsReordered gs hs (ms, s, p) =
      Permᴰ.trans (server_rows-SameGroups gs ms s) (samples_of-perm _ p)

pub server_samples-perm :
    (F : F64) (prefix : Bytes) (zones zones' : HashMap (VtsServerStats F))
    → Permᴰ zones zones'
    → Permᴰ (server_samples F prefix zones) (server_samples F prefix zones')
unfolding server_samples
server_samples-perm F prefix zones zones' p =
    let lines : (row : Bytes × VtsServerStats F → List Sample)
        → Permᴰ (samples_of row zones) (samples_of row zones') =
      λ row. samples_of-perm row p in
    append-perm (lines (Server.request_samples F (prefix ++ codes "server_requests_total"))) (
      append-perm (lines (Server.byte_samples F (prefix ++ codes "server_bytes_total"))) (
        append-perm (lines (Server.response_samples F (prefix ++ codes "server_responses_total")))
          (lines (Server.second_samples F (prefix ++ codes "server_request_seconds")))))

pub cache_samples-perm :
    (F : F64) (prefix : Bytes) (zones zones' : HashMap CacheZoneStats)
    → Permᴰ zones zones'
    → Permᴰ (cache_samples F prefix zones) (cache_samples F prefix zones')
unfolding cache_samples
cache_samples-perm F prefix zones zones' p =
    append-perm (samples_of-perm (Cache.status_samples (prefix ++ codes "cache_requests_total")) p)
      (append-perm (samples_of-perm (Cache.size_samples (prefix ++ codes "cache_size_bytes")) p)
        (samples_of-perm (Cache.ratio_samples F (prefix ++ codes "cache_hit_ratio")) p))

pub upstream_samples-IsReordered :
    (F : F64) (prefix : Bytes) (zones zones' : HashMap UpstreamZone)
    → IsReordered zones zones'
    → Permᴰ (upstream_samples F prefix zones) (upstream_samples F prefix zones')
unfolding upstream_samples
upstream_samples-IsReordered F prefix zones zones' p =
    let rows : (row : Bytes → Bytes × UpstreamServerStats → List Sample)
        → Permᴰ (server_rows row zones) (server_rows row zones') =
      λ row. server_rows-IsReordered row zones zones' p in
    append-perm (rows (Upstream.request_samples (prefix ++ codes "upstream_requests_total"))) (
      append-perm (rows (Upstream.byte_samples (prefix ++ codes "upstream_bytes_total"))) (
        append-perm (rows (Upstream.second_samples F (prefix ++ codes "upstream_response_seconds")))
          (append-perm (rows (Upstream.up_samples (prefix ++ codes "upstream_server_up"))) (
            append-perm
              (rows (Upstream.response_samples (prefix ++ codes "upstream_responses_total")))
              (rows (
                Upstream.histogram_samples F
                  (prefix ++ codes "upstream_response_duration_seconds")))))))
