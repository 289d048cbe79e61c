-- ===== src/Prometheus/Samples/Lookup.antt =====
-- The value of a sample by its metric and labels, among the samples of a page (src/prometheus).
use mathlib.Core.List.{append_assoc}
use ngx_vts.Prelude.{
  ◌≡◌, Bytes, codes, decimal, eqb, eqb_iff, eqb_refl, Option, none, some, Bool, true, false, ◌&&◌,
  List, [], ◌∷◌, ◌++◌, arith, if◌then◌else◌, refl, ◌∙◌, Bool-cases, inl, inr,
}
use ngx_vts.Float.{F64}
use ngx_vts.HashMap
use ngx_vts.HashMap.{HashMap}
use ngx_vts.Stats.{VtsServerStats}
use ngx_vts.UpstreamStats.{UpstreamZone, UpstreamServerStats}
use ngx_vts.Shm.Snapshot.Laws.{server_in}
use ngx_vts.Prometheus.Samples.Upstream
use ngx_vts.Prometheus.Samples.Upstream.{server_labels, server_rows}
use ngx_vts.Prometheus.Lines.{Labels}
use ngx_vts.Prometheus.Reader.{Sample, samples_of}
use ngx_vts.Prometheus.Samples.Server.{request_samples}

abbrev same_labels : Labels → Labels → Bool
same_labels [] [] = true
same_labels ((k, v) ∷ a) ((k', v') ∷ b) = eqb k k' && eqb v v' && same_labels a b
same_labels _ _ = false

-- The value of the first sample with a metric and labels.
unfoldable pub lookup : Bytes → Labels → List Sample → Option Bytes
lookup metric labels [] = none
lookup metric labels (s ∷ samples) =
    if eqb s.metric metric && same_labels s.labels labels
    then some s.value
    else lookup metric labels samples

-- The request counter of a zone, in front of other samples.
pub lookup-request_samples :
    (F : F64) (metric k : Bytes) (zones : HashMap (VtsServerStats F)) (rest : List Sample)
    (stats : VtsServerStats F)
    → HashMap.get zones k ≡ some stats
    → lookup metric ((codes "zone", k) ∷ []) (samples_of (request_samples F metric) zones ++ rest)
      ≡ some (decimal stats.requests)
unfolding lookup request_samples HashMap.get
lookup-request_samples F metric k [] rest stats h = absurd (ground arith)
lookup-request_samples F metric k ((zone, s) ∷ zones) rest stats h = ground (
  arith,
  eqb_refl metric,
  eqb_refl (codes "zone"),
  eqb_iff zone k,
  eqb_iff k zone,
  lookup-request_samples F metric k zones rest stats,
)

-- Samples with none that is looked for, in front of others.
pub lookup-append :
    (metric : Bytes) (labels : Labels) (a b : List Sample)
    → lookup metric labels a ≡ none
    → lookup metric labels (a ++ b) ≡ lookup metric labels b
unfolding lookup
lookup-append metric labels [] b h = refl
lookup-append metric labels (x ∷ a) b h = ground (arith, lookup-append metric labels a b)

pub lookup-samples_of {ℓ} :
    {A : Type ℓ} (metric : Bytes) (labels : Labels) (f : A → List Sample) (xs : List A)
    → ((x : A) → lookup metric labels (f x) ≡ none)
    → lookup metric labels (samples_of f xs) ≡ none
unfolding lookup
lookup-samples_of metric labels f [] h = refl
lookup-samples_of metric labels f (x ∷ xs) h =
    lookup-append metric labels (f x) (samples_of f xs) (h x)
    ∙ lookup-samples_of metric labels f xs h

-- The request counters of the servers of a group, in front of other samples.
lookup-servers :
    (metric upstream u s : Bytes) (servers : HashMap UpstreamServerStats) (rest : List Sample)
    → lookup metric
        (server_labels u s [])
        (samples_of (Upstream.request_samples metric upstream) servers ++ rest)
      ≡ (if eqb u upstream
          then elim (HashMap.get servers s) [
            | some stats ↦ some (decimal stats.request_counter)
            | none ↦ lookup metric (server_labels u s []) rest
          ]
          else lookup metric (server_labels u s []) rest)
unfolding lookup Upstream.request_samples HashMap.get
lookup-servers metric upstream u s [] rest = ground arith
lookup-servers metric upstream u s ((server, st) ∷ servers) rest = ground (
  arith,
  eqb_refl metric,
  eqb_refl (codes "upstream"),
  eqb_refl (codes "server"),
  eqb_iff upstream u,
  eqb_iff u upstream,
  eqb_iff server s,
  eqb_iff s server,
  lookup-servers metric upstream u s servers rest,
)

-- The request counter of a server of a group, in front of other samples.
pub lookup-server_rows :
    (metric u s : Bytes) (zones : HashMap UpstreamZone) (rest : List Sample)
    (stats : UpstreamServerStats)
    → server_in (HashMap.get zones u) s ≡ some stats
    → lookup metric
        (server_labels u s [])
        (server_rows (Upstream.request_samples metric) zones ++ rest)
      ≡ some (decimal stats.request_counter)
unfolding server_rows HashMap.get
lookup-server_rows metric u s [] rest stats h = absurd (ground arith)
lookup-server_rows metric u s ((upstream, z) ∷ zones) rest stats h = rw append_assoc (
    lookup-servers metric upstream u s z.servers _ ∙ (elim (Bool-cases (eqb u upstream)) [
      | inl same ↦ rw same (rw (rw same at h) refl)
      | inr other ↦ rw other (lookup-server_rows metric u s zones rest stats (rw other at h))
    ]))
