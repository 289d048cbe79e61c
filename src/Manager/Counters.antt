-- ===== src/Manager/Counters.antt =====
-- The two stores count alike: the in-place updates of the process-local statistics are the updates
-- of the shared counters seen through `into_stats`.
use ngx_vts.Prelude.{ℕ, Bytes, ◌≡◌, refl, arith}
use ngx_vts.UpstreamStats.{new_server, status_class}
use ngx_vts.Shm.Upstream
use ngx_vts.Shm.Upstream.{UpstreamCounters}
use ngx_vts.Manager.{record_request}

-- An update of the shared counters of an upstream server, and the updates of its process-local
-- statistics, agree.
pub into_stats-update :
    (c : UpstreamCounters) (server : Bytes) (t u s r status : ℕ)
    → Upstream.into_stats (Upstream.update c t u s r status) server
      ≡ record_request (Upstream.into_stats c server) t u s r status
unfolding Upstream.into_stats Upstream.update record_request status_class
into_stats-update c server t u s r status = ground arith

pub into_stats-new : (server : Bytes) → Upstream.into_stats Upstream.new server ≡ new_server server
unfolding Upstream.into_stats Upstream.new new_server
into_stats-new server = refl
