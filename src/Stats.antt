-- ===== src/Stats.antt =====
-- src/stats.rs: the snapshot types that the storage layers fill and the formatter reads.
use ngx_vts.Prelude.{ℕ}
use ngx_vts.Float.{F64}

pub record VtsResponseStats : Type 0 where
  pub status_1xx : ℕ
  pub status_2xx : ℕ
  pub status_3xx : ℕ
  pub status_4xx : ℕ
  pub status_5xx : ℕ

pub record VtsRequestTimes (F : F64) : Type 0 where
  pub total : F.Carrier
  pub min : F.Carrier
  pub max : F.Carrier
  pub avg : F.Carrier

pub record VtsServerStats (F : F64) : Type 0 where
  pub requests : ℕ
  pub bytes_in : ℕ
  pub bytes_out : ℕ
  pub responses : VtsResponseStats
  pub request_times : VtsRequestTimes F

pub record VtsConnectionStats : Type 0 where
  pub active : ℕ
  pub reading : ℕ
  pub writing : ℕ
  pub waiting : ℕ
  pub accepted : ℕ
  pub handled : ℕ
