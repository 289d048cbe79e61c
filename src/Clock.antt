-- ===== src/Clock.antt =====
-- src/lib.rs: `calculate_time_diff_ms`, the request time in milliseconds.
use ngx_vts.Prelude.{
  ℕ, ◌+◌, ◌-◌, ◌*◌, ◌<◌, ◌≡◌, ltb, leb, ◌&&◌, if◌then◌else◌, add64, mul64, sub64, u64_mod, arith,
}

-- `saturating_sub` is `-` on the natural numbers.
unfoldable pub calculate_time_diff_ms : ℕ → ℕ → ℕ → ℕ → ℕ
calculate_time_diff_ms start_sec start_msec current_sec current_msec =
    if leb start_msec current_msec
    then (let sec_diff : ℕ = current_sec - start_sec in
        let msec_diff : ℕ = sub64 current_msec start_msec in add64 (mul64 sec_diff 1000) msec_diff)
    else if ltb start_sec current_sec
    then (let sec_diff : ℕ = sub64 current_sec (add64 start_sec 1) in
        let msec_diff : ℕ = sub64 (add64 current_msec 1000) start_msec in
        add64 (mul64 sec_diff 1000) msec_diff)
    else 0

-- A clock reading: milliseconds below 1000, and a time in milliseconds that fits a `u64`.
pub record IsReading (sec msec : ℕ) : Type 0 where
  pub msec_lt : msec < 1000
  pub fits : sec * 1000 + 999 < u64_mod

-- The elapsed time between two clock readings, in milliseconds: the difference of the two times,
-- stopped at zero, except when the second reading has an earlier second and no smaller
-- millisecond part; then it is the difference of the millisecond parts.
pub calculate_time_diff_ms_lem :
    (ss sm cs cm : ℕ)
    → IsReading ss sm
    → IsReading cs cm
    → calculate_time_diff_ms ss sm cs cm
      ≡ (if ltb cs ss && leb sm cm then cm - sm else (cs * 1000 + cm) - (ss * 1000 + sm))
unfolding calculate_time_diff_ms
calculate_time_diff_ms_lem ss sm cs cm s c = ground arith
