-- ===== src/Shm/Server/Order.antt =====
-- The order in which the workers' requests reach a zone does not matter.
use mathlib.Core.Logic.{∥∥₁_elim}
use native.Mathlib.Nat.{ℕ_set}
use ngx_vts.Prelude.{
  ◌/◌, ◌==◌, List, ◌≡◌, ◌∙◌, refl, sym, Perm, Permᴰ, arith, sum_of-perm, count_of-perm, length-perm,
}
use ngx_vts.Shm.Server.{ServerCounters}
use ngx_vts.Shm.Server.History.{Request, replay, summary, longest, shortest, replay-summary}

ServerCounters-set : IsSet ServerCounters
ServerCounters-set = hlevel ℕ_set

longest-perm : {rs qs : List Request} → Permᴰ rs qs → longest rs ≡ longest qs
longest-perm Permᴰ.nil = refl
longest-perm (Permᴰ.cons e p) = rw (e, longest-perm p)
longest-perm (Permᴰ.swap e d) = rw (e, d) (ground arith)
longest-perm (Permᴰ.trans p q) = longest-perm p ∙ longest-perm q

shortest-perm : {rs qs : List Request} → Permᴰ rs qs → shortest rs ≡ shortest qs
shortest-perm Permᴰ.nil = refl
shortest-perm (Permᴰ.cons e p) = rw (e, shortest-perm p)
shortest-perm (Permᴰ.swap e d) = rw (e, d) (ground arith)
shortest-perm (Permᴰ.trans p q) = shortest-perm p ∙ shortest-perm q

summary-perm : {rs qs : List Request} → Permᴰ rs qs → summary rs ≡ summary qs
summary-perm p = rw (
  length-perm p,
  sum_of-perm (λ (r : Request). r.bytes_in) p,
  sum_of-perm (λ (r : Request). r.bytes_out) p,
  sum_of-perm (λ (r : Request). r.request_time) p,
  count_of-perm (λ (r : Request). r.status / 100 == 1) p,
  count_of-perm (λ (r : Request). r.status / 100 == 2) p,
  count_of-perm (λ (r : Request). r.status / 100 == 3) p,
  count_of-perm (λ (r : Request). r.status / 100 == 4) p,
  count_of-perm (λ (r : Request). r.status / 100 == 5) p,
  longest-perm p,
  shortest-perm p,
)

-- The counters of a zone are the same for every order of the same requests.
pub server_replay-perm : (rs qs : List Request) → Perm rs qs → replay rs ≡ replay qs
server_replay-perm rs qs p =
    replay-summary rs
    ∙ (∥∥₁_elim p (ServerCounters-set (summary rs) (summary qs)) summary-perm
        ∙ sym (replay-summary qs))
