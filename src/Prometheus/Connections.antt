-- ===== src/Prometheus/Connections.antt =====
-- src/prometheus/connections.rs: the connection metrics.
use ngx_vts.Prelude.{ℕ, Bytes, codes, decimal, [], ◌∷◌, ◌++◌}
use ngx_vts.Stats.{VtsConnectionStats}
use ngx_vts.Prometheus.Lines.{PrometheusFormatter, newline, header, sample, each}

unfoldable pub format_connection_stats : PrometheusFormatter → VtsConnectionStats → Bytes
format_connection_stats f c =
    let current : Bytes = f.metric_prefix ++ codes "connections" in
    let total : Bytes = f.metric_prefix ++ codes "connections_total" in
    header current (codes "Current nginx connections") (codes "gauge")
    ++ (each (λ (e : Bytes × ℕ). sample current (codes "state", e.0) [] (decimal e.1))
          ((codes "active", c.active)
            ∷ (codes "reading", c.reading)
            ∷ (codes "writing", c.writing)
            ∷ (codes "waiting", c.waiting)
            ∷ [])
        ++ (newline
            ++ (header total (codes "Total nginx connections") (codes "counter")
                ++ (each (λ (e : Bytes × ℕ). sample total (codes "state", e.0) [] (decimal e.1))
                      ((codes "accepted", c.accepted) ∷ (codes "handled", c.handled) ∷ [])
                    ++ newline))))
