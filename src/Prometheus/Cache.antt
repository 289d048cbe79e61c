-- ===== src/Prometheus/Cache.antt =====
-- src/prometheus/cache.rs: the metrics of the cache zones.
use ngx_vts.Prelude.{ℕ, Bytes, codes, decimal, [], ◌∷◌, ◌++◌}
use ngx_vts.Float.{F64}
use ngx_vts.HashMap.{HashMap}
use ngx_vts.CacheStats.{CacheZoneStats, hit_ratio}
use ngx_vts.Prometheus.Lines.{PrometheusFormatter, default_prefix, newline, header, sample, each}

unfoldable pub requests_lines : Bytes → Bytes × CacheZoneStats → Bytes
requests_lines metric (_, z) =
    each
      (λ (e : Bytes × ℕ).
        sample metric (codes "zone", z.name) ((codes "status", e.0) ∷ []) (decimal e.1))
      ((codes "hit", z.cache.hit)
        ∷ (codes "miss", z.cache.miss)
        ∷ (codes "bypass", z.cache.bypass)
        ∷ (codes "expired", z.cache.expired)
        ∷ (codes "stale", z.cache.stale)
        ∷ (codes "updating", z.cache.updating)
        ∷ (codes "revalidated", z.cache.revalidated)
        ∷ (codes "scarce", z.cache.scarce)
        ∷ [])

unfoldable pub size_lines : Bytes → Bytes × CacheZoneStats → Bytes
size_lines metric (_, z) =
    sample metric (codes "zone", z.name) ((codes "type", codes "max") ∷ [])
      (decimal z.size.max_size)
    ++ sample metric (codes "zone", z.name) ((codes "type", codes "used") ∷ [])
        (decimal z.size.used_size)

-- The headers name the default prefix, whatever the prefix of the formatter.
abbrev pub headed : Bytes → Bytes
headed metric = default_prefix ++ metric

module _ (F : F64) where
  unfoldable pub ratio_lines : Bytes → Bytes × CacheZoneStats → Bytes
  unfolding hit_ratio
  ratio_lines metric (_, z) =
      sample metric (codes "zone", z.name) [] (F.to_fixed (hit_ratio F z.cache) 2)

  unfoldable pub format_cache_stats : PrometheusFormatter → HashMap CacheZoneStats → Bytes
  format_cache_stats f [] =
      header (headed (codes "cache_requests_total")) (codes "Total number of cache requests")
        (codes "counter")
      ++ (header (headed (codes "cache_size_bytes")) (codes "Cache size statistics in bytes")
            (codes "gauge")
          ++ newline)
  format_cache_stats f (zone ∷ zones) =
      let cache_zones : HashMap CacheZoneStats = zone ∷ zones in
      header (headed (codes "cache_requests_total"))
        (codes "Total number of cache requests by status") (codes "counter")
      ++ (each (requests_lines (f.metric_prefix ++ codes "cache_requests_total")) cache_zones
          ++ (newline
              ++ (header (headed (codes "cache_size_bytes"))
                    (codes "Cache size statistics in bytes") (codes "gauge")
                  ++ (each (size_lines (f.metric_prefix ++ codes "cache_size_bytes")) cache_zones
                      ++ (newline
                          ++ (header (headed (codes "cache_hit_ratio"))
                                (codes "Cache hit ratio percentage") (codes "gauge")
                              ++ (each (ratio_lines (f.metric_prefix ++ codes "cache_hit_ratio"))
                                    cache_zones
                                  ++ newline)))))))
