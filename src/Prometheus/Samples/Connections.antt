-- ===== src/Prometheus/Samples/Connections.antt =====
-- The samples of the connection metrics (src/prometheus/connections.rs, and `format_nginx_info` of
-- src/prometheus/mod.rs).
use ngx_vts.Prelude.{
  ℕ, ◌≡◌, refl, Bytes, codes, decimal, some, true, List, [], ◌∷◌, ◌++◌, all_of, arith,
}
use ngx_vts.Stats.{VtsConnectionStats}
use ngx_vts.Prometheus.Lines.{with_prefix, sample}
use ngx_vts.Prometheus.Connections.{format_connection_stats}
use ngx_vts.Prometheus.Reader.{Sample, counted, is_name_char, read_page}
use ngx_vts.Prometheus.Reader.Laws.{is_plain, is_word, is_word-append}
use ngx_vts.Prometheus.Reader.Pages.{
  Reads, Reads-page, Reads-rows, Reads-last, Reads-family, Reads-header, Reads-sample,
  is_value-decimal,
}

unfoldable pub connection_samples : Bytes → VtsConnectionStats → List Sample
connection_samples prefix c =
    let current : Bytes = prefix ++ codes "connections" in
    let total : Bytes = prefix ++ codes "connections_total" in
    counted current ((codes "state", codes "active") ∷ []) c.active
    ∷ counted current ((codes "state", codes "reading") ∷ []) c.reading
    ∷ counted current ((codes "state", codes "writing") ∷ []) c.writing
    ∷ counted current ((codes "state", codes "waiting") ∷ []) c.waiting
    ∷ counted total ((codes "state", codes "accepted") ∷ []) c.accepted
    ∷ counted total ((codes "state", codes "handled") ∷ []) c.handled
    ∷ []

state_row :
    (metric : Bytes) (e : Bytes × ℕ)
    → is_word metric ≡ true
    → all_of is_plain e.0 ≡ true
    → Reads
        (sample metric (codes "state", e.0) [] (decimal e.1))
        (counted metric ((codes "state", e.0) ∷ []) e.1 ∷ [])
state_row metric e hm he =
    Reads-sample metric (codes "state", e.0) [] (decimal e.1) hm (ground arith)
      (is_value-decimal e.1)

pub connections-Reads :
    (prefix : Bytes) (c : VtsConnectionStats)
    → all_of is_name_char prefix ≡ true
    → Reads (format_connection_stats (with_prefix prefix) c) (connection_samples prefix c)
unfolding format_connection_stats connection_samples with_prefix
connections-Reads prefix c hp =
    let current = is_word-append prefix (codes "connections") hp refl in
    let total = is_word-append prefix (codes "connections_total") hp refl in
    Reads-family (Reads-header _ _ _ current refl refl)
      (Reads-rows (λ e. all_of is_plain e.0 ≡ true) _ _ _ (λ e. state_row _ e current)
        (refl, (refl, (refl, (refl, _)))))
      (Reads-last (Reads-header _ _ _ total refl refl) (
        Reads-rows (λ e. all_of is_plain e.0 ≡ true) _ _ _ (λ e. state_row _ e total)
          (refl, (refl, _))))

-- For a prefix of letters, digits, underscores and colons, a reader of the connection metrics finds
-- the six numbers, each under its state.
pub read_page-format_connection_stats :
    (prefix : Bytes) (c : VtsConnectionStats)
    → all_of is_name_char prefix ≡ true
    → read_page (format_connection_stats (with_prefix prefix) c)
      ≡ some (connection_samples prefix c)
read_page-format_connection_stats prefix c hp = Reads-page (connections-Reads prefix c hp)
