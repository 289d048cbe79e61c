-- ===== src/Prometheus/Lines.antt =====
-- src/prometheus/mod.rs: the formatter, and the shapes of the lines that its `format!` calls write.
use ngx_vts.Prelude.{Bytes, codes, List, [], ◌∷◌, ◌++◌}

pub record PrometheusFormatter : Type 0 where
  pub metric_prefix : Bytes

abbrev pub default_prefix : Bytes
default_prefix = codes "nginx_vts_"

unfoldable pub new : PrometheusFormatter
new = record { metric_prefix = default_prefix }

unfoldable pub with_prefix : Bytes → PrometheusFormatter
with_prefix prefix = record { metric_prefix = prefix }

abbrev pub newline : Bytes
newline = 10 ∷ []

-- "# HELP {metric} {help}\n" and "# TYPE {metric} {kind}\n"
unfoldable pub header : Bytes → Bytes → Bytes → Bytes
header metric help kind =
    (codes "# HELP " ++ (metric ++ (codes " " ++ (help ++ newline))))
    ++ (codes "# TYPE " ++ (metric ++ (codes " " ++ (kind ++ newline))))

abbrev pub Labels : Type 0
Labels = List (Bytes × Bytes)

-- `{key}="{value}"`
unfoldable pub label : Bytes × Bytes → Bytes
label (key, value) = key ++ (codes "=\"" ++ (value ++ codes "\""))

-- The labels behind the first, each after a comma.
unfoldable pub more_labels : Labels → Bytes
unfolding label
more_labels [] = []
more_labels (l ∷ labels) = codes "," ++ (label l ++ more_labels labels)

-- "{metric}{{labels}} {value}\n", with at least one label.
unfoldable pub sample : Bytes → Bytes × Bytes → Labels → Bytes → Bytes
unfolding label more_labels
sample metric l labels value =
    metric ++ (codes "{" ++ (label l ++ (more_labels labels ++ (codes "} " ++ (value ++ newline)))))

-- The text of a loop that pushes a text for each element.
unfoldable pub each {ℓ} : {A : Type ℓ} → (A → Bytes) → List A → Bytes
each f [] = []
each f (x ∷ xs) = f x ++ each f xs

unfoldable pub format_nginx_info : PrometheusFormatter → Bytes → Bytes → Bytes
unfolding header sample
format_nginx_info f hostname version =
    let metric : Bytes = f.metric_prefix ++ codes "info" in
    header metric (codes "Nginx VTS module information") (codes "gauge")
    ++ (sample metric (codes "hostname", hostname) ((codes "version", version) ∷ []) (codes "1")
        ++ newline)
