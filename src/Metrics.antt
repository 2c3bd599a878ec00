-- ===== src/Metrics.antt =====
-- internal/observability/metrics/prometheus.go: counters, gauges and histograms, and their text.
--
-- The floats, the comparison `<=` and the verb %g are parameters (`Numbers`), with the text of an
-- `int64`, which is here its value modulo 2 ^ 64. Each lock makes a method one step. A collector
-- holds its metrics by value: a metric that is looked up and written back stands for the pointer.
-- The numbers of the Go runtime are an argument. The HTTP handler and expvar are left out.
pub mod Observed
mod Tests
use vector_mcp_go.Base.{
  ℕ, zero, suc, ◌+◌, ◌%◌, ◌^◌, Bool, true, false, Option, none, some, List, [], ◌∷◌, ◌++◌, map,
  ◌==◌, if◌then◌else◌,
}
use vector_mcp_go.Base.Floats.{Floats}
use vector_mcp_go.Base.Maps.{find, put}
use vector_mcp_go.Base.Text.{Text, codes, text_eq, text_dec}
use vector_mcp_go.Store.{Metadata}

pub record Numbers : Type 1 where
  pub floats : Floats
  pub neg : floats.F → floats.F
  -- `a <= b`
  pub at_most : floats.F → floats.F → Bool
  pub format_g : floats.F → Text
  pub format_d : ℕ → Text

abbrev pub width : ℕ
width = 18446744073709551616

-- `n++` on an `int64`.
unfoldable pub increment : ℕ → ℕ
increment n = (n + 1) % width

-- `a += b` on an `int64`.
unfoldable pub plus_int64 : ℕ → ℕ → ℕ
plus_int64 a b = (a + b) % width

-- `strings.TrimSuffix(s, "}")`
unfoldable pub trim_brace : Text → Text
trim_brace [] = []
trim_brace (c ∷ []) = if c == b'}' then [] else c ∷ []
trim_brace (c ∷ d ∷ s) = c ∷ trim_brace (d ∷ s)

join_pairs : List Text → Text
join_pairs [] = []
join_pairs (p ∷ []) = p
join_pairs (p ∷ q ∷ ps) = p ++ b',' ∷ join_pairs (q ∷ ps)

pair_text : Text × Text → Text
pair_text (k, v) = k ++ codes "=\"" ++ v ++ codes "\""

unfoldable pub format_labels : Metadata → Text
unfolding join_pairs pair_text
format_labels [] = []
format_labels (l ∷ ls) = b'{' ∷ join_pairs (map pair_text (l ∷ ls)) ++ b'}' ∷ []

module _ (numbers : Numbers) where
  open numbers use {floats, neg, at_most, format_g, format_d}
  open floats use {F, of_int, add, hundredths}

  -- `Counter` and `Gauge`, which have the same fields.
  pub record Metric : Type 0 where
    pub name : Text
    pub help : Text
    pub labels : Metadata
    pub value : F

  pub record Histogram : Type 0 where
    pub name : Text
    pub help : Text
    pub labels : Metadata
    pub buckets : List F
    pub counts : List ℕ
    pub sum : F
    pub count : ℕ

  pub record Collector : Type 0 where
    pub counters : List (Text × Metric)
    pub gauges : List (Text × Metric)
    pub histograms : List (Text × Histogram)

  abbrev pub new_collector : Collector
  new_collector = record { counters = []; gauges = []; histograms = [] }

  abbrev new_metric : Text → Text → Metadata → Metric
  new_metric name help labels = record {
    name = name;
    help = help;
    labels = labels;
    value = of_int 0;
  }

  unfoldable pub new_counter : Text → Text → Metadata → Collector → Collector × Metric
  new_counter name help labels c = (
    record c { counters = put text_dec name (new_metric name help labels) c.counters },
    new_metric name help labels,
  )

  unfoldable pub new_gauge : Text → Text → Metadata → Collector → Collector × Metric
  new_gauge name help labels c = (
    record c { gauges = put text_dec name (new_metric name help labels) c.gauges },
    new_metric name help labels,
  )

  -- `make([]int64, len(buckets)+1)`
  abbrev pub zero_counts : List F → List ℕ
  zero_counts [] = 0 ∷ []
  zero_counts (b ∷ bs) = 0 ∷ zero_counts bs

  abbrev pub new_histogram : Text → Text → Metadata → List F → Histogram
  new_histogram name help labels buckets = record {
    name = name;
    help = help;
    labels = labels;
    buckets = buckets;
    counts = zero_counts buckets;
    sum = of_int 0;
    count = 0;
  }

  unfoldable pub new_histogram_with_buckets :
      Text → Text → Metadata → List F → Collector → Collector × Histogram
  new_histogram_with_buckets name help labels buckets c = (
    record c {
      histograms = put text_dec name (new_histogram name help labels buckets) c.histograms;
    },
    new_histogram name help labels buckets,
  )

  -- `Add` of a counter or a gauge, and what is defined by it.
  unfoldable pub add_value : F → Metric → Metric
  add_value v m = record m { value = add m.value v }

  unfoldable pub increase : Metric → Metric
  unfolding add_value
  increase = add_value (of_int 1)

  unfoldable pub decrease : Metric → Metric
  unfolding add_value
  decrease = add_value (neg (of_int 1))

  unfoldable pub sub_value : F → Metric → Metric
  unfolding add_value
  sub_value v = add_value (neg v)

  unfoldable pub set_value : F → Metric → Metric
  set_value v m = record m { value = v }

  -- The loop of `Observe` over the buckets, and the last count after them.
  unfoldable pub count_in : F → List F → List ℕ → List ℕ
  unfolding increment
  count_in v bs [] = []
  count_in v [] (c ∷ cs) = increment c ∷ cs
  count_in v (b ∷ bs) (c ∷ cs) = if at_most v b then increment c ∷ cs else c ∷ count_in v bs cs

  unfoldable pub observe : F → Histogram → Histogram
  unfolding increment count_in
  observe v h = record h {
    sum = add h.sum v;
    count = increment h.count;
    counts = count_in v h.buckets h.counts;
  }

  -- The buckets with their cumulative counts; after them stands the count of the last one.
  unfoldable pub cumulated : ℕ → List F → List ℕ → List (F × ℕ) × ℕ
  unfolding plus_int64
  cumulated acc bs [] = ([], acc)
  cumulated acc [] (c ∷ cs) = ([], plus_int64 acc c)
  cumulated acc (b ∷ bs) (c ∷ cs) =
      let (rest, total) = cumulated (plus_int64 acc c) bs cs in
      ((b, plus_int64 acc c) ∷ rest, total)

  unfoldable pub help_lines : Text → Text → Text → Text
  help_lines typ name help =
      (if text_eq help [] then [] else codes "# HELP " ++ name ++ b' ' ∷ help ++ b'\n' ∷ [])
      ++ codes "# TYPE "
      ++ name
      ++ b' ' ∷ typ
      ++ b'\n' ∷ []

  unfoldable pub format_metric : Text → Metric → Text
  unfolding help_lines format_labels
  format_metric typ m =
      help_lines typ m.name m.help
      ++ m.name
      ++ format_labels m.labels
      ++ b' ' ∷ format_g m.value
      ++ b'\n' ∷ []

  -- The label of a bucket: the name is missing where there are other labels, and so is the brace.
  unfoldable pub bucket_label : Text → Text → F → Text
  unfolding trim_brace
  bucket_label name label bucket =
      let own = codes "le=\"" ++ format_g bucket ++ codes "\"" in
      if text_eq label [] then name ++ b'{' ∷ own ++ b'}' ∷ [] else trim_brace label ++ b',' ∷ own

  unfoldable pub inf_label : Text → Text → Text
  unfolding trim_brace
  inf_label name label =
      if text_eq label []
      then name ++ codes "{le=\"+Inf\"}"
      else name ++ trim_brace label ++ b',' ∷ codes "le=\"+Inf\"}" ++ b'}' ∷ []

  abbrev count_line : Text → ℕ → Text
  count_line label n = label ++ b' ' ∷ format_d n ++ b'\n' ∷ []

  bucket_lines : Text → Text → List (F × ℕ) → Text
  unfolding bucket_label
  bucket_lines name label [] = []
  bucket_lines name label ((b, n) ∷ bs) =
      count_line (bucket_label name label b) n ++ bucket_lines name label bs

  unfoldable pub format_histogram : Histogram → Text
  unfolding help_lines format_labels bucket_lines inf_label cumulated
  format_histogram h =
      let label = format_labels h.labels in
      let (lines, total) = cumulated 0 h.buckets h.counts in
      help_lines (codes "histogram") h.name h.help
      ++ bucket_lines h.name label lines
      ++ count_line (inf_label h.name label) total
      ++ h.name
      ++ codes "_sum"
      ++ label
      ++ b' ' ∷ format_g h.sum
      ++ b'\n' ∷ count_line (h.name ++ codes "_count" ++ label) h.count

  concat_map : {A : Type 0} → (A → Text) → List A → Text
  concat_map f [] = []
  concat_map f (a ∷ rest) = f a ++ concat_map f rest

  -- `Export`, before the metrics of the Go runtime.
  unfoldable pub export : Text → Collector → Text
  unfolding concat_map format_metric format_histogram
  export runtime c =
      concat_map (λ m. format_metric (codes "counter") m.1) c.counters
      ++ concat_map (λ m. format_metric (codes "gauge") m.1) c.gauges
      ++ concat_map (λ m. format_histogram m.1) c.histograms
      ++ runtime

  -- `Timer.ObserveDuration`, given the seconds since the timer's start.
  unfoldable pub observe_duration : F → Option Histogram → Option Histogram
  unfolding observe
  observe_duration seconds none = none
  observe_duration seconds (some h) = some (observe seconds h)
