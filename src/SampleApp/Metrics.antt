-- ===== src/SampleApp/Metrics.antt =====
-- demo/sample-app/internal/server/metrics.go: the Prometheus collector. `observe` and `WriteTo`
-- hold the mutex throughout and the in-flight gauge is atomic, so each is one step.
pub mod Counts
pub mod Buckets
use kubetraffic.Prelude.{
  ℕ, zero, suc, ◌+◌, ◌-◌, ◌*◌, ◌/◌, ◌%◌, ◌≤◌, ◌<◌, String, ◌≡◌, refl, sym, ap, ◌∙◌, ◌≢◌, ◌↔◌, ◌⊎◌,
  inl, inr, Bool, true, false, not, ◌&&◌, ◌||◌, Option, none, some, List, [], ◌∷◌, ◌++◌, map, arith,
  if◌then◌else◌, ltb, leb, ◌==◌, Bool-cases, Option-cases, is_some, or_else, Str, bytes, str_eq,
  is_nil, length, is_empty, sum, All, Dict, lookup, insert, erase, contains, decimal, format_int,
  replicate, sort, str_ltb,
}
use kubetraffic.Prelude.Int.{
  ℤ, pos, negsuc, ◌+ℤ◌, ◌≤ℤ◌, ltb_ℤ, leb_ℤ, eqb_ℤ, wrap32, wrap64, pos_part, neg_part, int32_half,
  int64_half,
}
use kubetraffic.SampleApp.Floats.{Floats}

-- `durationBuckets`, in thousandths of a second.
abbrev pub duration_buckets : List ℕ
duration_buckets = 5 ∷ 10 ∷ 25 ∷ 50 ∷ 100 ∷ 250 ∷ 500 ∷ 1000 ∷ 2500 ∷ 5000 ∷ 10000 ∷ []

abbrev pub uint64_mod : ℕ
uint64_mod = 18446744073709551616

pub record Metrics (F : Type 0) : Type 0 where
  pub app : Str
  pub version : Str
  pub pod : Str
  -- A key stands in the map once.
  pub req_total : Dict ℤ
  pub bucket_counts : List ℕ
  pub total_seconds : F
  pub count : ℕ
  pub inflight : ℤ

-- `m[k]++`: a missing key counts as 0.
unfoldable pub bump : Str → Dict ℤ → Dict ℤ
bump k [] = (k, pos 1) ∷ []
bump k ((j, n) ∷ m) =
    let later = (j, n) ∷ bump k m in if str_eq j k then (j, wrap64 (n +ℤ pos 1)) ∷ m else later

-- `method+"|"+strconv.Itoa(status)`
unfoldable pub request_key : Str → ℕ → Str
request_key method status = method ++ (bytes "|" ++ decimal status)

-- `strings.SplitN(k, "|", 2)` on a text that has the bar.
unfoldable pub split_bar : Str → Str × Str
split_bar [] = ([], [])
split_bar (c ∷ s) =
    let (before, after) = split_bar s in if c == 124 then ([], s) else (c ∷ before, after)

module _ {F : Type 0} (fl : Floats F) where
  unfoldable pub new_metrics : Str → Str → Str → Metrics F
  new_metrics app version pod = record {
    app = app;
    version = version;
    pod = pod;
    req_total = [];
    bucket_counts = replicate (length duration_buckets) 0;
    total_seconds = fl.milli 0;
    count = 0;
    inflight = pos 0;
  }

  -- The loop over the buckets.
  unfoldable pub count_buckets : F → List ℕ → List ℕ → List ℕ
  count_buckets seconds [] counts = counts
  count_buckets seconds (b ∷ bounds) [] = []
  count_buckets seconds (b ∷ bounds) (n ∷ counts) =
      (if fl.le seconds (fl.milli b) then (n + 1) % uint64_mod else n)
      ∷ count_buckets seconds bounds counts

  unfoldable pub observe : Str → ℕ → F → Metrics F → Metrics F
  unfolding bump count_buckets request_key
  observe method status seconds m = record m {
    req_total = bump (request_key method status) m.req_total;
    total_seconds = fl.add m.total_seconds seconds;
    count = (m.count + 1) % uint64_mod;
    bucket_counts = count_buckets seconds duration_buckets m.bucket_counts;
  }

  unfoldable pub inc_inflight : Metrics F → Metrics F
  inc_inflight m = record m { inflight = wrap64 (m.inflight +ℤ pos 1) }

  unfoldable pub dec_inflight : Metrics F → Metrics F
  dec_inflight m = record m { inflight = wrap64 (m.inflight +ℤ negsuc 0) }

  -- `WriteTo`; `quote` is fmt's `%q`.
  module _ (quote : Str → Str) where
    constant_labels : Metrics F → Str
    constant_labels m =
        bytes "app="
        ++ (quote m.app
            ++ (bytes ",version=" ++ (quote m.version ++ (bytes ",pod=" ++ quote m.pod))))

    -- A line `name{labels} value`.
    series : Str → Str → Str → Str
    series name labels value =
        name ++ (bytes "{" ++ (labels ++ (bytes "} " ++ (value ++ bytes "\n"))))

    request_lines : Str → Dict ℤ → List Str → Str
    unfolding series
    request_lines cl totals [] = []
    request_lines cl totals (k ∷ rest) =
        let (method, status) = split_bar k in
        series (bytes "sample_app_requests_total")
          (cl ++ (bytes ",method=" ++ (quote method ++ (bytes ",status=" ++ quote status))))
          (format_int (or_else (lookup k totals) (pos 0)))
        ++ request_lines cl totals rest

    bucket_lines : Str → List ℕ → List ℕ → Str
    unfolding series
    bucket_lines cl [] counts = []
    bucket_lines cl (b ∷ bounds) [] = []
    bucket_lines cl (b ∷ bounds) (n ∷ counts) =
        series (bytes "sample_app_request_duration_seconds_bucket")
          (cl ++ (bytes ",le=" ++ quote (fl.format_float (fl.milli b)))) (decimal n)
        ++ bucket_lines cl bounds counts

    keys : Dict ℤ → List Str
    keys [] = []
    keys ((k, n) ∷ rest) = k ∷ keys rest

    unfoldable pub write_to : Metrics F → Bool → Str
    unfolding constant_labels series request_lines bucket_lines keys
    write_to m ready =
        let cl = constant_labels m in
        bytes "# HELP sample_app_build_info Static build information.\n"
        ++ (bytes "# TYPE sample_app_build_info gauge\n"
            ++ (series (bytes "sample_app_build_info") cl (bytes "1")
                ++ (bytes
                      "# HELP sample_app_ready Whether the instance is serving traffic (1) or not (0).\n"
                    ++ (bytes "# TYPE sample_app_ready gauge\n"
                        ++ (series (bytes "sample_app_ready") cl
                              (if ready then bytes "1" else bytes "0")
                            ++ (bytes
                                  "# HELP sample_app_inflight_requests Requests currently being served.\n"
                                ++ (bytes "# TYPE sample_app_inflight_requests gauge\n"
                                    ++ (series (bytes "sample_app_inflight_requests") cl
                                          (format_int m.inflight)
                                        ++ (bytes
                                              "# HELP sample_app_requests_total Total HTTP requests handled.\n"
                                            ++ (bytes "# TYPE sample_app_requests_total counter\n"
                                                ++ (request_lines cl m.req_total
                                                      (sort str_ltb (keys m.req_total))
                                                    ++ (bytes
                                                          "# HELP sample_app_request_duration_seconds HTTP request latency in seconds.\n"
                                                        ++ (bytes
                                                            "# TYPE sample_app_request_duration_seconds histogram\n"
                                                            ++ (bucket_lines cl duration_buckets
                                                            m.bucket_counts
                                                            ++ (series
                                                            (bytes
                                                            "sample_app_request_duration_seconds_bucket")
                                                            (cl ++ bytes ",le=\"+Inf\"")
                                                            (decimal m.count)
                                                            ++ (series
                                                            (bytes
                                                            "sample_app_request_duration_seconds_sum")
                                                            cl (fl.format_float m.total_seconds)
                                                            ++ series
                                                            (bytes
                                                            "sample_app_request_duration_seconds_count")
                                                            cl (decimal m.count)))))))))))))))))
