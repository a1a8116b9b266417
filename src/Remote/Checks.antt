-- ===== src/Remote/Checks.antt =====
-- internal/remote/cluster_cache.go: the health check of a workload cluster. wait.PollImmediateUntil
-- calls the closure of healthCheckCluster until it returns true or an error; here stands what the
-- closure does, call after call.
pub mod Threshold
use cluster_api_bootstrap_pr.Prelude.{
  ℕ, zero, suc, String, Bool, true, false, Option, none, some, List, [], ◌∷◌, Result, ok, err,
  Error, str_eq, if◌then◌else◌, leb, ◌==◌,
}

-- healthCheckInput, its times in seconds
pub record HealthCheckInput : Type 0 where
  pub interval : ℕ
  pub request_timeout : ℕ
  pub unhealthy_threshold : ℕ
  pub path : String

abbrev pub health_check_poll_interval : ℕ
health_check_poll_interval = 10

abbrev pub health_check_request_timeout : ℕ
health_check_request_timeout = 5

abbrev pub health_check_unhealthy_threshold : ℕ
health_check_unhealthy_threshold = 3

abbrev pub or_default : ℕ → ℕ → ℕ
or_default n d = if n == 0 then d else n

unfoldable pub validate : HealthCheckInput → HealthCheckInput
validate h = record {
  interval = or_default h.interval health_check_poll_interval;
  request_timeout = or_default h.request_timeout health_check_request_timeout;
  unhealthy_threshold = or_default h.unhealthy_threshold health_check_unhealthy_threshold;
  path = if str_eq h.path "" then "/" else h.path;
}

-- healthCheckPath, with the client that the configuration gives and its request
unfoldable pub health_check_path : {A : Type 0} → Result A → (A → Option Error) → Option Error
health_check_path (err e) request = some e
health_check_path (ok client) request = request client

-- What the closure returns: (true, nil), (false, nil) or (false, err).
pub data Polled : Type 0 where
  done again : Polled
  failed : Error → Polled

abbrev pub next_count : Option Error → ℕ → ℕ
next_count none count = 0
next_count (some e) count = suc count

abbrev pub last_error : Option Error → Polled
last_error none = again
last_error (some e) = failed e

-- one call of runHealthCheckWithThreshold: is the cluster cached, and what the health check returned
unfoldable pub run_health_check_with_threshold : ℕ → Bool → Option Error → ℕ → ℕ × Polled
run_health_check_with_threshold threshold false e count = (count, done)
run_health_check_with_threshold threshold true e count =
    let count' = next_count e count in
    (count', if leb threshold count' then last_error e else again)

-- the calls of the closure while the cluster is cached, with the counter that it keeps
unfoldable pub run_health_checks : ℕ → List (Option Error) → ℕ → Polled
run_health_checks threshold [] count = again
run_health_checks threshold (e ∷ es) count =
    let (count', polled) = run_health_check_with_threshold threshold true e count in
    elim polled [
      | done ↦ done
      | failed e' ↦ failed e'
      | again ↦ run_health_checks threshold es count'
    ]
