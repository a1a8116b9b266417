-- ===== src/Remote/Checks/Threshold.antt =====
-- After how many failures a workload cluster is deemed unhealthy.
use cluster_api_bootstrap_pr.Prelude.{
  ℕ, zero, suc, ◌+◌, ◌<◌, ◌≤◌, Bool, true, false, Option, none, some, List, [], ◌∷◌, Error, leb,
  ◌||◌, ◌≡◌, refl, arith, Bool-cases, inl, inr, ◌∙◌,
}
use cluster_api_bootstrap_pr.Remote.Checks.{
  Polled, done, again, failed, run_health_checks, run_health_check_with_threshold,
}

abbrev pub is_failed : Polled → Bool
is_failed done = false
is_failed again = false
is_failed (failed e) = true

-- The list starts with so many errors.
abbrev pub starts_with_errors : ℕ → List (Option Error) → Bool
starts_with_errors zero es = true
starts_with_errors (suc n) [] = false
starts_with_errors (suc n) (none ∷ es) = false
starts_with_errors (suc n) (some e ∷ es) = starts_with_errors n es

-- Somewhere in the list stand so many errors in a row.
abbrev pub has_errors_in_a_row : ℕ → List (Option Error) → Bool
has_errors_in_a_row n [] = starts_with_errors n []
has_errors_in_a_row n (e ∷ es) = starts_with_errors n (e ∷ es) || has_errors_in_a_row n es

starts_fewer :
    (a b : ℕ) (es : List (Option Error))
    → a ≤ b
    → starts_with_errors b es ≡ true
    → starts_with_errors a es ≡ true
starts_fewer zero b es h s = refl
starts_fewer (suc a) zero es h s = absurd (omega arith)
starts_fewer (suc a) (suc b) [] h s = cc
starts_fewer (suc a) (suc b) (none ∷ es) h s = cc
starts_fewer (suc a) (suc b) (some e ∷ es) h s = starts_fewer a b es (omega arith) s

starts_somewhere :
    (n : ℕ) (es : List (Option Error))
    → starts_with_errors n es || has_errors_in_a_row n es ≡ has_errors_in_a_row n es
starts_somewhere n [] = ground arith
starts_somewhere n (e ∷ es) = ground arith

-- The errors that are left to count, `k` and one more, after those counted before.
counted :
    (t k count : ℕ) (es : List (Option Error))
    → t ≡ count + k
    → is_failed (run_health_checks (suc t) es count)
      ≡ starts_with_errors (suc k) es || has_errors_in_a_row (suc t) es
unfolding run_health_checks run_health_check_with_threshold
counted t k count [] h = refl
counted t k count (none ∷ es) h =
    let more : leb (suc t) 0 ≡ false = (ground arith) in
    rw (more, run_health_checks, run_health_check_with_threshold)
      (counted t t 0 es (omega arith) ∙ starts_somewhere (suc t) es)
counted t zero count (some e ∷ es) h =
    let enough : leb (suc t) (suc count) ≡ true = (ground arith) in
    rw (enough, run_health_checks, run_health_check_with_threshold) refl
counted t (suc k) count (some e ∷ es) h =
    let more : leb (suc t) (suc count) ≡ false = (ground arith) in
    rw (more, run_health_checks, run_health_check_with_threshold)
      (counted t k (suc count) es (omega arith) ∙ elim (Bool-cases (starts_with_errors t es)) [
        | inl s ↦
            let fewer : starts_with_errors (suc k) es ≡ true =
              starts_fewer (suc k) t es (omega arith) s in
            rw (s, fewer) refl
        | inr s ↦ rw s refl
      ])

-- For a threshold above 0, the health check of a cached cluster ends with an error exactly when
-- somewhere among the answers as many errors as the threshold stand in a row.
pub run_health_checks-has_errors_in_a_row :
    (threshold : ℕ) (es : List (Option Error))
    → 0 < threshold
    → is_failed (run_health_checks threshold es 0) ≡ has_errors_in_a_row threshold es
run_health_checks-has_errors_in_a_row zero es h = absurd (omega arith)
run_health_checks-has_errors_in_a_row (suc t) es h =
    counted t t 0 es (omega arith) ∙ starts_somewhere (suc t) es
