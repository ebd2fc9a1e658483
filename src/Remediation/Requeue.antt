-- ===== src/Remediation/Requeue.antt =====
-- A reconciliation is always taken up again (`buildScanResult` of podremediator_controller.go,
-- internal/controller/remediation).
use infra_operator.Base.{
  ◌≡◌, ◌⊎◌, inl, inr, refl, Bool, true, false, Option, none, some, arith, nat_eq, not, Bool-cases,
  if◌then◌else◌,
}
use infra_operator.Remediation.Objects.{PodRemediator, Duration, lasting, minus}
use infra_operator.Remediation.Api.{Error, failed}
use infra_operator.Remediation.Recover.{ResumeResult}
use infra_operator.Remediation.Scan.{Outcome}
use infra_operator.Remediation.Verdict.{
  Reconciled, second, is_below, min_duration, paused_result, build_scan_result,
  default_consent_poll_interval,
}

-- An interval of a second or more.
abbrev pub is_timely : Option Duration → Bool
is_timely none = false
is_timely (some d) = not (is_below d second)

-- The result has an error, on which the controller tries again, or an interval of a second or more.
abbrev pub IsRetried : Reconciled → Type 0
IsRetried x =
    ((e : Error) × (x.error ≡ some e)) ⊎ ((x.error ≡ none) × (is_timely x.requeue_after ≡ true))

is_below-min_duration :
    (c d : Duration)
    → is_below c second ≡ false
    → is_below d second ≡ false
    → is_below (min_duration c d) second ≡ false
is_below-min_duration (lasting n) (lasting m) hc hd = ground arith
is_below-min_duration (lasting n) (minus m) hc hd = ground arith
is_below-min_duration (minus n) d hc hd = ground arith

build_scan_result-error :
    (r : PodRemediator) (o : Outcome) (resumed : ResumeResult) (c d : Duration)
    → (build_scan_result r o resumed c d).error ≡ (
        if o.had_error
        then some (failed "partial scan errors during PVC remediation; requeueing")
        else none)
unfolding build_scan_result paused_result
build_scan_result-error r o resumed c d = ground arith

build_scan_result-timely :
    (r : PodRemediator) (o : Outcome) (resumed : ResumeResult) (c d : Duration)
    → o.had_error ≡ false
    → is_below c second ≡ false
    → is_below d second ≡ false
    → is_timely (build_scan_result r o resumed c d).requeue_after ≡ true
unfolding build_scan_result paused_result
build_scan_result-timely r o resumed c d clean hc hd =
    ground (arith, is_below-min_duration default_consent_poll_interval c refl hc)

-- With poll intervals of a second or more, every outcome of a scan is taken up again: the result has
-- an error, or an interval of a second or more.
pub build_scan_result-IsRetried :
    (r : PodRemediator) (o : Outcome) (resumed : ResumeResult) (c d : Duration)
    → is_below c second ≡ false
    → is_below d second ≡ false
    → IsRetried (build_scan_result r o resumed c d)
build_scan_result-IsRetried r o resumed c d hc hd = elim (Bool-cases o.had_error) [
  | inl bad ↦ inl (
    failed "partial scan errors during PVC remediation; requeueing",
    ground (arith, build_scan_result-error r o resumed c d),
  )
  | inr clean ↦ inr (
    ground (arith, build_scan_result-error r o resumed c d),
    build_scan_result-timely r o resumed c d clean hc hd,
  )
]
