-- ===== src/TransportAuth/Reports.antt =====
-- The reports of refused handshakes at concrete calls.
use drawbridge.Base.{ℕ, ◌≡◌, refl, true, false, none, some, List, [], ◌∷◌, arith}
use drawbridge.Base.Table.{lookup}
use drawbridge.Base.Eq.{◌==◌, string_eq}
use drawbridge.Limiter.{new_limiter, allow, throttle_allow}
use drawbridge.Ring.{new_ring}
use drawbridge.TransportAuth.Handshake.{proof_mismatch}
use drawbridge.TransportAuth.Diagnose.{
  MacConfig, refusal_log_every, io_failure, refused_error, refused_as, error_cause, cause_line,
  diagnose, line_key, allow_line, reported, report,
}
use drawbridge.TransportAuth.Evidence.{Call, report_one, report_all, report-once}

-- Two refusals of one agent, and one of an unusable secret.
abbrev mac_side : MacConfig
mac_side = record {
  secret_file = "";
  vm = "dev";
  has_source = true;
  throttle = some (new_limiter refusal_log_every);
  refusals = some new_ring;
}

abbrev wrong_peer : ℕ → Call
wrong_peer now = record {
  now = now;
  at = now;
  says = "forwarder";
  error = refused_error proof_mismatch none;
  ep = "127.0.0.1:7077";
}

abbrev refused_calls : List Call
refused_calls =
    wrong_peer 1 ∷ wrong_peer 2 ∷ record (wrong_peer 3) { error = io_failure "EOF" } ∷ []

logs_it : ((report_one (wrong_peer 1) mac_side).1 == "") ≡ false
unfolding report reported diagnose refused_as cause_line allow_line throttle_allow allow lookup
    line_key error_cause
logs_it = refl

report-once_example :
    (report_one (wrong_peer 4) (report_all refused_calls (report_one (wrong_peer 1) mac_side).0)).1
    ≡ ""
report-once_example =
    report-once (wrong_peer 1) (wrong_peer 4) refused_calls mac_side (new_limiter refusal_log_every)
      refl logs_it (omega arith, (omega arith, (omega arith, (omega arith, tt)))) refl refl
