-- ===== src/TransportAuth/Diagnose.antt =====
-- mac.go: the lines in which the Mac's side reports a refused handshake, their throttle, and the
-- ring that `doctor` reads them from. The two clients share the throttle and the ring, so one value
-- stands for both.
use drawbridge.Base.{ℕ, String, Bool, true, false, Option, none, some, List, if◌then◌else◌}
use drawbridge.Base.Text.{◌<>◌}
use drawbridge.Base.Eq.{◌==◌, string_eq}
use drawbridge.Limiter.{Limiter, throttle_allow}
use drawbridge.Ring.{Ring, record_line}
use drawbridge.TransportAuth.Handshake.{
  Cause, peer_unauthenticated, proof_mismatch, no_local_secret, incomplete, secret_unreadable,
  cause_text,
}
use drawbridge.TransportAuth.Secret.{
  File, Loaded, ok, err, LoadError, err_absent, err_malformed, err_configured_missing,
}
use drawbridge.TransportAuth.Latch.{Latched, load_latched}

abbrev pub refusal_log_every : ℕ
refusal_log_every = 30_000_000_000

abbrev pub check_auth_mismatch : String
check_auth_mismatch = "auth-mismatch"

abbrev pub check_auth_wrong_peer : String
check_auth_wrong_peer = "auth-wrong-peer"

abbrev pub check_auth_file_perms : String
check_auth_file_perms = "auth-file-perms"

-- MacConfig: `throttle` and `refusals` are `none` for nil; `has_source` says that Source is not nil.
pub record MacConfig : Type 0 where
  pub secret_file : String
  pub vm : String
  pub has_source : Bool
  pub throttle : Option (Limiter String)
  pub refusals : Option Ring

-- What a refusal carries: its text, and whether it is ErrConfiguredMissing.
pub record Underlying : Type 0 where
  pub text : String
  pub is_missing : Bool

-- An error of the connection by its text, a *RefusedError, or a *diagError about an error.
pub data AuthError : Type 0 where
  io_failure : String → AuthError
  refused_error : Cause → Option Underlying → AuthError
  diag_error : String → AuthError → AuthError

-- errors.As to a *RefusedError
unfoldable pub refused_as : AuthError → Option (Cause × Option Underlying)
refused_as (io_failure text) = none
refused_as (refused_error cause reason) = some (cause, reason)
refused_as (diag_error line e) = refused_as e

-- CauseOf
unfoldable pub error_cause : AuthError → Option Cause
error_cause (io_failure text) = none
error_cause (refused_error cause reason) = some cause
error_cause (diag_error line e) = error_cause e

-- Error
unfoldable pub error_text : AuthError → String
error_text (io_failure text) = text
error_text (refused_error cause none) = "transport auth refused (" <> cause_text (some cause) <> ")"
error_text (refused_error cause (some reason)) =
    "transport auth refused (" <> cause_text (some cause) <> "): " <> reason.text
error_text (diag_error line e) = line

-- MacConfig.vm
abbrev pub vm_name : MacConfig → String
vm_name m = if m.vm == "" then "<vm>" else m.vm

-- MacConfig.source, where Source answers `says`.
abbrev pub source_name : MacConfig → String → String
source_name m says = if m.has_source then (if says == "" then "unknown" else says) else "unknown"

-- innermost, as the lines print it.
abbrev pub innermost_text : AuthError → Option Underlying → String
innermost_text e none = error_text e
innermost_text e (some reason) = reason.text

abbrev pub is_configured_missing : Option Underlying → Bool
is_configured_missing none = false
is_configured_missing (some reason) = reason.is_missing

abbrev pub wrong_peer_line : MacConfig → String → String → String
wrong_peer_line m says ep =
    "peer at "
    <> ep
    <> " presented an invalid transport secret: this is NOT the agent '"
    <> vm_name m
    <> "' was provisioned for — wrong VM or a squatter answered (source="
    <> source_name m says
    <> "); refusing. Check -vm, and whether the transport fell back to the loopback forwarder"

abbrev pub missing_line : MacConfig → String → String
missing_line m text =
    "this Mac's transport secret is unusable ("
    <> text
    <> ") — this daemon was configured with it, so it refuses to dial rather than fall back to an unauthenticated transport; re-run 'drawbridge up "
    <> vm_name m
    <> "' to reprovision (the next dial picks it up, no restart)"

abbrev pub unusable_line : MacConfig → String → String
unusable_line m text =
    "this Mac's transport secret is unusable ("
    <> text
    <> ") — it must be 64 hex characters, mode 0600; re-run 'drawbridge up "
    <> vm_name m
    <> "' to reprovision"

abbrev pub mid_handshake_line : MacConfig → String → String → String
mid_handshake_line m says ep =
    "agent at "
    <> ep
    <> " closed during transport authentication (source="
    <> source_name m says
    <> ") — the guest's secret differs, the agent predates auth, or this is a DIFFERENT VM's agent reached via a fallback path; re-run 'drawbridge up "
    <> vm_name m
    <> "' to converge, and if the source above is not vznat-direct, check why resolution fell back ('drawbridge doctor' compares both sides)"

abbrev pub unreadable_line : MacConfig → AuthError → Option Underlying → String
unreadable_line m e reason =
    if is_configured_missing reason
    then missing_line m (innermost_text e reason)
    else unusable_line m (innermost_text e reason)

-- The switch on the cause.
unfoldable pub cause_line :
    MacConfig → String → AuthError → String → Cause → Option Underlying → String
cause_line m says e ep proof_mismatch reason = wrong_peer_line m says ep
cause_line m says e ep secret_unreadable reason = unreadable_line m e reason
cause_line m says e ep peer_unauthenticated reason = mid_handshake_line m says ep
cause_line m says e ep no_local_secret reason = mid_handshake_line m says ep
cause_line m says e ep incomplete reason = mid_handshake_line m says ep

abbrev refused_line :
    MacConfig → String → AuthError → String → Option (Cause × Option Underlying) → String
refused_line m says e ep none = ""
refused_line m says e ep (some (cause, reason)) = cause_line m says e ep cause reason

-- MacConfig.Diagnose
unfoldable pub diagnose : String → AuthError → String → MacConfig → String
diagnose says e ep m = refused_line m says e ep (refused_as e)

-- MacConfig.Wrap
unfoldable pub wrap : String → AuthError → String → MacConfig → AuthError
wrap says e ep m = let line = diagnose says e ep m in if line == "" then e else diag_error line e

-- MacConfig.ClosedEarly
unfoldable pub closed_early : String → MacConfig → String
closed_early ep m =
    let place =
      if m.secret_file == "" then "no path derived (pass -secret-file)" else m.secret_file in
    "agent at " <> ep
    <> " closed the connection immediately — if that guest was provisioned with a transport secret, this daemon needs one too: expected at "
    <> place
    <> " (not found). 'drawbridge up <vm>' writes it; 'sudo drawbridge install -vm <vm>' points the daemon at it"

unfoldable pub line_key : AuthError → String → String
line_key e ep = cause_text (error_cause e) <> "@" <> ep

-- MacConfig.AllowLine
unfoldable pub allow_line : ℕ → AuthError → String → MacConfig → MacConfig × Bool
allow_line now e ep m =
    let asked = throttle_allow (line_key e ep) now m.throttle in
    (record m { throttle = asked.0 }, asked.1)

abbrev check_of : Option Cause → String
check_of none = check_auth_mismatch
check_of (some proof_mismatch) = check_auth_wrong_peer
check_of (some secret_unreadable) = check_auth_file_perms
check_of (some peer_unauthenticated) = check_auth_mismatch
check_of (some no_local_secret) = check_auth_mismatch
check_of (some incomplete) = check_auth_mismatch

-- MacConfig.CheckID
unfoldable pub check_id : AuthError → String
check_id e = check_of (error_cause e)

-- MacConfig.Record, with the ring's clock.
abbrev pub record_refusal : ℕ → String → String → MacConfig → MacConfig
record_refusal now id line m = record m { refusals = record_line m.refusals now id line }

-- MacConfig.Report after its two questions: is there no line, and does the throttle admit it? The
-- throttle is asked only about a line, so without one the configuration is as before.
unfoldable pub reported :
    Bool → Bool → ℕ → AuthError → String → MacConfig → MacConfig → MacConfig × String
reported true admitted at e line m asked = (m, "")
reported false true at e line m asked = (record_refusal at (check_id e) line asked, line)
reported false false at e line m asked = (asked, "")

-- MacConfig.Report: `now` is the throttle's clock and `at` the ring's.
unfoldable pub report : ℕ → ℕ → String → AuthError → String → MacConfig → MacConfig × String
report now at says e ep m =
    let line = diagnose says e ep m in
    let asked = allow_line now e ep m in reported (line == "") asked.1 at e line m asked.0

abbrev pub is_missing_error : LoadError → Bool
is_missing_error err_absent = false
is_missing_error err_malformed = false
is_missing_error err_configured_missing = true

-- The secret, nil for none, or a refusal; `text` is what the load's error prints.
abbrev pub refused_load :
    (LoadError → String) → Loaded (Option (List ℕ)) → Option (List ℕ) × Option AuthError
refused_load text (ok secret) = (secret, none)
refused_load text (err e) =
    let reason : Underlying = record { text = text e; is_missing = is_missing_error e } in
    (none, some (refused_error secret_unreadable (some reason)))

-- MacConfig.Secret, with what the file holds when it is read.
unfoldable pub config_secret :
    (String → String)
    → (LoadError → String)
    → File
    → MacConfig
    → Latched
    → Latched × (Option (List ℕ) × Option AuthError)
config_secret clean text file m l =
    let (l', loaded) = load_latched clean m.secret_file file l in (l', refused_load text loaded)
