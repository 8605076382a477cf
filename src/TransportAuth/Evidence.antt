-- ===== src/TransportAuth/Evidence.antt =====
-- mac.go: how often a refused handshake is logged.
use drawbridge.Base.{
  ℕ, ◌+◌, ◌<◌, ◌≡◌, refl, sym, ap, ◌∙◌, String, Bool, true, false, Bool-cases, inl, inr, some, List,
  [], ◌∷◌, if◌then◌else◌, arith,
}
use mathlib.Core.Path.{ap₂}
use drawbridge.Base.Text.{◌<>◌}
use drawbridge.TransportAuth.Handshake.{cause_text}
use drawbridge.Base.Eq.{◌==◌, string_eq}
use drawbridge.Limiter.{Limiter, allow, throttle_allow}
use drawbridge.Limiter.Window.{allow_all, InWindow, allow_once}
use drawbridge.TransportAuth.Diagnose.{
  MacConfig, AuthError, diagnose, error_cause, line_key, allow_line, reported, report,
}

-- A call of Report: its two clocks, what Source answers, the error and the endpoint.
pub record Call : Type 0 where
  pub now : ℕ
  pub at : ℕ
  pub says : String
  pub error : AuthError
  pub ep : String

abbrev pub report_one : Call → MacConfig → MacConfig × String
report_one c m = report c.now c.at c.says c.error c.ep m

unfoldable pub report_all : List Call → MacConfig → MacConfig
report_all [] m = m
report_all (c ∷ cs) m = report_all cs (report_one c m).0

-- The calls that ask the throttle, by key.
unfoldable pub keyed : List Call → MacConfig → List (String × ℕ)
keyed [] m = []
keyed (c ∷ cs) m =
    let rest = keyed cs (report_one c m).0 in
    if diagnose c.says c.error c.ep m == "" then rest else (line_key c.error c.ep, c.now) ∷ rest

abbrev pub AllBefore : ℕ → List Call → Type 0
AllBefore t [] = Unit {0}
AllBefore t (c ∷ cs) = (c.now < t) × AllBefore t cs

keyed-InWindow :
    (every t : ℕ) (cs : List Call) (m : MacConfig)
    → AllBefore (t + every) cs
    → InWindow every t (keyed cs m)
unfolding keyed
keyed-InWindow every t [] m h = h
keyed-InWindow every t (c ∷ cs) m h =
    let rest = keyed-InWindow every t cs (report_one c m).0 h.1 in
    elim (Bool-cases (diagnose c.says c.error c.ep m == "")) [
      | inl silent ↦ rw silent rest
      | inr spoken ↦ rw spoken (h.0, rest)
    ]

allow_line-throttle :
    (c : Call) (m : MacConfig) (r : Limiter String)
    → m.throttle ≡ some r
    → ((allow_line c.now c.error c.ep m).0.throttle
        ≡ some (allow (line_key c.error c.ep) c.now r).0)
      × ((allow_line c.now c.error c.ep m).1 ≡ (allow (line_key c.error c.ep) c.now r).1)
unfolding allow_line throttle_allow
allow_line-throttle c m r e = (
  ap (λ t. (throttle_allow (line_key c.error c.ep) c.now t).0) e,
  ap (λ t. (throttle_allow (line_key c.error c.ep) c.now t).1) e,
)

reported-throttle :
    (empty admitted : Bool) (at : ℕ) (e : AuthError) (line : String) (m asked : MacConfig)
    → (reported empty admitted at e line m asked).0.throttle
      ≡ (if empty then m.throttle else asked.throttle)
unfolding reported
reported-throttle true admitted at e line m asked = refl
reported-throttle false true at e line m asked = refl
reported-throttle false false at e line m asked = refl

report_one-throttle :
    (c : Call) (m : MacConfig)
    → (report_one c m).0.throttle ≡ (
        if diagnose c.says c.error c.ep m == ""
        then m.throttle
        else (allow_line c.now c.error c.ep m).0.throttle)
unfolding report
report_one-throttle c m = reported-throttle _ _ c.at c.error _ m _

report_all-throttle :
    (cs : List Call) (m : MacConfig) (r : Limiter String)
    → m.throttle ≡ some r
    → (report_all cs m).throttle ≡ some (allow_all (keyed cs m) r)
unfolding report_all keyed allow_all
report_all-throttle [] m r e = e
report_all-throttle (c ∷ cs) m r e =
    let step = report_one-throttle c m in
    let next = (report_one c m).0 in
    elim (Bool-cases (diagnose c.says c.error c.ep m == "")) [
      | inl silent ↦ rw silent (report_all-throttle cs next r ((rw silent at step) ∙ e))
      | inr spoken ↦ rw spoken (
          report_all-throttle cs next (allow (line_key c.error c.ep) c.now r).0
            ((rw spoken at step) ∙ (allow_line-throttle c m r e).0))
    ]

reported-admitted :
    (empty admitted : Bool) (at : ℕ) (e : AuthError) (line : String) (m asked : MacConfig)
    → ((reported empty admitted at e line m asked).1 == "") ≡ false
    → (empty ≡ false) × (admitted ≡ true)
unfolding reported
reported-admitted true admitted at e line m asked h = ground arith
reported-admitted false true at e line m asked h = (refl, refl)
reported-admitted false false at e line m asked h = ground arith

reported-held :
    (empty admitted : Bool) (at : ℕ) (e : AuthError) (line : String) (m asked : MacConfig)
    → admitted ≡ false
    → (reported empty admitted at e line m asked).1 ≡ ""
unfolding reported
reported-held true admitted at e line m asked h = refl
reported-held false true at e line m asked h = ground arith
reported-held false false at e line m asked h = refl

-- Once a refusal is logged for a cause at an endpoint, whatever the clients report in the window
-- that follows, no line for the same cause at the same endpoint is logged again within it. All
-- reports between read times before its end.
pub report-once :
    (c d : Call) (cs : List Call) (m : MacConfig) (r : Limiter String)
    → m.throttle ≡ some r
    → ((report_one c m).1 == "") ≡ false
    → AllBefore (c.now + r.every) (d ∷ cs)
    → error_cause d.error ≡ error_cause c.error
    → d.ep ≡ c.ep
    → (report_one d (report_all cs (report_one c m).0)).1 ≡ ""
unfolding report line_key
report-once c d cs m r e said soon same_cause same_ep =
    let key = line_key c.error c.ep in
    let (heard, admitted) = reported-admitted _ _ c.at c.error _ m _ said in
    let asked = allow_line-throttle c m r e in
    let next = (report_one c m).0 in
    let r' = (allow key c.now r).0 in
    let after : next.throttle ≡ some r' =
      report_one-throttle c m
      ∙ ap (λ b. if b then m.throttle else (allow_line c.now c.error c.ep m).0.throttle) heard
      ∙ asked.0 in
    let window = keyed-InWindow r.every c.now cs next soon.1 in
    let held =
      allow_once key c.now d.now (keyed cs next) r (sym asked.1 ∙ admitted) window soon.0 in
    let same_key : line_key d.error d.ep ≡ key =
      ap₂ (λ x y. cause_text x <> "@" <> y) same_cause same_ep in
    reported-held _ _ d.at d.error _ _ _ (
      (allow_line-throttle d (report_all cs next) (allow_all (keyed cs next) r')
        (report_all-throttle cs next r' after)).1
      ∙ ap (λ k. (allow k d.now (allow_all (keyed cs next) r')).1) same_key
      ∙ held)
