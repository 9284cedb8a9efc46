-- ===== src/Oauth/Policy/Deadlines.antt =====
-- The deadline of an authentication, and how the requirements of an application and of a client
-- combine: internal/store/app_authentication.go and internal/oauth/authentication_request.go.
use kysignon_server.Base.{
  ℕ, ◌≤◌, Option, some, none, Bool, true, false, ◌&&◌, ◌||◌, not, ◌==◌, ltb, option_test, is_none,
  ◌≡◌, refl, sym, ◌∙◌, arith, eq_iff,
}
use kysignon_server.Schema.{AppAuthenticationPolicy, AuthenticationEvidence}
use kysignon_server.Oauth.Policy.{
  valid, unproved, aged, is_factor, factor_reason, evidence_reason, end_of, earlier_of, deadline,
  AuthenticationRequest, satisfied, with_app_policy,
}

-- EvidenceReason gives no reason where every check passes.
factor_accepts : AppAuthenticationPolicy → AuthenticationEvidence → ℕ → Bool
factor_accepts p e now =
    not (unproved now e.factor_authenticated_at)
    && (not (p.factor == "passkey") || e.factor_method == "webauthn")
    && is_factor e.factor_method
    && not (ltb 0 p.factor_max_age && aged now p.factor_max_age e.factor_authenticated_at)

accepts : AppAuthenticationPolicy → AuthenticationEvidence → ℕ → Bool
accepts p e now =
    (p.mode == "reuse" && p.factor == "password" || not (unproved now e.primary_authenticated_at))
    && not (p.mode == "max_age" && aged now p.primary_max_age e.primary_authenticated_at)
    && (p.factor == "password" || factor_accepts p e now)

factor_reason-accepts :
    (p : AppAuthenticationPolicy) (e : AuthenticationEvidence) (now : ℕ)
    → is_none (factor_reason p e now) ≡ factor_accepts p e now
unfolding factor_reason factor_accepts
factor_reason-accepts p e now = ground arith

evidence_reason-accepts :
    (p : AppAuthenticationPolicy) (e : AuthenticationEvidence) (now : ℕ)
    → is_none (evidence_reason p e now) ≡ accepts p e now
unfolding evidence_reason accepts
evidence_reason-accepts p e now = ground (arith, factor_reason-accepts p e now)

abbrev in_time : ℕ → Option ℕ → Bool
in_time t d = option_test true (λ at. not (ltb at t)) d

in_time-earlier :
    (t : ℕ) (a b : Option ℕ) → in_time t (earlier_of a b) ≡ (in_time t a && in_time t b)
in_time-earlier t none none = refl
in_time-earlier t (some a) none = ground arith
in_time-earlier t none (some b) = refl
in_time-earlier t (some a) (some b) = ground arith

in_time-end_of :
    (t age : ℕ) (b : Bool) (at : Option ℕ) → in_time t (end_of b age at) ≡ not (b && aged t age at)
in_time-end_of t age true none = refl
in_time-end_of t age true (some at) = refl
in_time-end_of t age false none = refl
in_time-end_of t age false (some at) = refl

proved-later :
    (now t : ℕ) (at : Option ℕ) → now ≤ t → unproved now at ≡ false → unproved t at ≡ false
proved-later now t none h k = k
proved-later now t (some at) h k = ground arith

-- The checks by their answers now and later: of those that passed now only the ages can fail later.
combine_checks :
    (reuse password old old' unproved₁ unproved₁' unproved₂ unproved₂' key counts limited late
      late' : Bool)
    → (password ≡ true → limited ≡ false)
    → (unproved₁ ≡ false → unproved₁' ≡ false)
    → (unproved₂ ≡ false → unproved₂' ≡ false)
    → ((reuse && password || not unproved₁)
        && not old
        && (password || not unproved₂ && key && counts && not (limited && late)))
      ≡ true
    → ((reuse && password || not unproved₁')
        && not old'
        && (password || not unproved₂' && key && counts && not (limited && late')))
      ≡ (not old' && not (limited && late'))
combine_checks reuse password old old' unproved₁ unproved₁' unproved₂ unproved₂' key counts limited
      late late' a b c h =
    ground arith

-- Under a valid policy the Deadline of a login's evidence is exact: where EvidenceReason accepts
-- the evidence now, it accepts it at a later instant exactly while that instant is not past the
-- deadline, and for ever where there is none.
pub deadline-evidence_reason :
    (p : AppAuthenticationPolicy) (e : AuthenticationEvidence) (now t : ℕ)
    → valid p ≡ true
    → now ≤ t
    → is_none (evidence_reason p e now) ≡ true
    → is_none (evidence_reason p e t) ≡ option_test true (λ at. not (ltb at t)) (deadline p e)
unfolding deadline valid accepts factor_accepts
deadline-evidence_reason p e now t ok later held =
    let now_accepts = sym (evidence_reason-accepts p e now) ∙ held in
    let primary = proved-later now t e.primary_authenticated_at later in
    let factor = proved-later now t e.factor_authenticated_at later in
    rw
      (
        evidence_reason-accepts p e t,
        in_time-earlier t
            (end_of (p.mode == "max_age") p.primary_max_age e.primary_authenticated_at)
            (end_of (ltb 0 p.factor_max_age) p.factor_max_age e.factor_authenticated_at),
        in_time-end_of t p.primary_max_age (p.mode == "max_age") e.primary_authenticated_at,
        in_time-end_of t p.factor_max_age (ltb 0 p.factor_max_age) e.factor_authenticated_at,
      )
      (combine_checks (p.mode == "reuse") (p.factor == "password")
        (p.mode == "max_age" && aged now p.primary_max_age e.primary_authenticated_at)
        (p.mode == "max_age" && aged t p.primary_max_age e.primary_authenticated_at)
        (unproved now e.primary_authenticated_at) (unproved t e.primary_authenticated_at)
        (unproved now e.factor_authenticated_at) (unproved t e.factor_authenticated_at)
        (not (p.factor == "passkey") || e.factor_method == "webauthn") (is_factor e.factor_method)
        (ltb 0 p.factor_max_age) (aged now p.factor_max_age e.factor_authenticated_at)
        (aged t p.factor_max_age e.factor_authenticated_at) (ground arith) primary factor
        now_accepts)

-- An application's policy only strengthens a request: where the combined requirement is satisfied
-- without a new interaction, the client's own request is satisfied, the policy does not want a
-- fresh login, and the evidence passes the policy, if the application has one.
pub with_app_policy_strengthens :
    (policy : AppAuthenticationPolicy) (p : AuthenticationRequest) (e : AuthenticationEvidence)
    (now : ℕ)
    → p.app_policy.mode ≡ ""
    → satisfied (with_app_policy policy p) e now ≡ true
    → (satisfied p e now ≡ true)
      × ((policy.mode == "fresh") ≡ false)
      × ((policy.mode == "" || is_none (evidence_reason policy e now)) ≡ true)
unfolding satisfied with_app_policy
with_app_policy_strengthens policy p e now unset held = ground (arith, eq_iff p.app_policy.mode "")
