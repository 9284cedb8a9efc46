-- ===== src/Enrollment.antt =====
-- Which sessions satisfy the enrollment policies: the views of internal/store/group_enrollment.go
-- and enrollment_policy.go.
pub mod Policies
mod Tests
use Prim.Native.String.{◌++◌}
use kysignon_server.Base.{
  ℕ, zero, Option, some, none, List, [], ◌∷◌, Bool, true, false, ◌&&◌, ◌||◌, not, String, ◌==◌, ltb,
  is_some, exists_where, find_where, if◌then◌else◌,
}
use kysignon_server.Schema.{
  Db, User, Session, EnrollmentPolicy, EnrollmentDeadline, AdminDelegation, FactorMask, all_factors,
  intersect, overlaps, is_admin, is_totp, unix, MfaMethod, NativeDevice, WebAuthnCredential,
  GroupMembership,
}

-- u.role='admin' OR EXISTS(SELECT 1 FROM admin_delegations …)
abbrev pub is_administrator : Db → User → Bool
is_administrator db u =
    is_admin u.role
    || exists_where (λ (d : AdminDelegation). d.user_id == u.id) db.admin_delegations

-- A required policy whose scope is one of the user's. A membership counts here even when it has expired.
unfoldable pub applies : Db → User → EnrollmentPolicy → Bool
applies db u p =
    p.required
    && (p.scope == "organization"
        || p.scope == "administrators" && is_administrator db u
        || exists_where
            (λ (m : GroupMembership). m.user_id == u.id && p.scope == "group:" ++ m.group_id)
            db.group_memberships)

-- COALESCE(d.due_at, 0) of the LEFT JOIN on (user_id, scope).
unfoldable pub due_of : String → String → List EnrollmentDeadline → ℕ
due_of user_id scope deadlines =
    elim (find_where (λ (d : EnrollmentDeadline). d.user_id == user_id && d.scope == scope)
      deadlines) [ none ↦ 0 | some d ↦ d.due_at ]

-- enrollment_requirements of one user.
pub record Requirement : Type 0 where
  pub required : Bool
  pub allowed_mask : FactorMask
  pub due_at : ℕ

-- The aggregates over the policies that apply; `none` is the NULL that MIN gives over no row.
unfoldable pub mask_over : (EnrollmentPolicy → Bool) → List EnrollmentPolicy → FactorMask
mask_over p [] = all_factors
mask_over p (e ∷ es) =
    let rest = mask_over p es in if p e then intersect e.allowed_mask rest else rest

abbrev pub earlier : ℕ → Option ℕ → Option ℕ
earlier t none = some t
earlier t (some s) = if ltb t s then some t else some s

unfoldable pub due_over :
    (EnrollmentPolicy → Bool) → (EnrollmentPolicy → ℕ) → List EnrollmentPolicy → Option ℕ
due_over p due [] = none
due_over p due (e ∷ es) = let rest = due_over p due es in if p e then earlier (due e) rest else rest

abbrev pub or_zero : Option ℕ → ℕ
or_zero none = 0
or_zero (some t) = t

unfoldable pub requirement : Db → User → Requirement
requirement db u = record {
  required = exists_where (applies db u) db.enrollment_policies;
  allowed_mask = mask_over (applies db u) db.enrollment_policies;
  due_at = or_zero (
      due_over (applies db u) (λ e. due_of u.id e.scope db.enrollment_deadlines)
        db.enrollment_policies);
}

-- enrolled_factors of one user, as a mask.
unfoldable pub enrolled_factors : Db → String → FactorMask
enrolled_factors db user_id = record {
  totp_bit =
      exists_where (λ (m : MfaMethod). m.user_id == user_id && is_totp m.method_type)
        db.mfa_methods;
  push_bit =
      exists_where
        (λ (d : NativeDevice).
          d.user_id == user_id && d.is_mfa_approver && not (d.public_key == ""))
        db.native_devices;
  webauthn_bit =
      exists_where (λ (c : WebAuthnCredential). c.user_id == user_id) db.webauthn_credentials;
}

-- CASE factor_method WHEN 'totp' THEN 1 WHEN 'push' THEN 2 WHEN 'webauthn' THEN 4 ELSE 0 END
abbrev pub method_mask : String → FactorMask
method_mask method = record {
  totp_bit = method == "totp";
  push_bit = method == "push";
  webauthn_bit = method == "webauthn";
}

-- In the grace period, with no acceptable factor enrolled.
abbrev pub in_grace : ℕ → Db → Requirement → Session → Bool
in_grace now db r s =
    not (s.evidence.factor_method == "recovery")
    && ltb (unix now) r.due_at
    && not (overlaps (enrolled_factors db s.user_id) r.allowed_mask)

-- The login proved an acceptable factor that is still enrolled.
abbrev pub proved : Db → Requirement → Session → Bool
proved db r s =
    is_some s.evidence.primary_authenticated_at
    && is_some s.evidence.factor_authenticated_at
    && overlaps (method_mask s.evidence.factor_method) r.allowed_mask
    && overlaps (method_mask s.evidence.factor_method) (enrolled_factors db s.user_id)

-- mfa_session_access.allowed for a session and its user's requirement.
unfoldable pub meets : ℕ → Db → Requirement → Session → Bool
meets now db r s = not s.enrollment_only && (not r.required || in_grace now db r s || proved db r s)

-- EXISTS(SELECT 1 FROM mfa_session_access m WHERE m.id=sess.id AND m.allowed)
unfoldable pub session_allowed : ℕ → Db → String → Bool
session_allowed now db session_id =
    exists_where
      (λ (s : Session).
        s.id == session_id
        && exists_where (λ (u : User). u.id == s.user_id && meets now db (requirement db u) s)
            db.users)
      db.sessions
