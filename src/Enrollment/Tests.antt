-- ===== src/Enrollment/Tests.antt =====
-- Runs of the views of internal/store/group_enrollment.go.
use kysignon_server.Base.{some, [], ◌∷◌, true, false, ◌≡◌, refl, exists_where, ltb, ◌==◌, ◌⊎◌}
use kysignon_server.Schema.{Db, Session, minute, unix, overlaps}
use kysignon_server.Schema.Samples.{with_alice, alice, alice_session, totp_method, required_policy}
use kysignon_server.Enrollment.{
  applies, due_of, mask_over, due_over, requirement, enrolled_factors, method_mask, meets,
  session_allowed,
}
use kysignon_server.Enrollment.Policies.{every, meets-every}

abbrev proven : Session
proven = record alice_session {
  evidence = record {
    primary_authenticated_at = some 0;
    factor_authenticated_at = some 0;
    factor_method = "totp";
  };
}

abbrev with_policy : Db
with_policy = record with_alice {
  sessions = proven ∷ [];
  mfa_methods = totp_method ∷ [];
  enrollment_policies = required_policy ∷ [];
}

proven-meets : meets minute with_policy (requirement with_policy alice) proven ≡ true
unfolding meets requirement applies due_of mask_over due_over enrolled_factors
proven-meets = refl

password_only_fails :
    session_allowed minute (record with_policy { sessions = alice_session ∷ [] }) "s1" ≡ false
unfolding session_allowed meets requirement applies due_of mask_over due_over enrolled_factors
password_only_fails = refl

meets-every_example :
    (exists_where (applies with_policy alice) with_policy.enrollment_policies ≡ false)
    ⊎ (((every
              (applies with_policy alice)
              (λ e. ltb (unix minute) (due_of "alice" e.scope with_policy.enrollment_deadlines))
              with_policy.enrollment_policies
            ≡ true)
          × (("totp" == "recovery") ≡ false))
        ⊎ ((every
                (applies with_policy alice)
                (λ e. overlaps (method_mask "totp") e.allowed_mask)
                with_policy.enrollment_policies
              ≡ true)
            × (overlaps (method_mask "totp") (enrolled_factors with_policy "alice") ≡ true)))
meets-every_example = meets-every minute with_policy alice proven proven-meets
