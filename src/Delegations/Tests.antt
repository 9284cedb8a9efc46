-- ===== src/Delegations/Tests.antt =====
-- Runs of SetDelegations of internal/store/delegations.go.
use kysignon_server.Base.{
  none, [], ◌∷◌, any, true, false, String, ◌==◌, text_before, ok, err, app_record_missing, ◌≡◌,
  refl,
}
use kysignon_server.Schema.{Db, audited_tx, record_audit_tx}
use kysignon_server.Schema.Samples.{with_app}
use kysignon_server.Enrollment.{mask_over, requirement}
use kysignon_server.Delegations.{
  Delegations, insert_text, delegations, is_conflicting, administrator_deadlines, put_delegation,
  plain, owner_row, put_kind, put_owned, invalidate_user_enrollment_tx, sort_texts,
  set_delegations_tx, set_delegations,
}
use kysignon_server.Delegations.Stored.{delegations-set_delegations}

abbrev helper : Delegations
helper = record { helpdesk = true; auditor = false; app_owner = "app" ∷ "app" ∷ [] }

abbrev before : Db
before = record with_app {
  admin_delegations = plain "alice" "auditor" ∷ plain "bob" "auditor" ∷ [];
}

abbrev after : Db
after = record before {
  admin_delegations =
      plain "bob" "auditor" ∷ plain "alice" "helpdesk" ∷ owner_row "alice" "app" ∷ [];
  authorization_codes = [];
}

replaced : set_delegations 9 "alice" helper none before ≡ (after, ok tt)
unfolding set_delegations audited_tx record_audit_tx set_delegations_tx put_kind put_delegation
    is_conflicting requirement mask_over administrator_deadlines put_owned sort_texts insert_text
    text_before invalidate_user_enrollment_tx
replaced = refl

unknown_app :
    set_delegations 9 "alice" (record helper { app_owner = "none" ∷ [] }) none before
    ≡ (before, err app_record_missing)
unfolding set_delegations audited_tx record_audit_tx set_delegations_tx put_kind put_delegation
    is_conflicting requirement mask_over administrator_deadlines put_owned sort_texts insert_text
    text_before
unknown_app = refl

delegations-set_delegations_example :
    ((delegations "alice" after).helpdesk ≡ true)
    × ((delegations "alice" after).auditor ≡ false)
    × ((a : String)
        → any (λ c. c == a) (delegations "alice" after).app_owner
          ≡ any (λ c. c == a) helper.app_owner)
    × ((other_id : String)
        → ("alice" == other_id) ≡ false
        → delegations other_id after ≡ delegations other_id before)
delegations-set_delegations_example =
    delegations-set_delegations 9 "alice" helper none before after replaced
