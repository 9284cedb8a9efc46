-- ===== src/Delegations/Stored.antt =====
-- What was set is what is read: internal/store/delegations.go.
use kysignon_server.Base.{
  ℕ, Option, some, none, List, [], ◌∷◌, ◌++◌, any, Bool, true, false, ◌&&◌, ◌||◌, String, ◌==◌,
  option_test, exists_where, delete_where, ok, ◌>>=◌, >>=-ok, ◌≡◌, refl, arith, ap, ◌∙◌, eq_iff,
  eq_refl, append_assoc, exists-append, exists-delete_inside, exists-delete_outside,
}
use kysignon_server.Schema.{Db, AdminDelegation, AuditEvent, audited_tx_ok}
use kysignon_server.Delegations.{
  Delegations, is_row, owned_apps, delegations, put_kind, put_owned, invalidate_user_enrollment_tx,
  sort_texts, set_delegations_tx, set_delegations,
}
use kysignon_server.Delegations.Rows.{
  any-sort_texts, owns, any-owned_apps, kind_rows, put_kind_ok, owned_rows, put_owned_ok,
}

-- The rows of the user after the whole edit.
abbrev all_rows : String → Delegations → List AdminDelegation
all_rows user_id d =
    kind_rows user_id "helpdesk" d.helpdesk
    ++ (kind_rows user_id "auditor" d.auditor ++ owned_rows user_id none (sort_texts d.app_owner))

abbrev spared : String → List AdminDelegation → List AdminDelegation
spared user_id rows = delete_where (λ (r : AdminDelegation). r.user_id == user_id) rows

set_delegations_rows :
    (now : ℕ) (user_id : String) (d : Delegations) (audit : Option AuditEvent) (db db' : Db)
    → set_delegations now user_id d audit db ≡ (db', ok tt)
    → db'.admin_delegations ≡ spared user_id db.admin_delegations ++ all_rows user_id d
unfolding set_delegations set_delegations_tx invalidate_user_enrollment_tx
set_delegations_rows now user_id d audit db db' done =
    let (mid, worked, recorded) =
      audited_tx_ok now audit (set_delegations_tx now user_id d) db db' done in
    let start : Db = record db { admin_delegations = spared user_id db.admin_delegations } in
    let invalidate = λ (e : Db). ok (invalidate_user_enrollment_tx now user_id e) in
    let own = λ (e : Db). put_owned now user_id none (sort_texts d.app_owner) e >>= invalidate in
    let audits = λ (e : Db). put_kind now user_id "auditor" d.auditor e >>= own in
    let chain : (put_kind now user_id "helpdesk" d.helpdesk start >>= audits) ≡ ok mid =
      ground (arith, worked) in
    let (one, first, more) =
      >>=-ok (put_kind now user_id "helpdesk" d.helpdesk start) audits chain in
    let (two, second, most) = >>=-ok (put_kind now user_id "auditor" d.auditor one) own more in
    let (three, third, last) =
      >>=-ok (put_owned now user_id none (sort_texts d.app_owner) two) invalidate most in
    let kept : mid.admin_delegations ≡ three.admin_delegations = ground (arith, last) in
    let helpdesks = kind_rows user_id "helpdesk" d.helpdesk in
    let auditors = kind_rows user_id "auditor" d.auditor in
    let owners = owned_rows user_id none (sort_texts d.app_owner) in
    let base = start.admin_delegations in
    ap (λ (e : Db). e.admin_delegations) recorded
    ∙ kept
    ∙ put_owned_ok now user_id none (sort_texts d.app_owner) two three third
    ∙ ap (λ rows. rows ++ owners)
        (put_kind_ok now user_id "auditor" d.auditor one two second
          ∙ ap (λ rows. rows ++ auditors)
              (put_kind_ok now user_id "helpdesk" d.helpdesk start one first))
    ∙ append_assoc (base ++ helpdesks) auditors owners
    ∙ append_assoc base helpdesks (auditors ++ owners)

owned_rows_kind :
    (user_id kind : String) (before : Option String) (apps : List String)
    → ("app_owner" == kind) ≡ false
    → exists_where (is_row user_id kind) (owned_rows user_id before apps) ≡ false
unfolding owned_rows
owned_rows_kind user_id kind before [] other = refl
owned_rows_kind user_id kind before (app ∷ apps) other =
    ground (arith, other, owned_rows_kind user_id kind (some app) apps other)

owned_rows-owns :
    (user_id a : String) (before : Option String) (apps : List String)
    → (exists_where (owns user_id a) (owned_rows user_id before apps)
        || option_test false (λ b. b == a) before)
      ≡ (any (λ c. c == a) apps || option_test false (λ b. b == a) before)
unfolding owned_rows
owned_rows-owns user_id a before [] = refl
owned_rows-owns user_id a none (app ∷ apps) =
    ground (arith, eq_refl user_id, owned_rows-owns user_id a (some app) apps)
owned_rows-owns user_id a (some b) (app ∷ apps) = ground (
  arith,
  eq_refl user_id,
  eq_iff b app,
  eq_iff b a,
  eq_iff app a,
  owned_rows-owns user_id a (some app) apps,
)

-- One of the two kinds, in the new rows of the user.
new_kind :
    (user_id kind : String) (d : Delegations)
    → ("app_owner" == kind) ≡ false
    → exists_where (is_row user_id kind) (all_rows user_id d)
      ≡ ((d.helpdesk && "helpdesk" == kind) || (d.auditor && "auditor" == kind))
new_kind user_id kind d other = ground (
  arith,
  eq_refl user_id,
  exists-append (is_row user_id kind) (kind_rows user_id "helpdesk" d.helpdesk)
      (kind_rows user_id "auditor" d.auditor ++ owned_rows user_id none (sort_texts d.app_owner)),
  exists-append (is_row user_id kind) (kind_rows user_id "auditor" d.auditor)
      (owned_rows user_id none (sort_texts d.app_owner)),
  owned_rows_kind user_id kind none (sort_texts d.app_owner) other,
)

new_owns :
    (user_id a : String) (d : Delegations)
    → exists_where (owns user_id a) (all_rows user_id d) ≡ any (λ c. c == a) d.app_owner
new_owns user_id a d = ground (
  arith,
  exists-append (owns user_id a) (kind_rows user_id "helpdesk" d.helpdesk)
      (kind_rows user_id "auditor" d.auditor ++ owned_rows user_id none (sort_texts d.app_owner)),
  exists-append (owns user_id a) (kind_rows user_id "auditor" d.auditor)
      (owned_rows user_id none (sort_texts d.app_owner)),
  owned_rows-owns user_id a none (sort_texts d.app_owner),
  any-sort_texts a d.app_owner,
)

-- The test reads rows of the user only, so the old rows do not count.
fresh_only :
    (user_id : String) (q : AdminDelegation → Bool) (rows new : List AdminDelegation)
    → ((r : AdminDelegation) → q r ≡ true → (r.user_id == user_id) ≡ true)
    → exists_where q (spared user_id rows ++ new) ≡ exists_where q new
fresh_only user_id q rows new own = ground (
  arith,
  exists-append q (spared user_id rows) new,
  exists-delete_inside q (λ r. r.user_id == user_id) own rows,
)

module _ (user_id other_id : String) (distinct : (user_id == other_id) ≡ false) where
  owned_apps-owned_rows :
      (before : Option String) (apps : List String)
      → owned_apps other_id (owned_rows user_id before apps) ≡ []
  unfolding owned_apps owned_rows
  owned_apps-owned_rows before [] = refl
  owned_apps-owned_rows before (app ∷ apps) =
      ground (arith, distinct, owned_apps-owned_rows (some app) apps)

  owned_apps-append :
      (xs ys : List AdminDelegation)
      → owned_apps other_id ys ≡ []
      → owned_apps other_id (xs ++ ys) ≡ owned_apps other_id xs
  unfolding owned_apps
  owned_apps-append [] ys h = h
  owned_apps-append (x ∷ xs) ys h = rw (owned_apps-append xs ys h) refl

  owned_apps-spared :
      (rows : List AdminDelegation)
      → owned_apps other_id (spared user_id rows) ≡ owned_apps other_id rows
  unfolding owned_apps
  owned_apps-spared [] = refl
  owned_apps-spared (r ∷ rows) = ground (
    arith,
    distinct,
    eq_iff r.user_id user_id,
    eq_iff r.user_id other_id,
    eq_iff user_id other_id,
    owned_apps-spared rows,
  )

  owned_apps-all_rows : (d : Delegations) → owned_apps other_id (all_rows user_id d) ≡ []
  unfolding owned_apps
  owned_apps-all_rows d =
      let owners = owned_apps-owned_rows none (sort_texts d.app_owner) in
      ground (arith, distinct, owners)

  foreign_owner :
      (kind : String) (before : Option String) (apps : List String)
      → exists_where (is_row other_id kind) (owned_rows user_id before apps) ≡ false
  unfolding owned_rows
  foreign_owner kind before [] = refl
  foreign_owner kind before (app ∷ apps) =
      ground (arith, distinct, foreign_owner kind (some app) apps)

  foreign_kind :
      (kind : String) (rows : List AdminDelegation) (d : Delegations)
      → exists_where (is_row other_id kind) (spared user_id rows ++ all_rows user_id d)
        ≡ exists_where (is_row other_id kind) rows
  foreign_kind kind rows d =
      let owners = foreign_owner kind none (sort_texts d.app_owner) in
      ground (
        arith,
        distinct,
        owners,
        exists-append (is_row other_id kind) (spared user_id rows) (all_rows user_id d),
        exists-append (is_row other_id kind) (kind_rows user_id "helpdesk" d.helpdesk) (
            kind_rows user_id "auditor" d.auditor
            ++ owned_rows user_id none (sort_texts d.app_owner)),
        exists-append (is_row other_id kind) (kind_rows user_id "auditor" d.auditor)
            (owned_rows user_id none (sort_texts d.app_owner)),
        exists-delete_outside (is_row other_id kind) (λ (r : AdminDelegation). r.user_id == user_id)
            (λ r h. ground (
              arith,
              h,
              distinct,
              eq_iff r.user_id user_id,
              eq_iff r.user_id other_id,
              eq_iff user_id other_id,
            ))
            rows,
      )

-- Where SetDelegations succeeds: Delegations reads for the user the two kinds as they were set and owns an
-- application exactly where the list given names it, and for every other user what it read before.
pub delegations-set_delegations :
    (now : ℕ) (user_id : String) (d : Delegations) (audit : Option AuditEvent) (db db' : Db)
    → set_delegations now user_id d audit db ≡ (db', ok tt)
    → ((delegations user_id db').helpdesk ≡ d.helpdesk)
      × ((delegations user_id db').auditor ≡ d.auditor)
      × ((a : String)
          → any (λ c. c == a) (delegations user_id db').app_owner ≡ any (λ c. c == a) d.app_owner)
      × ((other_id : String)
          → (user_id == other_id) ≡ false
          → delegations other_id db' ≡ delegations other_id db)
unfolding delegations
delegations-set_delegations now user_id d audit db db' done =
    let rows = set_delegations_rows now user_id d audit db db' done in
    let new = all_rows user_id d in
    let own =
      λ (q : AdminDelegation → Bool)
          (h : (r : AdminDelegation) → q r ≡ true → (r.user_id == user_id) ≡ true).
        fresh_only user_id q db.admin_delegations new h in
    (
      rw rows (
          own (is_row user_id "helpdesk") (λ r h. ground (arith, h))
          ∙ new_kind user_id "helpdesk" d refl
          ∙ ground arith),
      rw rows (
          own (is_row user_id "auditor") (λ r h. ground (arith, h))
          ∙ new_kind user_id "auditor" d refl
          ∙ ground arith),
      λ a.
          any-owned_apps user_id a db'.admin_delegations
          ∙ rw rows (own (owns user_id a) (λ r h. ground (arith, h)) ∙ new_owns user_id a d),
      λ other_id distinct.
          rw (delegations, rows)
            (ground (
              arith,
              foreign_kind user_id other_id distinct "helpdesk" db.admin_delegations d,
              foreign_kind user_id other_id distinct "auditor" db.admin_delegations d,
              owned_apps-append user_id other_id distinct (spared user_id db.admin_delegations) new
                  (owned_apps-all_rows user_id other_id distinct d),
              owned_apps-spared user_id other_id distinct db.admin_delegations,
            )),
    )
