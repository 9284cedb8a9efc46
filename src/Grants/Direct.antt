-- ===== src/Grants/Direct.antt =====
-- The direct assignments that SetAppAssignment leaves: internal/store/app_access.go.
use kysignon_server.Base.{
  ℕ, Option, List, [], ◌∷◌, Bool, true, false, ◌&&◌, String, ◌==◌, exists_where, update_where,
  if◌then◌else◌, ok, ◌≡◌, refl, arith, inl, inr, eq_iff, eq_refl, ◌∙◌, ap, Bool-cases,
  exists-append, exists-delete_inside, exists-delete_outside, exists_none_mono,
}
use kysignon_server.Schema.{Db, UserAssignment, AuditEvent, audited_tx_ok}
use kysignon_server.Access.{not_over}
use kysignon_server.Grants.{
  is_app, bump, is_assignment, until, put_assignment, unix_or_nil, write_user, write_grant,
  apply_app_assignment_tx, set_app_assignment_at,
}
use kysignon_server.Grants.Steps.{
  apply_app_assignment_tx_steps, bump_app_ok, write_grant-registry,
  apply_app_assignment_tx-IsPrepared,
}
use kysignon_server.Grants.Cutoff.{cut_db, revoke_lost_app_access_tx_ok}

-- The user has a direct assignment to the application that is not over at the instant.
abbrev pub is_direct_for : ℕ → String → String → UserAssignment → Bool
is_direct_for t a u d = is_assignment a u d && not_over t d.expires_at

-- The pair is the one that was written.
abbrev pub is_pair : String → String → String → String → Bool
is_pair id user_id a u = a == id && u == user_id

pair_rows :
    (id user_id a u : String) (d : UserAssignment)
    → is_pair id user_id a u ≡ true
    → is_assignment a u d ≡ is_assignment id user_id d
pair_rows id user_id a u d same = ground (arith, same, eq_iff a id, eq_iff u user_id)

other_rows :
    (id user_id a u : String) (d : UserAssignment)
    → is_pair id user_id a u ≡ false
    → is_assignment a u d ≡ true
    → is_assignment id user_id d ≡ false
other_rows id user_id a u d other h = ground (
  arith,
  h,
  other,
  eq_iff d.app_id a,
  eq_iff d.app_id id,
  eq_iff a id,
  eq_iff d.user_id u,
  eq_iff d.user_id user_id,
  eq_iff u user_id,
)

-- An UPDATE of rows in `p` that `q` does not read.
exists-update_outside :
    {A : Type 0} (q p : A → Bool) (f : A → A)
    → ((x : A) → p x ≡ true → (q x ≡ false) × (q (f x) ≡ false))
    → (xs : List A) → exists_where q (update_where p f xs) ≡ exists_where q xs
exists-update_outside q p f h [] = refl
exists-update_outside q p f h (x ∷ xs) = ground (arith, h x, exists-update_outside q p f h xs)

-- An UPDATE of all rows in `p`, where `q` asks for rows in `p` with a property that all get.
exists-update_inside :
    {A : Type 0} (q p : A → Bool) (f : A → A) (b : Bool)
    → ((x : A) → p x ≡ true → q (f x) ≡ b)
    → ((x : A) → p x ≡ false → q x ≡ false)
    → (xs : List A) → exists_where q (update_where p f xs) ≡ (b && exists_where p xs)
exists-update_inside q p f true reached other [] = refl
exists-update_inside q p f false reached other [] = refl
exists-update_inside q p f b reached other (x ∷ xs) =
    ground (arith, reached x, other x, exists-update_inside q p f b reached other xs)

put_assignment-direct :
    (t : ℕ) (id user_id a u : String) (e : Option ℕ) (rows : List UserAssignment)
    → exists_where (is_direct_for t a u) (put_assignment id user_id e rows)
      ≡ (if is_pair id user_id a u then not_over t e else exists_where (is_direct_for t a u) rows)
unfolding put_assignment
put_assignment-direct t id user_id a u e rows =
    let row : UserAssignment = record { app_id = id; user_id = user_id; expires_at = e } in
    elim (Bool-cases (is_pair id user_id a u)) [
      | inl same ↦ elim (Bool-cases (exists_where (is_assignment id user_id) rows)) [
        | inl old ↦ ground (
          arith,
          same,
          old,
          exists-update_inside (is_direct_for t a u) (is_assignment id user_id) (until e)
              (not_over t e) (λ d h. ground (arith, h, pair_rows id user_id a u (until e d) same))
              (λ d h. ground (arith, h, pair_rows id user_id a u d same)) rows,
        )
        | inr new ↦ ground (
          arith,
          same,
          new,
          eq_iff a id,
          eq_iff u user_id,
          eq_refl id,
          eq_refl user_id,
          pair_rows id user_id a u row same,
          exists-append (is_direct_for t a u) rows (row ∷ []),
          exists_none_mono (is_assignment id user_id) (is_direct_for t a u)
              (λ d h. ground (arith, h, pair_rows id user_id a u d same)) rows new,
        )
      ]
      | inr other ↦ ground (
        arith,
        other,
        eq_iff id a,
        eq_iff a id,
        eq_iff user_id u,
        eq_iff u user_id,
        exists-append (is_direct_for t a u) rows (row ∷ []),
        exists-update_outside (is_direct_for t a u) (is_assignment id user_id) (until e)
            (λ d h. ground (
              arith,
              h,
              other_rows id user_id a u d other,
              other_rows id user_id a u (until e d) other,
            ))
            rows,
      )
    ]

-- What the write of a user's grant leaves.
write_user-direct :
    (t : ℕ) (id user_id a u : String) (assigned : Bool) (e : Option ℕ) (db : Db)
    → exists_where (is_direct_for t a u) (write_user id user_id assigned e db).user_assignments ≡ (
        if is_pair id user_id a u
        then assigned && not_over t (unix_or_nil e)
        else exists_where (is_direct_for t a u) db.user_assignments)
unfolding write_user
write_user-direct t id user_id a u true e db =
    put_assignment-direct t id user_id a u (unix_or_nil e) db.user_assignments
write_user-direct t id user_id a u false e db = elim (Bool-cases (is_pair id user_id a u)) [
  | inl same ↦ rw same (
      exists-delete_inside (is_direct_for t a u) (is_assignment id user_id)
        (λ d h. ground (arith, h, pair_rows id user_id a u d same)) db.user_assignments)
  | inr other ↦ rw other (
      exists-delete_outside (is_direct_for t a u) (is_assignment id user_id)
        (λ d h. ground (arith, h, other_rows id user_id a u d other)) db.user_assignments)
]

-- The whole transaction, for a user.
pub apply_app_assignment_tx-direct :
    (now : ℕ) (ids : String → String) (id user_id : String) (assigned : Bool) (e : Option ℕ)
    (db mid : Db)
    → apply_app_assignment_tx now ids id "users" user_id assigned e db ≡ ok mid
    → (t : ℕ) (a u : String)
    → exists_where (is_direct_for t a u) mid.user_assignments ≡ (
        if is_pair id user_id a u
        then assigned && not_over t (unix_or_nil e)
        else exists_where (is_direct_for t a u) db.user_assignments)
unfolding write_grant cut_db
apply_app_assignment_tx-direct now ids id user_id assigned e db mid went t a u =
    let (bumped, stage, first, second, last) =
      apply_app_assignment_tx_steps now ids id "users" user_id assigned e db mid went in
    let grown = bump_app_ok id db bumped first in
    let written : stage ≡ write_user id user_id assigned e bumped = ground (arith, second) in
    let cut = revoke_lost_app_access_tx_ok now ids stage mid last in
    let same : bumped.user_assignments ≡ db.user_assignments =
      ap (λ (d : Db). d.user_assignments) grown in
    ap (λ (d : Db). exists_where (is_direct_for t a u) d.user_assignments)
      (cut ∙ ap (cut_db now ids) written)
    ∙ write_user-direct t id user_id a u assigned e bumped
    ∙ ap
        (λ (rows : List UserAssignment).
          if is_pair id user_id a u
          then assigned && not_over t (unix_or_nil e)
          else exists_where (is_direct_for t a u) rows)
        same

-- An assignment leaves the access requests alone.
pub apply_app_assignment_tx-requests :
    (now : ℕ) (ids : String → String) (id kind principal : String) (assigned : Bool) (e : Option ℕ)
    (db mid : Db)
    → apply_app_assignment_tx now ids id kind principal assigned e db ≡ ok mid
    → mid.access_requests ≡ db.access_requests
unfolding cut_db
apply_app_assignment_tx-requests now ids id kind principal assigned e db mid went =
    let (stage, same, cut) =
      apply_app_assignment_tx-IsPrepared now ids id kind principal assigned e db mid went in
    ap (λ (d : Db). d.access_requests) (revoke_lost_app_access_tx_ok now ids stage mid cut)
    ∙ same.requests

-- Of the tables that the views read beside the grants, an assignment changes a revision only.
pub apply_app_assignment_tx-views :
    (now : ℕ) (ids : String → String) (id kind principal : String) (assigned : Bool) (e : Option ℕ)
    (db mid : Db)
    → apply_app_assignment_tx now ids id kind principal assigned e db ≡ ok mid
    → (mid.app_registry ≡ update_where (is_app id) bump db.app_registry)
      × (mid.users ≡ db.users)
      × (mid.oauth_clients ≡ db.oauth_clients)
unfolding cut_db
apply_app_assignment_tx-views now ids id kind principal assigned e db mid went =
    let (bumped, stage, first, second, last) =
      apply_app_assignment_tx_steps now ids id kind principal assigned e db mid went in
    let (stage', same, cut) =
      apply_app_assignment_tx-IsPrepared now ids id kind principal assigned e db mid went in
    (
      ap (λ (d : Db). d.app_registry) (revoke_lost_app_access_tx_ok now ids stage mid last)
          ∙ write_grant-registry id kind principal assigned e bumped stage second
          ∙ ap (λ (d : Db). d.app_registry) (bump_app_ok id db bumped first),
      ap (λ (d : Db). d.users) (revoke_lost_app_access_tx_ok now ids stage' mid cut) ∙ same.users,
      ap (λ (d : Db). d.oauth_clients) (revoke_lost_app_access_tx_ok now ids stage' mid cut)
          ∙ same.clients,
    )

-- SetAppAssignment and SetAppAssignmentUntil are exact for users: where the edit succeeds, the user holds
-- at any instant a direct assignment to the application exactly where one was given and its end is
-- still ahead of that instant; and every other pair of a user and an application holds what it held.
pub set_app_assignment_at-direct :
    (now : ℕ) (ids : String → String) (id user_id : String) (assigned : Bool) (e : Option ℕ)
    (audit : Option AuditEvent) (db db' : Db)
    → set_app_assignment_at now ids id "users" user_id assigned e audit db ≡ (db', ok tt)
    → (t : ℕ) (a u : String)
    → exists_where (is_direct_for t a u) db'.user_assignments ≡ (
        if is_pair id user_id a u
        then assigned && not_over t (unix_or_nil e)
        else exists_where (is_direct_for t a u) db.user_assignments)
unfolding set_app_assignment_at
set_app_assignment_at-direct now ids id user_id assigned e audit db db' done t a u =
    let (mid, worked, recorded) =
      audited_tx_ok now audit (apply_app_assignment_tx now ids id "users" user_id assigned e) db db'
        done in
    ap (λ (d : Db). exists_where (is_direct_for t a u) d.user_assignments) recorded
    ∙ apply_app_assignment_tx-direct now ids id user_id assigned e db mid worked t a u
