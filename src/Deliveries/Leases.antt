-- ===== src/Deliveries/Leases.antt =====
-- One worker at a time for each client: the leases of internal/store/logout_deliveries.go.
use kysignon_server.Base.{
  ℕ, ◌≤◌, Option, some, none, List, [], ◌∷◌, ◌++◌, Bool, true, false, ◌&&◌, not, String, ◌==◌, ltb,
  eqb, count_where, exists_where, update_where, if◌then◌else◌, ok, ◌≡◌, refl, arith, inl, inr,
  IsUnique, count-update_only, count-update_keep, count-delete-le, count_mono, count-update_add,
  count_split, exists-count_zero, eq_iff, eq_refl, subst, Bool-cases, Option-cases, Result-cases,
  count-append, >>=-ok,
}
use kysignon_server.Schema.{
  Db, ClientSession, LogoutDelivery, insert_row, insert_row-IsUnique, is_delivered, AuditEvent,
  record_audit_tx, record_audit_tx-eq,
}
use kysignon_server.Revocation.{owed, queue_all}
use kysignon_server.Deliveries.{
  in_flight, is_due, oldest, is_interrupted, give_up, settled, lease_to, delivery_is,
  claim_logout_delivery, is_claim, outcome_of, finish_logout_delivery, is_unsettled, requeued,
  retry_logout_delivery_now, delete_logout_deliveries_older_than,
}

-- Ids are distinct, and no client has two deliveries under a lease.
abbrev pub IsExclusive : ℕ → List LogoutDelivery → Type 0
IsExclusive now rows =
    IsUnique (λ (d : LogoutDelivery). d.id) rows
    × ((client_id : String) → count_where (in_flight now client_id) rows ≤ 1)

-- Time only ends leases.
pub later-IsExclusive :
    (now later : ℕ) (rows : List LogoutDelivery)
    → now ≤ later
    → IsExclusive now rows
    → IsExclusive later rows
later-IsExclusive now later rows le (unique, one) = (
  unique,
  λ c.
      (omega (
        arith,
        one c,
        count_mono (in_flight later c) (in_flight now c) (λ d h. ground (arith, h)) rows,
      )),
)

-- An UPDATE that keeps ids and clients and starts no lease.
calm_update :
    (now : ℕ) (p : LogoutDelivery → Bool) (f : LogoutDelivery → LogoutDelivery)
    (rows : List LogoutDelivery)
    → ((d : LogoutDelivery) → (f d).id ≡ d.id)
    → ((d : LogoutDelivery) (c : String) → in_flight now c (f d) ≡ true → in_flight now c d ≡ true)
    → IsExclusive now rows
    → IsExclusive now (update_where p f rows)
calm_update now p f rows same calm (unique, one) = (
  λ v.
      rw (count-update_keep (λ (d : LogoutDelivery). d.id == v) p f (λ d. rw (same d) refl) rows)
        (unique v),
  λ c. (omega (arith, one c, count-update_only (in_flight now c) p f (λ d hit. calm d c) rows)),
)

pub oldest_sound :
    (p q : LogoutDelivery → Bool) (rows : List LogoutDelivery) (d : LogoutDelivery)
    → oldest p rows ≡ some d
    → (p d ≡ true) × (q d ≡ true → 1 ≤ count_where q rows)
unfolding oldest
oldest_sound p q [] d h = cc
oldest_sound p q (x ∷ rows) d h = elim (Option-cases (oldest p rows)) [
  | inl empty ↦ (ground (arith, h, empty), λ e. ground (arith, h, empty))
  | inr (y, found) ↦
      (let (sound, counted) = oldest_sound p q rows y found in
        (ground (arith, h, found, sound), λ e. ground (arith, h, found, counted)))
]

claimed-IsExclusive :
    (now lease : ℕ) (token : String) (rows : List LogoutDelivery) (r : LogoutDelivery)
    → IsExclusive now rows
    → oldest (is_due now rows) rows ≡ some r
    → IsExclusive now (update_where (delivery_is r.id) (lease_to now lease token) rows)
unfolding is_due
claimed-IsExclusive now lease token rows r (unique, one) found =
    let hit = delivery_is r.id in
    let its_own : LogoutDelivery → Bool = λ d. hit d && d.client_id == r.client_id in
    let (due, counted) = oldest_sound (is_due now rows) its_own rows r found in
    let mine : 1 ≤ count_where its_own rows =
      counted (ground (arith, eq_refl r.id, eq_refl r.client_id)) in
    let idle : exists_where (in_flight now r.client_id) rows ≡ false = ground (arith, due) in
    (
      λ v.
          rw
            (count-update_keep (λ (d : LogoutDelivery). d.id == v) hit (lease_to now lease token)
              (λ d. refl) rows)
            (unique v),
      λ c.
          (let taken : LogoutDelivery → Bool =
              λ d. hit d && in_flight now c (lease_to now lease token d) in
            let most = count-update_add (in_flight now c) hit (lease_to now lease token) rows in
            elim (Bool-cases (r.client_id == c)) [
              | inl same ↦ omega (
                arith,
                most,
                unique r.id,
                count_mono taken hit (λ d h. ground (arith, h)) rows,
                subst (λ k. count_where (in_flight now k) rows ≡ 0) ((eq_iff r.client_id c).0 same)
                    (exists-count_zero (in_flight now r.client_id) rows idle),
              )
              | inr other ↦
                  (let foreign : LogoutDelivery → Bool =
                      λ d. hit d && not (d.client_id == r.client_id) in
                    omega (
                      arith,
                      most,
                      one c,
                      unique r.id,
                      mine,
                      count_split hit (λ d. d.client_id == r.client_id) rows,
                      count_mono taken foreign
                          (λ d h. ground (
                            arith,
                            h,
                            other,
                            eq_iff d.client_id c,
                            eq_iff d.client_id r.client_id,
                            eq_iff r.client_id c,
                          ))
                          rows,
                    ))
            ]),
    )

abbrev pub Exclusive : ℕ → Db → Type 0
Exclusive now db = IsExclusive now db.logout_deliveries

pub settled_unique :
    (now : ℕ) (id : String) (db : Db)
    → Exclusive now db
    → count_where (delivery_is id) (settled now db.logout_deliveries) ≤ 1
settled_unique now id db (unique, one) =
    rw
      (count-update_keep (delivery_is id) (is_interrupted now) (give_up now) (λ d. refl)
        db.logout_deliveries)
      (unique id)

pub claim-Exclusive :
    (now lease : ℕ) (token : String) (db : Db)
    → Exclusive now db
    → Exclusive now (claim_logout_delivery now lease token db).0
unfolding claim_logout_delivery
claim-Exclusive now lease token db ex =
    let rows = settled now db.logout_deliveries in
    let kept =
      calm_update now (is_interrupted now) (give_up now) db.logout_deliveries (λ d. refl)
        (λ d c h. ground (arith, h)) ex in
    elim (Option-cases (oldest (is_due now rows) rows)) [
      | inl nothing ↦ rw (claim_logout_delivery, nothing) ex
      | inr (d, found) ↦
          rw (claim_logout_delivery, found) (claimed-IsExclusive now lease token rows d kept found)
    ]

pub finish-Exclusive :
    (now at : ℕ) (d : LogoutDelivery) (e : Option String) (db : Db)
    → Exclusive now db
    → Exclusive now (finish_logout_delivery at d e db).0
unfolding finish_logout_delivery outcome_of
finish-Exclusive now at d none db ex =
    calm_update now (is_claim d.id d.claim_token) _ db.logout_deliveries (λ x. refl)
      (λ x c h. ground (arith, h)) ex
finish-Exclusive now at d (some m) db ex =
    calm_update now (is_claim d.id d.claim_token) _ db.logout_deliveries (λ x. refl)
      (λ x c h. ground (arith, h)) ex

pub retry-Exclusive :
    (now at : ℕ) (user_id id : String) (audit : Option AuditEvent) (db : Db)
    → Exclusive now db
    → Exclusive now (retry_logout_delivery_now at user_id id audit db).0
unfolding retry_logout_delivery_now
retry-Exclusive now at user_id id audit db ex =
    let again =
      calm_update now (is_unsettled user_id id) (requeued at) db.logout_deliveries (λ x. refl)
        (λ x c h. ground (arith, h)) ex in
    let db' : Db = record db {
      logout_deliveries = update_where (is_unsettled user_id id) (requeued at) db.logout_deliveries;
    } in
    elim (Bool-cases (eqb (count_where (is_unsettled user_id id) db.logout_deliveries) 0)) [
      | inl nobody ↦ rw (retry_logout_delivery_now, nobody) ex
      | inr found ↦ elim (Result-cases (record_audit_tx at audit db')) [
        | inl (db'', went) ↦
            rw (retry_logout_delivery_now, found, went)
              (rw (record_audit_tx-eq at audit db' went) again)
        | inr (e, refused) ↦ rw (retry_logout_delivery_now, found, refused) ex
      ]
    ]

pub prune-Exclusive :
    (now cutoff : ℕ) (db : Db)
    → Exclusive now db
    → Exclusive now (delete_logout_deliveries_older_than cutoff db)
unfolding delete_logout_deliveries_older_than
prune-Exclusive now cutoff db (unique, one) =
    let old : LogoutDelivery → Bool = λ d. is_delivered d.status && ltb d.updated_at cutoff in
    (
      λ v. omega (arith, unique v, count-delete-le (delivery_is v) old db.logout_deliveries),
      λ c. omega (arith, one c, count-delete-le (in_flight now c) old db.logout_deliveries),
    )

unleased :
    (now at : ℕ) (id : String) (cs : ClientSession) (c : String)
    → count_where (in_flight now c) (owed at id cs ∷ []) ≡ 0
unleased now at id cs c = ground arith

pub queue_all-IsExclusive :
    (now at : ℕ) (ids : String → String) (selects : ClientSession → Bool) (css : List ClientSession)
    (rows rows' : List LogoutDelivery)
    → IsExclusive now rows
    → queue_all at ids selects css rows ≡ ok rows'
    → IsExclusive now rows'
unfolding queue_all
queue_all-IsExclusive now at ids selects [] rows rows' ex h = ground (arith, h, ex)
queue_all-IsExclusive now at ids selects (cs ∷ more) rows rows' ex h =
    elim (Bool-cases (selects cs)) [
      | inr skipped ↦ queue_all-IsExclusive now at ids selects more rows rows' ex (rw skipped at h)
      | inl chosen ↦
          (let fresh = owed at (ids cs.sid) cs in
            let (mid, put, rest) =
              >>=-ok (if selects cs then insert_row (delivery_is fresh.id) fresh rows else ok rows)
                (λ rows'. queue_all at ids selects more rows') h in
            let put' : insert_row (delivery_is fresh.id) fresh rows ≡ ok mid = rw chosen at put in
            let grown : mid ≡ rows ++ (fresh ∷ []) = ground (arith, put') in
            let mid-ex : IsExclusive now mid = (
              insert_row-IsUnique (λ (d : LogoutDelivery). d.id) (delivery_is fresh.id) fresh rows
                  mid (λ r e. e) ex.0 put',
              λ c. rw grown (
                  omega (
                    arith,
                    ex.1 c,
                    count-append (in_flight now c) rows (fresh ∷ []),
                    unleased now at (ids cs.sid) cs c,
                  )),
            ) in
            queue_all-IsExclusive now at ids selects more mid rows' mid-ex rest)
    ]
