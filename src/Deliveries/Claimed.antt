-- ===== src/Deliveries/Claimed.antt =====
-- What a worker gets: ClaimLogoutDelivery of internal/store/logout_deliveries.go.
use kysignon_server.Base.{
  ℕ, ◌+◌, ◌≤◌, Option, some, none, List, Bool, true, false, String, ◌==◌, find_where, count_where,
  exists_where, update_where, if◌then◌else◌, ◌≡◌, ◌⊎◌, refl, arith, inl, inr, IsUnique, ap, ◌∙◌,
  sym, subst, eq_iff, eq_refl, Bool-cases, Option-cases, find_where_sound, count-update_keep,
}
use kysignon_server.Schema.{Db, LogoutDelivery}
use kysignon_server.Deliveries.{
  ClaimedDelivery, in_flight, is_due, oldest, is_interrupted, give_up, settled, lease_to,
  delivery_is, with_client, claim_logout_delivery,
}
use kysignon_server.Deliveries.Leases.{oldest_sound}
use kysignon_server.Deliveries.Due.{
  older, may_run, keeps_busy, is_broken, without_broken, map_some, exists-update_same,
  exists-update_none, spared_none, find-update_map, oldest-found, find-token, with_client-delivery,
  oldest-none, oldest_first,
}

abbrev pub has_token : String → LogoutDelivery → Bool
has_token token d = d.claim_token == token

module _ (now : ℕ) (rows : List LogoutDelivery) where
  busy_same :
      (c : String)
      → exists_where (in_flight now c) (settled now rows) ≡ exists_where (keeps_busy now c) rows
  busy_same c =
      exists-update_same (in_flight now c) (is_interrupted now) (give_up now)
        (λ x h. ground (arith, h)) rows

  due_same : (d : LogoutDelivery) → is_due now (settled now rows) d ≡ may_run now rows d
  unfolding is_due
  due_same d = ground (arith, busy_same d.client_id)

  -- What may run is not given up.
  unbroken : (d : LogoutDelivery) → may_run now rows d ≡ true → is_interrupted now d ≡ false
  unbroken d h = ground (arith, h)

  find_settled :
      (id : String)
      → find_where (delivery_is id) (settled now rows)
        ≡ map_some (without_broken now) (find_where (delivery_is id) rows)
  find_settled id =
      find-update_map (delivery_is id) (is_interrupted now) (give_up now) (λ x. refl) rows

  find_due :
      (d : LogoutDelivery)
      → may_run now rows d ≡ true
      → find_where (delivery_is d.id) (settled now rows) ≡ some d
      → find_where (delivery_is d.id) rows ≡ some d
  find_due d due found = elim (Option-cases (find_where (delivery_is d.id) rows)) [
    | inl gone ↦ absurd (cc (found, find_settled d.id, ap (map_some (without_broken now)) gone))
    | inr (e, there) ↦
        (let same : without_broken now e ≡ d =
            cc (found, find_settled d.id, ap (map_some (without_broken now)) there) in
          elim (Bool-cases (is_broken now e)) [
            | inl broken ↦ ground (arith, same, broken, due)
            | inr whole ↦ there ∙ ap some (ground (arith, same, whole))
          ])
  ]

  none_due :
      exists_where (is_due now (settled now rows)) (settled now rows) ≡ false
      → exists_where (may_run now rows) rows ≡ false
  none_due h =
      spared_none (may_run now rows) (is_due now (settled now rows)) (is_interrupted now)
        (give_up now) (λ x e. (unbroken x e, due_same x ∙ e)) rows h

  none_older :
      (d : LogoutDelivery)
      → exists_where (older (is_due now (settled now rows)) d) (settled now rows) ≡ false
      → exists_where (older (may_run now rows) d) rows ≡ false
  none_older d h =
      spared_none (older (may_run now rows) d) (older (is_due now (settled now rows)) d)
        (is_interrupted now) (give_up now)
        (λ x e. (unbroken x (ground (arith, e)), ground (arith, e, due_same x))) rows h

  no_token :
      (token : String)
      → (token == "") ≡ false
      → exists_where (has_token token) rows ≡ false
      → exists_where (has_token token) (settled now rows) ≡ false
  no_token token given fresh =
      exists-update_none (has_token token) (is_interrupted now) (give_up now)
        (λ x. ground (arith, given, eq_iff token "", eq_iff "" token)) rows fresh

-- A delivery as a worker gets it: under the worker's token and lease, and counted.
abbrev pub under_claim : ℕ → ℕ → String → LogoutDelivery → LogoutDelivery
under_claim now lease token d = record d {
  claim_token = token;
  lease_until = some (now + lease);
  attempts = d.attempts + 1;
  updated_at = now;
}

abbrev pub find_delivery : String → Db → Option LogoutDelivery
find_delivery id db = find_where (delivery_is id) db.logout_deliveries

-- The worker has the oldest delivery that may run, the queue has it as the worker has it, and any other
-- delivery as it was, but for the broken ones.
pub record IsClaimed (now lease : ℕ) (token : String) (d : LogoutDelivery) (c : ClaimedDelivery)
    (before after : Db) : Type 0 where
  pub may : may_run now before.logout_deliveries d ≡ true
  pub first :
      exists_where (older (may_run now before.logout_deliveries) d) before.logout_deliveries ≡ false
  pub stored : find_delivery d.id before ≡ some d
  pub got : c.delivery ≡ under_claim now lease token d
  pub left :
      (id : String)
      → find_delivery id after ≡ (
          if d.id == id
          then some (under_claim now lease token d)
          else map_some (without_broken now) (find_delivery id before))

leased_id :
    (now lease : ℕ) (token id : String) (d : LogoutDelivery) (rows : List LogoutDelivery)
    → find_where (delivery_is d.id) rows ≡ some d
    → find_where (delivery_is id) (update_where (delivery_is d.id) (lease_to now lease token) rows)
      ≡ (if d.id == id
          then some (under_claim now lease token d)
          else find_where (delivery_is id) rows)
leased_id now lease token id d rows found =
    let mapped =
      find-update_map (delivery_is id) (delivery_is d.id) (lease_to now lease token) (λ x. refl)
        rows in
    elim (Bool-cases (d.id == id)) [
      | inl same ↦
          (let found_id : find_where (delivery_is id) rows ≡ some d =
              subst (λ v. find_where (delivery_is v) rows ≡ some d) ((eq_iff d.id id).0 same)
                found in
            ground (arith, mapped, found_id, same, eq_refl d.id))
      | inr other ↦ elim (Option-cases (find_where (delivery_is id) rows)) [
        | inl gone ↦ ground (arith, mapped, gone, other)
        | inr (e, there) ↦
            (let its_id = find_where_sound (delivery_is id) rows e there in
              ground (
                arith,
                mapped,
                there,
                other,
                its_id,
                eq_iff e.id id,
                eq_iff e.id d.id,
                eq_iff d.id id,
              ))
      ]
    ]

module _ (now lease : ℕ) (token : String) (db : Db)
    (unique : IsUnique (λ (d : LogoutDelivery). d.id) db.logout_deliveries)
    (given : (token == "") ≡ false)
    (fresh : exists_where (has_token token) db.logout_deliveries ≡ false) where
  IsClaimed-row :
      (d : LogoutDelivery)
      → oldest (is_due now (settled now db.logout_deliveries)) (settled now db.logout_deliveries)
        ≡ some d
      → (c : ClaimedDelivery) × (db' : Db) × (claim_logout_delivery now lease token db
          ≡ (db', some c))
        × IsClaimed now lease token d c db db'
  unfolding claim_logout_delivery
  IsClaimed-row d found =
      let rows = db.logout_deliveries in
      let kept = settled now rows in
      let claimed = update_where (delivery_is d.id) (lease_to now lease token) kept in
      let one : count_where (delivery_is d.id) kept ≤ 1 =
        rw
          (count-update_keep (delivery_is d.id) (is_interrupted now) (give_up now) (λ x. refl) rows)
          (unique d.id) in
      let in_kept = oldest-found (is_due now kept) kept d found one in
      let (due, counted) = oldest_sound (is_due now kept) (delivery_is d.id) kept d found in
      let may : may_run now rows d ≡ true = sym (due_same now rows d) ∙ due in
      let mine : find_where (has_token token) claimed ≡ some (under_claim now lease token d) =
        find-token now lease token d.id kept (no_token now rows token given fresh)
        ∙ (leased_id now lease token d.id d kept in_kept ∙ ground (arith, eq_refl d.id)) in
      let c = with_client db (under_claim now lease token d) in
      let db' : Db = record db { logout_deliveries = claimed } in
      (
        c,
        db',
        rw (claim_logout_delivery, found, mine) refl,
        record {
          may = may;
          first = none_older now rows d (oldest_first (is_due now kept) kept d found);
          stored = find_due now rows d may in_kept;
          got = with_client-delivery db (under_claim now lease token d);
          left = λ id.
              leased_id now lease token id d kept in_kept
              ∙ ap
                  (λ (o : Option LogoutDelivery).
                    if d.id == id then some (under_claim now lease token d) else o)
                  (find_settled now rows id);
        },
      )

  -- Where ids are distinct and the claim token is new: ClaimLogoutDelivery gets nothing and changes nothing
  -- exactly where no delivery may run: none is queued with its time come, under no running lease, tried
  -- fewer than five times, and for a client with no running lease. Otherwise the worker gets the oldest
  -- that may run, leased to the given instant under the token and with one more attempt counted, as the
  -- queue then has it; of all others, those whose fifth attempt was broken off have failed, and the
  -- rest are as before.
  pub claim_logout_delivery_exact :
      ((exists_where (may_run now db.logout_deliveries) db.logout_deliveries ≡ false)
        × (claim_logout_delivery now lease token db ≡ (db, none)))
      ⊎ ((d : LogoutDelivery) × (c : ClaimedDelivery) × (db' : Db) × (claim_logout_delivery now
              lease token db
            ≡ (db', some c))
          × IsClaimed now lease token d c db db')
  unfolding claim_logout_delivery
  claim_logout_delivery_exact =
      let rows = settled now db.logout_deliveries in
      elim (Option-cases (oldest (is_due now rows) rows)) [
        | inl nothing ↦ inl (
          none_due now db.logout_deliveries (oldest-none (is_due now rows) rows nothing),
          rw (claim_logout_delivery, nothing) refl,
        )
        | inr (d, found) ↦
            (let (c, db', went, leased) = IsClaimed-row d found in inr (d, c, db', went, leased))
      ]
