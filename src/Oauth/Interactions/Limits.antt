-- ===== src/Oauth/Interactions/Limits.antt =====
-- How many authorization requests wait at a time: internal/store/authorization_interactions.go.
use kysignon_server.Base.{
  ℕ, ◌+◌, ◌≤◌, List, [], ◌∷◌, ◌++◌, Bool, true, false, String, ◌==◌, ltb, find_where, count_where,
  update_where, delete_where, if◌then◌else◌, ok, err, Error, ◌⊎◌, ◌∙◌, ◌≡◌, refl, arith, Bool-cases,
  Option-cases, inl, inr, eq_iff, subst, count-update_keep, count-delete-le, count-append,
}
use kysignon_server.Schema.{Db, AuthorizationInteraction, commit_rule, commit_cases}
use kysignon_server.Oauth.Interactions.{
  owner_is, browser_is, session_is, adopts, adopt, is_orphan, is_excess, repaired, is_evicted,
  total, lapsed, swept, has_room, unproved, create_interaction_tx, create_authorization_interaction,
}

-- Ten requests of one browser, and ten thousand in all.
abbrev pub IsBounded : Db → Type 0
IsBounded db =
    ((b : String) → count_where (browser_is b) db.authorization_interactions ≤ 10)
    × (total db.authorization_interactions ≤ 10_000)

adopt-keeps :
    (q : AuthorizationInteraction → Bool)
    → ((i : AuthorizationInteraction) (u : String) → q (record i { user_id = u }) ≡ q i)
    → (db : Db) (i : AuthorizationInteraction) → q (adopt db i) ≡ q i
unfolding adopt
adopt-keeps q same db i = elim (Option-cases (find_where (session_is i.session_id) db.sessions)) [
  | inl absent ↦ rw (adopt, absent) refl
  | inr (s, found) ↦ rw (adopt, found) (same i s.user_id)
]

repaired-le :
    (q : AuthorizationInteraction → Bool)
    → ((i : AuthorizationInteraction) (u : String) → q (record i { user_id = u }) ≡ q i)
    → (db : Db) (rows : List AuthorizationInteraction)
    → count_where q (repaired db rows) ≤ count_where q rows
unfolding repaired
repaired-le q same db rows =
    let adopted = update_where (adopts db) (adopt db) rows in
    let owned = delete_where (is_orphan db) adopted in
    omega (
      arith,
      count-update_keep q (adopts db) (adopt db) (adopt-keeps q same db) rows,
      count-delete-le q (is_orphan db) adopted,
      count-delete-le q (is_excess owned) owned,
    )

-- Before its INSERT the transaction only takes requests away, whatever is asked of them but the owner.
pub swept-le :
    (q : AuthorizationInteraction → Bool)
    → ((i : AuthorizationInteraction) (u : String) → q (record i { user_id = u }) ≡ q i)
    → (now : ℕ) (db : Db)
    → count_where q (swept now db) ≤ count_where q db.authorization_interactions
unfolding swept
swept-le q same now db =
    let live = delete_where (lapsed now) db.authorization_interactions in
    let kept = if ltb (total live) 10_000 then live else repaired db live in
    let kept-le : count_where q kept ≤ count_where q live =
      elim (Bool-cases (ltb (total live) 10_000)) [
        | inl small ↦ rw (small) (omega arith)
        | inr large ↦ rw (large) (repaired-le q same db live)
      ] in
    omega (
      arith,
      kept-le,
      count-delete-le q (lapsed now) db.authorization_interactions,
      count-delete-le q (is_evicted kept) kept,
    )

pub create_tx_ok :
    (now : ℕ) (i : AuthorizationInteraction) (db db' : Db)
    → create_interaction_tx now i db ≡ ok db'
    → (has_room i (swept now db) ≡ true)
      × (db'.authorization_interactions ≡ swept now db ++ (unproved i ∷ []))
unfolding create_interaction_tx
create_tx_ok now i db db' h = ground arith

room_bounds :
    (i : AuthorizationInteraction) (rows : List AuthorizationInteraction)
    → has_room i rows ≡ true
    → (count_where (browser_is i.browser_hash) rows ≤ 9)
      × ((i.user_id == "") ≡ false → count_where (owner_is i.user_id) rows ≤ 9)
      × (total rows ≤ 9_999)
unfolding has_room
room_bounds i rows room = (ground arith, λ owned. ground arith, ground arith)

one_more :
    (q : AuthorizationInteraction → Bool) (i : AuthorizationInteraction)
    (rows : List AuthorizationInteraction)
    → count_where q (rows ++ (i ∷ [])) ≤ count_where q rows + 1
one_more q i rows = ground (arith, count-append q rows (i ∷ []))

appended-IsBounded :
    (now : ℕ) (i : AuthorizationInteraction) (db db' : Db)
    → IsBounded db
    → create_interaction_tx now i db ≡ ok db'
    → IsBounded db'
appended-IsBounded now i db db' (each, all) created =
    let (room, rows) = create_tx_ok now i db db' created in
    let (browser, account, least) = room_bounds i (swept now db) room in
    let of_browser : (b : String) → count_where (browser_is b) db'.authorization_interactions ≤ 10 =
      λ b. elim (Bool-cases (i.browser_hash == b)) [
        | inl same ↦
            (let few =
                subst (λ c. count_where (browser_is c) (swept now db) ≤ 9)
                  ((eq_iff i.browser_hash b).0 same) browser in
              rw (rows) (omega (arith, few, one_more (browser_is b) (unproved i) (swept now db))))
        | inr other ↦ rw (rows) (
            ground (
              arith,
              each b,
              swept-le (browser_is b) (λ j u. refl) now db,
              count-append (browser_is b) (swept now db) (unproved i ∷ []),
              other,
            ))
      ] in
    (of_browser, rw (rows) (omega (arith, least, one_more (λ j. true) (unproved i) (swept now db))))

-- Where each browser has at most ten waiting requests and there are at most 10,000 in all, this is so
-- after CreateAuthorizationInteraction, whether it succeeds or not.
pub create_authorization_interaction-IsBounded :
    (now : ℕ) (i : AuthorizationInteraction) (db : Db)
    → IsBounded db
    → IsBounded (create_authorization_interaction now i db).0
unfolding create_authorization_interaction
create_authorization_interaction-IsBounded now i db bounded =
    commit_rule IsBounded tt (create_interaction_tx now i db) db bounded
      (λ db' created. appended-IsBounded now i db db' bounded created)

-- The live requests are below the limit of 10,000.
abbrev pub is_calm : ℕ → Db → Bool
is_calm now db = ltb (total (delete_where (lapsed now) db.authorization_interactions)) 10_000

evict_none :
    (q : AuthorizationInteraction → Bool) (rows xs : List AuthorizationInteraction)
    → total rows ≤ 9_999
    → count_where q (delete_where (is_evicted rows) xs) ≡ count_where q xs
unfolding is_evicted
evict_none q rows [] calm = refl
evict_none q rows (i ∷ xs) calm = ground (arith, evict_none q rows xs calm)

lapsed_only :
    (q : AuthorizationInteraction → Bool) (now : ℕ)
    → ((i : AuthorizationInteraction) → q i ≡ true → lapsed now i ≡ false)
    → (xs : List AuthorizationInteraction)
    → count_where q (delete_where (lapsed now) xs) ≡ count_where q xs
lapsed_only q now live [] = refl
lapsed_only q now live (i ∷ xs) = ground (arith, live i, lapsed_only q now live xs)

calm-swept :
    (q : AuthorizationInteraction → Bool) (now : ℕ) (db : Db)
    → ((i : AuthorizationInteraction) → q i ≡ true → lapsed now i ≡ false)
    → is_calm now db ≡ true
    → count_where q (swept now db) ≡ count_where q db.authorization_interactions
unfolding swept
calm-swept q now db live calm =
    let kept = delete_where (lapsed now) db.authorization_interactions in
    rw (swept, calm)
      (evict_none q kept kept (ground (arith, calm))
        ∙ lapsed_only q now live db.authorization_interactions)

-- Where fewer than 10,000 unexpired requests wait: CreateAuthorizationInteraction fails and changes
-- nothing, or it adds the new request, which has no proof yet, deletes no request that has not expired,
-- and the account of the request, where it has one, has at most ten.
pub create_authorization_interaction_keeps :
    (now : ℕ) (i : AuthorizationInteraction) (db : Db)
    → is_calm now db ≡ true
    → ((e : Error) × (create_authorization_interaction now i db ≡ (db, err e)))
      ⊎ ((db' : Db) × (create_authorization_interaction now i db ≡ (db', ok tt))
          × ((q : AuthorizationInteraction → Bool)
              → ((j : AuthorizationInteraction) → q j ≡ true → lapsed now j ≡ false)
              → count_where q db'.authorization_interactions
                ≡ count_where q db.authorization_interactions + count_where q (unproved i ∷ []))
          × ((i.user_id == "") ≡ false
              → count_where (owner_is i.user_id) db'.authorization_interactions ≤ 10))
unfolding create_authorization_interaction
create_authorization_interaction_keeps now i db calm =
    elim (commit_cases tt (create_interaction_tx now i db) db) [
      | inr (e, failed, rolled) ↦ inl (e, rolled)
      | inl (db', created, committed) ↦
          (let (room, rows) = create_tx_ok now i db db' created in
            let (browser, account, least) = room_bounds i (swept now db) room in
            inr (
              db',
              committed,
              λ q live. rw (rows) (
                  omega (
                    arith,
                    calm-swept q now db live calm,
                    count-append q (swept now db) (unproved i ∷ []),
                  )),
              λ owned. rw (rows) (
                  omega (
                    arith,
                    account owned,
                    one_more (owner_is i.user_id) (unproved i) (swept now db),
                  )),
            ))
    ]
