-- ===== src/Deliveries/Due.antt =====
-- Which deliveries are due, and what a claim finds: internal/store/logout_deliveries.go.
use kysignon_server.Base.{
  ℕ, ◌≤◌, some, none, List, [], ◌∷◌, Bool, true, false, ◌&&◌, String, ◌==◌, ltb, leb, find_where,
  count_where, exists_where, update_where, option_test, not, if◌then◌else◌, Option, ap, ◌∙◌, ◌≡◌,
  refl, arith, inl, inr, exists_none_mono, eq_refl, subst, sym, Bool-cases, Option-cases,
}
use kysignon_server.Schema.{Db, OauthClient, LogoutDelivery, DeliveryStatus, is_queued}
use kysignon_server.Deliveries.{oldest, lease_to, delivery_is, with_client}
use kysignon_server.Deliveries.Leases.{oldest_sound}

pub oldest-none :
    (p : LogoutDelivery → Bool) (rows : List LogoutDelivery)
    → oldest p rows ≡ none
    → exists_where p rows ≡ false
unfolding oldest
oldest-none p [] h = refl
oldest-none p (d ∷ rows) h = elim (Option-cases (oldest p rows)) [
  | inl empty ↦ ground (arith, h, empty, oldest-none p rows empty)
  | inr (e, found) ↦ ground (arith, h, found)
]

abbrev pub older : (LogoutDelivery → Bool) → LogoutDelivery → LogoutDelivery → Bool
older p d e = p e && ltb e.created_at d.created_at

-- No row of the queue is older than the chosen one.
pub oldest_first :
    (p : LogoutDelivery → Bool) (rows : List LogoutDelivery) (d : LogoutDelivery)
    → oldest p rows ≡ some d
    → exists_where (older p d) rows ≡ false
unfolding oldest
oldest_first p [] d h = refl
oldest_first p (x ∷ rows) d h = elim (Option-cases (oldest p rows)) [
  | inl empty ↦ ground (
    arith,
    h,
    empty,
    exists_none_mono p (older p d) (λ e hit. ground (arith, hit)) rows (oldest-none p rows empty),
  )
  | inr (e, found) ↦ elim (Bool-cases (p x && leb x.created_at e.created_at)) [
    | inl first ↦
        (let d-is : d ≡ x = ground (arith, h, found, first) in
          let tail =
            exists_none_mono (older p e) (older p x) (λ y hit. ground (arith, hit, first)) rows
              (oldest_first p rows e found) in
          subst (λ z. exists_where (older p z) (x ∷ rows) ≡ false) (sym d-is)
            (ground (arith, tail)))
    | inr later ↦
        (let d-is : d ≡ e = ground (arith, h, found, later) in
          subst (λ z. exists_where (older p z) (x ∷ rows) ≡ false) (sym d-is)
            (ground (arith, later, oldest_first p rows e found)))
  ]
]

-- What ClaimLogoutDelivery looks for, on the rows as they are before it: a queued delivery whose time has
-- come, which nobody works on, which was tried fewer than five times, and whose client has no
-- delivery that somebody works on.
abbrev pub is_running : ℕ → LogoutDelivery → Bool
is_running now d = option_test false (ltb now) d.lease_until

abbrev pub keeps_busy : ℕ → String → LogoutDelivery → Bool
keeps_busy now client_id d = d.client_id == client_id && is_queued d.status && is_running now d

abbrev pub may_run : ℕ → List LogoutDelivery → LogoutDelivery → Bool
may_run now rows d =
    is_queued d.status
    && leb d.next_attempt_at now
    && not (is_running now d)
    && ltb d.attempts 5
    && not (exists_where (keeps_busy now d.client_id) rows)

-- A queued delivery whose fifth attempt was broken off has failed.
abbrev pub is_broken : ℕ → LogoutDelivery → Bool
is_broken now d =
    is_queued d.status && option_test false (λ t. leb t now) d.lease_until && leb 5 d.attempts

abbrev pub without_broken : ℕ → LogoutDelivery → LogoutDelivery
without_broken now d =
    if is_broken now d
    then record d {
      status = DeliveryStatus.failed;
      last_error = "interrupted repeatedly";
      claim_token = "";
      lease_until = none;
      updated_at = now;
    }
    else d

abbrev pub map_some :
    (LogoutDelivery → LogoutDelivery) → Option LogoutDelivery → Option LogoutDelivery
map_some f none = none
map_some f (some d) = some (f d)

pub exists-update_same :
    (q p : LogoutDelivery → Bool) (f : LogoutDelivery → LogoutDelivery)
    → ((x : LogoutDelivery) → p x ≡ true → q (f x) ≡ q x)
    → (xs : List LogoutDelivery) → exists_where q (update_where p f xs) ≡ exists_where q xs
exists-update_same q p f same [] = refl
exists-update_same q p f same (x ∷ xs) = ground (arith, same x, exists-update_same q p f same xs)

pub exists-update_none :
    (q p : LogoutDelivery → Bool) (f : LogoutDelivery → LogoutDelivery)
    → ((x : LogoutDelivery) → q (f x) ≡ false)
    → (xs : List LogoutDelivery) → exists_where q xs ≡ false
    → exists_where q (update_where p f xs) ≡ false
exists-update_none q p f out [] h = refl
exists-update_none q p f out (x ∷ xs) h = ground (arith, out x, exists-update_none q p f out xs)

-- Rows that an UPDATE leaves alone are still there after it.
pub spared_none :
    (q r p : LogoutDelivery → Bool) (f : LogoutDelivery → LogoutDelivery)
    → ((x : LogoutDelivery) → q x ≡ true → (p x ≡ false) × (r x ≡ true))
    → (xs : List LogoutDelivery) → exists_where r (update_where p f xs) ≡ false
    → exists_where q xs ≡ false
spared_none q r p f spared [] h = refl
spared_none q r p f spared (x ∷ xs) h = ground (arith, spared x, spared_none q r p f spared xs)

pub find-update_map :
    (p q : LogoutDelivery → Bool) (f : LogoutDelivery → LogoutDelivery)
    → ((x : LogoutDelivery) → p (f x) ≡ p x)
    → (xs : List LogoutDelivery)
    → find_where p (update_where q f xs) ≡ map_some (λ x. if q x then f x else x) (find_where p xs)
find-update_map p q f same [] = refl
find-update_map p q f same (x ∷ xs) = ground (arith, same x, find-update_map p q f same xs)

pub oldest-found :
    (p : LogoutDelivery → Bool) (rows : List LogoutDelivery) (d : LogoutDelivery)
    → oldest p rows ≡ some d
    → count_where (delivery_is d.id) rows ≤ 1
    → find_where (delivery_is d.id) rows ≡ some d
unfolding oldest
oldest-found p [] d h one = cc h
oldest-found p (x ∷ rows) d h one = elim (Option-cases (oldest p rows)) [
  | inl empty ↦
      (let same : x ≡ d = ground (arith, h, empty) in
        subst (λ z. find_where (delivery_is z.id) (x ∷ rows) ≡ some z) same
          (ground (arith, eq_refl x.id)))
  | inr (e, found) ↦ elim (Bool-cases (p x && leb x.created_at e.created_at)) [
    | inl first ↦
        (let same : x ≡ d = ground (arith, h, found, first) in
          subst (λ z. find_where (delivery_is z.id) (x ∷ rows) ≡ some z) same
            (ground (arith, eq_refl x.id)))
    | inr later ↦
        (let same : e ≡ d = ground (arith, h, found, later) in
          let found_d : oldest p rows ≡ some d = found ∙ ap some same in
          let here = (oldest_sound p (delivery_is d.id) rows d found_d).1 (eq_refl d.id) in
          let less : count_where (delivery_is d.id) rows ≤ 1 = ground (arith, one) in
          ground (arith, one, here, oldest-found p rows d found_d less))
  ]
]

-- The new token is on the leased rows alone.
pub find-token :
    (now lease : ℕ) (token id : String) (xs : List LogoutDelivery)
    → exists_where (λ (d : LogoutDelivery). d.claim_token == token) xs ≡ false
    → find_where
        (λ (d : LogoutDelivery). d.claim_token == token)
        (update_where (delivery_is id) (lease_to now lease token) xs)
      ≡ find_where (delivery_is id) (update_where (delivery_is id) (lease_to now lease token) xs)
find-token now lease token id [] h = refl
find-token now lease token id (x ∷ xs) h =
    ground (arith, eq_refl token, find-token now lease token id xs)

pub with_client-delivery : (db : Db) (d : LogoutDelivery) → (with_client db d).delivery ≡ d
unfolding with_client
with_client-delivery db d =
    elim (Option-cases (find_where (λ (c : OauthClient). c.id == d.client_id) db.oauth_clients)) [
      | inl gone ↦ rw (with_client, gone) refl
      | inr (c, found) ↦ rw (with_client, found) refl
    ]
