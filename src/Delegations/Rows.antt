-- ===== src/Delegations/Rows.antt =====
-- The rows that SetDelegations writes: internal/store/delegations.go.
use kysignon_server.Base.{
  ℕ, Option, some, List, [], ◌∷◌, ◌++◌, any, Bool, true, false, ◌&&◌, ◌||◌, String, ◌==◌,
  option_test, exists_where, if◌then◌else◌, ok, err, >>=-ok, app_record_missing, ◌≡◌, refl, arith,
  inl, inr, ap, ◌∙◌, Bool-cases, append-nil, append_assoc,
}
use kysignon_server.Schema.{Db, AppRecord, AdminDelegation}
use kysignon_server.Delegations.{
  app_of, insert_text, is_row, owned_apps, put_delegation, plain, owner_row, put_kind, put_owned,
  sort_texts,
}

any-insert_text :
    (a b : String) (bs : List String)
    → any (λ c. c == a) (insert_text b bs) ≡ (b == a || any (λ c. c == a) bs)
unfolding insert_text
any-insert_text a b [] = refl
any-insert_text a b (c ∷ bs) = ground (arith, any-insert_text a b bs)

pub any-sort_texts :
    (a : String) (bs : List String) → any (λ c. c == a) (sort_texts bs) ≡ any (λ c. c == a) bs
unfolding sort_texts
any-sort_texts a [] = refl
any-sort_texts a (b ∷ bs) = ground (arith, any-insert_text a b (sort_texts bs), any-sort_texts a bs)

abbrev pub owns : String → String → AdminDelegation → Bool
owns user_id a d = is_row user_id "app_owner" d && app_of d == a

pub any-owned_apps :
    (user_id a : String) (rows : List AdminDelegation)
    → any (λ c. c == a) (owned_apps user_id rows) ≡ exists_where (owns user_id a) rows
unfolding owned_apps
any-owned_apps user_id a [] = refl
any-owned_apps user_id a (d ∷ rows) =
    ground
      (arith, any-insert_text a (app_of d) (owned_apps user_id rows), any-owned_apps user_id a rows)

insert_text-some : (a : String) (bs : List String) → any (λ c. true) (insert_text a bs) ≡ true
unfolding insert_text
insert_text-some a [] = refl
insert_text-some a (b ∷ bs) = ground arith

pub any_owned :
    (user_id : String) (rows : List AdminDelegation)
    → any (λ c. true) (owned_apps user_id rows) ≡ exists_where (is_row user_id "app_owner") rows
unfolding owned_apps
any_owned user_id [] = refl
any_owned user_id (d ∷ rows) =
    ground (arith, insert_text-some (app_of d) (owned_apps user_id rows), any_owned user_id rows)

pub put_delegation_ok :
    (now : ℕ) (d : AdminDelegation) (db db' : Db)
    → put_delegation now d db ≡ ok db'
    → db'.admin_delegations ≡ db.admin_delegations ++ (d ∷ [])
unfolding put_delegation
put_delegation_ok now d db db' h = ground (arith, h)

abbrev pub kind_rows : String → String → Bool → List AdminDelegation
kind_rows user_id kind on = if on then plain user_id kind ∷ [] else []

pub put_kind_ok :
    (now : ℕ) (user_id kind : String) (on : Bool) (db db' : Db)
    → put_kind now user_id kind on db ≡ ok db'
    → db'.admin_delegations ≡ db.admin_delegations ++ kind_rows user_id kind on
unfolding put_kind
put_kind_ok now user_id kind true db db' h = put_delegation_ok now (plain user_id kind) db db' h
put_kind_ok now user_id kind false db db' h = ground (arith, h, append-nil db.admin_delegations)

unfoldable pub owned_rows : String → Option String → List String → List AdminDelegation
owned_rows user_id before [] = []
owned_rows user_id before (app ∷ apps) =
    let rest = owned_rows user_id (some app) apps in
    if option_test false (λ b. b == app) before then rest else owner_row user_id app ∷ rest

pub put_owned_ok :
    (now : ℕ) (user_id : String) (before : Option String) (apps : List String) (db db' : Db)
    → put_owned now user_id before apps db ≡ ok db'
    → db'.admin_delegations ≡ db.admin_delegations ++ owned_rows user_id before apps
unfolding put_owned owned_rows
put_owned_ok now user_id before [] db db' h = ground (arith, h, append-nil db.admin_delegations)
put_owned_ok now user_id before (app ∷ apps) db db' h =
    let again = option_test false (λ b. b == app) before in
    let added =
      if exists_where (λ (a : AppRecord). a.id == app) db.app_registry
      then put_delegation now (owner_row user_id app) db
      else err app_record_missing in
    let (mid, put, more) =
      >>=-ok (if again then ok db else added) (λ d. put_owned now user_id (some app) apps d) h in
    let rest = owned_rows user_id (some app) apps in
    let tail = put_owned_ok now user_id (some app) apps mid db' more in
    elim (Bool-cases again) [
      | inl same ↦
          (let still : mid ≡ db = ground (arith, same, put) in
            rw same (tail ∙ ap (λ (d : Db). d.admin_delegations ++ rest) still))
      | inr new ↦
          (let grown : put_delegation now (owner_row user_id app) db ≡ ok mid =
              ground (arith, new, put) in
            rw new (
              tail
              ∙ ap (λ rows. rows ++ rest)
                  (put_delegation_ok now (owner_row user_id app) db mid grown)
              ∙ append_assoc db.admin_delegations (owner_row user_id app ∷ []) rest))
    ]
