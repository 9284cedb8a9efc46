-- ===== src/Access/Ends.antt =====
-- When access ends: internal/store/expiry.go agrees with the views of internal/store/app_access.go.
use kysignon_server.Base.{
  ℕ, ◌≤◌, Option, some, none, List, [], ◌∷◌, ◌++◌, Bool, true, false, ◌&&◌, ◌||◌, String, ltb,
  option_test, exists_where, if◌then◌else◌, ◌≡◌, refl, arith, any, sym, ◌∙◌, Bool-cases, inl, inr,
}
use kysignon_server.Schema.{
  Db, User, AppRecord, UserAssignment, GroupMembership, unix, is_open_mode,
}
use kysignon_server.Access.{
  not_over, allowed, is_direct, is_member, pluck, Grants, latest_from, later, grant_ends,
  earlier_end, ends_for,
}

-- Some grant of the list is not over.
live : ℕ → Grants → Bool
live t ends = any (not_over t) ends

live-append : (t : ℕ) (xs ys : Grants) → live t (xs ++ ys) ≡ (live t xs || live t ys)
unfolding live
live-append t [] ys = refl
live-append t (x ∷ xs) ys = ground (arith, live-append t xs ys)

not_over-earlier :
    (now t : ℕ) (e : Option ℕ) → unix now ≤ unix t → not_over t e ≡ true → not_over now e ≡ true
not_over-earlier now t none h k = refl
not_over-earlier now t (some e) h k = ground arith

live-pluck :
    {A : Type 0} (t : ℕ) (p q : A → Bool) (ends_of : A → Option ℕ)
    → ((x : A) → q x ≡ (p x && not_over t (ends_of x)))
    → (xs : List A) → exists_where q xs ≡ live t (pluck p ends_of xs)
unfolding live pluck
live-pluck t p q ends_of h [] = refl
live-pluck t p q ends_of h (x ∷ xs) = ground (arith, h x, live-pluck t p q ends_of h xs)

abbrev ends_after : ℕ → Option ℕ → Bool
ends_after t e = option_test false (ltb (unix t)) e

live-latest :
    (t : ℕ) (latest : Option ℕ) (ends : Grants)
    → (live t ends || ends_after t latest)
      ≡ ((latest_from latest ends).0 || ends_after t (latest_from latest ends).1)
unfolding live latest_from
live-latest t latest [] = refl
live-latest t latest (none ∷ ends) = refl
live-latest t none (some e ∷ ends) = ground (arith, live-latest t (some e) ends)
live-latest t (some l) (some e ∷ ends) = ground (arith, live-latest t (later e (some l)) ends)

live-grants :
    (now t : ℕ) (db : Db) (a : AppRecord) (u : String)
    → unix now ≤ unix t
    → (exists_where (is_direct t a u) db.user_assignments
        || exists_where (is_member t db a u) db.group_memberships)
      ≡ live t (grant_ends now db a u)
unfolding grant_ends
live-grants now t db a u h =
    let direct =
      live-pluck t (is_direct now a u) (is_direct t a u) (λ (d : UserAssignment). d.expires_at)
        (λ d. ground (arith, not_over-earlier now t d.expires_at h)) db.user_assignments in
    let member =
      live-pluck t (is_member now db a u) (is_member t db a u)
        (λ (m : GroupMembership). m.expires_at)
        (λ m. ground (arith, not_over-earlier now t m.expires_at h)) db.group_memberships in
    rw (direct, member) (sym (live-append t _ _))

combine_ends :
    (now t : ℕ) (account latest : Option ℕ) (unbounded : Bool)
    → (unbounded || ends_after now latest) ≡ true
    → (not_over t account && (unbounded || ends_after t latest))
      ≡ not_over t (if unbounded then account else earlier_end account latest)
combine_ends now t account latest true held = ground arith
combine_ends now t account none false held = cc
combine_ends now t none (some l) false held = refl
combine_ends now t (some e) (some l) false held = ground arith

or_false : (b : Bool) → (b || false) ≡ b
or_false true = refl
or_false false = refl

-- The account's end and the grants' ends together are the end that is reported, where some grant
-- is not over now.
ends-agree :
    (now t : ℕ) (account : Option ℕ) (ends : Grants)
    → live now ends ≡ true
    → (not_over t account && live t ends)
      ≡ not_over t (
          let (unbounded, latest) = latest_from none ends in
          if unbounded then account else earlier_end account latest)
ends-agree now t account ends held =
    let at : (s : ℕ)
        → live s ends ≡ ((latest_from none ends).0 || ends_after s (latest_from none ends).1) =
      λ s. sym (or_false (live s ends)) ∙ live-latest s none ends in
    rw (at t) (
      combine_ends now t account (latest_from none ends).1 (latest_from none ends).0
        (sym (at now) ∙ held))

-- The end that AccessEndsAt reports is the end of the access that the views grant: for a user who
-- may use an application now, and for every instant from now on, the user may use it at that
-- instant, in the same database, exactly while the instant's second is before the reported end;
-- with no reported end, always.
pub ends_for-allowed :
    (now t : ℕ) (db : Db) (a : AppRecord) (u : User)
    → unix now ≤ unix t
    → allowed now db a u ≡ true
    → allowed t db a u ≡ not_over t (ends_for now db a u)
unfolding allowed ends_for
ends_for-allowed now t db a u h held = elim (Bool-cases (is_open_mode a.access_mode)) [
  | inl to_all ↦ ground arith
  | inr assigned ↦
      let grants = live-grants now t db a u.id h in
      let grants_now = live-grants now now db a u.id (omega arith) in
      let agree = ends-agree now t u.ends_at (grant_ends now db a u.id) (ground arith) in
      ground arith
]
