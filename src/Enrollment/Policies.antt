-- ===== src/Enrollment/Policies.antt =====
-- The combined requirement of internal/store/group_enrollment.go meets every policy.
use kysignon_server.Base.{
  ℕ, Option, some, none, List, [], ◌∷◌, Bool, true, false, ◌||◌, not, ◌==◌, ltb, exists_where, ◌≡◌,
  refl, arith, Bool-cases, inl, inr, ◌⊎◌, all, option_test,
}
use kysignon_server.Schema.{
  Db, User, Session, EnrollmentPolicy, FactorMask, intersect, overlaps, unix,
}
use kysignon_server.Enrollment.{
  applies, due_of, mask_over, earlier, due_over, or_zero, requirement, enrolled_factors,
  method_mask, in_grace, meets,
}

-- Every policy that applies passes the test.
abbrev pub every :
    (EnrollmentPolicy → Bool) → (EnrollmentPolicy → Bool) → List EnrollmentPolicy → Bool
every p test policies = all (λ e. not (p e) || test e) policies

none_apply :
    (p test : EnrollmentPolicy → Bool) (es : List EnrollmentPolicy)
    → exists_where p es ≡ false
    → every p test es ≡ true
none_apply p test [] h = refl
none_apply p test (e ∷ es) h = ground (arith, none_apply p test es)

overlaps-intersect :
    (m a b : FactorMask)
    → overlaps m (intersect a b) ≡ true
    → (overlaps m a ≡ true) × (overlaps m b ≡ true)
overlaps-intersect m a b h = ground arith

mask_over-every :
    (m : FactorMask) (p : EnrollmentPolicy → Bool) (es : List EnrollmentPolicy)
    → overlaps m (mask_over p es) ≡ true
    → every p (λ e. overlaps m e.allowed_mask) es ≡ true
unfolding mask_over
mask_over-every m p [] h = refl
mask_over-every m p (e ∷ es) h = elim (Bool-cases (p e)) [
  | inr other ↦ rw other (mask_over-every m p es (rw other at h))
  | inl applies ↦
      let (first, rest) = overlaps-intersect m e.allowed_mask (mask_over p es) (rw applies at h) in
      rw (applies, first) (mask_over-every m p es rest)
]

abbrev before : ℕ → Option ℕ → Bool
before n o = option_test true (ltb n) o

before-earlier :
    (n d : ℕ) (o : Option ℕ)
    → before n (earlier d o) ≡ true
    → (ltb n d ≡ true) × (before n o ≡ true)
before-earlier n d none h = (h, refl)
before-earlier n d (some t) h = ground arith

due_over-every :
    (n : ℕ) (p : EnrollmentPolicy → Bool) (due : EnrollmentPolicy → ℕ) (es : List EnrollmentPolicy)
    → before n (due_over p due es) ≡ true
    → every p (λ e. ltb n (due e)) es ≡ true
unfolding due_over
due_over-every n p due [] h = refl
due_over-every n p due (e ∷ es) h = elim (Bool-cases (p e)) [
  | inr other ↦ rw other (due_over-every n p due es (rw other at h))
  | inl applies ↦
      let (first, rest) = before-earlier n (due e) (due_over p due es) (rw applies at h) in
      rw (applies, first) (due_over-every n p due es rest)
]

before-or_zero : (n : ℕ) (o : Option ℕ) → ltb n (or_zero o) ≡ true → before n o ≡ true
before-or_zero n none h = refl
before-or_zero n (some t) h = h

-- A session that meets the combined requirement meets each policy of its user: no policy applies;
-- or it did not use a recovery code and the deadline of every policy that applies is ahead; or its
-- factor is one that every policy that applies allows, and the user has still enrolled it.
pub meets-every :
    (now : ℕ) (db : Db) (u : User) (s : Session)
    → meets now db (requirement db u) s ≡ true
    → (exists_where (applies db u) db.enrollment_policies ≡ false)
      ⊎ (((every
                (applies db u)
                (λ e. ltb (unix now) (due_of u.id e.scope db.enrollment_deadlines))
                db.enrollment_policies
              ≡ true)
            × ((s.evidence.factor_method == "recovery") ≡ false))
          ⊎ ((every
                  (applies db u)
                  (λ e. overlaps (method_mask s.evidence.factor_method) e.allowed_mask)
                  db.enrollment_policies
                ≡ true)
              × (overlaps (method_mask s.evidence.factor_method) (enrolled_factors db s.user_id)
                  ≡ true)))
unfolding meets requirement
meets-every now db u s h = elim (Bool-cases (exists_where (applies db u) db.enrollment_policies)) [
  | inr none_applies ↦ inl none_applies
  | inl required ↦ elim (Bool-cases (in_grace now db (requirement db u) s)) [
    | inl grace ↦ inr (
        inl (
          due_over-every (unix now) (applies db u) _ db.enrollment_policies
              (before-or_zero (unix now) _ (ground arith)),
          ground arith,
        ))
    | inr late ↦ inr (
        inr (
          mask_over-every (method_mask s.evidence.factor_method) (applies db u)
              db.enrollment_policies (ground arith),
          ground arith,
        ))
  ]
]
