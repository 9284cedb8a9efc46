-- ===== src/AccessRequests/Trace/Bounds.antt =====
-- How many requests wait: internal/store/access_requests.go.
use kysignon_server.Base.{
  ◌≤◌, List, [], ◌∷◌, ◌++◌, Bool, false, ◌||◌, String, ◌==◌, leb, count_where, exists_where,
  update_where, IsUnique, ◌≡◌, refl, arith, inl, inr, subst, sym, Bool-cases, eq_iff, count-append,
  count-update-le, count-update_keep, count_mono, exists-count_zero,
}
use kysignon_server.Schema.{Db, AccessRequest, is_pending}
use kysignon_server.AccessRequests.{max_pending_requests, is_pending_of, same_pending}
use kysignon_server.AccessRequests.Trace.{Op, step, run, Change, step-Change}

-- Ids are distinct, no user waits for more than five decisions, nor twice for one application.
pub record IsBounded (rows : List AccessRequest) : Type 0 where
  pub ids : IsUnique (λ (r : AccessRequest). r.id) rows
  pub few : (u : String) → count_where (is_pending_of u) rows ≤ max_pending_requests
  pub single : (a u : String) → count_where (same_pending a u) rows ≤ 1

module _ (r : AccessRequest) (rows : List AccessRequest) (bounded : IsBounded rows) where
  abbrev clashes : AccessRequest → Bool
  clashes o = o.id == r.id || same_pending r.app_id r.user_id o

  module _ (fresh : exists_where clashes rows ≡ false) where
    added_ids : IsUnique (λ (o : AccessRequest). o.id) (rows ++ (r ∷ []))
    added_ids v = elim (Bool-cases (r.id == v)) [
      | inl same ↦ ground (
        arith,
        same,
        count-append (λ (o : AccessRequest). o.id == v) rows (r ∷ []),
        exists-count_zero clashes rows fresh,
        count_mono (λ (o : AccessRequest). o.id == v) clashes
            (λ o h. ground (arith, h, same, eq_iff o.id v, eq_iff r.id v, eq_iff o.id r.id)) rows,
      )
      | inr other ↦ ground (
        arith,
        other,
        bounded.ids v,
        count-append (λ (o : AccessRequest). o.id == v) rows (r ∷ []),
      )
    ]

    added_single : (a u : String) → count_where (same_pending a u) (rows ++ (r ∷ [])) ≤ 1
    added_single a u = elim (Bool-cases (same_pending a u r)) [
      | inl same ↦ ground (
        arith,
        same,
        count-append (same_pending a u) rows (r ∷ []),
        exists-count_zero clashes rows fresh,
        count_mono (same_pending a u) clashes
            (λ o h. ground (
              arith,
              h,
              same,
              eq_iff r.app_id a,
              eq_iff r.user_id u,
              eq_iff o.app_id a,
              eq_iff o.user_id u,
              eq_iff o.app_id r.app_id,
              eq_iff o.user_id r.user_id,
            ))
            rows,
      )
      | inr other ↦
          ground (arith, other, bounded.single a u, count-append (same_pending a u) rows (r ∷ []))
    ]

  added_few :
      leb max_pending_requests (count_where (is_pending_of r.user_id) rows) ≡ false
      → (u : String) → count_where (is_pending_of u) (rows ++ (r ∷ [])) ≤ max_pending_requests
  added_few room u = elim (Bool-cases (r.user_id == u)) [
    | inl same ↦
        (let here : leb max_pending_requests (count_where (is_pending_of u) rows) ≡ false =
            subst (λ v. leb max_pending_requests (count_where (is_pending_of v) rows) ≡ false)
              ((eq_iff r.user_id u).0 same) room in
          ground (arith, here, count-append (is_pending_of u) rows (r ∷ [])))
    | inr other ↦ ground (arith, other, bounded.few u, count-append (is_pending_of u) rows (r ∷ []))
  ]

closed-IsBounded :
    (p : AccessRequest → Bool) (f : AccessRequest → AccessRequest) (rows : List AccessRequest)
    → ((o : AccessRequest) → (is_pending (f o).status ≡ false) × ((f o).id ≡ o.id))
    → IsBounded rows
    → IsBounded (update_where p f rows)
closed-IsBounded p f rows closes bounded = record {
  ids = λ v. omega (
    arith,
    bounded.ids v,
    count-update_keep (λ (o : AccessRequest). o.id == v) p f (λ o. rw (closes o).1 refl) rows,
  );
  few = λ u. omega (
    arith,
    bounded.few u,
    count-update-le (is_pending_of u) p f (λ o h. ground (arith, h, (closes o).0)) rows,
  );
  single = λ a u. omega (
    arith,
    bounded.single a u,
    count-update-le (same_pending a u) p f (λ o h. ground (arith, h, (closes o).0)) rows,
  );
}

Change-IsBounded :
    (rows rows' : List AccessRequest) → Change rows rows' → IsBounded rows → IsBounded rows'
Change-IsBounded rows rows' (Change.kept same) bounded = subst IsBounded (sym same) bounded
Change-IsBounded rows rows' (Change.added r grown fresh room) bounded =
    subst IsBounded (sym grown) (record {
      ids = added_ids r rows bounded fresh;
      few = added_few r rows bounded room;
      single = added_single r rows bounded fresh;
    })
Change-IsBounded rows rows' (Change.closed p f closes updated) bounded =
    subst IsBounded (sym updated) (closed-IsBounded p f rows closes bounded)

-- Through any history of requests, withdrawals, decisions and expiries: ids stay distinct, no user
-- waits for more than five decisions, and none twice for one application, where this was so before.
pub run-IsBounded :
    (ops : List Op) (db : Db)
    → IsBounded db.access_requests
    → IsBounded (run ops db).access_requests
unfolding run
run-IsBounded [] db bounded = bounded
run-IsBounded (op ∷ ops) db bounded =
    run-IsBounded ops (step op db)
      (Change-IsBounded db.access_requests (step op db).access_requests (step-Change op db) bounded)
