-- ===== src/Base/Table.antt =====
-- SQL over one table, held as the list of its rows in rowid order. A WHERE clause is a Boolean
-- test of a row, and RowsAffected is `count_where` of that test before the statement.
use Prim.Native.Nat.{ℕ, ◌+◌, ◌≤◌}
use Prim.Native.String.{String}
use mathlib.Core.Path.{◌≡◌, refl}
use mathlib.Core.Bool.{Bool, true, false, ◌&&◌}
use mathlib.Core.Option.{Option, none, some}
use mathlib.Core.List.{List, [], ◌∷◌, ◌++◌}
use native.Mathlib.Omega.{arith}
use text.Mathlib.Text.{◌==◌}
use kysignon_server.Base.Tests.{if◌then◌else◌}

module _ {ℓ} {A : Type ℓ} where
  -- SELECT … WHERE, read as one row.
  abbrev pub find_where : (A → Bool) → List A → Option A
  find_where p [] = none
  find_where p (x ∷ xs) = if p x then some x else find_where p xs

  -- SELECT COUNT(*) … WHERE.
  abbrev pub count_where : (A → Bool) → List A → ℕ
  count_where p [] = 0
  count_where p (x ∷ xs) = (if p x then 1 else 0) + count_where p xs

  -- EXISTS(SELECT 1 … WHERE).
  abbrev pub exists_where : (A → Bool) → List A → Bool
  exists_where p [] = false
  exists_where p (x ∷ xs) = if p x then true else exists_where p xs

  -- UPDATE … SET … WHERE.
  abbrev pub update_where : (A → Bool) → (A → A) → List A → List A
  update_where p f [] = []
  update_where p f (x ∷ xs) = (if p x then f x else x) ∷ update_where p f xs

  -- DELETE … WHERE.
  abbrev pub delete_where : (A → Bool) → List A → List A
  delete_where p [] = []
  delete_where p (x ∷ xs) = let rest = delete_where p xs in if p x then rest else x ∷ rest

  -- At most one row has any given value of a UNIQUE column.
  abbrev pub IsUnique : (A → String) → List A → Type 0
  IsUnique key xs = (v : String) → count_where (λ x. key x == v) xs ≤ 1

  -- An UPDATE that makes its own test fail leaves no row that passes it.
  pub count-update_self :
      (p : A → Bool) (f : A → A)
      → ((x : A) → p x ≡ true → p (f x) ≡ false)
      → (xs : List A) → count_where p (update_where p f xs) ≡ 0
  count-update_self p f h [] = refl
  count-update_self p f h (x ∷ xs) = ground (arith, h x, count-update_self p f h xs)

  -- Rows that pass `q` afterwards passed it before: no UPDATE of this kind makes one.
  pub count-update-le :
      (q p : A → Bool) (f : A → A)
      → ((x : A) → q (f x) ≡ true → q x ≡ true)
      → (xs : List A) → count_where q (update_where p f xs) ≤ count_where q xs
  count-update-le q p f h [] = omega arith
  count-update-le q p f h (x ∷ xs) = ground (arith, h x, count-update-le q p f h xs)

  -- An UPDATE that keeps the answer of `q` on each row keeps the count.
  pub count-update_keep :
      (q p : A → Bool) (f : A → A)
      → ((x : A) → q (f x) ≡ q x)
      → (xs : List A) → count_where q (update_where p f xs) ≡ count_where q xs
  count-update_keep q p f h [] = refl
  count-update_keep q p f h (x ∷ xs) = ground (arith, h x, count-update_keep q p f h xs)

  -- An UPDATE that takes rows of `q` out of `q` takes out as many as it changes.
  pub count-update_burn :
      (q p : A → Bool) (f : A → A)
      → ((x : A) → p x ≡ true → q x ≡ true)
      → ((x : A) → p x ≡ true → q (f x) ≡ false)
      → (xs : List A) → count_where q (update_where p f xs) + count_where p xs ≡ count_where q xs
  count-update_burn q p f inside burnt [] = omega arith
  count-update_burn q p f inside burnt (x ∷ xs) =
      ground (arith, inside x, burnt x, count-update_burn q p f inside burnt xs)

  -- An UPDATE that reaches every row of `q` and takes it out of `q` leaves none.
  pub count-update_cover :
      (q p : A → Bool) (f : A → A)
      → ((x : A) → q x ≡ true → p x ≡ true)
      → ((x : A) → q (f x) ≡ false)
      → (xs : List A) → count_where q (update_where p f xs) ≡ 0
  count-update_cover q p f reached burnt [] = refl
  count-update_cover q p f reached burnt (x ∷ xs) =
      ground (arith, reached x, burnt x, count-update_cover q p f reached burnt xs)

  pub count-delete_self : (p : A → Bool) (xs : List A) → count_where p (delete_where p xs) ≡ 0
  count-delete_self p [] = refl
  count-delete_self p (x ∷ xs) = ground (arith, count-delete_self p xs)

  pub count-delete-le :
      (q p : A → Bool) (xs : List A) → count_where q (delete_where p xs) ≤ count_where q xs
  count-delete-le q p [] = omega arith
  count-delete-le q p (x ∷ xs) = ground (arith, count-delete-le q p xs)

  pub count-append :
      (p : A → Bool) (xs ys : List A)
      → count_where p (xs ++ ys) ≡ count_where p xs + count_where p ys
  count-append p [] ys = omega arith
  count-append p (x ∷ xs) ys = omega (arith, count-append p xs ys)

  -- A narrower test counts fewer rows.
  pub count_mono :
      (p q : A → Bool)
      → ((x : A) → p x ≡ true → q x ≡ true)
      → (xs : List A) → count_where p xs ≤ count_where q xs
  count_mono p q h [] = omega arith
  count_mono p q h (x ∷ xs) = ground (arith, h x, count_mono p q h xs)

  pub exists-count_zero :
      (p : A → Bool) (xs : List A) → exists_where p xs ≡ false → count_where p xs ≡ 0
  exists-count_zero p [] h = refl
  exists-count_zero p (x ∷ xs) h = ground (arith, exists-count_zero p xs)

  pub count_zero-exists :
      (p : A → Bool) (xs : List A) → count_where p xs ≡ 0 → exists_where p xs ≡ false
  count_zero-exists p [] h = refl
  count_zero-exists p (x ∷ xs) h = ground (arith, count_zero-exists p xs)

  pub count_zero-find : (p : A → Bool) (xs : List A) → count_where p xs ≡ 0 → find_where p xs ≡ none
  count_zero-find p [] h = refl
  count_zero-find p (x ∷ xs) h = ground (arith, count_zero-find p xs)

  -- What a SELECT returns passes its test.
  pub find_where_sound :
      (p : A → Bool) (xs : List A) (a : A) → find_where p xs ≡ some a → p a ≡ true
  find_where_sound p [] a h = cc
  find_where_sound p (x ∷ xs) a h = ground (arith, find_where_sound p xs a)

  -- An UPDATE that keeps the test of a SELECT and does not match its row leaves the row.
  pub find-update_keep :
      (p q : A → Bool) (f : A → A)
      → ((x : A) → p (f x) ≡ p x)
      → ((x : A) → p x ≡ true → q x ≡ false)
      → (xs : List A) → find_where p (update_where q f xs) ≡ find_where p xs
  find-update_keep p q f same misses [] = refl
  find-update_keep p q f same misses (x ∷ xs) =
      ground (arith, same x, misses x, find-update_keep p q f same misses xs)

  pub exists_mono :
      (p q : A → Bool)
      → ((x : A) → p x ≡ true → q x ≡ true)
      → (xs : List A) → exists_where p xs ≡ true
      → exists_where q xs ≡ true
  exists_mono p q h [] e = cc
  exists_mono p q h (x ∷ xs) e = ground (arith, h x, exists_mono p q h xs)

  -- Where a SELECT returns a row that passes `q`, some row passes `q`.
  pub find_where-count :
      (p q : A → Bool) (xs : List A) (a : A)
      → find_where p xs ≡ some a
      → q a ≡ true
      → 1 ≤ count_where q xs
  find_where-count p q [] a h e = cc
  find_where-count p q (x ∷ xs) a h e = ground (arith, find_where-count p q xs a)

  -- An UPDATE takes out of `q` the rows it changes, where the change makes `q` fail.
  pub count-update_meet :
      (q p : A → Bool) (f : A → A)
      → ((x : A) → p x ≡ true → q (f x) ≡ false)
      → (xs : List A)
      → count_where q (update_where p f xs) + count_where (λ x. p x && q x) xs ≡ count_where q xs
  count-update_meet q p f burnt [] = omega arith
  count-update_meet q p f burnt (x ∷ xs) = ground (arith, burnt x, count-update_meet q p f burnt xs)

  pub count_where-none :
      (p : A → Bool) → ((x : A) → p x ≡ false) → (xs : List A) → count_where p xs ≡ 0
  count_where-none p h [] = refl
  count_where-none p h (x ∷ xs) = ground (arith, h x, count_where-none p h xs)

  -- As count-update-le, where only the changed rows are known not to enter `q`.
  pub count-update_only :
      (q p : A → Bool) (f : A → A)
      → ((x : A) → p x ≡ true → q (f x) ≡ true → q x ≡ true)
      → (xs : List A) → count_where q (update_where p f xs) ≤ count_where q xs
  count-update_only q p f h [] = omega arith
  count-update_only q p f h (x ∷ xs) = ground (arith, h x, count-update_only q p f h xs)
