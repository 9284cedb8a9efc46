-- ===== src/Base/Lookup.antt =====
-- What a SELECT of one row finds after a statement of each kind.

use mathlib.Core.Path.{◌≡◌, refl}
use mathlib.Core.Bool.{Bool, true, false}
use mathlib.Core.Option.{none, some}
use mathlib.Core.List.{List, [], ◌∷◌, ◌++◌}
use native.Mathlib.Omega.{arith}
use mathlib.Core.Logic.{inl, inr}
use kysignon_server.Base.Tests.{Bool-cases}
use kysignon_server.Base.Table.{count_where, find_where, exists_where, update_where, delete_where}

module _ {ℓ} {A : Type ℓ} where
  pub exists-find_none :
      (p : A → Bool) (xs : List A) → exists_where p xs ≡ false → find_where p xs ≡ none
  exists-find_none p [] h = refl
  exists-find_none p (x ∷ xs) h = ground (arith, exists-find_none p xs)

  pub exists-find_some :
      (p : A → Bool) (xs : List A) → exists_where p xs ≡ true → (a : A) × (find_where p xs ≡ some a)
  exists-find_some p [] h = cc
  exists-find_some p (x ∷ xs) h = elim (Bool-cases (p x)) [
    | inl hit ↦ (x, rw hit refl)
    | inr miss ↦ rw miss (exists-find_some p xs (rw miss at h))
  ]

  -- An UPDATE of the rows that the SELECT may find, which keeps the SELECT's test.
  pub find-update_same :
      (p : A → Bool) (f : A → A) (a : A)
      → ((x : A) → p (f x) ≡ p x)
      → (xs : List A) → find_where p xs ≡ some a
      → find_where p (update_where p f xs) ≡ some (f a)
  find-update_same p f a same [] h = cc
  find-update_same p f a same (x ∷ xs) h = ground (arith, same x, find-update_same p f a same xs)

  pub find-append_new :
      (p : A → Bool) (y : A) (xs : List A)
      → exists_where p xs ≡ false
      → p y ≡ true
      → find_where p (xs ++ (y ∷ [])) ≡ some y
  find-append_new p y [] h e = rw e refl
  find-append_new p y (x ∷ xs) h e = ground (arith, find-append_new p y xs)

  pub find-append_other :
      (p : A → Bool) (y : A) (xs : List A)
      → p y ≡ false
      → find_where p (xs ++ (y ∷ [])) ≡ find_where p xs
  find-append_other p y [] e = rw e refl
  find-append_other p y (x ∷ xs) e = ground (arith, find-append_other p y xs)

  pub find-delete_self : (p : A → Bool) (xs : List A) → find_where p (delete_where p xs) ≡ none
  find-delete_self p [] = refl
  find-delete_self p (x ∷ xs) = ground (arith, find-delete_self p xs)

  pub find-delete_other :
      (p q : A → Bool)
      → ((x : A) → p x ≡ true → q x ≡ false)
      → (xs : List A) → find_where p (delete_where q xs) ≡ find_where p xs
  find-delete_other p q misses [] = refl
  find-delete_other p q misses (x ∷ xs) = ground (arith, misses x, find-delete_other p q misses xs)

  -- A DELETE that reaches every row of `q` leaves none.
  pub count-delete_inside :
      (q p : A → Bool)
      → ((x : A) → q x ≡ true → p x ≡ true)
      → (xs : List A) → count_where q (delete_where p xs) ≡ 0
  count-delete_inside q p reached [] = refl
  count-delete_inside q p reached (x ∷ xs) =
      ground (arith, reached x, count-delete_inside q p reached xs)

  -- A DELETE that spares the rows of `q` keeps their count.
  pub count-delete_outside :
      (q p : A → Bool)
      → ((x : A) → q x ≡ true → p x ≡ false)
      → (xs : List A) → count_where q (delete_where p xs) ≡ count_where q xs
  count-delete_outside q p spared [] = refl
  count-delete_outside q p spared (x ∷ xs) =
      ground (arith, spared x, count-delete_outside q p spared xs)
