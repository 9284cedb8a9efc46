-- ===== src/Base/Changes.antt =====
-- What UPDATE and DELETE do to counts and tests of rows.
use Prim.Native.Nat.{◌+◌, ◌≤◌}
use mathlib.Core.Path.{◌≡◌, refl}
use mathlib.Core.Bool.{Bool, true, false, ◌&&◌, ◌||◌, not}
use mathlib.Core.Option.{none, some}
use mathlib.Core.List.{List, [], ◌∷◌, ◌++◌}
use native.Mathlib.Omega.{arith}
use kysignon_server.Base.Table.{find_where, count_where, exists_where, update_where, delete_where}

module _ {ℓ} {A : Type ℓ} where
  -- The rows that an UPDATE may put into `q` are those it changes.
  pub count-update_add :
      (q p : A → Bool) (f : A → A) (xs : List A)
      → count_where q (update_where p f xs)
        ≤ count_where q xs + count_where (λ x. p x && q (f x)) xs
  count-update_add q p f [] = omega arith
  count-update_add q p f (x ∷ xs) = ground (arith, count-update_add q p f xs)

  pub count_split :
      (p t : A → Bool) (xs : List A)
      → count_where (λ x. p x && t x) xs + count_where (λ x. p x && not (t x)) xs ≡ count_where p xs
  count_split p t [] = omega arith
  count_split p t (x ∷ xs) = ground (arith, count_split p t xs)

  -- An UPDATE that puts its rows into `q` finds as many there.
  pub count-update_reach :
      (q p : A → Bool) (f : A → A)
      → ((x : A) → q (f x) ≡ true)
      → (xs : List A) → count_where p xs ≤ count_where q (update_where p f xs)
  count-update_reach q p f reached [] = omega arith
  count-update_reach q p f reached (x ∷ xs) =
      ground (arith, reached x, count-update_reach q p f reached xs)

  pub find_none-count : (p : A → Bool) (xs : List A) → find_where p xs ≡ none → count_where p xs ≡ 0
  find_none-count p [] h = refl
  find_none-count p (x ∷ xs) h = ground (arith, find_none-count p xs)

  -- Where no row passes a test, none passes a narrower one.
  pub exists_none_mono :
      (p q : A → Bool)
      → ((x : A) → q x ≡ true → p x ≡ true)
      → (xs : List A) → exists_where p xs ≡ false
      → exists_where q xs ≡ false
  exists_none_mono p q h [] e = refl
  exists_none_mono p q h (x ∷ xs) e = ground (arith, h x, exists_none_mono p q h xs)

  -- An UPDATE that matches no row changes nothing.
  pub update_where-none :
      (p : A → Bool) (f : A → A) (xs : List A) → count_where p xs ≡ 0 → update_where p f xs ≡ xs
  update_where-none p f [] h = refl
  update_where-none p f (x ∷ xs) h = ground (arith, update_where-none p f xs)

  pub exists-append :
      (p : A → Bool) (xs ys : List A)
      → exists_where p (xs ++ ys) ≡ (exists_where p xs || exists_where p ys)
  exists-append p [] ys = refl
  exists-append p (x ∷ xs) ys = ground (arith, exists-append p xs ys)

  pub exists-delete_inside :
      (q p : A → Bool)
      → ((x : A) → q x ≡ true → p x ≡ true)
      → (xs : List A) → exists_where q (delete_where p xs) ≡ false
  exists-delete_inside q p reached [] = refl
  exists-delete_inside q p reached (x ∷ xs) =
      ground (arith, reached x, exists-delete_inside q p reached xs)

  pub exists-delete_outside :
      (q p : A → Bool)
      → ((x : A) → q x ≡ true → p x ≡ false)
      → (xs : List A) → exists_where q (delete_where p xs) ≡ exists_where q xs
  exists-delete_outside q p spared [] = refl
  exists-delete_outside q p spared (x ∷ xs) =
      ground (arith, spared x, exists-delete_outside q p spared xs)

  pub find_some-exists :
      (p : A → Bool) (xs : List A) (a : A) → find_where p xs ≡ some a → exists_where p xs ≡ true
  find_some-exists p [] a h = cc
  find_some-exists p (x ∷ xs) a h = ground (arith, find_some-exists p xs a)
