-- ===== src/Base/Texts/Commas.antt =====
-- A text is split at each occurrence of a character, a list in a text at each comma.
use Prim.Native.Char.{Char, code}
use Prim.Native.Nat.{ℕ}
use Prim.Native.String.{String, ◌++◌}
use mathlib.Core.Bool.{true, false}
use mathlib.Core.Path.{◌≡◌, refl, ap, ◌∙◌}
use mathlib.Core.List.{[], ◌∷◌, ◌++◌ as ◌⧺◌}
use mathlib.Core.Logic.{inl, inr}
use text.Mathlib.TextLemmas.{nil-append, cons-append}
use kysignon_server.Base.Tests.{eqb, Bool-cases}
use kysignon_server.Base.Texts.{parts_from, split_on, split_commas}

module _ (c : Char) (mark : ℕ) (same : eqb (code c) mark ≡ true) where
  parts_from-append :
      (s t : String)
      → parts_from mark (s ++ String.◌∷◌ c t)
        ≡ ((parts_from mark s).0, (parts_from mark s).1 ⧺ split_on mark t)
  unfolding parts_from split_on
  parts_from-append String.[] t = rw (nil-append (String.◌∷◌ c t), same) refl
  parts_from-append (String.◌∷◌ d s) t =
      rw (cons-append d s (String.◌∷◌ c t), parts_from-append s t)
        (elim (Bool-cases (eqb (code d) mark)) [ inl cut ↦ rw cut refl | inr kept ↦ rw kept refl ])

  pub split_on-append :
      (s t : String) → split_on mark (s ++ String.◌∷◌ c t) ≡ split_on mark s ⧺ split_on mark t
  unfolding split_on
  split_on-append s t = rw (parts_from-append s t) refl

-- A text without the mark is its only part.
pub split_on-cons :
    (c : Char) (mark : ℕ) (s : String)
    → eqb (code c) mark ≡ false
    → split_on mark s ≡ (s ∷ [])
    → split_on mark (String.◌∷◌ c s) ≡ (String.◌∷◌ c s ∷ [])
unfolding split_on parts_from
split_on-cons c mark s other whole =
    let word : (parts_from mark s).0 ≡ s = cc whole in
    let rest : (parts_from mark s).1 ≡ [] = cc whole in rw (other, word, rest) refl

abbrev comma : Char
comma = ","

comma-append : (s : String) → "," ++ s ≡ String.◌∷◌ comma s
comma-append s = cons-append comma String.[] s ∙ ap (String.◌∷◌ comma) (nil-append s)

pub split_commas-append :
    (s t : String) → split_commas (s ++ ("," ++ t)) ≡ split_commas s ⧺ split_commas t
unfolding split_commas
split_commas-append s t = rw (comma-append t) (split_on-append comma 44 refl s t)
