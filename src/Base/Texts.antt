-- ===== src/Base/Texts.antt =====
-- Go's strings as the native texts. White space is that of unicode.IsSpace.
mod Samples
pub mod Commas
use Prim.Native.Char.{Char, code}
use Prim.Native.Nat.{ℕ, ◌+◌, Ordering}
use Prim.Native.String.{String, compare}
use mathlib.Core.Bool.{Bool, ◌||◌, ◌&&◌, true, false}
use mathlib.Core.List.{List, [], ◌∷◌}
use text.Mathlib.Text.{◌==◌}
use kysignon_server.Base.Tests.{eqb, leb, ltb, if◌then◌else◌}

abbrev pub is_space : Char → Bool
is_space c =
    (leb 9 (code c) && leb (code c) 13)
    || eqb (code c) 32
    || eqb (code c) 0x85
    || eqb (code c) 0xa0
    || eqb (code c) 0x1680
    || (leb 0x2000 (code c) && leb (code c) 0x200a)
    || eqb (code c) 0x2028
    || eqb (code c) 0x2029
    || eqb (code c) 0x202f
    || eqb (code c) 0x205f
    || eqb (code c) 0x3000

-- strings.TrimSpace: white space goes from both ends.
trim_left : String → String
trim_left String.[] = ""
trim_left (String.◌∷◌ c s) = let rest = trim_left s in if is_space c then rest else String.◌∷◌ c s

is_empty : String → Bool
is_empty String.[] = true
is_empty (String.◌∷◌ c s) = false

trim_right : String → String
trim_right String.[] = ""
trim_right (String.◌∷◌ c s) =
    let rest = trim_right s in if is_empty rest && is_space c then "" else String.◌∷◌ c rest

unfoldable pub trim_space : String → String
unfolding trim_left trim_right is_empty
trim_space s = trim_left (trim_right s)

-- strings.Fields: the runs of characters that are no white space. The first result is the run the
-- text begins with, "" where it begins with white space or is empty.
fields_from : String → String × List String
fields_from String.[] = ("", [])
fields_from (String.◌∷◌ c s) =
    let (word, rest) = fields_from s in
    let closed = if is_empty word then rest else word ∷ rest in
    if is_space c then ("", closed) else (String.◌∷◌ c word, rest)

unfoldable pub fields : String → List String
unfolding fields_from is_empty
fields s = let (word, rest) = fields_from s in if is_empty word then rest else word ∷ rest

-- strings.Split at a character, which is given by its code: at least one part.
parts_from : ℕ → String → String × List String
parts_from mark String.[] = ("", [])
parts_from mark (String.◌∷◌ c s) =
    let (word, rest) = parts_from mark s in
    if eqb (code c) mark then ("", word ∷ rest) else (String.◌∷◌ c word, rest)

unfoldable pub split_on : ℕ → String → List String
unfolding parts_from
split_on mark s = let (word, rest) = parts_from mark s in word ∷ rest

unfoldable pub split_commas : String → List String
unfolding split_on
split_commas s = split_on 44 s

-- strings.HasPrefix and strings.HasSuffix.
begins_with : String → String → Bool
begins_with s String.[] = true
begins_with String.[] (String.◌∷◌ d t) = false
begins_with (String.◌∷◌ c s) (String.◌∷◌ d t) =
    let rest = begins_with s t in if eqb (code c) (code d) then rest else false

unfoldable pub has_prefix : String → String → Bool
unfolding begins_with
has_prefix s prefix = begins_with s prefix

ends_from : String → String → Bool
ends_from String.[] suffix = suffix == ""
ends_from (String.◌∷◌ c s) suffix =
    let rest = ends_from s suffix in String.◌∷◌ c s == suffix || rest

unfoldable pub has_suffix : String → String → Bool
unfolding ends_from
has_suffix s suffix = ends_from s suffix

-- SQLite's order of TEXT, and Go's of strings: by code points.
unfoldable pub text_before : String → String → Bool
text_before a b = elim (compare a b) [
  | Ordering.lt ↦ true
  | Ordering.eq ↦ false
  | Ordering.gt ↦ false
]

-- len(s): the bytes of a text in UTF-8.
unfoldable pub len : String → ℕ
len String.[] = 0
len (String.◌∷◌ c s) =
    (if ltb (code c) 0x80
      then 1
      else if ltb (code c) 0x800
      then 2
      else if ltb (code c) 0x10000
      then 3
      else 4)
    + len s
