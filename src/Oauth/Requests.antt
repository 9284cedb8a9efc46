-- ===== src/Oauth/Requests.antt =====
-- ParseAuthenticationRequest of internal/oauth/authentication_request.go. A query is its list of
-- keys, each with its values.
pub mod Parsed
mod Tests
use Prim.Native.Char.{code}
use Prim.Native.String.{String}
use kysignon_server.Base.{
  ℕ, ◌+◌, ◌-◌, ◌*◌, Option, some, none, List, [], ◌∷◌, Bool, true, false, ◌&&◌, ◌||◌, not, ◌==◌,
  ltb, leb, eqb, is_some, all, length, fields, if◌then◌else◌, Result, ok, err, ◌>>=◌,
  request_malformed,
}
use kysignon_server.Oauth.Policy.{AuthenticationRequest, mfa_acr}

abbrev pub Query : Type 0
Query = List (String × List String)

pub values_of : String → Query → Option (List String)
values_of key [] = none
values_of key ((k, vs) ∷ q) = if k == key then some vs else values_of key q

-- values[0], of a key that has one value; also q.Get.
abbrev pub first : List String → String
first [] = ""
first (v ∷ vs) = v

abbrev pub has_key : String → Query → Bool
has_key key q = is_some (values_of key q)

abbrev pub password_acr : String
password_acr = "urn:kysignon:acr:password"

abbrev pub empty_request : AuthenticationRequest
empty_request = record {
  fresh = false;
  silent = false;
  max_age = none;
  acr = "";
  app_policy = record { mode = ""; primary_max_age = 0; factor = ""; factor_max_age = 0 };
}

pub parse_prompt : Query → AuthenticationRequest → Result AuthenticationRequest
parse_prompt q p = elim (values_of "prompt" q) [
  | none ↦ ok p
  | some vs ↦
      if first vs == "none"
      then ok (record p { silent = true })
      else if first vs == "login"
      then ok (record p { fresh = true })
      else err request_malformed
]

-- strconv.ParseInt(raw, 10, 32) of a text of digits, `n` being read so far; `none` where it is empty,
-- has another character, or is too large.
digits_from : ℕ → String → Option ℕ
digits_from n String.[] = if leb n 2_147_483_647 then some n else none
digits_from n (String.◌∷◌ c s) =
    let rest = digits_from (n * 10 + (code c - 48)) s in
    if leb 48 (code c) && leb (code c) 57 then rest else none

pub parse_age : String → Option ℕ
parse_age raw = if raw == "" then none else digits_from 0 raw

pub parse_max_age : Query → AuthenticationRequest → Result AuthenticationRequest
parse_max_age q p = elim (values_of "max_age" q) [
  | none ↦ ok p
  | some vs ↦ elim (parse_age (first vs)) [
    | none ↦ err request_malformed
    | some age ↦
        if eqb age 0 then ok (record p { fresh = true }) else ok (record p { max_age = some age })
  ]
]

abbrev pub known_acr : String → Bool
known_acr v = v == password_acr || v == mfa_acr

pub parse_acr : Query → AuthenticationRequest → Result AuthenticationRequest
parse_acr q p = elim (values_of "acr_values" q) [
  | none ↦ ok p
  | some vs ↦ elim (fields (first vs)) [
    | [] ↦ err request_malformed
    | v ∷ choices ↦
        if known_acr v && all known_acr choices
        then ok (record p { acr = v })
        else err request_malformed
  ]
]

abbrev pub unsupported : Query → Bool
unsupported q = has_key "request" q || has_key "request_uri" q || has_key "claims" q

abbrev pub single_valued : Query → Bool
single_valued q = all (λ entry. eqb (length entry.1) 1) q

pub parse_authentication_request : Query → Result AuthenticationRequest
parse_authentication_request q =
    if not (single_valued q)
    then err request_malformed
    else parse_prompt q empty_request >>= λ p. parse_max_age q p >>= λ p.
        parse_acr q p >>= λ p. if unsupported q then err request_malformed else ok p
