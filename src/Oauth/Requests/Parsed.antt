-- ===== src/Oauth/Requests/Parsed.antt =====
-- What a parsed authentication request says: internal/oauth/authentication_request.go.
use Prim.Native.Char.{code}
use Prim.Native.String.{String}
use kysignon_server.Base.{
  ℕ, ◌+◌, ◌-◌, ◌*◌, ◌≤◌, Option, some, none, List, [], ◌∷◌, Bool, true, false, ◌&&◌, ◌||◌, ◌==◌,
  ltb, leb, eqb, option_test, all, fields, if◌then◌else◌, Result, ok, err, ◌>>=◌, >>=-ok,
  request_malformed, ◌≡◌, arith, Bool-cases, Option-cases, inl, inr, eq_iff, ap, ◌∙◌,
}
use kysignon_server.Oauth.Policy.{AuthenticationRequest}
use kysignon_server.Oauth.Requests.{
  Query, values_of, first, empty_request, parse_prompt, digits_from, parse_age, parse_max_age,
  known_acr, parse_acr, unsupported, single_valued, parse_authentication_request,
}

digits_bound : (n : ℕ) (s : String) (age : ℕ) → digits_from n s ≡ some age → age ≤ 2_147_483_647
unfolding digits_from
digits_bound n String.[] age h = ground arith
digits_bound n (String.◌∷◌ c s) age h = ground (arith, digits_bound (n * 10 + (code c - 48)) s age)

-- The value of a key of the query is one of these texts, or the key is absent.
abbrev pub asks : String → String → Query → Bool
asks key value q = option_test false (λ vs. first vs == value) (values_of key q)

prompt_sound :
    (q : Query) (p r : AuthenticationRequest)
    → parse_prompt q p ≡ ok r
    → (r.silent ≡ (p.silent || asks "prompt" "none" q))
      × (r.fresh ≡ (p.fresh || asks "prompt" "login" q))
      × (r.max_age ≡ p.max_age)
      × (r.acr ≡ p.acr)
unfolding parse_prompt
prompt_sound q p r h = elim (Option-cases (values_of "prompt" q)) [
  | inl absent ↦ (let h' = rw (parse_prompt, absent) at h in ground (arith, absent, h'))
  | inr (vs, given) ↦
      let h' = rw (parse_prompt, given) at h in
      elim (Bool-cases (first vs == "none")) [
        | inl silent ↦ ground (
          arith,
          given,
          rw silent at h',
          (eq_iff (first vs) "none").0 silent,
          eq_iff (first vs) "login",
          eq_iff "none" "login",
        )
        | inr other ↦ (let h'' = rw other at h' in ground (arith, given, h''))
      ]
]

-- max_age=0, which stands for a fresh login.
abbrev pub asks_zero : Query → Bool
asks_zero q =
    option_test false (λ vs. option_test false (λ age. eqb age 0) (parse_age (first vs)))
      (values_of "max_age" q)

abbrev pub in_range : Option ℕ → Bool
in_range age = option_test true (λ n. ltb 0 n && leb n 2_147_483_647) age

parse_age_bound : (raw : String) (age : ℕ) → parse_age raw ≡ some age → age ≤ 2_147_483_647
unfolding parse_age
parse_age_bound raw age h = digits_bound 0 raw age (ground arith)

max_age_sound :
    (q : Query) (p r : AuthenticationRequest)
    → parse_max_age q p ≡ ok r
    → p.max_age ≡ none
    → (r.silent ≡ p.silent)
      × (r.fresh ≡ (p.fresh || asks_zero q))
      × (in_range r.max_age ≡ true)
      × (r.acr ≡ p.acr)
unfolding parse_max_age
max_age_sound q p r h unset = elim (Option-cases (values_of "max_age" q)) [
  | inl absent ↦ (let h' = rw (parse_max_age, absent) at h in ground (arith, absent, h'))
  | inr (vs, given) ↦
      let h' = rw (parse_max_age, given) at h in
      elim (Option-cases (parse_age (first vs))) [
        | inl malformed ↦ absurd (cc (rw malformed at h'))
        | inr (age, read) ↦
            (let h'' = rw read at h' in
              ground (arith, given, read, h'', parse_age_bound (first vs) age read))
      ]
]

acr_sound :
    (q : Query) (p r : AuthenticationRequest)
    → parse_acr q p ≡ ok r
    → p.acr ≡ ""
    → (r.silent ≡ p.silent)
      × (r.fresh ≡ p.fresh)
      × (r.max_age ≡ p.max_age)
      × ((r.acr == "" || known_acr r.acr) ≡ true)
unfolding parse_acr
acr_sound q p r h unset = elim (Option-cases (values_of "acr_values" q)) [
  | inl absent ↦ (let h' = rw (parse_acr, absent) at h in ground (arith, h', eq_iff r.acr ""))
  | inr (vs, given) ↦ choices (fields (first vs)) (rw (parse_acr, given) at h)
]
  where
    choices :
        (l : List String)
        → (elim l [
          | [] ↦ err request_malformed
          | v ∷ vs ↦
              if known_acr v && all known_acr vs
              then ok (record p { acr = v })
              else err request_malformed
        ])
          ≡ ok r
        → (r.silent ≡ p.silent)
          × (r.fresh ≡ p.fresh)
          × (r.max_age ≡ p.max_age)
          × ((r.acr == "" || known_acr r.acr) ≡ true)
    choices [] e = absurd (cc e)
    choices (v ∷ vs) e = ground arith

-- A request that parses has one value for each key and none of the keys that carry requirements in
-- another form; it is silent exactly for prompt=none, and fresh exactly for prompt=login or
-- max_age=0; its maximum age, if any, is positive and below 2 ^ 31, and its ACR, if any, is one of
-- the two that the server knows.
pub parse_authentication_request_sound :
    (q : Query) (r : AuthenticationRequest)
    → parse_authentication_request q ≡ ok r
    → (single_valued q ≡ true)
      × (unsupported q ≡ false)
      × (r.silent ≡ asks "prompt" "none" q)
      × (r.fresh ≡ (asks "prompt" "login" q || asks_zero q))
      × (in_range r.max_age ≡ true)
      × ((r.acr == "" || known_acr r.acr) ≡ true)
unfolding parse_authentication_request
parse_authentication_request_sound q r h = elim (Bool-cases (single_valued q)) [
  | inr repeated ↦ absurd (cc (rw (parse_authentication_request, repeated) at h))
  | inl single ↦
      let (p₁, prompt, rest₁) =
        >>=-ok (parse_prompt q empty_request) after_prompt
          (rw (parse_authentication_request, single) at h) in
      let (p₂, age, rest₂) = >>=-ok (parse_max_age q p₁) after_age rest₁ in
      let (p₃, acr, rest₃) = >>=-ok (parse_acr q p₂) last_check rest₂ in
      let (silent₁, fresh₁, age₁, acr₁) = prompt_sound q empty_request p₁ prompt in
      let (silent₂, fresh₂, age₂, acr₂) = max_age_sound q p₁ p₂ age age₁ in
      let (silent₃, fresh₃, age₃, acr₃) = acr_sound q p₂ p₃ acr (acr₂ ∙ acr₁) in
      let (supported, same) = last_ok p₃ rest₃ in
      (
        single,
        supported,
        ap (λ p. p.silent) same ∙ silent₃ ∙ silent₂ ∙ silent₁,
        ap (λ p. p.fresh) same ∙ fresh₃ ∙ fresh₂ ∙ ap (λ b. b || asks_zero q) fresh₁,
        ap (λ p. in_range p.max_age) same ∙ ap in_range age₃ ∙ age₂,
        ap (λ p. p.acr == "" || known_acr p.acr) same ∙ acr₃,
      )
]
  where
    last_check : AuthenticationRequest → Result AuthenticationRequest
    last_check p = if unsupported q then err request_malformed else ok p

    after_age : AuthenticationRequest → Result AuthenticationRequest
    after_age p = parse_acr q p >>= last_check

    after_prompt : AuthenticationRequest → Result AuthenticationRequest
    after_prompt p = parse_max_age q p >>= after_age

    last_ok : (p : AuthenticationRequest) → last_check p ≡ ok r → (unsupported q ≡ false) × (r ≡ p)
    last_ok p e = ground arith
