-- ===== src/Netguard.antt =====
-- internal/netguard/netguard.go: which addresses an outgoing request may reach. An address is the bytes of
-- Go's net.IP, 4 or 16 of them; the masks of package net are written as quotients and remainders.
-- net.ParseIP, net.SplitHostPort and url.Parse are parameters.
pub mod Blocks
mod Tests
use Prim.Native.Char.{code}
use kysignon_server.Base.{
  ℕ, ◌/◌, ◌%◌, Option, some, none, List, [], ◌∷◌, Bool, true, false, ◌&&◌, ◌||◌, not, String, ◌==◌,
  eqb, option_test, trim_space, if◌then◌else◌, Result, ok, err, address_unparseable,
  address_refused, url_missing, url_malformed, https_required, host_missing, credentials_embedded,
  fragment_present, address_non_public,
}

abbrev pub Ip : Type 0
Ip = List ℕ

pub record V4 : Type 0 where
  pub first : ℕ
  pub second : ℕ
  pub third : ℕ
  pub fourth : ℕ

abbrev pub v4 : ℕ → ℕ → ℕ → ℕ → V4
v4 a b c d = record { first = a; second = b; third = c; fourth = d }

unfoldable pub all_zero : List ℕ → Bool
all_zero [] = true
all_zero (x ∷ xs) = eqb x 0 && all_zero xs

-- To4: an IPv4 address, or one that is mapped into IPv6.
unfoldable pub to4 : Ip → Option V4
unfolding all_zero
to4 (a ∷ b ∷ c ∷ d ∷ []) = some (v4 a b c d)
to4 (z0 ∷ z1 ∷ z2 ∷ z3 ∷ z4 ∷ z5 ∷ z6 ∷ z7 ∷ z8 ∷ z9 ∷ f0 ∷ f1 ∷ a ∷ b ∷ c ∷ d ∷ []) =
    if all_zero (z0 ∷ z1 ∷ z2 ∷ z3 ∷ z4 ∷ z5 ∷ z6 ∷ z7 ∷ z8 ∷ z9 ∷ []) && eqb f0 255 && eqb f1 255
    then some (v4 a b c d)
    else none
to4 _ = none

-- The first two of 16 bytes, those that the masks of IPv6 read.
unfoldable pub head6 : (ℕ → ℕ → Bool) → Ip → Bool
head6 test (x ∷ y ∷ z2 ∷ z3 ∷ z4 ∷ z5 ∷ z6 ∷ z7 ∷ z8 ∷ z9 ∷ za ∷ zb ∷ zc ∷ zd ∷ ze ∷ zf ∷ []) =
    test x y
head6 test _ = false

unfoldable pub is_loopback6 : Ip → Bool
unfolding all_zero
is_loopback6
      (z0 ∷ z1 ∷ z2 ∷ z3 ∷ z4 ∷ z5 ∷ z6 ∷ z7 ∷ z8 ∷ z9 ∷ za ∷ zb ∷ zc ∷ zd ∷ ze ∷ last ∷ []) =
    all_zero (z0 ∷ z1 ∷ z2 ∷ z3 ∷ z4 ∷ z5 ∷ z6 ∷ z7 ∷ z8 ∷ z9 ∷ za ∷ zb ∷ zc ∷ zd ∷ ze ∷ [])
    && eqb last 1
is_loopback6 _ = false

abbrev by_family : (V4 → Bool) → (Ip → Bool) → Ip → Bool
by_family four six ip = elim (to4 ip) [ none ↦ six ip | some v ↦ four v ]

abbrev is_loopback : Ip → Bool
is_loopback = by_family (λ v. eqb v.first 127) is_loopback6

abbrev is_private : Ip → Bool
is_private =
    by_family
      (λ v.
        eqb v.first 10
        || (eqb v.first 172 && eqb (v.second / 16) 1)
        || (eqb v.first 192 && eqb v.second 168))
      (head6 (λ x y. eqb (x / 2) 126))

abbrev is_link_local_unicast : Ip → Bool
is_link_local_unicast =
    by_family (λ v. eqb v.first 169 && eqb v.second 254)
      (head6 (λ x y. eqb x 254 && eqb (y / 64) 2))

abbrev is_link_local_multicast : Ip → Bool
is_link_local_multicast =
    by_family (λ v. eqb v.first 224 && eqb v.second 0 && eqb v.third 0)
      (head6 (λ x y. eqb x 255 && eqb (y % 16) 2))

abbrev is_unspecified : Ip → Bool
is_unspecified =
    by_family (λ v. all_zero (v.first ∷ v.second ∷ v.third ∷ v.fourth ∷ []))
      (λ ip. head6 (λ x y. true) ip && all_zero ip)

abbrev is_multicast : Ip → Bool
is_multicast = by_family (λ v. eqb (v.first / 16) 14) (head6 (λ x y. eqb x 255))

abbrev is_interface_local_multicast : Ip → Bool
is_interface_local_multicast = head6 (λ x y. eqb x 255 && eqb (y % 16) 1)

unfoldable pub is_non_public : Ip → Bool
unfolding all_zero to4 head6 is_loopback6
is_non_public ip =
    is_loopback ip
    || is_private ip
    || is_link_local_unicast ip
    || is_link_local_multicast ip
    || is_unspecified ip
    || is_multicast ip
    || is_interface_local_multicast ip

-- The Control function of Dialer.
unfoldable pub dial_control :
    (String → Option String) → (String → Option Ip) → Bool → String → Result (Unit {0})
dial_control split_host_port parse_ip allow_private address =
    if allow_private then ok tt else elim (split_host_port address) [
      | none ↦ err address_unparseable
      | some host ↦ elim (parse_ip host) [
        | none ↦ err address_unparseable
        | some ip ↦ if is_non_public ip then err address_refused else ok tt
      ]
    ]

pub record Url : Type 0 where
  pub scheme : String
  pub hostname : String
  pub has_user : Bool
  pub fragment : String

-- strings.Contains(raw, "#")
unfoldable pub has_hash : String → Bool
has_hash String.[] = false
has_hash (String.◌∷◌ c s) = eqb (code c) 35 || has_hash s

unfoldable pub validate_parsed : (String → Option Ip) → Bool → String → Url → Result (Unit {0})
validate_parsed parse_ip allow_private raw u =
    if not (u.scheme == "https") && not (u.scheme == "http" && allow_private)
    then err https_required
    else if u.hostname == ""
    then err host_missing
    else if u.has_user
    then err credentials_embedded
    else if not (u.fragment == "") || has_hash raw
    then err fragment_present
    else if not allow_private && option_test false is_non_public (parse_ip u.hostname)
    then err address_non_public
    else ok tt

unfoldable pub validate_url :
    (String → Option Url) → (String → Option Ip) → Bool → String → Result (Unit {0})
validate_url parse_url parse_ip allow_private raw =
    if trim_space raw == "" then err url_missing else elim (parse_url raw) [
      | none ↦ err url_malformed
      | some u ↦ validate_parsed parse_ip allow_private raw u
    ]
