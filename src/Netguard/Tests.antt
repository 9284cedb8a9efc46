-- ===== src/Netguard/Tests.antt =====
-- Runs of internal/netguard/netguard.go with stand-ins for the parsers.
use kysignon_server.Base.{
  Option, some, none, [], ◌∷◌, any, true, false, String, ◌==◌, trim_space, if◌then◌else◌, ok, err,
  address_refused, address_non_public, https_required, fragment_present, url_missing, ◌≡◌, refl,
  arith, inl,
}
use kysignon_server.Netguard.{
  Ip, Url, is_non_public, dial_control, has_hash, validate_parsed, validate_url,
}
use kysignon_server.Netguard.Blocks.{number, in_block, blocks, plain, mapped, dial_control_exact}

abbrev split : String → Option String
split address = if address == "shared:443" then some "100.64.0.1" else some "169.254.169.254"

abbrev parse_ip : String → Option Ip
parse_ip host =
    if host == "100.64.0.1"
    then some (plain 100 64 0 1)
    else if host == "169.254.169.254"
    then some (mapped 169 254 169 254)
    else none

metadata : dial_control split parse_ip false "metadata:80" ≡ err address_refused
unfolding dial_control is_non_public
metadata = refl

metadata_allowed : dial_control split parse_ip true "metadata:80" ≡ ok tt
unfolding dial_control
metadata_allowed = refl

local6 : is_non_public (0 ∷ 0 ∷ 0 ∷ 0 ∷ 0 ∷ 0 ∷ 0 ∷ 0 ∷ 0 ∷ 0 ∷ 0 ∷ 0 ∷ 0 ∷ 0 ∷ 0 ∷ 1 ∷ []) ≡ true
unfolding is_non_public
local6 = refl

abbrev link : String → String → Option Url
link host raw = some (record {
  scheme = if raw == "http://a" then "http" else "https";
  hostname = host;
  has_user = false;
  fragment = "";
})

insecure : validate_url (link "a") parse_ip false "http://a" ≡ err https_required
unfolding validate_url validate_parsed trim_space
insecure = refl

insecure_allowed : validate_url (link "a") parse_ip true "http://a" ≡ ok tt
unfolding validate_url validate_parsed trim_space has_hash
insecure_allowed = refl

empty_fragment : validate_url (link "a") parse_ip false "https://a#" ≡ err fragment_present
unfolding validate_url validate_parsed trim_space has_hash
empty_fragment = refl

internal :
    validate_url (link "169.254.169.254") parse_ip false "https://169.254.169.254"
    ≡ err address_non_public
unfolding validate_url validate_parsed trim_space has_hash is_non_public
internal = refl

blank : validate_url (link "a") parse_ip false " " ≡ err url_missing
unfolding validate_url trim_space
blank = refl

dial_control_exact_example :
    dial_control split parse_ip false "shared:443"
    ≡ (if any (in_block (number 100 64 0 1)) blocks then err address_refused else ok tt)
dial_control_exact_example =
    dial_control_exact 100 64 0 1 (omega arith) (omega arith) (omega arith) (omega arith) split
      parse_ip "shared:443" "100.64.0.1" (plain 100 64 0 1) refl refl (inl refl)
