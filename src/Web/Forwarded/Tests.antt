-- ===== src/Web/Forwarded/Tests.antt =====
-- Runs of ClientIP of internal/api/middleware.go.
use Prim.Native.String.{◌++◌}
use kysignon_server.Base.{
  String, Option, some, none, Bool, true, false, ◌==◌, ◌||◌, if◌then◌else◌, ◌≡◌, refl, split_commas,
  trim_space, any,
}
use kysignon_server.Web.Forwarded.{client_ip, is_trusted_proxy, walk, reversed}
use kysignon_server.Web.Forwarded.Chain.{stops, client_ip_unforged}

-- Addresses are texts here; the proxy is 10.0.0.1.
abbrev parse : String → Option String
parse s = if s == "" || s == "junk" then none else some s

abbrev same_text : String → String
same_text s = s

abbrev is_proxy : String → Bool
is_proxy s = s == "10.0.0.1"

abbrev chain : String
chain = "192.0.2.7, 10.0.0.1"

forged_left :
    client_ip parse same_text is_proxy false "X-Forwarded-For"
      (record { remote_host = "10.0.0.1"; forwarded = "1.1.1.1,192.0.2.7, 10.0.0.1" })
    ≡ "192.0.2.7"
unfolding client_ip is_trusted_proxy walk reversed split_commas trim_space
forged_left = refl

untrusted_peer :
    client_ip parse same_text is_proxy false "X-Forwarded-For"
      (record { remote_host = "198.51.100.2"; forwarded = "1.1.1.1" })
    ≡ "198.51.100.2"
unfolding client_ip is_trusted_proxy
untrusted_peer = refl

chain-stops : any (stops parse same_text is_proxy) (split_commas chain) ≡ true
unfolding split_commas trim_space
chain-stops = refl

client_ip_unforged_example :
    client_ip parse same_text is_proxy false "X-Forwarded-For"
      (record { remote_host = "10.0.0.1"; forwarded = "1.1.1.1" ++ ("," ++ chain) })
    ≡ client_ip parse same_text is_proxy false "X-Forwarded-For"
        (record { remote_host = "10.0.0.1"; forwarded = chain })
client_ip_unforged_example =
    client_ip_unforged parse same_text is_proxy false "X-Forwarded-For" "10.0.0.1" "1.1.1.1" chain
      chain-stops
