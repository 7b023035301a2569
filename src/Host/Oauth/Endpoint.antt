-- ===== src/Host/Oauth/Endpoint.antt =====
-- internal/host/oauth.go: which URLs and which network addresses the OAuth client may reach.
pub mod Ranges
use Prim.Native.String.{◌++◌ as append}
use mcp_from_scratch.Protocol.Errors.{Message, plain}
use mcp_from_scratch.Base.Text.{equal_fold}
use mcp_from_scratch.Host.Oauth.{Url, Ip, v4, v6, Web}
use mcp_from_scratch.Base.{
  ℕ, ◌/◌, ◌%◌, ◌^◌, String, Bool, true, false, not, ◌&&◌, ◌||◌, Option, none, some, List, [], ◌∷◌,
  arith, ◌==◌, eqb, if◌then◌else◌, Result, ok, err,
}
use mcp_from_scratch.Base.{◌>>=◌}

-- The addresses whose bits above the lowest `free` ones are `prefix`.
abbrev pub in_block : ℕ → ℕ → ℕ → Bool
in_block free prefix n = eqb (n / 2 ^ free) prefix

unfoldable pub is_unspecified : Ip → Bool
is_unspecified (v4 n) = eqb n 0
is_unspecified (v6 n) = eqb n 0

-- 127.0.0.0/8 and ::1
unfoldable pub is_loopback : Ip → Bool
is_loopback (v4 n) = in_block 24 127 n
is_loopback (v6 n) = eqb n 1

-- 10.0.0.0/8, 172.16.0.0/12, 192.168.0.0/16 and fc00::/7
unfoldable pub is_private : Ip → Bool
is_private (v4 n) = in_block 24 10 n || in_block 20 0xac1 n || in_block 16 0xc0a8 n
is_private (v6 n) = in_block 121 0x7e n

-- 169.254.0.0/16 and fe80::/10
unfoldable pub is_link_local_unicast : Ip → Bool
is_link_local_unicast (v4 n) = in_block 16 0xa9fe n
is_link_local_unicast (v6 n) = in_block 118 0x3fa n

-- 224.0.0.0/24 and the scope 2 of ff00::/8
unfoldable pub is_link_local_multicast : Ip → Bool
is_link_local_multicast (v4 n) = in_block 8 0xe00000 n
is_link_local_multicast (v6 n) = in_block 120 0xff n && eqb ((n / 2 ^ 112) % 16) 2

-- 224.0.0.0/4 and ff00::/8
unfoldable pub is_multicast : Ip → Bool
is_multicast (v4 n) = in_block 28 0xe n
is_multicast (v6 n) = in_block 120 0xff n

is_broadcast : Ip → Bool
is_broadcast (v4 n) = eqb n 0xffffffff
is_broadcast (v6 n) = false

unfoldable pub is_global_unicast : Ip → Bool
unfolding is_broadcast is_unspecified is_loopback is_multicast is_link_local_unicast
is_global_unicast ip =
    not (is_broadcast ip)
    && not (is_unspecified ip)
    && not (is_loopback ip)
    && not (is_multicast ip)
    && not (is_link_local_unicast ip)

-- 0.0.0.0/8, 100.64.0.0/10, 192.0.0.0/24, 192.0.2.0/24, 198.18.0.0/15, 198.51.100.0/24,
-- 203.0.113.0/24, 240.0.0.0/4; 2001:db8::/32, 2001:10::/28, 2001:2::/48
unfoldable pub in_disallowed_network : Ip → Bool
in_disallowed_network (v4 n) =
    in_block 24 0 n
    || in_block 22 0x191 n
    || in_block 8 0xc00000 n
    || in_block 8 0xc00002 n
    || in_block 17 0x6309 n
    || in_block 8 0xc63364 n
    || in_block 8 0xcb0071 n
    || in_block 28 0xf n
in_disallowed_network (v6 n) =
    in_block 96 0x20010db8 n || in_block 100 0x2001001 n || in_block 80 0x200100020000 n

-- `none` is a nil address.
unfoldable pub oauth_ip_allowed : Option Ip → Bool → Bool
unfolding is_unspecified is_multicast is_link_local_unicast is_link_local_multicast is_private
    is_loopback in_disallowed_network is_global_unicast
oauth_ip_allowed none allow_loopback = false
oauth_ip_allowed (some ip) allow_loopback =
    if is_unspecified ip
      || is_multicast ip
      || is_link_local_unicast ip
      || is_link_local_multicast ip
      || is_private ip
    then false
    else if is_loopback ip
    then allow_loopback
    else if in_disallowed_network ip
    then false
    else is_global_unicast ip

all_allowed : Bool → List (Option Ip) → Bool
unfolding oauth_ip_allowed
all_allowed allow_loopback [] = true
all_allowed allow_loopback (ip ∷ ips) =
    oauth_ip_allowed ip allow_loopback && all_allowed allow_loopback ips

connect : Bool → String → List (Option Ip) → Result Message (Option Ip × String)
unfolding all_allowed
connect allow_loopback port [] = err (plain "oauth endpoint resolved to no addresses")
connect allow_loopback port (ip ∷ ips) =
    if all_allowed allow_loopback (ip ∷ ips)
    then ok (ip, port)
    else err (plain "oauth endpoint resolved to a disallowed address")

-- The address and the port to which the transport connects. `split` is what net.SplitHostPort makes
-- of the address that is asked for.
unfoldable pub dial_context :
    Bool
    → Result Message (String × String)
    → (String → Result Message (List (Option Ip)))
    → Result Message (Option Ip × String)
unfolding connect
dial_context allow_loopback split resolve = do
  (host, port) ← split
  ips ← resolve host
  connect allow_loopback port ips

refusal : String → String → Message
refusal label reason = plain (append "oauth " (append label reason))

abbrev literal_loopback : Option Ip → Bool → Bool
literal_loopback none named = named
literal_loopback (some ip) named = is_loopback ip

abbrev literal_private : Option Ip → Bool
literal_private none = false
literal_private (some ip) =
    not (is_loopback ip)
    && (is_private ip || is_link_local_unicast ip || is_link_local_multicast ip)

abbrev admit_parsed : Bool → String → Url → Option Ip → Result Message Url
admit_parsed allow_loopback label url ip =
    let loopback = literal_loopback ip (equal_fold url.hostname "localhost") in
    if url.scheme == "" || url.host == ""
    then err (refusal label " must be an absolute URL")
    else if url.user || not (url.fragment == "")
    then err (refusal label " must not contain userinfo or fragment")
    else if literal_private ip
    then err (refusal label " must not target a private or link-local address")
    else if loopback && not allow_loopback
    then err (refusal label " must not target loopback")
    else if not (url.scheme == "https") && not (url.scheme == "http" && loopback && allow_loopback)
    then err (refusal label " must use https or loopback http")
    else ok url

abbrev admit_url : {W : Type 0} → Web W → Bool → String → Option Url → Result Message Url
admit_url web allow_loopback label none = err (refusal label " must be an absolute URL")
admit_url web allow_loopback label (some url) =
    admit_parsed allow_loopback label url (web.parse_ip url.hostname)

-- oauthEndpointPolicy.validate
unfoldable pub validate_endpoint :
    {W : Type 0} → Web W → Bool → String → String → Result Message Url
unfolding refusal is_loopback is_private is_link_local_unicast is_link_local_multicast equal_fold
validate_endpoint web allow_loopback raw label =
    admit_url web allow_loopback label (web.parse_url raw)

abbrev same_parts : Url → Option Url → Bool
same_parts endpoint none = false
same_parts endpoint (some want) =
    endpoint.scheme == want.scheme
    && endpoint.host == want.host
    && endpoint.escaped_path == want.escaped_path
    && endpoint.raw_query == want.raw_query

unfoldable pub same_oauth_resource : {W : Type 0} → Web W → Url → String → Bool
same_oauth_resource web endpoint canonical = same_parts endpoint (web.parse_url canonical)
