-- ===== src/Host/Oauth/Endpoint/Ranges.antt =====
-- internal/host/oauth.go: the addresses to which the transport of the OAuth client connects.
use mcp_from_scratch.Protocol.Errors.{Message}
use mcp_from_scratch.Host.Oauth.{Ip, v4, v6}
use mcp_from_scratch.Host.Oauth.Endpoint.{oauth_ip_allowed, dial_context, all_allowed, connect}
use mcp_from_scratch.Base.{
  ℕ, ◌^◌, ◌<◌, ◌≤◌, String, ◌≡◌, refl, ap, subst, ◌∙◌, ◌⊎◌, inl, inr, Bool, true, false, Option,
  none, some, List, [], ◌∷◌, arith, Bool-cases, All, Result, ok, bind-ok,
}

-- The special IPv4 ranges: this network, private use, shared addresses, loopback, link-local, protocol
-- assignments, the three for documentation, benchmarks, multicast, reserved and broadcast.
abbrev pub special_v4 : List (ℕ × ℕ)
special_v4 =
    (0x00000000, 0x00ffffff)
    ∷ (0x0a000000, 0x0affffff)
    ∷ (0x64400000, 0x647fffff)
    ∷ (0x7f000000, 0x7fffffff)
    ∷ (0xa9fe0000, 0xa9feffff)
    ∷ (0xac100000, 0xac1fffff)
    ∷ (0xc0000000, 0xc00000ff)
    ∷ (0xc0000200, 0xc00002ff)
    ∷ (0xc0a80000, 0xc0a8ffff)
    ∷ (0xc6120000, 0xc613ffff)
    ∷ (0xc6336400, 0xc63364ff)
    ∷ (0xcb007100, 0xcb0071ff)
    ∷ (0xe0000000, 0xffffffff)
    ∷ []

-- Of the special IPv6 ranges: the unspecified address and the loopback, ORCHID, benchmarks,
-- documentation, unique local, link-local and multicast.
abbrev pub special_v6 : List (ℕ × ℕ)
special_v6 =
    (0, 1)
    ∷ (0x20010010000000000000000000000000, 0x2001001fffffffffffffffffffffffff)
    ∷ (0x20010002000000000000000000000000, 0x200100020000ffffffffffffffffffff)
    ∷ (0x20010db8000000000000000000000000, 0x20010db8ffffffffffffffffffffffff)
    ∷ (0xfc000000000000000000000000000000, 0xfdffffffffffffffffffffffffffffff)
    ∷ (0xfe800000000000000000000000000000, 0xfebfffffffffffffffffffffffffffff)
    ∷ (0xff000000000000000000000000000000, 0xffffffffffffffffffffffffffffffff)
    ∷ []

abbrev Ordinary : Ip → Type 0
Ordinary (v4 n) = (n < 2 ^ 32) × All (λ (r : ℕ × ℕ). (n < r.0) ⊎ (r.1 < n)) special_v4
Ordinary (v6 n) = (n < 2 ^ 128) × All (λ (r : ℕ × ℕ). (n < r.0) ⊎ (r.1 < n)) special_v6

abbrev Loopback : Ip → Type 0
Loopback (v4 n) = (0x7f000000 ≤ n) × (n ≤ 0x7fffffff)
Loopback (v6 n) = n ≡ 1

abbrev pub IsIp : Ip → Type 0
IsIp (v4 n) = n < 2 ^ 32
IsIp (v6 n) = n < 2 ^ 128

-- An address of a lookup has the size of its family.
abbrev pub Sized : Option Ip → Type 0
Sized none = ⊥
Sized (some ip) = IsIp ip

-- An address in none of the ranges, or the loopback where it is allowed.
abbrev pub Admissible : Bool → Option Ip → Type 0
Admissible allow_loopback none = ⊥
Admissible allow_loopback (some ip) = Ordinary ip ⊎ ((allow_loopback ≡ true) × Loopback ip)

allowed-Ordinary : (ip : Ip) → IsIp ip → oauth_ip_allowed (some ip) false ≡ true → Ordinary ip
unfolding oauth_ip_allowed
allowed-Ordinary (v4 n) b h = ground arith
allowed-Ordinary (v6 n) b h = ground arith

allowed-Loopback :
    (ip : Ip)
    → oauth_ip_allowed (some ip) false ≡ false
    → oauth_ip_allowed (some ip) true ≡ true
    → Loopback ip
unfolding oauth_ip_allowed
allowed-Loopback (v4 n) refused h = ground arith
allowed-Loopback (v6 n) refused h = ground arith

allowed-Admissible :
    (allow_loopback : Bool) (o : Option Ip)
    → Sized o
    → oauth_ip_allowed o allow_loopback ≡ true
    → Admissible allow_loopback o
unfolding oauth_ip_allowed
allowed-Admissible allow_loopback none b h = cc
allowed-Admissible false (some ip) b h = inl (allowed-Ordinary ip b h)
allowed-Admissible true (some ip) b h = elim (Bool-cases (oauth_ip_allowed (some ip) false)) [
  | inl public ↦ inl (allowed-Ordinary ip b public)
  | inr refused ↦ inr (refl, allowed-Loopback ip refused h)
]

allowed_each :
    (allow_loopback : Bool) (ips : List (Option Ip))
    → All Sized ips
    → all_allowed allow_loopback ips ≡ true
    → All (Admissible allow_loopback) ips
unfolding all_allowed
allowed_each allow [] b h = tt
allowed_each allow (o ∷ ips) b h = elim (Bool-cases (oauth_ip_allowed o allow)) [
  | inl yes_o ↦ (allowed-Admissible allow o b.0 yes_o, allowed_each allow ips b.1 (rw yes_o at h))
  | inr no_o ↦ absurd (ground arith)
]

connect-ok :
    (allow_loopback : Bool) (port p : String) (ips : List (Option Ip)) (o : Option Ip)
    → connect allow_loopback port ips ≡ ok (o, p)
    → (rest : List (Option Ip)) × (ips ≡ o ∷ rest)
      × (port ≡ p)
      × (all_allowed allow_loopback ips ≡ true)
unfolding connect
connect-ok allow port p [] o h = cc
connect-ok allow port p (ip ∷ ips) o h = (ips, ground arith, ground arith, ground arith)

-- The transport connects only to the first of the addresses to which the host name was resolved,
-- at the port that was asked for, and only if every one of them lies outside the special ranges listed
-- here, or is a loopback address and loopback is allowed. The ranges are not all special ones:
-- 64:ff9b::/96, 100::/64 and fec0::/10 are not among them.
pub dial_context-Admissible :
    (allow_loopback : Bool) (split : Result Message (String × String))
    (resolve : String → Result Message (List (Option Ip))) (o : Option Ip) (port : String)
    → ((host : String) (ips : List (Option Ip)) → resolve host ≡ ok ips → All Sized ips)
    → dial_context allow_loopback split resolve ≡ ok (o, port)
    → (host : String) × (rest : List (Option Ip)) × (split ≡ ok (host, port))
      × (resolve host ≡ ok (o ∷ rest))
      × All (Admissible allow_loopback) (o ∷ rest)
unfolding dial_context
dial_context-Admissible allow split resolve o port sized h =
    let ((host, p), whole, found) = bind-ok split _ h in
    let (ips, answer, connected) = bind-ok (resolve host) _ found in
    let (rest, same, ports, every) = connect-ok allow p port ips o connected in
    (
      host,
      rest,
      whole ∙ ap (λ (q : String). ok (host, q)) ports,
      answer ∙ ap ok same,
      subst (All (Admissible allow)) same (allowed_each allow ips (sized host ips answer) every),
    )
