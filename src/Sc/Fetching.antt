-- ===== src/Sc/Fetching.antt =====
-- What the policy of pkg/sc/fetch_policy.go lets be fetched.
use capillaries.Prelude.{
  ◌≡◌, refl, inl, inr, Bool, true, false, ◌||◌, Option, none, some, List, [], any, Bool-cases,
  arith,
}
use capillaries.Prelude.Text.{Text, bytes, text_eq}
use capillaries.Prelude.Trim.{trim_space}
use capillaries.Prelude.Outcome.{done}
use capillaries.Sc.Access.{
  FetchPolicy, Ip, Net, Url, check_host_is_public, check_ips, check_parsed_url, check_url,
  default_fetch_policy, effective_policy, equal_fold, is_network_scheme, is_non_public, scheme_of,
}

-- The host has addresses, and none of them is a private one.
unfoldable pub IsPublic : Net → Text → Type 0
IsPublic net host =
    (text_eq host [] ≡ false)
    × (ips : List Ip) × (net.lookup_ip host ≡ some ips)
    × (any is_non_public ips ≡ false)

addresses_of :
    (o : Option (List Ip))
    → check_ips o ≡ done tt
    → (ips : List Ip) × (o ≡ some ips) × (any is_non_public ips ≡ false)
unfolding check_ips
addresses_of none h = absurd (ground arith)
addresses_of (some ips) h = (ips, refl, ground arith)

check_host_is_public-IsPublic :
    (net : Net) (host : Text) → check_host_is_public net host ≡ done tt → IsPublic net host
unfolding check_host_is_public IsPublic
check_host_is_public-IsPublic net host h = elim (Bool-cases (text_eq host [])) [
  | inl e ↦ absurd (ground arith)
  | inr e ↦
      let addresses = addresses_of (net.lookup_ip host) (ground arith) in
      (e, addresses.0, addresses.1, addresses.2)
]

accepted :
    (net : Net) (fp : FetchPolicy) (u : Url)
    → check_parsed_url net fp (some u) ≡ done tt
    → (any (λ s. equal_fold (trim_space s) (scheme_of u)) fp.allowed_schemes ≡ true)
      × (fp.allow_private_hosts ≡ false
          → is_network_scheme (scheme_of u) ≡ true
          → check_host_is_public net u.hostname ≡ done tt)
unfolding check_parsed_url
accepted net fp u h = (ground arith, λ d w. ground arith)

either : (a b : Bool) → a || (b || false) ≡ true → a || b ≡ true
either a b h = ground arith

-- Without a policy, a url that CheckUrl accepts has the scheme https or s3, and over https it names a
-- host whose addresses are all public.
pub check_url-IsPublic :
    (net : Net) (file_url : Text) (u : Url)
    → net.parse file_url ≡ some u
    → check_url net none file_url ≡ done tt
    → (equal_fold (bytes "https") (scheme_of u) || equal_fold (bytes "s3") (scheme_of u) ≡ true)
      × (is_network_scheme (scheme_of u) ≡ true → IsPublic net u.hostname)
unfolding check_url effective_policy trim_space
check_url-IsPublic net file_url u p h =
    let ok : check_parsed_url net default_fetch_policy (some u) ≡ done tt = cc (h, p) in
    let both = accepted net default_fetch_policy u ok in
    (
      either (equal_fold (bytes "https") (scheme_of u)) (equal_fold (bytes "s3") (scheme_of u))
          both.0,
      λ w. check_host_is_public-IsPublic net u.hostname (both.1 refl w),
    )
