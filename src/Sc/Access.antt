-- ===== src/Sc/Access.antt =====
-- pkg/sc/fetch_policy.go and the remote part of pkg/sc/path_allowlist.go: which addresses may be
-- fetched and written. url.Parse and the resolution of hosts are parameters. Schemes and hosts are
-- compared as ASCII.
use capillaries.Prelude.{
  Bool, true, false, not, ◌&&◌, ◌||◌, List, [], ◌∷◌, ◌++◌, Option, none, some, any, if◌then◌else◌,
}
use capillaries.Prelude.Text.{Text, bytes, text_eq, has_prefix}
use capillaries.Prelude.Trim.{to_lower, trim_space, segments}
use capillaries.Prelude.Outcome.{Outcome, done, error}

pub record Url : Type 0 where
  pub scheme : Text
  pub host : Text
  pub hostname : Text
  pub path : Text

pub record Ip : Type 0 where
  pub is_loopback : Bool
  pub is_link_local_unicast : Bool
  pub is_link_local_multicast : Bool
  pub is_private : Bool
  pub is_unspecified : Bool

pub record Net : Type 0 where
  pub parse : Text → Option Url
  pub lookup_ip : Text → Option (List Ip)

pub data AccessError : Type 0 where
  cannot_parse scheme_not_allowed empty_host cannot_resolve_host non_public_address : AccessError
  only_local_permitted not_within_allowed : AccessError
  unsupported_scheme cannot_resolve_path only_remote_permitted not_within_directories : AccessError

pub record FetchPolicy : Type 0 where
  pub allowed_schemes : List Text
  pub allow_private_hosts : Bool

-- `strings.EqualFold`
unfoldable pub equal_fold : Text → Text → Bool
equal_fold a b = text_eq (to_lower a) (to_lower b)

abbrev pub default_fetch_policy : FetchPolicy
default_fetch_policy = record {
  allowed_schemes = bytes "https" ∷ bytes "s3" ∷ [];
  allow_private_hosts = false;
}

-- A policy without schemes, or none, is the default.
unfoldable pub effective_policy : Option FetchPolicy → FetchPolicy
effective_policy none = default_fetch_policy
effective_policy (some fp) = elim fp.allowed_schemes [ [] ↦ default_fetch_policy | (s ∷ ss) ↦ fp ]

unfoldable pub is_non_public : Ip → Bool
is_non_public ip =
    ip.is_loopback || ip.is_link_local_unicast || ip.is_link_local_multicast || ip.is_private
    || ip.is_unspecified

unfoldable pub check_ips : Option (List Ip) → Outcome AccessError (Unit {0})
unfolding is_non_public
check_ips none = error cannot_resolve_host
check_ips (some ips) = if any is_non_public ips then error non_public_address else done tt

unfoldable pub check_host_is_public : Net → Text → Outcome AccessError (Unit {0})
unfolding check_ips
check_host_is_public net host =
    if text_eq host [] then error empty_host else check_ips (net.lookup_ip host)

unfoldable pub scheme_of : Url → Text
scheme_of u = if text_eq u.scheme [] then bytes "file" else u.scheme

abbrev pub is_network_scheme : Text → Bool
is_network_scheme s =
    text_eq s (bytes "http") || text_eq s (bytes "https") || text_eq s (bytes "sftp")

unfoldable pub check_parsed_url : Net → FetchPolicy → Option Url → Outcome AccessError (Unit {0})
unfolding scheme_of check_host_is_public equal_fold
check_parsed_url net fp none = error cannot_parse
check_parsed_url net fp (some u) =
    if not (any (λ s. equal_fold (trim_space s) (scheme_of u)) fp.allowed_schemes)
    then error scheme_not_allowed
    else if not fp.allow_private_hosts && is_network_scheme (scheme_of u)
    then check_host_is_public net u.hostname
    else done tt

-- CheckUrl
unfoldable pub check_url : Net → Option FetchPolicy → Text → Outcome AccessError (Unit {0})
unfolding check_parsed_url effective_policy
check_url net fp file_url = check_parsed_url net (effective_policy fp) (net.parse file_url)

unfoldable pub without_last : List Text → List Text
without_last [] = []
without_last (s ∷ []) = []
without_last (s ∷ t ∷ ss) = s ∷ without_last (t ∷ ss)

-- `path.Clean` on a rooted path: empty parts and dots are dropped, and two dots drop the part before.
unfoldable pub resolve : List Text → List Text → List Text
unfolding without_last
resolve kept [] = kept
resolve kept (s ∷ ss) =
    if text_eq s [] || text_eq s (bytes ".")
    then resolve kept ss
    else if text_eq s (bytes "..")
    then resolve (without_last kept) ss
    else resolve (kept ++ s ∷ []) ss

unfoldable pub rooted : List Text → Text
rooted [] = []
rooted (s ∷ ss) = 47 ∷ (s ++ rooted ss)

unfoldable pub clean_segments : Text → List Text
unfolding segments resolve
clean_segments p = resolve [] (segments p)

unfoldable pub render : List Text → Text
unfolding rooted
render [] = bytes "/"
render (s ∷ ss) = rooted (s ∷ ss)

-- `path.Clean("/" + strings.TrimPrefix(p, "/"))`
unfoldable pub clean : Text → Text
unfolding clean_segments render
clean p = render (clean_segments p)

-- A target path within the path of an entry.
unfoldable pub is_within : Text → Text → Bool
is_within allowed target =
    text_eq allowed (bytes "/")
    || text_eq target allowed
    || has_prefix target (allowed ++ bytes "/")

unfoldable pub contains_separator : Text → Bool
contains_separator [] = false
contains_separator (b ∷ s) = has_prefix (b ∷ s) (bytes "://") || contains_separator s

-- The address of an entry that is a remote prefix.
unfoldable pub remote_entry : Net → Text → Option Url
unfolding contains_separator
remote_entry net entry =
    let e = trim_space entry in
    if text_eq e [] || not (contains_separator e) then none else elim (net.parse e) [
      | none ↦ none
      | some au ↦ if text_eq au.scheme [] then none else some au
    ]

unfoldable pub matches_entry : Url → Url → Bool
unfolding is_within clean equal_fold
matches_entry u au =
    equal_fold au.scheme u.scheme
    && equal_fold au.host u.host
    && is_within (clean au.path) (clean u.path)

-- The loop of checkRemoteUrlAllowed; the flag is sawRemoteEntry.
unfoldable pub remote_loop : Net → Url → List Text → Bool → Outcome AccessError (Unit {0})
unfolding remote_entry matches_entry
remote_loop net u [] saw = error (if saw then not_within_allowed else only_local_permitted)
remote_loop net u (entry ∷ entries) saw = elim (remote_entry net entry) [
  | none ↦ remote_loop net u entries saw
  | some au ↦ if matches_entry u au then done tt else remote_loop net u entries true
]

unfoldable pub check_remote_url_allowed : Net → List Text → Url → Outcome AccessError (Unit {0})
unfolding remote_loop
check_remote_url_allowed net allowed_paths u = remote_loop net u allowed_paths false
