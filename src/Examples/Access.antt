-- ===== src/Examples/Access.antt =====
-- Runs of the access checks of pkg/sc/fetch_policy.go and pkg/sc/path_allowlist.go.
use capillaries.Prelude.{
  ◌≡◌, refl, false, List, [], ◌∷◌, ◌++◌, ◌+◌, drop, length, none, some, if◌then◌else◌,
}
use capillaries.Prelude.Text.{Text, bytes, text_eq, has_prefix}
use capillaries.Prelude.Trim.{to_lower, trim_space}
use capillaries.Prelude.Outcome.{done, error}
use capillaries.Sc.Access.{Ip, Net, Url, check_remote_url_allowed, check_url, not_within_allowed}
use capillaries.Sc.Paths.{Files, check_path_allowed}
use capillaries.Sc.Allowed.{IsConfined, check_path_allowed-IsConfined}

abbrev url_at : Text → Text → Url
url_at host path = record { scheme = bytes "https"; host = host; hostname = host; path = path }

abbrev public_ip : Ip
public_ip = record {
  is_loopback = false;
  is_link_local_unicast = false;
  is_link_local_multicast = false;
  is_private = false;
  is_unspecified = false;
}

-- One host, with a prefix and an address below it.
abbrev web : Net
web = record {
  parse = λ t.
      if text_eq t (bytes "https://h/in")
      then some (url_at (bytes "H") (bytes "/in/"))
      else if text_eq t (bytes "https://h/in/x")
      then some (url_at (bytes "h") (bytes "/in/x"))
      else none;
  lookup_ip = λ h. if text_eq h (bytes "h") then some (public_ip ∷ []) else none;
}

abbrev entries : List Text
entries = bytes "/data" ∷ bytes " https://h/in" ∷ []

accepted_target :
    check_remote_url_allowed web entries (url_at (bytes "h") (bytes "/in/../in//x")) ≡ done tt
unfolding check_remote_url_allowed text_eq trim_space has_prefix to_lower
accepted_target = refl

climbing_target :
    check_remote_url_allowed web entries (url_at (bytes "h") (bytes "/in/../secret"))
    ≡ error not_within_allowed
unfolding check_remote_url_allowed text_eq trim_space has_prefix to_lower
climbing_target = refl

sibling_target :
    check_remote_url_allowed web entries (url_at (bytes "h") (bytes "/in-secret"))
    ≡ error not_within_allowed
unfolding check_remote_url_allowed text_eq trim_space has_prefix to_lower
sibling_target = refl

fetched : check_url web none (bytes "https://h/in/x") ≡ done tt
unfolding check_url text_eq to_lower trim_space
fetched = refl

parsed : web.parse (bytes "https://h/in/x") ≡ some (url_at (bytes "h") (bytes "/in/x"))
unfolding text_eq
parsed = refl

-- A file system in which /data is a link to /mnt, and whose relative paths go down or one up.
abbrev disk : Files
disk = record {
  abs = λ p. some p;
  eval_symlinks = λ p. if text_eq p (bytes "/data") then some (bytes "/mnt") else none;
  dir = λ p. bytes "/data";
  base = λ p. bytes "x";
  join = λ a b. a ++ bytes "/" ++ b;
  rel = λ d t.
      if has_prefix t (d ++ bytes "/") then some (drop (length d + 1) t) else some (bytes "..");
}

abbrev no_scheme : Net
no_scheme = record {
  parse = λ t. some (record { scheme = []; host = []; hostname = []; path = t });
  lookup_ip = λ h. none;
}

new_output : check_path_allowed no_scheme disk entries (bytes "/data/x") ≡ done tt
unfolding check_path_allowed text_eq to_lower trim_space has_prefix
new_output = refl

check_path_allowed-IsConfined_example :
    (u : Url) × (no_scheme.parse (bytes "/data/x") ≡ some u)
    × IsConfined no_scheme disk entries (bytes "/data/x") u
check_path_allowed-IsConfined_example =
    check_path_allowed-IsConfined no_scheme disk (bytes "/data") (bytes " https://h/in" ∷ [])
      (bytes "/data/x") new_output
