-- ===== src/Sc/Paths.antt =====
-- The rest of pkg/sc/path_allowlist.go: paths of the local file system, and the choice between them
-- and remote addresses. The functions of filepath are parameters.
use capillaries.Prelude.{
  Bool, true, false, not, ◌&&◌, ◌||◌, List, [], ◌∷◌, Option, none, some, if◌then◌else◌,
}
use capillaries.Prelude.Text.{Text, bytes, text_eq, has_prefix}
use capillaries.Prelude.Trim.{to_lower, trim_space}
use capillaries.Prelude.Outcome.{Outcome, done, error}
use capillaries.Sc.Access.{
  AccessError, Net, Url, cannot_parse, cannot_resolve_path, check_remote_url_allowed,
  contains_separator, equal_fold, not_within_directories, only_remote_permitted, unsupported_scheme,
}

pub record Files : Type 0 where
  pub abs : Text → Option Text
  pub eval_symlinks : Text → Option Text
  pub dir : Text → Text
  pub base : Text → Text
  pub join : Text → Text → Text
  pub rel : Text → Text → Option Text

-- The path with its links resolved or, for a leaf that does not exist, those of its parent.
unfoldable pub resolved_path : Files → Text → Text
resolved_path fs p = elim (fs.eval_symlinks p) [
  | some q ↦ q
  | none ↦ elim (fs.eval_symlinks (fs.dir p)) [
    | some parent ↦ fs.join parent (fs.base p)
    | none ↦ p
  ]
]

unfoldable pub file_directory : Option Url → Option Text
unfolding equal_fold
file_directory none = none
file_directory (some eu) = if equal_fold eu.scheme (bytes "file") then some eu.path else none

-- The directory of an entry that is a local one.
unfoldable pub local_entry : Net → Text → Option Text
unfolding file_directory contains_separator
local_entry net entry =
    let e = trim_space entry in
    if text_eq e []
    then none
    else if contains_separator e
    then file_directory (net.parse e)
    else some e

unfoldable pub real_directory : Files → Text → Text
real_directory fs d = elim (fs.eval_symlinks d) [ none ↦ d | some q ↦ q ]

-- A relative path that does not climb; one that starts with a slash is absolute.
unfoldable pub stays_inside : Option Text → Bool
stays_inside none = false
stays_inside (some rel) =
    not (text_eq rel (bytes ".."))
    && not (has_prefix rel (bytes "../"))
    && not (has_prefix rel (bytes "/"))

unfoldable pub is_inside : Files → Option Text → Text → Bool
unfolding stays_inside real_directory
is_inside fs none target = false
is_inside fs (some d) target = stays_inside (fs.rel (real_directory fs d) target)

-- The loop of checkLocalPathAllowed; the flag is sawLocalEntry.
unfoldable pub local_loop : Net → Files → Text → List Text → Bool → Outcome AccessError (Unit {0})
unfolding local_entry is_inside
local_loop net fs target [] saw =
    error (if saw then not_within_directories else only_remote_permitted)
local_loop net fs target (entry ∷ entries) saw = elim (local_entry net entry) [
  | none ↦ local_loop net fs target entries saw
  | some d ↦
      if is_inside fs (fs.abs d) target then done tt else local_loop net fs target entries true
]

unfoldable pub check_local_path_allowed :
    Net → Files → List Text → Text → Outcome AccessError (Unit {0})
unfolding local_loop resolved_path
check_local_path_allowed net fs allowed_paths local_path = elim (fs.abs local_path) [
  | none ↦ error cannot_resolve_path
  | some p ↦ local_loop net fs (resolved_path fs p) allowed_paths false
]

abbrev pub is_local_scheme : Text → Bool
is_local_scheme s = text_eq s [] || text_eq s (bytes "file")

abbrev pub is_remote_scheme : Text → Bool
is_remote_scheme s =
    text_eq s (bytes "http")
    || text_eq s (bytes "https")
    || text_eq s (bytes "sftp")
    || text_eq s (bytes "s3")

unfoldable pub local_path_of : Text → Url → Text
unfolding equal_fold
local_path_of file_url u = if equal_fold u.scheme (bytes "file") then u.path else file_url

unfoldable pub check_by_scheme :
    Net → Files → List Text → Text → Option Url → Outcome AccessError (Unit {0})
unfolding check_local_path_allowed check_remote_url_allowed local_path_of
check_by_scheme net fs allowed_paths file_url none = error cannot_parse
check_by_scheme net fs allowed_paths file_url (some u) =
    if is_local_scheme (to_lower u.scheme)
    then check_local_path_allowed net fs allowed_paths (local_path_of file_url u)
    else if is_remote_scheme (to_lower u.scheme)
    then check_remote_url_allowed net allowed_paths u
    else error unsupported_scheme

-- checkPathAllowed; an empty allowlist switches the check off.
unfoldable pub check_path_allowed : Net → Files → List Text → Text → Outcome AccessError (Unit {0})
unfolding check_by_scheme
check_path_allowed net fs [] file_url = done tt
check_path_allowed net fs (a ∷ rest) file_url =
    check_by_scheme net fs (a ∷ rest) file_url (net.parse file_url)
