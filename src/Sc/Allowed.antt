-- ===== src/Sc/Allowed.antt =====
-- What the allowlist of pkg/sc/path_allowlist.go lets be read or written, local or remote.
use capillaries.Prelude.{
  Option-cases, Bool, true, false, List, [], ◌∷◌, Option, none, some, ◌≡◌, ◌⊎◌, inl, inr, Any, All,
  refl, arith, Bool-cases, ap, ◌++◌,
}
use capillaries.Prelude.Text.{Text, bytes, text_eq, text_eq_refl, has_prefix}
use capillaries.Prelude.Trim.{to_lower}
use capillaries.Prelude.Outcome.{done}
use capillaries.Sc.Access.{Net, Url, clean_segments}
use capillaries.Sc.Containment.{Confines, IsPart, check_remote_url_allowed-Confines}
use capillaries.Sc.Paths.{
  Files, check_by_scheme, check_local_path_allowed, check_path_allowed, is_inside, is_local_scheme,
  is_remote_scheme, local_entry, local_loop, local_path_of, real_directory, resolved_path,
  stays_inside,
}

-- The place of an absolute path when links are resolved: that of the path if it exists; if not, that of
-- its parent with the path's last name below it, or the path itself if the parent does not exist.
abbrev pub IsPlace : Files → Text → Text → Type 0
IsPlace fs p q =
    (fs.eval_symlinks p ≡ some q)
    ⊎ ((fs.eval_symlinks p ≡ none)
        × (parent : Text) × (fs.eval_symlinks (fs.dir p) ≡ some parent)
        × (q ≡ fs.join parent (fs.base p)))
    ⊎ ((fs.eval_symlinks p ≡ none) × (fs.eval_symlinks (fs.dir p) ≡ none) × (q ≡ p))

-- The place of a directory when links are resolved, or the directory itself if it does not exist.
abbrev pub IsRealDirectory : Files → Text → Text → Type 0
IsRealDirectory fs d q = (fs.eval_symlinks d ≡ some q) ⊎ ((fs.eval_symlinks d ≡ none) × (q ≡ d))

-- A relative path that does not lead up: it is not `..`, does not begin with `../`, and does not begin
-- with a slash.
abbrev pub IsBelow : Text → Type 0
IsBelow rel =
    (rel ≡ bytes ".." → ⊥)
    × ((x : Text) → rel ≡ bytes "../" ++ x → ⊥)
    × ((x : Text) → rel ≡ bytes "/" ++ x → ⊥)

-- The entry is a directory, and the way from the place of it to the target does not lead up.
abbrev pub Encloses : Net → Files → Text → Text → Type 0
Encloses net fs target entry =
    (d : Text) × (a : Text) × (real : Text) × (rel : Text) × (local_entry net entry ≡ some d)
    × (fs.abs d ≡ some a)
    × IsRealDirectory fs a real
    × (fs.rel real target ≡ some rel)
    × IsBelow rel

resolved_path-IsPlace : (fs : Files) (p : Text) → IsPlace fs p (resolved_path fs p)
unfolding resolved_path
resolved_path-IsPlace fs p = elim (Option-cases (fs.eval_symlinks p)) [
  | inr (q, e) ↦ inl (ground (arith, e))
  | inl e ↦ elim (Option-cases (fs.eval_symlinks (fs.dir p))) [
    | inr (parent, f) ↦ inr (inl (e, parent, f, ground (arith, e, f)))
    | inl f ↦ inr (inr (e, f, ground (arith, e, f)))
  ]
]

real_directory-IsRealDirectory :
    (fs : Files) (d : Text) → IsRealDirectory fs d (real_directory fs d)
unfolding real_directory
real_directory-IsRealDirectory fs d = elim (Option-cases (fs.eval_symlinks d)) [
  | inr (q, e) ↦ inl (ground (arith, e))
  | inl e ↦ inr (e, ground (arith, e))
]

climbs : (x : Text) → has_prefix (bytes "../" ++ x) (bytes "../") ≡ true
unfolding has_prefix
climbs x = refl

rooted : (x : Text) → has_prefix (bytes "/" ++ x) (bytes "/") ≡ true
unfolding has_prefix
rooted x = refl

stays_inside-IsBelow :
    (o : Option Text) → stays_inside o ≡ true → (rel : Text) × (o ≡ some rel) × IsBelow rel
unfolding stays_inside
stays_inside-IsBelow none h = absurd (ground arith)
stays_inside-IsBelow (some rel) h = (
  rel,
  refl,
  (
    (λ e. ground (arith, h, text_eq_refl (bytes ".."), ap (λ r. text_eq r (bytes "..")) e)),
    (λ x e. ground (arith, h, climbs x, ap (λ r. has_prefix r (bytes "../")) e)),
    (λ x e. ground (arith, h, rooted x, ap (λ r. has_prefix r (bytes "/")) e)),
  ),
)

directory_of :
    (fs : Files) (o : Option Text) (target : Text)
    → is_inside fs o target ≡ true
    → (a : Text) × (o ≡ some a) × (stays_inside (fs.rel (real_directory fs a) target) ≡ true)
unfolding is_inside
directory_of fs none target h = absurd (ground arith)
directory_of fs (some a) target h = (a, refl, h)

local_loop-Encloses :
    (net : Net) (fs : Files) (target : Text) (entries : List Text) (saw : Bool)
    → local_loop net fs target entries saw ≡ done tt
    → Any (Encloses net fs target) entries
unfolding local_loop
local_loop-Encloses net fs target [] saw h = absurd (ground arith)
local_loop-Encloses net fs target (e ∷ es) saw h = elim (Option-cases (local_entry net e)) [
  | inl q ↦ inr (local_loop-Encloses net fs target es saw (ground arith))
  | inr (d, q) ↦ elim (Bool-cases (is_inside fs (fs.abs d) target)) [
    | inl m ↦
        let at_dir = directory_of fs (fs.abs d) target m in
        let real = real_directory fs at_dir.0 in
        let below = stays_inside-IsBelow (fs.rel real target) at_dir.2 in
        inl (
          d,
          at_dir.0,
          real,
          below.0,
          q,
          at_dir.1,
          real_directory-IsRealDirectory fs at_dir.0,
          below.1,
          below.2,
        )
    | inr m ↦ inr (local_loop-Encloses net fs target es true (ground arith))
  ]
]

-- The path has a place in the file system, inside one of the directories.
abbrev pub IsEnclosed : Net → Files → List Text → Text → Type 0
IsEnclosed net fs entries local_path =
    (p : Text) × (q : Text) × (fs.abs local_path ≡ some p)
    × IsPlace fs p q
    × Any (Encloses net fs q) entries

check_local_path_allowed-IsEnclosed :
    (net : Net) (fs : Files) (entries : List Text) (local_path : Text)
    → check_local_path_allowed net fs entries local_path ≡ done tt
    → IsEnclosed net fs entries local_path
unfolding check_local_path_allowed
check_local_path_allowed-IsEnclosed net fs entries local_path h =
    elim (Option-cases (fs.abs local_path)) [
      | inl q ↦ absurd (ground arith)
      | inr (p, q) ↦ (
        p,
        resolved_path fs p,
        q,
        resolved_path-IsPlace fs p,
        local_loop-Encloses net fs (resolved_path fs p) entries false (ground arith),
      )
    ]

-- What a check with a list of entries lets through: a local path inside one of the directories, or an
-- address below one of the remote prefixes.
unfoldable pub IsConfined : Net → Files → List Text → Text → Url → Type 0
IsConfined net fs entries file_url u =
    ((is_local_scheme (to_lower u.scheme) ≡ true)
      × IsEnclosed net fs entries (local_path_of file_url u))
    ⊎ ((is_remote_scheme (to_lower u.scheme) ≡ true)
        × Any (Confines net u) entries
        × All IsPart (clean_segments u.path))

check_by_scheme-IsConfined :
    (net : Net) (fs : Files) (entries : List Text) (file_url : Text) (u : Url)
    → check_by_scheme net fs entries file_url (some u) ≡ done tt
    → IsConfined net fs entries file_url u
unfolding check_by_scheme IsConfined
check_by_scheme-IsConfined net fs entries file_url u h =
    elim (Bool-cases (is_local_scheme (to_lower u.scheme))) [
      | inl l ↦ inl (
        l,
        check_local_path_allowed-IsEnclosed net fs entries (local_path_of file_url u)
            (ground arith),
      )
      | inr l ↦ elim (Bool-cases (is_remote_scheme (to_lower u.scheme))) [
        | inl r ↦
            let ok = check_remote_url_allowed-Confines net entries u (ground arith) in
            inr (r, ok.0, ok.1)
        | inr r ↦ absurd (ground arith)
      ]
    ]

-- When the allowlist has entries, what checkPathAllowed accepts is a url that can be parsed and is
-- either a local path or an address below one of the remote prefixes of the list. The relative path from
-- some local directory of the list to the local path, both with the links resolved, is not `..` and
-- begins neither with `../` nor with `/`.
pub check_path_allowed-IsConfined :
    (net : Net) (fs : Files) (first : Text) (rest : List Text) (file_url : Text)
    → check_path_allowed net fs (first ∷ rest) file_url ≡ done tt
    → (u : Url) × (net.parse file_url ≡ some u) × IsConfined net fs (first ∷ rest) file_url u
unfolding check_path_allowed check_by_scheme
check_path_allowed-IsConfined net fs first rest file_url h =
    elim (Option-cases (net.parse file_url)) [
      | inl q ↦ absurd (ground arith)
      | inr (u, q) ↦ (u, q, check_by_scheme-IsConfined net fs (first ∷ rest) file_url u (cc (h, q)))
    ]
