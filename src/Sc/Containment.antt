-- ===== src/Sc/Containment.antt =====
-- What the allowlist of pkg/sc/path_allowlist.go lets a remote address reach.
use capillaries.Prelude.{
  Option-cases, ◌≡◌, ◌≢◌, refl, ap, Bool, true, false, ◌||◌, List, [], ◌∷◌, ◌++◌, some, All,
  All-append, Any, Bool-cases, inl, inr, if_ind, ◌==◌, arith, ℕ,
}
use capillaries.Prelude.Text.{Text, bytes, text_eq, has_prefix, eq_of_text_eq}
use capillaries.Prelude.Trim.{trim_space, segments}
use capillaries.Prelude.Outcome.{done}
use capillaries.Sc.Access.{
  Net, Url, check_remote_url_allowed, clean, clean_segments, equal_fold, is_within, matches_entry,
  remote_entry, remote_loop, resolve, render, rooted, without_last,
}

abbrev NoSlash : Text → Type 0
NoSlash s = All (λ b. b ≢ 47) s

-- A part of a cleaned path: no slash is in it, it is not empty, and it does not climb.
abbrev pub IsPart : Text → Type 0
IsPart s = NoSlash s × (text_eq s [] ≡ false) × (text_eq s (bytes "..") ≡ false)

-- Parts with a slash behind them, in front of texts, are equal when one text starts with the other.
same_part :
    (a t p q : Text)
    → NoSlash a
    → NoSlash t
    → has_prefix (t ++ 47 ∷ q) (a ++ 47 ∷ p) ≡ true
    → (a ≡ t) × (has_prefix q p ≡ true)
unfolding has_prefix
same_part [] [] p q ha ht h = (refl, ground arith)
same_part [] (x ∷ t) p q ha ht h = absurd (ht.0 (ground arith))
same_part (x ∷ a) [] p q ha ht h = absurd (ha.0 (ground arith))
same_part (x ∷ a) (y ∷ t) p q ha ht h =
    let rest : (a ≡ t) × (has_prefix q p ≡ true) = same_part a t p q ha.1 ht.1 (ground arith) in
    (ground (arith, rest), rest.1)

slashed : (ss : List Text) → (q : Text) × (rooted ss ++ 47 ∷ [] ≡ 47 ∷ q)
unfolding rooted
slashed [] = ([], refl)
slashed (s ∷ ss) = ((s ++ rooted ss) ++ 47 ∷ [], refl)

has_prefix_refl : (s : Text) → has_prefix s s ≡ true
unfolding has_prefix
has_prefix_refl [] = refl
has_prefix_refl (b ∷ s) = ground (arith, has_prefix_refl s)

has_prefix-append : (s p q : Text) → has_prefix s p ≡ true → has_prefix (s ++ q) p ≡ true
unfolding has_prefix
has_prefix-append [] [] [] h = refl
has_prefix-append [] [] (x ∷ q) h = refl
has_prefix-append [] (y ∷ p) q h = ground arith
has_prefix-append (x ∷ s) [] q h = refl
has_prefix-append (x ∷ s) (y ∷ p) q h = ground (arith, has_prefix-append s p q)

append_assoc : (xs ys zs : Text) → (xs ++ ys) ++ zs ≡ xs ++ (ys ++ zs)
append_assoc [] ys zs = refl
append_assoc (x ∷ xs) ys zs = ap (λ r. x ∷ r) (append_assoc xs ys zs)

-- The first part of a slashed path, with what follows it.
first_part :
    (s : Text)
    → (ss : List Text) → (rooted (s ∷ ss) ++ 47 ∷ [] ≡ 47 ∷ (s ++ (rooted ss ++ 47 ∷ [])))
unfolding rooted
first_part s ss = ap (λ r. 47 ∷ r) (append_assoc s (rooted ss) (47 ∷ []))

after_slash : (s t : Text) → has_prefix (47 ∷ t) (47 ∷ s) ≡ has_prefix t s
unfolding has_prefix
after_slash s t = refl

same_first :
    (s t : Text) (ss ts : List Text)
    → NoSlash s
    → NoSlash t
    → has_prefix (rooted (t ∷ ts) ++ 47 ∷ []) (rooted (s ∷ ss) ++ 47 ∷ []) ≡ true
    → (s ≡ t) × (has_prefix (rooted ts ++ 47 ∷ []) (rooted ss ++ 47 ∷ []) ≡ true)
same_first s t ss ts hs ht h =
    let p : (q : Text) × (rooted ss ++ 47 ∷ [] ≡ 47 ∷ q) = slashed ss in
    let q : (r : Text) × (rooted ts ++ 47 ∷ [] ≡ 47 ∷ r) = slashed ts in
    let first : has_prefix (t ++ 47 ∷ q.0) (s ++ 47 ∷ p.0) ≡ true = cc (
      h,
      first_part s ss,
      first_part t ts,
      p.1,
      q.1,
      after_slash (s ++ (rooted ss ++ 47 ∷ [])) (t ++ (rooted ts ++ 47 ∷ [])),
    ) in
    let same : (s ≡ t) × (has_prefix q.0 p.0 ≡ true) = same_part s t p.0 q.0 hs ht first in
    (same.0, cc (same.1, p.1, q.1, after_slash p.0 q.0))

too_short :
    (s : Text) (ss : List Text)
    → has_prefix (rooted [] ++ 47 ∷ []) (rooted (s ∷ ss) ++ 47 ∷ []) ≡ true
    → ⊥
unfolding has_prefix rooted
too_short [] ss h =
    let p : (q : Text) × (rooted ss ++ 47 ∷ [] ≡ 47 ∷ q) = slashed ss in
    let no : has_prefix [] (47 ∷ p.0) ≡ true = cc (h, p.1) in absurd (ground arith)
too_short (x ∷ s) ss h = absurd (ground arith)

-- Parts that a slashed path starts with are the first of its parts.
prefix_parts :
    (ss ts : List Text)
    → All NoSlash ss
    → All NoSlash ts
    → has_prefix (rooted ts ++ 47 ∷ []) (rooted ss ++ 47 ∷ []) ≡ true
    → (rest : List Text) × (ts ≡ ss ++ rest)
prefix_parts [] ts hs ht h = (ts, refl)
prefix_parts (s ∷ ss) [] hs ht h = absurd (too_short s ss h)
prefix_parts (s ∷ ss) (t ∷ ts) hs ht h =
    let same : (s ≡ t) × (has_prefix (rooted ts ++ 47 ∷ []) (rooted ss ++ 47 ∷ []) ≡ true) =
      same_first s t ss ts hs.0 ht.0 h in
    let more : (rest : List Text) × (ts ≡ ss ++ rest) = prefix_parts ss ts hs.1 ht.1 same.1 in
    (more.0, cc (same.0, more.1))

add_to_first :
    (b : ℕ) (ss : List Text)
    → b ≢ 47
    → All NoSlash ss
    → All NoSlash (elim ss [ [] ↦ (b ∷ []) ∷ [] | (r ∷ rs) ↦ (b ∷ r) ∷ rs ])
add_to_first b [] hb h = ((hb, tt), tt)
add_to_first b (r ∷ rs) hb h = ((hb, h.0), h.1)

segments-NoSlash : (p : Text) → All NoSlash (segments p)
unfolding segments
segments-NoSlash [] = (tt, tt)
segments-NoSlash (b ∷ p) =
    let rest : All NoSlash (segments p) = segments-NoSlash p in
    if_ind (All NoSlash) (b == 47) _ _ (λ e. (tt, rest))
      (λ e. add_to_first b (segments p) (ground arith) rest)

without_last-IsPart : (ss : List Text) → All IsPart ss → All IsPart (without_last ss)
unfolding without_last
without_last-IsPart [] h = tt
without_last-IsPart (s ∷ []) h = tt
without_last-IsPart (s ∷ t ∷ ss) h = (h.0, without_last-IsPart (t ∷ ss) h.1)

resolve-IsPart :
    (kept ss : List Text) → All IsPart kept → All NoSlash ss → All IsPart (resolve kept ss)
unfolding resolve
resolve-IsPart kept [] hk hs = hk
resolve-IsPart kept (s ∷ ss) hk hs =
    if_ind (All IsPart) (text_eq s [] || text_eq s (bytes ".")) _ _
      (λ e. resolve-IsPart kept ss hk hs.1)
      (λ e.
        if_ind (All IsPart) (text_eq s (bytes "..")) _ _
          (λ d. resolve-IsPart (without_last kept) ss (without_last-IsPart kept hk) hs.1)
          (λ d.
            resolve-IsPart (kept ++ s ∷ []) ss
              (All-append IsPart kept (s ∷ []) hk ((hs.0, ground arith, d), tt)) hs.1))

clean_segments-IsPart : (p : Text) → All IsPart (clean_segments p)
unfolding clean_segments
clean_segments-IsPart p = resolve-IsPart [] (segments p) tt (segments-NoSlash p)

parts_slash_free : (ss : List Text) → All IsPart ss → All NoSlash ss
parts_slash_free [] h = tt
parts_slash_free (s ∷ ss) h = (h.0.0, parts_slash_free ss h.1)

within_or_equal :
    (p q : Text)
    → text_eq q p || has_prefix q (p ++ 47 ∷ []) ≡ true
    → has_prefix (q ++ 47 ∷ []) (p ++ 47 ∷ []) ≡ true
within_or_equal p q h = elim (Bool-cases (text_eq q p)) [
  | inl e ↦ cc (eq_of_text_eq q p e, has_prefix_refl (p ++ 47 ∷ []))
  | inr e ↦ has_prefix-append q (p ++ 47 ∷ []) (47 ∷ []) (ground arith)
]

within-prefix :
    (s : Text) (ss ts : List Text)
    → text_eq s [] ≡ false
    → is_within (render (s ∷ ss)) (render ts) ≡ true
    → has_prefix (rooted ts ++ 47 ∷ []) (rooted (s ∷ ss) ++ 47 ∷ []) ≡ true
unfolding is_within render rooted text_eq has_prefix
within-prefix [] ss ts hs h = absurd (ground arith)
within-prefix (x ∷ s) ss [] hs h = absurd (ground arith)
within-prefix (x ∷ s) ss (t ∷ ts) hs h = within_or_equal (rooted ((x ∷ s) ∷ ss)) (rooted (t ∷ ts)) h

-- A path of parts that is within another goes on from its parts.
within-extends :
    (ss ts : List Text)
    → All IsPart ss
    → All IsPart ts
    → is_within (render ss) (render ts) ≡ true
    → (rest : List Text) × (ts ≡ ss ++ rest)
unfolding is_within
within-extends [] ts hs ht h = (ts, refl)
within-extends (s ∷ ss) ts hs ht h =
    prefix_parts (s ∷ ss) ts (parts_slash_free (s ∷ ss) hs) (parts_slash_free ts ht)
      (within-prefix s ss ts hs.0.1 h)

-- The entry is a remote prefix whose scheme and host are the target's, and the target's path, once
-- cleaned, goes on from the entry's, without climbing.
unfoldable pub Confines : Net → Url → Text → Type 0
Confines net u entry =
    (au : Url) × (net.parse (trim_space entry) ≡ some au)
    × (equal_fold au.scheme u.scheme ≡ true)
    × (equal_fold au.host u.host ≡ true)
    × (rest : List Text) × (clean_segments u.path ≡ clean_segments au.path ++ rest)

remote_entry-parsed :
    (net : Net) (entry : Text) (au : Url)
    → remote_entry net entry ≡ some au
    → net.parse (trim_space entry) ≡ some au
unfolding remote_entry
remote_entry-parsed net entry au h = ground arith

matches_entry-Confines :
    (net : Net) (u : Url) (entry : Text) (au : Url)
    → remote_entry net entry ≡ some au
    → matches_entry u au ≡ true
    → Confines net u entry
unfolding Confines matches_entry clean
matches_entry-Confines net u entry au h m =
    let more : (rest : List Text) × (clean_segments u.path ≡ clean_segments au.path ++ rest) =
      within-extends (clean_segments au.path) (clean_segments u.path)
        (clean_segments-IsPart au.path) (clean_segments-IsPart u.path) (ground arith) in
    (au, remote_entry-parsed net entry au h, ground arith, ground arith, more.0, more.1)

remote_loop-Confines :
    (net : Net) (u : Url) (entries : List Text) (saw : Bool)
    → remote_loop net u entries saw ≡ done tt
    → Any (Confines net u) entries
unfolding remote_loop
remote_loop-Confines net u [] saw h = absurd (ground arith)
remote_loop-Confines net u (e ∷ es) saw h = elim (Option-cases (remote_entry net e)) [
  | inl q ↦ inr (remote_loop-Confines net u es saw (ground arith))
  | inr (au, q) ↦ elim (Bool-cases (matches_entry u au)) [
    | inl m ↦ inl (matches_entry-Confines net u e au q m)
    | inr m ↦ inr (remote_loop-Confines net u es true (ground arith))
  ]
]

-- Of a remote address that checkRemoteUrlAllowed accepts, some entry of the allowlist has the scheme
-- and the host, and the parts of the cleaned path of that entry are the first parts of the cleaned
-- path of the address, none of which climbs.
pub check_remote_url_allowed-Confines :
    (net : Net) (allowed_paths : List Text) (u : Url)
    → check_remote_url_allowed net allowed_paths u ≡ done tt
    → Any (Confines net u) allowed_paths × All IsPart (clean_segments u.path)
unfolding check_remote_url_allowed
check_remote_url_allowed-Confines net allowed_paths u h =
    (remote_loop-Confines net u allowed_paths false h, clean_segments-IsPart u.path)
