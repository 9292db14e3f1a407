-- ===== src/Mq/Routes.antt =====
-- The routes of pkg/exe/mq/capimq.go, and how ServeHTTP picks one. A pattern is matched part by part
-- of the path, which is what its regular expression does: no group of it matches a slash.
use capillaries.Prelude.{
  Bool, true, false, ◌&&◌, ◌||◌, not, List, [], ◌∷◌, ◌++◌, Option, none, some, all, leb, ◌==◌,
  if◌then◌else◌,
}
use capillaries.Prelude.Text.{Text, bytes, text_eq}

pub data Method : Type 0 where
  get post delete other : Method

abbrev pub method_eq : Method → Method → Bool
method_eq get get = true
method_eq post post = true
method_eq delete delete = true
method_eq _ _ = false

-- A part of a pattern: a literal one, `([A-Fa-f0-9-]+)`, `(q|wip)`, `(head|tail|filter)`.
pub data Part : Type 0 where
  literal : Text → Part
  id_group heap_group read_group : Part

-- `[A-Fa-f0-9-]`
abbrev pub is_id_byte : Text → Bool
is_id_byte s =
    all (λ c. leb 48 c && leb c 57 || leb 65 c && leb c 70 || leb 97 c && leb c 102 || c == 45) s

unfoldable pub matches_part : Part → Text → Bool
matches_part (literal l) s = text_eq l s
matches_part id_group s = not (text_eq s []) && is_id_byte s
matches_part heap_group s = text_eq s (bytes "q") || text_eq s (bytes "wip")
matches_part read_group s =
    text_eq s (bytes "head") || text_eq s (bytes "tail") || text_eq s (bytes "filter")

abbrev captured : Part → Text → List Text → List Text
captured (literal l) s found = found
captured _ s found = s ∷ found

-- The groups that the parts capture; `[/]*` leaves empty parts behind the last one.
unfoldable pub match_parts : List Part → List Text → Option (List Text)
unfolding matches_part
match_parts [] rest = if all (λ s. text_eq s []) rest then some [] else none
match_parts (p ∷ ps) [] = none
match_parts (p ∷ ps) (s ∷ rest) =
    let more = match_parts ps rest in
    if matches_part p s
    then elim more [ none ↦ none | some found ↦ some (captured p s found) ]
    else none

-- `route.regex.FindStringSubmatch`, of the parts of a path that begins with a slash.
abbrev after_root : List Part → List Text → Option (List Text)
after_root pattern [] = none
after_root pattern (s ∷ rest) = if text_eq s [] then match_parts pattern rest else none

pub data Handler : Type 0 where
  handle_bulk handle_claim handle_ack handle_heartbeat handle_return : Handler
  handle_count handle_delete handle_head_tail_filter : Handler

pub record Route : Type 0 where
  pub method : Method
  pub pattern : List Part
  pub handler : Handler

abbrev pub route : Method → List Part → Handler → Route
route m p h = record { method = m; pattern = p; handler = h }

unfoldable pub routes : List Route
routes =
    route post (literal (bytes "q") ∷ literal (bytes "bulk") ∷ []) handle_bulk
    ∷ route post (literal (bytes "q") ∷ literal (bytes "claim") ∷ []) handle_claim
    ∷ route delete (literal (bytes "wip") ∷ literal (bytes "ack") ∷ id_group ∷ []) handle_ack
    ∷ route post (literal (bytes "wip") ∷ literal (bytes "heartbeat") ∷ id_group ∷ [])
        handle_heartbeat
    ∷ route post (literal (bytes "wip") ∷ literal (bytes "return") ∷ id_group ∷ []) handle_return
    ∷ route get (heap_group ∷ literal (bytes "count") ∷ []) handle_count
    ∷ route delete (heap_group ∷ []) handle_delete
    ∷ route get (heap_group ∷ read_group ∷ []) handle_head_tail_filter
    ∷ route get (heap_group ∷ read_group ∷ []) handle_head_tail_filter
    ∷ []

-- The handler with the groups, the methods that the path allows, or no such path.
pub data Picked : Type 0 where
  handled : Handler → List Text → Picked
  not_allowed : List Method → Picked
  not_found : Picked

abbrev when_none : List Method → Picked
when_none [] = not_found
when_none (m ∷ ms) = not_allowed (m ∷ ms)

-- The loop of ServeHTTP over the parts of the path, with `allow`.
unfoldable pub pick : List Route → Method → List Text → List Method → Picked
unfolding match_parts
pick [] method parts allow = when_none allow
pick (r ∷ rs) method parts allow = elim (after_root r.pattern parts) [
  | none ↦ pick rs method parts allow
  | some groups ↦
      if method_eq method r.method
      then handled r.handler groups
      else pick rs method parts (allow ++ r.method ∷ [])
]
