-- ===== src/Pack/Clean.antt =====
-- Go's path.Clean on slash-separated byte strings, and ValidateLogicalPath of
-- internal/pack/path.go.
pub mod Split
pub mod Stack
pub mod Safe
use mathlib.Core.List.{reverse}
use airgap_mirror.Prelude.{
  ℕ, Bool, true, false, not, ◌&&◌, ◌||◌, Option, none, some, List, [], ◌∷◌, ◌++◌, beq, ◌==◌,
  if◌then◌else◌,
}
use airgap_mirror.Domain.Status.{Text}
use airgap_mirror.Domain.Transitions.{Err}

abbrev pub dot : Text
dot = b'.' ∷ []

abbrev pub dot_dot : Text
dot_dot = b'.' ∷ b'.' ∷ []

add_to_first : ℕ → List Text → List Text
add_to_first c [] = (c ∷ []) ∷ []
add_to_first c (s ∷ ss) = (c ∷ s) ∷ ss

-- strings.Split(p, "/"), which has one segment more than there are slashes.
unfoldable pub split : Text → List Text
unfolding add_to_first
split [] = [] ∷ []
split (c ∷ cs) = let rest = split cs in if c == b'/' then [] ∷ rest else add_to_first c rest

-- strings.Join(ss, "/")
unfoldable pub join : List Text → Text
join [] = []
join (s ∷ []) = s
join (s ∷ t ∷ ss) = s ++ b'/' ∷ join (t ∷ ss)

-- `..` takes the last segment away; with none to take it stays, but for a rooted path.
pop : Bool → List Text → List Text
pop rooted [] = if rooted then [] else dot_dot ∷ []
pop rooted (s ∷ stack) = if beq s dot_dot then dot_dot ∷ s ∷ stack else stack

-- The segments kept so far, the last one first.
unfoldable pub clean_segments : Bool → List Text → List Text → List Text
unfolding pop
clean_segments rooted stack [] = stack
clean_segments rooted stack (s ∷ ss) =
    clean_segments rooted
      (if beq s [] || beq s dot
        then stack
        else if beq s dot_dot
        then pop rooted stack
        else s ∷ stack)
      ss

or_dot : List Text → Text
or_dot [] = dot
or_dot (s ∷ ss) = join (s ∷ ss)

is_rooted : Text → Bool
is_rooted [] = false
is_rooted (c ∷ _) = c == b'/'

unfoldable pub clean : Text → Text
unfolding clean_segments split join or_dot is_rooted
clean p =
    if is_rooted p
    then b'/' ∷ join (reverse (clean_segments true [] (split p)))
    else or_dot (reverse (clean_segments false [] (split p)))

pub contains : ℕ → Text → Bool
contains c [] = false
contains c (x ∷ xs) = x == c || contains c xs

unfoldable pub has_prefix : Text → Text → Bool
has_prefix p [] = true
has_prefix [] (_ ∷ _) = false
has_prefix (x ∷ xs) (y ∷ ys) = x == y && has_prefix xs ys

-- len(p) >= 2 && p[1] == ':'
pub has_drive : Text → Bool
has_drive [] = false
has_drive (_ ∷ []) = false
has_drive (_ ∷ c ∷ _) = c == b':'

unfoldable pub validate_logical_path : Text → Option Err
unfolding contains has_prefix has_drive
validate_logical_path p =
    if beq p [] || contains 0 p
    then some Err.other
    else if contains b'\\' p || has_prefix p (b'/' ∷ []) || has_drive p
    then some Err.other
    else let c = clean p in
      if beq c dot || not (beq c p) || beq c dot_dot || has_prefix c (b'.' ∷ b'.' ∷ b'/' ∷ [])
      then some Err.other
      else none
