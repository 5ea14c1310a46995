-- ===== src/Pack/Clean/Stack.antt =====
-- The stack of path.Clean on a relative path: `..` segments below, names above.
use mathlib.Core.List.{reverse_aux}
use airgap_mirror.Prelude.{
  Bool, ◌≡◌, ◌≢◌, ◌⊎◌, refl, ap, inl, inr, false, ◌||◌, List, [], ◌∷◌, All, beq, beq_iff,
  Bool-cases, if◌then◌else◌, arith,
}
use airgap_mirror.Domain.Status.{Text}
use airgap_mirror.Pack.Clean.{dot, dot_dot, pop, clean_segments, contains}
use airgap_mirror.Pack.Clean.Split.{NoSlash}

-- A segment that names a file or a directory of its own.
abbrev pub IsName : Text → Type 0
IsName s = (s ≢ []) × (s ≢ dot) × (s ≢ dot_dot)

pub clean_segments-names :
    (rooted : Bool) (stack ss : List Text)
    → All IsName ss
    → clean_segments rooted stack ss ≡ reverse_aux ss stack
unfolding clean_segments
clean_segments-names rooted stack [] h = refl
clean_segments-names rooted stack (s ∷ ss) h = ground (
  arith,
  beq_iff s [],
  beq_iff s dot,
  beq_iff s dot_dot,
  clean_segments-names rooted (s ∷ stack) ss h.1,
)

-- The stack of a relative path: names on top of `..` segments.
abbrev Shape : List Text → Type 0
Shape [] = Unit
Shape (s ∷ r) = (IsName s × Shape r) ⊎ ((s ≡ dot_dot) × All (λ t. t ≡ dot_dot) r)

abbrev next_stack : List Text → Text → List Text
next_stack stack s =
    if beq s [] || beq s dot then stack else if beq s dot_dot then pop false stack else s ∷ stack

pop-Shape : (stack : List Text) → Shape stack → Shape (pop false stack)
unfolding pop
pop-Shape [] h = inr (refl, tt)
pop-Shape (t ∷ r) h = ground (arith, beq_iff t dot_dot)

next-Shape : (stack : List Text) (s : Text) → Shape stack → Shape (next_stack stack s)
next-Shape stack s h = elim (Bool-cases (beq s [] || beq s dot)) [
  | inl skip ↦ rw skip h
  | inr keep ↦ rw keep (elim (Bool-cases (beq s dot_dot)) [
    | inl up ↦ rw up (pop-Shape stack h)
    | inr name ↦ rw name (inl (plain keep name, h))
  ])
]
  where
    plain : (beq s [] || beq s dot) ≡ false → beq s dot_dot ≡ false → IsName s
    plain keep name = (
      λ e. ground (arith, beq_iff s []),
      λ e. ground (arith, beq_iff s dot),
      λ e. ground (arith, beq_iff s dot_dot),
    )

pop-NoSlash : (stack : List Text) → All NoSlash stack → All NoSlash (pop false stack)
unfolding pop contains
pop-NoSlash [] h = (refl, tt)
pop-NoSlash (t ∷ r) h = elim (Bool-cases (beq t dot_dot)) [
  | inl y ↦ rw y (refl, h)
  | inr n ↦ rw n h.1
]

next-NoSlash :
    (stack : List Text) (s : Text)
    → NoSlash s
    → All NoSlash stack
    → All NoSlash (next_stack stack s)
next-NoSlash stack s n h = elim (Bool-cases (beq s [] || beq s dot)) [
  | inl skip ↦ rw skip h
  | inr keep ↦ rw keep (elim (Bool-cases (beq s dot_dot)) [
    | inl up ↦ rw up (pop-NoSlash stack h)
    | inr name ↦ rw name (n, h)
  ])
]

clean_segments-Shape : (stack ss : List Text) → Shape stack → Shape (clean_segments false stack ss)
unfolding clean_segments
clean_segments-Shape stack [] h = h
clean_segments-Shape stack (s ∷ ss) h =
    clean_segments-Shape (next_stack stack s) ss (next-Shape stack s h)

clean_segments-NoSlash :
    (stack ss : List Text)
    → All NoSlash ss
    → All NoSlash stack
    → All NoSlash (clean_segments false stack ss)
unfolding clean_segments
clean_segments-NoSlash stack [] n h = h
clean_segments-NoSlash stack (s ∷ ss) n h =
    clean_segments-NoSlash (next_stack stack s) ss n.1 (next-NoSlash stack s n.0 h)

All-reverse_aux :
    (P : Text → Type 0) (xs ys : List Text) → All P xs → All P ys → All P (reverse_aux xs ys)
All-reverse_aux P [] ys hx hy = hy
All-reverse_aux P (x ∷ xs) ys hx hy = All-reverse_aux P xs (x ∷ ys) hx.1 (hx.0, hy)

-- Turned round, a stack is all names, or starts with `..`.
abbrev pub Turned : List Text → Type 0
Turned out = All IsName out ⊎ ((r : List Text) × (out ≡ dot_dot ∷ r))

turn_dots :
    (s : Text) (r ys : List Text)
    → s ≡ dot_dot
    → All (λ t. t ≡ dot_dot) r
    → (q : List Text) × (reverse_aux (s ∷ r) ys ≡ dot_dot ∷ q)
turn_dots s [] ys e h = (ys, ap (λ t. t ∷ ys) e)
turn_dots s (t ∷ r) ys e h = turn_dots t r (s ∷ ys) h.0 h.1

turn-Shape : (stack ys : List Text) → Shape stack → All IsName ys → Turned (reverse_aux stack ys)
turn-Shape [] ys h n = inl n
turn-Shape (s ∷ r) ys (inl (a, b)) n = turn-Shape r (s ∷ ys) b (a, n)
turn-Shape (s ∷ r) ys (inr (a, b)) n = inr (turn_dots s r ys a b)

-- What path.Clean makes of a relative path: no slash in a segment, and all names unless it starts
-- with `..`.
pub cleaned-NoSlash :
    (ss : List Text) → All NoSlash ss → All NoSlash (reverse_aux (clean_segments false [] ss) [])
cleaned-NoSlash ss n = All-reverse_aux NoSlash _ [] (clean_segments-NoSlash [] ss n tt) tt

pub cleaned-Turned : (ss : List Text) → Turned (reverse_aux (clean_segments false [] ss) [])
cleaned-Turned ss = turn-Shape _ [] (clean_segments-Shape [] ss tt) tt
