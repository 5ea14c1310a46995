-- ===== src/Pack/Clean/Safe.antt =====
-- ValidateLogicalPath accepts exactly the relative paths of plain names.
use mathlib.Core.List.{reverse_aux, reverse-reverse}
use mathlib.Core.Path.{subst}
use airgap_mirror.Prelude.{
  ◌≡◌, ◌↔◌, refl, ap, sym, ◌∙◌, inl, inr, Bool, true, false, none, List, [], ◌∷◌, ◌++◌, All, beq,
  beq_refl, beq_eq, beq_iff, ◌==◌, ==_eq, arith, &&-true,
}
use airgap_mirror.Domain.Status.{Text}
use airgap_mirror.Pack.Clean.{
  dot, dot_dot, split, join, clean_segments, or_dot, is_rooted, clean, contains, has_prefix,
  has_drive, validate_logical_path,
}
use airgap_mirror.Pack.Clean.Split.{NoSlash, join-split, split-join, split-NoSlash, split-cons}
use airgap_mirror.Pack.Clean.Stack.{
  IsName, Turned, clean_segments-names, cleaned-NoSlash, cleaned-Turned,
}

-- A path of one or more names, with no NUL, no backslash and no drive letter. A leading, a trailing
-- or a doubled slash would leave an empty segment.
pub record IsSafe (p : Text) : Type 0 where
  pub names : All IsName (split p)
  pub no_nul : contains 0 p ≡ false
  pub no_backslash : contains b'\\' p ≡ false
  pub no_drive : has_drive p ≡ false

not_true : (b : Bool) → ¬ (b ≡ true) → b ≡ false
not_true true h = absurd (h refl)
not_true false h = refl

has_prefix-append : (p q : Text) → has_prefix p q ≡ true → (r : Text) × (p ≡ q ++ r)
unfolding has_prefix
has_prefix-append p [] h = (p, refl)
has_prefix-append [] (y ∷ ys) h = cc
has_prefix-append (x ∷ xs) (y ∷ ys) h =
    let (a, b) = &&-true (x == y) (has_prefix xs ys) h in
    let (r, e) = has_prefix-append xs ys b in (r, cc (==_eq x y a, e))

is_rooted-cons : (p : Text) → is_rooted p ≡ true → (r : Text) × (p ≡ b'/' ∷ r)
unfolding is_rooted
is_rooted-cons [] h = cc
is_rooted-cons (c ∷ r) h = (r, ap (λ x. x ∷ r) (==_eq c b'/' h))

-- What a path of names does not start with.
module _ (p : Text) (h : All IsName (split p)) where
  names_at : {q : Text} → p ≡ q → All IsName (split q)
  names_at e = subst (λ x. All IsName (split x)) e h

  not-empty : beq p [] ≡ false
  unfolding split
  not-empty = not_true _ λ t. (names_at (beq_eq p [] t)).0.0 refl

  not-dot : beq p dot ≡ false
  unfolding split
  not-dot = not_true _ λ t. (names_at (beq_eq p dot t)).0.1 refl

  not-dot_dot : beq p dot_dot ≡ false
  unfolding split
  not-dot_dot = not_true _ λ t. (names_at (beq_eq p dot_dot t)).0.2 refl

  not-rooted : is_rooted p ≡ false
  unfolding split
  not-rooted = not_true _ λ t. (names_at (is_rooted-cons p t).1).0.0 refl

  not-slash : has_prefix p (b'/' ∷ []) ≡ false
  unfolding split
  not-slash = not_true _ λ t. (names_at (has_prefix-append p (b'/' ∷ []) t).1).0.0 refl

  not-up : has_prefix p (b'.' ∷ b'.' ∷ b'/' ∷ []) ≡ false
  unfolding split
  not-up = not_true _ λ t. (names_at (has_prefix-append p (b'.' ∷ b'.' ∷ b'/' ∷ []) t).1).0.2 refl

or_dot-split : (p : Text) → or_dot (split p) ≡ p
unfolding or_dot
or_dot-split p = let (s, ss, e) = split-cons p in rw e (ap join (sym e) ∙ join-split p)

clean-safe : (p : Text) → All IsName (split p) → clean p ≡ p
unfolding clean
clean-safe p h = rw (not-rooted p h) (
    rw (clean_segments-names false [] (split p) h)
      (rw (reverse-reverse (split p)) (or_dot-split p)))

safe-valid : (p : Text) → IsSafe p → validate_logical_path p ≡ none
unfolding validate_logical_path
safe-valid p s = rw (
  clean-safe p s.names,
  not-empty p s.names,
  s.no_nul,
  s.no_backslash,
  not-slash p s.names,
  s.no_drive,
  not-dot p s.names,
  beq_refl p,
  not-dot_dot p s.names,
  not-up p s.names,
)

valid_tests :
    (p : Text)
    → validate_logical_path p ≡ none
    → (contains 0 p ≡ false)
      × (contains b'\\' p ≡ false)
      × (has_prefix p (b'/' ∷ []) ≡ false)
      × (has_drive p ≡ false)
      × (clean p ≡ p)
      × (beq p [] ≡ false)
      × (beq p dot ≡ false)
      × (beq p dot_dot ≡ false)
      × (has_prefix p (b'.' ∷ b'.' ∷ b'/' ∷ []) ≡ false)
unfolding validate_logical_path
valid_tests p h = ground (arith, beq_iff (clean p) p)

relative : (p : Text) → has_prefix p (b'/' ∷ []) ≡ false → is_rooted p ≡ false
unfolding has_prefix is_rooted
relative [] h = refl
relative (c ∷ cs) h = ground arith

-- A joined path that starts with the segment `..` fails one of the last two tests.
not_up :
    (r : List Text) (p : Text)
    → join (dot_dot ∷ r) ≡ p
    → beq p dot_dot ≡ false
    → has_prefix p (b'.' ∷ b'.' ∷ b'/' ∷ []) ≡ false
    → ⊥
unfolding join has_prefix beq
not_up [] p e a b = cc (e, a)
not_up (t ∷ r) p e a b = cc (e, b)

names_of :
    (out : List Text) (p : Text)
    → or_dot out ≡ p
    → Turned out
    → All NoSlash out
    → beq p dot ≡ false
    → beq p dot_dot ≡ false
    → has_prefix p (b'.' ∷ b'.' ∷ b'/' ∷ []) ≡ false
    → All IsName (split p)
unfolding or_dot
names_of [] p e t n a b c = cc (e, a, beq_refl dot)
names_of (s ∷ ss) p e (inl t) n a b c =
    subst (λ x. All IsName x) (sym (split-join s ss n) ∙ ap split e) t
names_of (s ∷ ss) p e (inr (r, q)) n a b c = absurd (not_up r p (ap join (sym q) ∙ e) b c)

clean-relative :
    (p : Text)
    → is_rooted p ≡ false
    → clean p ≡ or_dot (reverse_aux (clean_segments false [] (split p)) [])
unfolding clean
clean-relative p r = rw r

valid-IsSafe : (p : Text) → validate_logical_path p ≡ none → IsSafe p
valid-IsSafe p h =
    let (nul, back, slash, drive, same, empty, one, two, up) = valid_tests p h in
    record {
      names =
          names_of _ p (sym (clean-relative p (relative p slash)) ∙ same) (cleaned-Turned (split p))
            (cleaned-NoSlash (split p) (split-NoSlash p)) one two up;
      no_nul = nul;
      no_backslash = back;
      no_drive = drive;
    }

-- ValidateLogicalPath accepts a path exactly when each of its segments is a plain name (neither
-- empty nor `.` nor `..`) and it has no NUL byte, no backslash and no drive letter.
pub valid_iff : (p : Text) → (validate_logical_path p ≡ none) ↔ IsSafe p
valid_iff p = (valid-IsSafe p, safe-valid p)
