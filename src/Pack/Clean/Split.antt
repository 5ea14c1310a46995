-- ===== src/Pack/Clean/Split.antt =====
-- strings.Split by "/" and strings.Join are inverse to each other.
use mathlib.Core.Path.{subst}
use airgap_mirror.Prelude.{
  ℕ, ◌≡◌, refl, ap, sym, ◌∙◌, inl, inr, false, List, [], ◌∷◌, ◌++◌, All, ◌==◌, ==_eq, Bool-cases,
  arith,
}
use airgap_mirror.Domain.Status.{Text}
use airgap_mirror.Pack.Clean.{split, join, contains}

abbrev pub NoSlash : Text → Type 0
NoSlash s = contains b'/' s ≡ false

pub split-cons : (p : Text) → (s : Text) × (ss : List Text) × (split p ≡ s ∷ ss)
unfolding split
split-cons [] = ([], [], refl)
split-cons (c ∷ cs) =
    let (s, ss, e) = split-cons cs in
    elim (Bool-cases (c == b'/')) [
      | inl y ↦ ([], split cs, rw y)
      | inr n ↦ (c ∷ s, ss, rw n (rw e))
    ]

join-cons : (c : ℕ) (s : Text) (ss : List Text) → join ((c ∷ s) ∷ ss) ≡ c ∷ join (s ∷ ss)
unfolding join
join-cons c s [] = refl
join-cons c s (t ∷ ss) = refl

join-slash : (s : Text) (ss : List Text) → join ([] ∷ s ∷ ss) ≡ b'/' ∷ join (s ∷ ss)
unfolding join
join-slash s ss = refl

-- Joining the segments of a path gives the path.
pub join-split : (p : Text) → join (split p) ≡ p
unfolding split
join-split [] = unfold join in refl
join-split (c ∷ cs) =
    let (s, ss, e) = split-cons cs in
    elim (Bool-cases (c == b'/')) [
      | inl y ↦ rw y (
          rw e (
            join-slash s ss
            ∙ (ap (λ t. b'/' ∷ t) (ap join (sym e) ∙ join-split cs)
                ∙ ap (λ x. x ∷ cs) (sym (==_eq c b'/' y)))))
      | inr n ↦ rw n (rw e (join-cons c s ss ∙ ap (λ t. c ∷ t) (ap join (sym e) ∙ join-split cs)))
    ]

split_plain : (s : Text) → NoSlash s → split s ≡ s ∷ []
unfolding split contains
split_plain [] h = refl
split_plain (c ∷ cs) h = ground (arith, split_plain cs)

split-append_slash : (s r : Text) → NoSlash s → split (s ++ b'/' ∷ r) ≡ s ∷ split r
unfolding split contains
split-append_slash [] r h = refl
split-append_slash (c ∷ cs) r h = ground (arith, split-append_slash cs r)

-- Splitting what was joined from segments without a slash gives the segments.
pub split-join : (s : Text) (ss : List Text) → All NoSlash (s ∷ ss) → split (join (s ∷ ss)) ≡ s ∷ ss
unfolding join
split-join s [] h = split_plain s h.0
split-join s (t ∷ ss) h =
    split-append_slash s (join (t ∷ ss)) h.0 ∙ ap (λ r. s ∷ r) (split-join t ss h.1)

pub split-NoSlash : (p : Text) → All NoSlash (split p)
unfolding split contains
split-NoSlash [] = (refl, tt)
split-NoSlash (c ∷ cs) =
    let (s, ss, e) = split-cons cs in
    let ih = split-NoSlash cs in
    elim (Bool-cases (c == b'/')) [
      | inl y ↦ rw y (refl, ih)
      | inr n ↦
          let ih' : All NoSlash (s ∷ ss) = subst (λ l. All NoSlash l) e ih in
          rw n (rw e ((rw n ih'.0, ih'.1)))
    ]

pub split-append : (a b : Text) → split (a ++ b'/' ∷ b) ≡ split a ++ split b
unfolding split
split-append [] b = refl
split-append (c ∷ cs) b =
    let (s, ss, e) = split-cons cs in
    elim (Bool-cases (c == b'/')) [
      | inl y ↦ rw y (ap (λ l. [] ∷ l) (split-append cs b))
      | inr n ↦ rw (n, split-append cs b) (rw e refl)
    ]
