-- ===== src/Planner/Pages.antt =====
-- ListUnassignedArtifacts of internal/storage/sqlite/client.go, and the pages in which Plan of
-- internal/service/planner.go reads it.
use mathlib.Core.List.{map, append_assoc}
use mathlib.Core.Path.{subst}
use airgap_mirror.Prelude.{
  ℕ, zero, suc, ◌-◌, ◌≤◌, ◌<◌, ◌≡◌, refl, sym, ap, ◌∙◌, ◌⊎◌, inl, inr, List, [], ◌∷◌, ◌++◌, All,
  All-append, none, some, length, length-drop, take, drop, take-append-drop, lt→ltb, not_lt→ltb,
  arith, Bool-cases,
}
use airgap_mirror.Domain.Status.{Text}
use airgap_mirror.Domain.Transitions.{Err}
use airgap_mirror.Domain.Types.{Epoch}
use airgap_mirror.Planner.{
  Plan, Row, Paged, halted, reached, later, list_unassigned, place, place_rows, place_pages,
  place_all, bad_tombstone,
}

-- The ordinals ascend, from above `n` on.
unfoldable pub Ascends : ℕ → List Row → Type 0
Ascends n [] = Unit
Ascends n (r ∷ rs) = (n < r.0) × Ascends r.0 rs

abbrev pub UpTo : ℕ → Row → Type 0
UpTo n r = r.0 ≤ n

unfoldable pub last_of : ℕ → List Row → ℕ
last_of n [] = n
last_of n (r ∷ rs) = last_of r.0 rs

later-Ascends : (n m : ℕ) (rs : List Row) → n ≤ m → Ascends m rs → later n rs ≡ rs
unfolding later Ascends
later-Ascends n m [] h a = refl
later-Ascends n m (r ∷ rs) h (lt, a) =
    rw (lt→ltb n r.0 (omega arith), later-Ascends n r.0 rs (omega arith) a) refl

later-append : (n : ℕ) (old rs : List Row) → All (UpTo n) old → later n (old ++ rs) ≡ later n rs
unfolding later
later-append n [] rs h = refl
later-append n (r ∷ old) rs (le, h) = rw (not_lt→ltb n r.0 le, later-append n old rs h) refl

last_of_ge : (n : ℕ) (xs ys : List Row) → Ascends n (xs ++ ys) → n ≤ last_of n xs
unfolding last_of Ascends
last_of_ge n [] ys a = omega arith
last_of_ge n (r ∷ xs) ys (lt, a) = omega (arith, last_of_ge r.0 xs ys a)

-- What a page leaves behind it.
Ascends-append :
    (n : ℕ) (xs ys : List Row)
    → Ascends n (xs ++ ys)
    → Ascends (last_of n xs) ys × All (UpTo (last_of n xs)) xs
unfolding last_of Ascends
Ascends-append n [] ys a = (a, tt)
Ascends-append n (r ∷ xs) ys (lt, a) =
    let (rest, upto) = Ascends-append r.0 xs ys a in (rest, (last_of_ge r.0 xs ys a, upto))

All-UpTo : (n m : ℕ) (xs : List Row) → n ≤ m → All (UpTo n) xs → All (UpTo m) xs
All-UpTo n m [] h u = tt
All-UpTo n m (r ∷ xs) h (a, u) = (omega arith, All-UpTo n m xs h u)

module _ (max target now : ℕ) (ids : ℕ → Text) (e : Epoch) where
  -- A page is placed like the beginning of all the artifacts.
  place_rows-append :
      (xs ys : List Row) (n : ℕ) (s : Plan)
      → place_all max target now ids e (map (λ r. r.1) (xs ++ ys)) s
        ≡ elim (place_rows max target now ids e xs n s) [
          | halted err t ↦ (some err, t)
          | reached _ t ↦ place_all max target now ids e (map (λ r. r.1) ys) t
        ]
  unfolding place_all place_rows
  place_rows-append [] ys n s = refl
  place_rows-append (r ∷ xs) ys n s = elim (Bool-cases (bad_tombstone r.1)) [
    | inl h ↦ rw h refl
    | inr h ↦ rw h (place_rows-append xs ys r.0 (place max target now ids e r.1 s))
  ]

  place_rows-last :
      (xs : List Row) (n m : ℕ) (s t : Plan)
      → place_rows max target now ids e xs n s ≡ reached m t
      → m ≡ last_of n xs
  unfolding place_rows last_of
  place_rows-last [] n m s t = λ h. ap (λ p. elim p [ halted _ _ ↦ n | reached l _ ↦ l ]) (sym h)
  place_rows-last (r ∷ xs) n m s t = elim (Bool-cases (bad_tombstone r.1)) [
    | inl h ↦ rw h (λ k. absurd (cc k))
    | inr h ↦ rw h (place_rows-last xs r.0 m (place max target now ids e r.1 s) t)
  ]

  placed_cases :
      (p : Paged)
      → ((err : Err) × (t : Plan) × (p ≡ halted err t)) ⊎ ((m : ℕ) × (t : Plan) × (p ≡ reached m t))
  placed_cases (halted err t) = inl (err, t, refl)
  placed_cases (reached m t) = inr (m, t, refl)

  place_rows-halted :
      (xs ys : List Row) (n : ℕ) (s t : Plan) (err : Err)
      → place_rows max target now ids e xs n s ≡ halted err t
      → place_all max target now ids e (map (λ r. r.1) (xs ++ ys)) s ≡ (some err, t)
  place_rows-halted xs ys n s t err h = place_rows-append xs ys n s ∙ rw h refl

  place_rows-reached :
      (xs ys : List Row) (n m : ℕ) (s t : Plan)
      → place_rows max target now ids e xs n s ≡ reached m t
      → place_all max target now ids e (map (λ r. r.1) (xs ++ ys)) s
        ≡ place_all max target now ids e (map (λ r. r.1) ys) t
  place_rows-reached xs ys n m s t h = place_rows-append xs ys n s ∙ rw h refl

  module _ (fuel size : ℕ) (rows : List Row) (after : ℕ) (s : Plan) where
    pages_end :
        list_unassigned after size rows ≡ []
        → place_pages max target now ids e (suc fuel) size rows after s ≡ (none, s)
    unfolding place_pages
    pages_end h = rw (place_pages, h) refl

    pages_halted :
        (r : Row) (page : List Row) (err : Err) (t : Plan)
        → list_unassigned after size rows ≡ r ∷ page
        → place_rows max target now ids e (r ∷ page) after s ≡ halted err t
        → place_pages max target now ids e (suc fuel) size rows after s ≡ (some err, t)
    unfolding place_pages
    pages_halted r page err t h k = rw (place_pages, h) (rw k refl)

    pages_reached :
        (r : Row) (page : List Row) (m : ℕ) (t : Plan)
        → list_unassigned after size rows ≡ r ∷ page
        → place_rows max target now ids e (r ∷ page) after s ≡ reached m t
        → place_pages max target now ids e (suc fuel) size rows after s
          ≡ place_pages max target now ids e fuel size rows m t
    unfolding place_pages
    pages_reached r page m t h k = rw (place_pages, h) (rw k refl)

  page_of :
      (size after : ℕ) (old rest : List Row)
      → All (UpTo after) old
      → Ascends after rest
      → list_unassigned after size (old ++ rest) ≡ take size rest
  unfolding list_unassigned
  page_of size after old rest up asc =
      ap (take size)
        (later-append after old rest up ∙ later-Ascends after after rest (omega arith) asc)

  -- From any ordinal that splits the rows, the loop places what is left.
  place_pages-from :
      (fuel k : ℕ) (old rest : List Row) (after : ℕ) (s : Plan)
      → All (UpTo after) old
      → Ascends after rest
      → length rest < fuel
      → place_pages max target now ids e fuel (suc k) (old ++ rest) after s
        ≡ place_all max target now ids e (map (λ r. r.1) rest) s
  unfolding place_all
  place_pages-from zero k old rest after s up asc lt = absurd (omega arith)
  place_pages-from (suc fuel) k old [] after s up asc lt =
      pages_end fuel (suc k) (old ++ []) after s (page_of (suc k) after old [] up asc)
  place_pages-from (suc fuel) k old (r ∷ rs) after s up asc lt =
      elim (placed_cases (place_rows max target now ids e page after s)) [
        | inl (err, t, h) ↦
            pages_halted fuel (suc k) (old ++ r ∷ rs) after s r (take k rs) err t at h
            ∙ sym (
                ap (λ l. place_all max target now ids e (map (λ x. x.1) l) s) whole
                ∙ place_rows-halted page rest after s t err h)
        | inr (m, t, h) ↦
            let last : m ≡ last_of after page = place_rows-last page after m s t h in
            let again =
              place_pages-from fuel k (old ++ page) rest m t
                (rw last (
                  All-append (UpTo (last_of after page)) old page
                    (All-UpTo after (last_of after page) old (last_of_ge after page rest whole_asc)
                      up)
                    (Ascends-append after page rest whole_asc).1))
                (rw last (Ascends-append after page rest whole_asc).0)
                (omega (arith, length-drop k rs)) in
            pages_reached fuel (suc k) (old ++ r ∷ rs) after s r (take k rs) m t at h
            ∙ (ap (λ l. place_pages max target now ids e fuel (suc k) l m t)
                  (ap (λ l. old ++ l) whole ∙ sym (append_assoc old page rest))
                ∙ (again
                    ∙ sym (
                        ap (λ l. place_all max target now ids e (map (λ x. x.1) l) s) whole
                        ∙ place_rows-reached page rest after m s t h)))
      ]
    where
      page : List Row
      page = r ∷ take k rs

      rest : List Row
      rest = drop k rs

      at : list_unassigned after (suc k) (old ++ r ∷ rs) ≡ page
      at = page_of (suc k) after old (r ∷ rs) up asc

      whole : r ∷ rs ≡ page ++ rest
      whole = ap (λ l. r ∷ l) (sym (take-append-drop k rs))

      whole_asc : Ascends after (page ++ rest)
      whole_asc = subst (λ l. Ascends after l) whole asc

  -- For rows whose ordinals ascend and pages of any positive size, the page loop ends within one round
  -- more than there are rows, and does what the inner loop does over all the rows in their order.
  pub place_pages-all :
      (size : ℕ) (rows : List Row) (after : ℕ) (s : Plan)
      → 0 < size
      → Ascends after rows
      → place_pages max target now ids e (suc (length rows)) size rows after s
        ≡ place_all max target now ids e (map (λ r. r.1) rows) s
  place_pages-all size rows after s pos asc =
      let one : size ≡ suc (size - 1) = omega arith in
      subst
        (λ z.
          place_pages max target now ids e (suc (length rows)) z rows after s
          ≡ place_all max target now ids e (map (λ r. r.1) rows) s)
        (sym one)
        (place_pages-from (suc (length rows)) (size - 1) [] rows after s tt asc (omega arith))
