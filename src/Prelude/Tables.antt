-- ===== src/Prelude/Tables.antt =====
-- A table of a database as the list of its rows.
use airgap_mirror.Prelude.Tests.{if◌then◌else◌, Bool-cases}
use Prim.Native.Nat.{ℕ, ◌+◌, ◌≤◌}
use native.Mathlib.Omega.{arith}
use mathlib.Core.Path.{◌≡◌, refl, sym, ap, ◌∙◌}
use mathlib.Core.Logic.{inl, inr}
use mathlib.Core.Bool.{Bool, true, false}
use mathlib.Core.Option.{Option, none, some}
use mathlib.Core.List.{List, [], ◌∷◌}

-- SELECT ... WHERE, when at most one row is wanted.
unfoldable pub find {ℓ} : {A : Type ℓ} → (A → Bool) → List A → Option A
find p [] = none
find p (x ∷ xs) = if p x then some x else find p xs

-- UPDATE ... WHERE.
unfoldable pub modify {ℓ} : {A : Type ℓ} → (A → Bool) → (A → A) → List A → List A
modify p f [] = []
modify p f (x ∷ xs) = (if p x then f x else x) ∷ modify p f xs

-- Whether an UPDATE affects a row.
unfoldable pub affects {ℓ} : {A : Type ℓ} → (A → Bool) → List A → Bool
affects p [] = false
affects p (x ∷ xs) = if p x then true else affects p xs

some-eq {ℓ} : {A : Type ℓ} {a b : A} → some a ≡ some b → a ≡ b
some-eq {a = a} h = ap (λ o. elim o [ none ↦ a | some x ↦ x ]) h

pub find-sat {ℓ} :
    {A : Type ℓ} (p : A → Bool) (xs : List A) (a : A) → find p xs ≡ some a → p a ≡ true
unfolding find
find-sat p [] a = λ h. absurd (cc h)
find-sat p (x ∷ xs) a = elim (Bool-cases (p x)) [
  | inl e ↦ rw e (λ h. ap p (sym (some-eq h)) ∙ e)
  | inr e ↦ rw e (find-sat p xs a)
]

pub affects-find {ℓ} :
    {A : Type ℓ} (p : A → Bool) (xs : List A) (a : A) → find p xs ≡ some a → affects p xs ≡ true
unfolding find affects
affects-find p [] a = λ h. absurd (cc h)
affects-find p (x ∷ xs) a = elim (Bool-cases (p x)) [
  | inl e ↦ rw e (λ h. refl)
  | inr e ↦ rw e (affects-find p xs a)
]

-- A row that still satisfies the condition is found again.
pub find-modify {ℓ} :
    {A : Type ℓ} (p : A → Bool) (f : A → A) (xs : List A) (a : A)
    → ((x : A) → p (f x) ≡ p x)
    → find p xs ≡ some a
    → find p (modify p f xs) ≡ some (f a)
unfolding find modify
find-modify p f [] a keeps = λ h. absurd (cc h)
find-modify p f (x ∷ xs) a keeps = elim (Bool-cases (p x)) [
  | inl e ↦ rw (e, keeps x) (rw e (λ h. ap (λ y. some (f y)) (some-eq h)))
  | inr e ↦ rw (e) (rw e (find-modify p f xs a keeps))
]

-- An update that leaves the tested columns alone does not change which rows are there.
pub affects-modify {ℓ} :
    {A : Type ℓ} (p q : A → Bool) (f : A → A) (xs : List A)
    → ((x : A) → p (f x) ≡ p x)
    → affects p (modify q f xs) ≡ affects p xs
unfolding affects modify
affects-modify p q f [] keeps = refl
affects-modify p q f (x ∷ xs) keeps = elim (Bool-cases (q x)) [
  | inl e ↦ rw (e, keeps x, affects-modify p q f xs keeps) refl
  | inr e ↦ rw (e, affects-modify p q f xs keeps) refl
]

-- SELECT COUNT(*) ... WHERE, and the rows that an UPDATE affects.
unfoldable pub count {ℓ} : {A : Type ℓ} → (A → Bool) → List A → ℕ
count p [] = 0
count p (x ∷ xs) = (if p x then 1 else 0) + count p xs

-- DELETE ... WHERE.
unfoldable pub remove {ℓ} : {A : Type ℓ} → (A → Bool) → List A → List A
remove p [] = []
remove p (x ∷ xs) = let rest = remove p xs in if p x then rest else x ∷ rest

-- SELECT ... WHERE.
unfoldable pub rows {ℓ} : {A : Type ℓ} → (A → Bool) → List A → List A
rows p [] = []
rows p (x ∷ xs) = let rest = rows p xs in if p x then x ∷ rest else rest

module _ {ℓ} {A : Type ℓ} where
  -- Rows that an update makes satisfy `p` have satisfied `r`.
  pub count-modify_le :
      (p q r : A → Bool) (f : A → A) (xs : List A)
      → ((x : A) → q x ≡ true → p (f x) ≡ true → r x ≡ true)
      → ((x : A) → q x ≡ false → p x ≡ true → r x ≡ true)
      → count p (modify q f xs) ≤ count r xs
  unfolding count modify
  count-modify_le p q r f [] hit miss = omega arith
  count-modify_le p q r f (x ∷ xs) hit miss =
      let ih = count-modify_le p q r f xs hit miss in
      elim (Bool-cases (q x)) [
        | inl e ↦ rw e (elim (Bool-cases (p (f x))) [
          | inl k ↦ rw (k, hit x e k) (omega arith)
          | inr k ↦ rw k (omega arith)
        ])
        | inr e ↦ rw e (elim (Bool-cases (p x)) [
          | inl k ↦ rw (k, miss x e k) (omega arith)
          | inr k ↦ rw k (omega arith)
        ])
      ]

  pub count-zero : (p : A → Bool) (xs : List A) → affects p xs ≡ false → count p xs ≡ 0
  unfolding count affects
  count-zero p [] = λ h. refl
  count-zero p (x ∷ xs) = elim (Bool-cases (p x)) [
    | inl e ↦ rw e (λ h. absurd (cc h))
    | inr e ↦ rw e (λ h. omega (arith, count-zero p xs h))
  ]

  pub count_pos : (p : A → Bool) (xs : List A) → affects p xs ≡ true → 1 ≤ count p xs
  unfolding count affects
  count_pos p [] = λ h. absurd (cc h)
  count_pos p (x ∷ xs) = elim (Bool-cases (p x)) [
    | inl e ↦ rw e (λ h. omega arith)
    | inr e ↦ rw e (λ h. omega (arith, count_pos p xs h))
  ]

  pub count-le :
      (p r : A → Bool) (xs : List A) → ((x : A) → p x ≡ true → r x ≡ true) → count p xs ≤ count r xs
  unfolding count
  count-le p r [] h = omega arith
  count-le p r (x ∷ xs) h =
      let ih = count-le p r xs h in
      elim (Bool-cases (p x)) [ inl k ↦ rw (k, h x k) (omega arith) | inr k ↦ rw k (omega arith) ]

  -- An update that leaves the tested columns alone keeps the count.
  pub count-modify :
      (p q : A → Bool) (f : A → A) (xs : List A)
      → ((x : A) → p (f x) ≡ p x)
      → count p (modify q f xs) ≡ count p xs
  unfolding count modify
  count-modify p q f [] keeps = refl
  count-modify p q f (x ∷ xs) keeps = elim (Bool-cases (q x)) [
    | inl e ↦ rw (e, keeps x, count-modify p q f xs keeps) refl
    | inr e ↦ rw (e, count-modify p q f xs keeps) refl
  ]

  -- Where at most one row satisfies `p`, a row that satisfies a stronger condition is that row.
  pub find_wider :
      (p q : A → Bool) (xs : List A) (a : A)
      → ((x : A) → q x ≡ true → p x ≡ true)
      → count p xs ≤ 1
      → find q xs ≡ some a
      → find p xs ≡ some a
  unfolding find count
  find_wider p q [] a h = λ k e. absurd (cc e)
  find_wider p q (x ∷ xs) a h = elim (Bool-cases (q x)) [
    | inl e ↦ rw (e, h x e) (λ k g. g)
    | inr e ↦ rw e (elim (Bool-cases (p x)) [
      | inl d ↦ rw d (λ k g. absurd (alone k g))
      | inr d ↦ rw d (λ k g. find_wider p q xs a h (omega arith) g)
    ])
  ]
    where
      alone : 1 + count p xs ≤ 1 → find q xs ≡ some a → ⊥
      alone k g = omega (arith, count_pos q xs (affects-find q xs a g), count-le q p xs h)

  pub find-modify_wider :
      (p q : A → Bool) (f : A → A) (xs : List A) (a : A)
      → ((x : A) → q x ≡ true → p x ≡ true)
      → ((x : A) → p (f x) ≡ p x)
      → count p xs ≤ 1
      → find q xs ≡ some a
      → find p (modify q f xs) ≡ some (f a)
  unfolding find modify count
  find-modify_wider p q f [] a h same = λ k e. absurd (cc e)
  find-modify_wider p q f (x ∷ xs) a h same = elim (Bool-cases (q x)) [
    | inl e ↦ rw (e, same x) (rw (h x e) (λ k g. ap (λ y. some (f y)) (some-eq g)))
    | inr e ↦ rw e (elim (Bool-cases (p x)) [
      | inl d ↦ rw d (λ k g. absurd (alone k g))
      | inr d ↦ rw d (λ k g. find-modify_wider p q f xs a h same (omega arith) g)
    ])
  ]
    where
      alone : 1 + count p xs ≤ 1 → find q xs ≡ some a → ⊥
      alone k g = omega (arith, count_pos q xs (affects-find q xs a g), count-le q p xs h)

  pub count-find : (p : A → Bool) (xs : List A) → 1 ≤ count p xs → (a : A) × (find p xs ≡ some a)
  unfolding find count
  count-find p [] = λ h. absurd (omega arith)
  count-find p (x ∷ xs) = elim (Bool-cases (p x)) [
    | inl e ↦ rw e (λ h. (x, refl))
    | inr e ↦ rw e (λ h. count-find p xs (omega arith))
  ]
