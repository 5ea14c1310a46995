-- ===== src/Domain/Result.antt =====
-- Results of calls that return an error of internal/domain/errors.go. A transaction that returns one is
-- rolled back.
use mathlib.Core.Path.{subst}
use airgap_mirror.Prelude.{Bool, true, false, ◌≡◌, refl, ap, ◌⊎◌, inl, inr, Option, none, some}
use airgap_mirror.Domain.Transitions.{Err}

pub data Result {ℓ} (A : Type ℓ) : Type ℓ where
  ok : A → Result A
  err : Err → Result A

infixl 5 ◌>>=◌ ◌>>◌
unfoldable pub ◌>>=◌ {ℓ κ} : {A : Type ℓ} {B : Type κ} → Result A → (A → Result B) → Result B
ok a >>= f = f a
err e >>= f = err e

unfoldable pub ◌>>◌ {ℓ} : {B : Type ℓ} → Result (Unit {0}) → Result B → Result B
m >> k = m >>= (λ _. k)

-- if bad { return err }
unfoldable pub check : Bool → Err → Result (Unit {0})
check true e = err e
check false e = ok tt

-- if err != nil { return err }
unfoldable pub pass : Option Err → Result (Unit {0})
pass none = ok tt
pass (some e) = err e

-- sql.ErrNoRows becomes domain.ErrNotFound.
unfoldable pub found {ℓ} : {A : Type ℓ} → Option A → Result A
found none = err Err.not_found
found (some a) = ok a

-- What a call that succeeds makes true of its result.
pub record Ensures {ℓ κ} {A : Type ℓ} (P : A → Type κ) (r : Result A) : Type (ℓ ⊔ κ) where
  pub holds : (a : A) → r ≡ ok a → P a

abbrev value_or {ℓ} : {A : Type ℓ} → A → Result A → A
value_or a (ok x) = x
value_or a (err _) = a

module _ {ℓ κ} {A : Type ℓ} {P : A → Type κ} where
  pub returns : (a : A) → P a → Ensures P (ok a)
  returns a p = record { holds = λ b h. subst P (ap (value_or a) h) p }

  pub after_check :
      (b : Bool) (e : Err) (k : Result A) → (b ≡ false → Ensures P k) → Ensures P (check b e >> k)
  unfolding check ◌>>◌ ◌>>=◌
  after_check true e k f = record { holds = λ a h. absurd (cc h) }
  after_check false e k f = f refl

  pub after_pass :
      (o : Option Err) (k : Result A) → (o ≡ none → Ensures P k) → Ensures P (pass o >> k)
  unfolding pass ◌>>◌ ◌>>=◌
  after_pass none k f = f refl
  after_pass (some e) k f = record { holds = λ a h. absurd (cc h) }

  pub after_found {μ} :
      {B : Type μ} (o : Option B) (k : B → Result A)
      → ((x : B) → o ≡ some x → Ensures P (k x))
      → Ensures P (found o >>= k)
  unfolding found ◌>>=◌
  after_found none k f = record { holds = λ a h. absurd (cc h) }
  after_found (some x) k f = f x refl

  pub after_call {μ} :
      {B : Type μ} (r : Result B) (k : B → Result A)
      → ((x : B) → r ≡ ok x → Ensures P (k x))
      → Ensures P (r >>= k)
  unfolding ◌>>=◌
  after_call (ok x) k f = f x refl
  after_call (err e) k f = record { holds = λ a h. absurd (cc h) }

pub Result-cases {ℓ} :
    {A : Type ℓ} (r : Result A) → ((e : Err) × (r ≡ err e)) ⊎ ((a : A) × (r ≡ ok a))
Result-cases (ok a) = inr (a, refl)
Result-cases (err e) = inl (e, refl)
