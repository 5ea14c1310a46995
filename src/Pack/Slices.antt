-- ===== src/Pack/Slices.antt =====
-- Reading back the fields that were laid out one after another.
use airgap_mirror.Prelude.{
  ℕ, ◌+◌, ◌-◌, ◌≡◌, ap, List, ◌++◌, length, take, drop, arith, take-append_length,
  drop-append_length, drop-drop, take_all,
}
use airgap_mirror.Pack.Format.{slice}

pub drop-skip {ℓ} :
    {A : Type ℓ} (k n : ℕ) (p q : List A) → length p ≡ k → drop (k + n) (p ++ q) ≡ drop n q
drop-skip k n p q h = rw (← drop-drop k n (p ++ q)) (rw (← h) (rw (drop-append_length p q)))

pub slice-skip :
    (k n m : ℕ) (p q : List ℕ) → length p ≡ k → slice (k + n) (k + m) (p ++ q) ≡ slice n m q
slice-skip k n m p q h = rw (drop-skip k n p q h) (ap (λ t. take t (drop n q)) (omega arith))

pub slice-here : (k : ℕ) (p q : List ℕ) → length p ≡ k → slice 0 k (p ++ q) ≡ p
slice-here k p q h = let e : k - 0 ≡ k = omega arith in rw e (rw (← h) (take-append_length p q))

pub slice_last : (k : ℕ) (p : List ℕ) → length p ≡ k → slice 0 k p ≡ p
slice_last k p h = let e : k - 0 ≡ k = omega arith in rw e (take_all k p (omega arith))
