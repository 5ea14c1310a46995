-- ===== src/Pack/Bytes.antt =====
-- put16, put32 and put64 of internal/pack/format.go, with encoding/binary's little-endian reads, and
-- encoding/hex as the package uses it.
use native.Mathlib.Nat.{pow-suc}
use airgap_mirror.Prelude.{
  ℕ, zero, suc, ◌+◌, ◌-◌, ◌*◌, ◌/◌, ◌%◌, ◌^◌, ◌<◌, ◌≡◌, refl, ap, ◌==◌, false, ◌&&◌, Option, none,
  some, List, [], ◌∷◌, ◌++◌, All, length, leb, ltb, if◌then◌else◌, arith,
}
use airgap_mirror.Domain.Status.{Text}

-- The bytes of a value, lowest first.
unfoldable pub le_bytes : ℕ → ℕ → List ℕ
le_bytes zero v = []
le_bytes (suc w) v = v % 256 ∷ le_bytes w (v / 256)

unfoldable pub put16 : ℕ → List ℕ
put16 v = le_bytes 2 v

unfoldable pub put32 : ℕ → List ℕ
put32 v = le_bytes 4 v

unfoldable pub put64 : ℕ → List ℕ
put64 v = le_bytes 8 v

unfoldable pub from_le : List ℕ → ℕ
from_le [] = 0
from_le (b ∷ bs) = b + 256 * from_le bs

pub length-le_bytes : (w v : ℕ) → length (le_bytes w v) ≡ w
unfolding le_bytes
length-le_bytes zero v = refl
length-le_bytes (suc w) v = ap suc (length-le_bytes w (v / 256))

from_le-le_bytes : (w v : ℕ) → v < 256 ^ w → from_le (le_bytes w v) ≡ v
unfolding le_bytes from_le
from_le-le_bytes zero v h = omega arith
from_le-le_bytes (suc w) v h =
    let small : v / 256 < 256 ^ w = omega (arith, pow-suc 256 w) in
    omega (arith, from_le-le_bytes w (v / 256) small)

pub from_le-put16 : (v : ℕ) → v < 2 ^ 16 → from_le (put16 v) ≡ v
unfolding put16
from_le-put16 v h = from_le-le_bytes 2 v h

pub from_le-put32 : (v : ℕ) → v < 2 ^ 32 → from_le (put32 v) ≡ v
unfolding put32
from_le-put32 v h = from_le-le_bytes 4 v h

pub from_le-put64 : (v : ℕ) → v < 2 ^ 64 → from_le (put64 v) ≡ v
unfolding put64
from_le-put64 v h = from_le-le_bytes 8 v h

abbrev pub IsByte : ℕ → Type 0
IsByte b = b < 256

unfoldable pub hex_digit : ℕ → ℕ
hex_digit n = if ltb n 10 then 48 + n else 87 + n

-- Both cases of the letters are read.
hex_value : ℕ → Option ℕ
hex_value c =
    if leb 48 c && leb c 57
    then some (c - 48)
    else if leb 97 c && leb c 102
    then some (c - 87)
    else if leb 65 c && leb c 70
    then some (c - 55)
    else none

-- hex.EncodeToString
unfoldable pub hex_encode : List ℕ → Text
unfolding hex_digit
hex_encode [] = []
hex_encode (b ∷ bs) = hex_digit (b / 16) ∷ hex_digit (b % 16) ∷ hex_encode bs

hex_pair : Option ℕ → Option ℕ → Option (List ℕ) → Option (List ℕ)
hex_pair (some a) (some b) (some bs) = some ((a * 16 + b) ∷ bs)
hex_pair _ _ _ = none

-- hex.DecodeString: `none` stands for an error.
unfoldable pub hex_decode : Text → Option (List ℕ)
unfolding hex_value hex_pair
hex_decode [] = some []
hex_decode (_ ∷ []) = none
hex_decode (x ∷ y ∷ rest) = hex_pair (hex_value x) (hex_value y) (hex_decode rest)

hex_value-digit : (n : ℕ) → n < 16 → hex_value (hex_digit n) ≡ some n
unfolding hex_value hex_digit
hex_value-digit n h = ground arith

pub hex_digit-ne_dash : (n : ℕ) → n < 16 → (hex_digit n == b'-') ≡ false
unfolding hex_digit
hex_digit-ne_dash n h = ground arith

pub hex_decode-encode : (bs : List ℕ) → All IsByte bs → hex_decode (hex_encode bs) ≡ some bs
unfolding hex_decode hex_encode
hex_decode-encode [] h = refl
hex_decode-encode (b ∷ bs) h =
    rw
      (
        hex_value-digit (b / 16) (omega arith),
        hex_value-digit (b % 16) (omega arith),
        hex_decode-encode bs h.1,
      )
      (ap (λ t. some (t ∷ bs)) (omega arith))

pub length-hex_encode : (bs : List ℕ) → length (hex_encode bs) ≡ 2 * length bs
unfolding hex_encode
length-hex_encode [] = omega arith
length-hex_encode (b ∷ bs) = omega (arith, length-hex_encode bs)

hex_pair-some :
    (a b : Option ℕ) (t : Option (List ℕ)) {bs : List ℕ}
    → hex_pair a b t ≡ some bs
    → (r : List ℕ) × (t ≡ some r) × (length bs ≡ suc (length r))
unfolding hex_pair
hex_pair-some (some a) (some b) (some r) h = (r, refl, ground arith)
hex_pair-some _ _ _ h = cc

pub length-hex_decode : (s : Text) {bs : List ℕ} → hex_decode s ≡ some bs → length s ≡ 2 * length bs
unfolding hex_decode
length-hex_decode [] h = ground arith
length-hex_decode (x ∷ []) h = cc
length-hex_decode (x ∷ y ∷ rest) h =
    let (r, e, l) = hex_pair-some (hex_value x) (hex_value y) (hex_decode rest) h in
    omega (arith, length-hex_decode rest e)

pub hex_encode-append : (xs ys : List ℕ) → hex_encode (xs ++ ys) ≡ hex_encode xs ++ hex_encode ys
unfolding hex_encode
hex_encode-append [] ys = refl
hex_encode-append (x ∷ xs) ys = rw (hex_encode-append xs ys)

pub length-put64 : (v : ℕ) → length (put64 v) ≡ 8
unfolding put64
length-put64 v = length-le_bytes 8 v

pub length-put32 : (v : ℕ) → length (put32 v) ≡ 4
unfolding put32
length-put32 v = length-le_bytes 4 v
