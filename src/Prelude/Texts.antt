-- ===== src/Prelude/Texts.antt =====
-- Texts as the lists of their bytes: literals, the order of `<`, and tests of package strings.
use Prim.Native.Nat.{ℕ, ◌+◌}
use Prim.Native.Char.{code}
use Prim.Native.String.{String}
use mathlib.Core.Bool.{Bool, true, false, ◌&&◌, ◌||◌}
use mathlib.Core.List.{List, [], ◌∷◌, reverse}
use airgap_mirror.Prelude.Tests.{◌==◌, ltb, leb, if◌then◌else◌}

-- The bytes of an ASCII literal.
abbrev pub codes : String → List ℕ
codes String.[] = []
codes (String.◌∷◌ c s) = code c ∷ codes s

-- `<` on Go strings, and memcmp of SQLite's BINARY order.
unfoldable pub text_lt : List ℕ → List ℕ → Bool
text_lt [] [] = false
text_lt [] (_ ∷ _) = true
text_lt (_ ∷ _) [] = false
text_lt (x ∷ xs) (y ∷ ys) = ltb x y || (x == y && text_lt xs ys)

-- strings.HasPrefix
unfoldable pub starts_with : List ℕ → List ℕ → Bool
starts_with p [] = true
starts_with [] (_ ∷ _) = false
starts_with (x ∷ xs) (y ∷ ys) = x == y && starts_with xs ys

-- strings.HasSuffix
unfoldable pub ends_with : List ℕ → List ℕ → Bool
ends_with p q = starts_with (reverse p) (reverse q)

-- strings.Contains
unfoldable pub includes : List ℕ → List ℕ → Bool
includes [] q = starts_with [] q
includes (x ∷ xs) q = starts_with (x ∷ xs) q || includes xs q

lower_byte : ℕ → ℕ
lower_byte c = if leb b'A' c && leb c b'Z' then c + 32 else c

-- strings.ToLower, as far as ASCII suffixes are compared.
unfoldable pub to_lower : List ℕ → List ℕ
unfolding lower_byte
to_lower [] = []
to_lower (c ∷ cs) = lower_byte c ∷ to_lower cs
