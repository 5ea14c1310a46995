-- ===== src/Pack/Uuid.antt =====
-- uuidBytes and uuidString of internal/pack/format.go, and NewID of internal/domain/id.go.
use Prim.Native.Nat.{bit_and, bit_or}
use airgap_mirror.Prelude.{
  ℕ, zero, suc, ◌-◌, ◌/◌, ◌%◌, ◌<◌, ◌≡◌, ◌≢◌, ◌⊎◌, inl, inr, Bool-cases, ==_eq, ==_ne, refl, sym,
  ap, ◌∙◌, Bool, true, ◌&&◌, ltb, ltb→lt, Option, none, some, List, [], ◌∷◌, ◌++◌, All, length,
  take, drop, ◌==◌, if◌then◌else◌, arith, append-nil, take-append-drop, take_all, drop-drop,
  length-drop, All-take, All-drop,
}
use airgap_mirror.Domain.Status.{Text}
use airgap_mirror.Pack.Bytes.{
  IsByte, hex_encode, hex_decode, hex_decode-encode, length-hex_encode, hex_encode-append,
  hex_digit-ne_dash,
}

-- strings.ReplaceAll(id, "-", "")
strip_dashes : Text → Text
strip_dashes [] = []
strip_dashes (c ∷ cs) = let rest = strip_dashes cs in if c == b'-' then rest else c ∷ rest

unfoldable pub uuid_bytes : Text → Option (List ℕ)
unfolding strip_dashes
uuid_bytes id = let s = strip_dashes id in if length s == 32 then hex_decode s else none

abbrev slice : ℕ → ℕ → List ℕ → List ℕ
slice from to b = take (to - from) (drop from b)

unfoldable pub uuid_string : List ℕ → Text
uuid_string b =
    hex_encode (take 4 b)
    ++ b'-'
      ∷ (hex_encode (slice 4 6 b)
          ++ b'-'
            ∷ (hex_encode (slice 6 8 b)
                ++ b'-' ∷ (hex_encode (slice 8 10 b) ++ b'-' ∷ hex_encode (slice 10 16 b))))

set_byte : ℕ → (ℕ → ℕ) → List ℕ → List ℕ
set_byte i f [] = []
set_byte zero f (b ∷ bs) = f b ∷ bs
set_byte (suc i) f (b ∷ bs) = b ∷ set_byte i f bs

-- The version and variant bits of `b`, the bytes that crypto/rand gave.
stamp : List ℕ → List ℕ
unfolding set_byte
stamp b =
    set_byte 8 (λ x. bit_or (bit_and x 0x3f) 0x80)
      (set_byte 6 (λ x. bit_or (bit_and x 0x0f) 0x40) b)

-- fmt.Sprintf("%s-%s-%s-%s-%s", ...)
sprintf_dashes : Text → Text → Text → Text → Text → Text
sprintf_dashes a b c d e = a ++ b'-' ∷ (b ++ b'-' ∷ (c ++ b'-' ∷ (d ++ b'-' ∷ e)))

-- NewID, from the bytes of crypto/rand.
unfoldable pub new_id : List ℕ → Text
unfolding stamp sprintf_dashes
new_id random =
    let b = stamp random in
    sprintf_dashes (hex_encode (slice 0 4 b)) (hex_encode (slice 4 6 b)) (hex_encode (slice 6 8 b))
      (hex_encode (slice 8 10 b)) (hex_encode (slice 10 16 b))

strip-hex :
    (xs : List ℕ) (rest : Text)
    → All IsByte xs
    → strip_dashes (hex_encode xs ++ rest) ≡ hex_encode xs ++ strip_dashes rest
unfolding strip_dashes hex_encode
strip-hex [] rest h = refl
strip-hex (x ∷ xs) rest h = rw (
  hex_digit-ne_dash (x / 16) (omega arith),
  hex_digit-ne_dash (x % 16) (omega arith),
  strip-hex xs rest h.1,
)

strip-hex_end : (xs : List ℕ) → All IsByte xs → strip_dashes (hex_encode xs) ≡ hex_encode xs
unfolding strip_dashes
strip-hex_end xs h =
    ap strip_dashes (sym (append-nil (hex_encode xs)))
    ∙ (strip-hex xs [] h ∙ append-nil (hex_encode xs))

strip_dash : (rest : Text) → strip_dashes (b'-' ∷ rest) ≡ strip_dashes rest
unfolding strip_dashes
strip_dash rest = refl

slices :
    (b : List ℕ)
    → length b ≡ 16
    → take 4 b ++ (slice 4 6 b ++ (slice 6 8 b ++ (slice 8 10 b ++ slice 10 16 b))) ≡ b
slices b h = rw (
  take_all 6 (drop 10 b) (omega (arith, length-drop 10 b)),
  ← drop-drop 8 2 b,
  take-append-drop 2 (drop 8 b),
  ← drop-drop 6 2 b,
  take-append-drop 2 (drop 6 b),
  ← drop-drop 4 2 b,
  take-append-drop 2 (drop 4 b),
  take-append-drop 4 b,
)

strip-uuid_string :
    (b : List ℕ) → length b ≡ 16 → All IsByte b → strip_dashes (uuid_string b) ≡ hex_encode b
unfolding uuid_string
strip-uuid_string b l h =
    let part = λ (m n : ℕ). All-take IsByte n (drop m b) (All-drop IsByte m b h) in
    rw
      (
        strip-hex (take 4 b) _ (part 0 4),
        strip_dash,
        strip-hex (slice 4 6 b) _ (part 4 2),
        strip_dash,
        strip-hex (slice 6 8 b) _ (part 6 2),
        strip_dash,
        strip-hex (slice 8 10 b) _ (part 8 2),
        strip_dash,
        strip-hex_end (slice 10 16 b) (part 10 6),
      )
      (rw
        (
          ← hex_encode-append (slice 8 10 b) (slice 10 16 b),
          ← hex_encode-append (slice 6 8 b) _,
          ← hex_encode-append (slice 4 6 b) _,
          ← hex_encode-append (take 4 b) _,
        )
        (ap hex_encode (slices b l)))

-- A 16-byte id that is printed and read back is the same id.
pub uuid_bytes-uuid_string :
    (b : List ℕ) → length b ≡ 16 → All IsByte b → uuid_bytes (uuid_string b) ≡ some b
unfolding uuid_bytes
uuid_bytes-uuid_string b l h =
    rw (strip-uuid_string b l h) (rw (length-hex_encode b) (rw l (hex_decode-encode b h)))

-- A test of every byte by evaluation.
check_bytes : ℕ → (ℕ → Bool) → Bool
check_bytes zero test = true
check_bytes (suc n) test = test n && check_bytes n test

check_bytes_sound :
    (n : ℕ) (test : ℕ → Bool) (x : ℕ) → check_bytes n test ≡ true → x < n → test x ≡ true
unfolding check_bytes
check_bytes_sound zero test x ok h = absurd (omega arith)
check_bytes_sound (suc n) test x ok h = ground (arith, check_bytes_sound n test x)

version_bits : (x : ℕ) → x < 256 → bit_or (bit_and x 0x0f) 0x40 < 256
unfolding check_bytes
version_bits x h =
    ltb→lt _ _ (check_bytes_sound 256 (λ y. ltb (bit_or (bit_and y 0x0f) 0x40) 256) x refl h)

variant_bits : (x : ℕ) → x < 256 → bit_or (bit_and x 0x3f) 0x80 < 256
unfolding check_bytes
variant_bits x h =
    ltb→lt _ _ (check_bytes_sound 256 (λ y. ltb (bit_or (bit_and y 0x3f) 0x80) 256) x refl h)

length-set_byte : (i : ℕ) (f : ℕ → ℕ) (b : List ℕ) → length (set_byte i f b) ≡ length b
unfolding set_byte
length-set_byte i f [] = refl
length-set_byte zero f (b ∷ bs) = refl
length-set_byte (suc i) f (b ∷ bs) = ap suc (length-set_byte i f bs)

All-set_byte :
    (i : ℕ) (f : ℕ → ℕ) (b : List ℕ)
    → ((x : ℕ) → x < 256 → f x < 256)
    → All IsByte b
    → All IsByte (set_byte i f b)
unfolding set_byte
All-set_byte i f [] small h = tt
All-set_byte zero f (b ∷ bs) small h = (small b h.0, h.1)
All-set_byte (suc i) f (b ∷ bs) small h = (h.0, All-set_byte i f bs small h.1)

-- The byte at an index, 0 behind the end.
unfoldable pub byte_at : ℕ → List ℕ → ℕ
byte_at i [] = 0
byte_at zero (b ∷ bs) = b
byte_at (suc i) (b ∷ bs) = byte_at i bs

byte_at-set_byte :
    (i : ℕ) (f : ℕ → ℕ) (b : List ℕ) → i < length b → byte_at i (set_byte i f b) ≡ f (byte_at i b)
unfolding byte_at set_byte
byte_at-set_byte i f [] h = absurd (omega arith)
byte_at-set_byte zero f (b ∷ bs) h = refl
byte_at-set_byte (suc i) f (b ∷ bs) h = byte_at-set_byte i f bs (omega arith)

byte_at-set_other :
    (j i : ℕ) (f : ℕ → ℕ) (b : List ℕ) → j ≢ i → byte_at j (set_byte i f b) ≡ byte_at j b
unfolding byte_at set_byte
byte_at-set_other j i f [] h = refl
byte_at-set_other zero zero f (b ∷ bs) h = absurd (h refl)
byte_at-set_other (suc j) zero f (b ∷ bs) h = refl
byte_at-set_other zero (suc i) f (b ∷ bs) h = refl
byte_at-set_other (suc j) (suc i) f (b ∷ bs) h = byte_at-set_other j i f bs (λ e. h (ap suc e))

byte_at-small : (i : ℕ) (b : List ℕ) → All IsByte b → byte_at i b < 256
unfolding byte_at
byte_at-small i [] h = omega arith
byte_at-small zero (b ∷ bs) h = h.0
byte_at-small (suc i) (b ∷ bs) h = byte_at-small i bs h.1

version_fields :
    (x : ℕ)
    → x < 256
    → (bit_or (bit_and x 0x0f) 0x40 / 16 ≡ 4) × (bit_or (bit_and x 0x0f) 0x40 % 16 ≡ x % 16)
unfolding check_bytes
version_fields x h =
    let high = check_bytes_sound 256 (λ y. bit_or (bit_and y 0x0f) 0x40 / 16 == 4) x refl h in
    let low = check_bytes_sound 256 (λ y. bit_or (bit_and y 0x0f) 0x40 % 16 == y % 16) x refl h in
    (==_eq _ _ high, ==_eq _ _ low)

variant_fields :
    (x : ℕ)
    → x < 256
    → (bit_or (bit_and x 0x3f) 0x80 / 64 ≡ 2) × (bit_or (bit_and x 0x3f) 0x80 % 64 ≡ x % 64)
unfolding check_bytes
variant_fields x h =
    let high = check_bytes_sound 256 (λ y. bit_or (bit_and y 0x3f) 0x80 / 64 == 2) x refl h in
    let low = check_bytes_sound 256 (λ y. bit_or (bit_and y 0x3f) 0x80 % 64 == y % 64) x refl h in
    (==_eq _ _ high, ==_eq _ _ low)

-- The 16 bytes of a random UUID (RFC 9562, version 4) made of `r`: the version and the variant stand
-- in the bytes 6 and 8, and every other bit is that of `r`.
pub record IsVersion4 (r b : List ℕ) : Type 0 where
  pub version : byte_at 6 b / 16 ≡ 4
  pub version_rest : byte_at 6 b % 16 ≡ byte_at 6 r % 16
  pub variant : byte_at 8 b / 64 ≡ 2
  pub variant_rest : byte_at 8 b % 64 ≡ byte_at 8 r % 64
  pub others : (i : ℕ) → (i ≡ 6) ⊎ (i ≡ 8) ⊎ (byte_at i b ≡ byte_at i r)

stamp-IsVersion4 : (r : List ℕ) → length r ≡ 16 → All IsByte r → IsVersion4 r (stamp r)
unfolding stamp
stamp-IsVersion4 r l h =
    let six : byte_at 6 (stamp r) ≡ bit_or (bit_and (byte_at 6 r) 0x0f) 0x40 =
      byte_at-set_other 6 8 _ (set_byte 6 _ r) (λ e. omega (arith, e))
      ∙ byte_at-set_byte 6 (λ x. bit_or (bit_and x 0x0f) 0x40) r (omega arith) in
    let eight =
      byte_at-set_byte 8 (λ x. bit_or (bit_and x 0x3f) 0x80) (set_byte 6 _ r)
        (omega (arith, length-set_byte 6 (λ x. bit_or (bit_and x 0x0f) 0x40) r))
      ∙ ap (λ x. bit_or (bit_and x 0x3f) 0x80)
          (byte_at-set_other 8 6 _ r (λ e. omega (arith, e))) in
    let v = version_fields (byte_at 6 r) (byte_at-small 6 r h) in
    let w = variant_fields (byte_at 8 r) (byte_at-small 8 r h) in
    record {
      version = ap (λ x. x / 16) six ∙ v.0;
      version_rest = ap (λ x. x % 16) six ∙ v.1;
      variant = ap (λ x. x / 64) eight ∙ w.0;
      variant_rest = ap (λ x. x % 64) eight ∙ w.1;
      others = λ i. elim (Bool-cases (i == 6)) [
        | inl e ↦ inl (==_eq i 6 e)
        | inr e ↦ elim (Bool-cases (i == 8)) [
          | inl d ↦ inr (inl (==_eq i 8 d))
          | inr d ↦ inr (
              inr (
                byte_at-set_other i 8 _ (set_byte 6 _ r) (==_ne i 8 d)
                ∙ byte_at-set_other i 6 _ r (==_ne i 6 e)))
        ]
      ];
    }

-- For any 16 random bytes `r`, NewID gives the text of 16 bytes that are `r` but for the version 4 in
-- the upper half of byte 6 and the variant 2 in the upper two bits of byte 8: uuidBytes reads these
-- bytes in it, and uuidString prints them as this text.
pub new_id_keeps :
    (r : List ℕ)
    → length r ≡ 16
    → All IsByte r
    → (b : List ℕ) × (uuid_bytes (new_id r) ≡ some b) × (uuid_string b ≡ new_id r) × IsVersion4 r b
unfolding new_id uuid_string
new_id_keeps r l h =
    (stamp r, uuid_bytes-uuid_string (stamp r) length-stamp bytes, refl, stamp-IsVersion4 r l h)
  where
    length-stamp : length (stamp r) ≡ 16
    length-stamp = length-set_byte 8 _ _ ∙ (length-set_byte 6 _ r ∙ l)

    bytes : All IsByte (stamp r)
    bytes = All-set_byte 8 _ _ variant_bits (All-set_byte 6 _ r version_bits h)
