-- ===== src/Pack/Format.antt =====
-- The layout of a pack file: the constants of internal/pack/format.go, the 128 bytes that
-- Writer.writeHeader makes and the 80 bytes that Writer.Append puts before a record, in
-- internal/pack/writer.go. `make` gives zeros, and the bytes that no `copy` or `put` reaches stay so.
use airgap_mirror.Prelude.{
  ℕ, ◌-◌, List, [], ◌∷◌, ◌++◌, Option, none, some, take, drop, length, replicate, ◌==◌,
  if◌then◌else◌,
}
use airgap_mirror.Domain.Status.{Text}
use airgap_mirror.Pack.Bytes.{put16, put32, put64, hex_decode}

abbrev pub pack_header_size : ℕ
pack_header_size = 128

abbrev pub record_header_size : ℕ
record_header_size = 80

abbrev pub version : ℕ
version = 1

-- "AGMPACK1"
abbrev pub pack_magic : List ℕ
pack_magic = b'A' ∷ b'G' ∷ b'M' ∷ b'P' ∷ b'A' ∷ b'C' ∷ b'K' ∷ b'1' ∷ []

-- "AGMREC01"
abbrev pub record_magic : List ℕ
record_magic = b'A' ∷ b'G' ∷ b'M' ∷ b'R' ∷ b'E' ∷ b'C' ∷ b'0' ∷ b'1' ∷ []

-- b[from:to]
abbrev pub slice : ℕ → ℕ → List ℕ → List ℕ
slice from to b = take (to - from) (drop from b)

abbrev pub zeros : ℕ → List ℕ
zeros n = replicate n 0

unfoldable pub header_bytes : List ℕ → List ℕ → List ℕ → ℕ → ℕ → ℕ → List ℕ
header_bytes pack epoch batch records payload created =
    pack_magic
    ++ (put16 version
        ++ (zeros 2
            ++ (put32 pack_header_size
                ++ (pack
                    ++ (epoch
                        ++ (batch
                            ++ (put64 records
                                ++ (put64 payload ++ (put64 created ++ zeros 40)))))))))

unfoldable pub record_bytes : List ℕ → ℕ → ℕ → List ℕ → List ℕ
record_bytes id size path_length sha =
    record_magic
    ++ (put16 version
        ++ (zeros 2
            ++ (put32 record_header_size
                ++ (id ++ (put64 size ++ (put32 path_length ++ (zeros 4 ++ sha)))))))

-- decodeSHA256 of internal/pack/hash.go
exactly_32 : Option (List ℕ) → Option (List ℕ)
exactly_32 none = none
exactly_32 (some b) = if length b == 32 then some b else none

unfoldable pub decode_sha256 : Text → Option (List ℕ)
unfolding exactly_32
decode_sha256 s = exactly_32 (hex_decode s)
