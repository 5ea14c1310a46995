-- ===== src/Pack/Reader.antt =====
-- internal/pack/reader.go over the bytes of a file. The context is never cancelled, and a read
-- meets no error but the end of the file. What is left of the last body needs no reading: Next seeks.
pub mod Step
pub mod ReadBack
use airgap_mirror.Prelude.{
  ℕ, ◌+◌, ◌-◌, ◌^◌, Bool, not, ◌||◌, List, none, some, take, drop, length, ltb, leb, ◌==◌, beq,
  if◌then◌else◌,
}
use airgap_mirror.Prelude.Int64.{two63, add64}
use airgap_mirror.Domain.Types.{PackHeader, PackRecord}
use airgap_mirror.Pack.Bytes.{from_le, hex_encode}
use airgap_mirror.Pack.Uuid.{uuid_string}
use airgap_mirror.Pack.Clean.{validate_logical_path}
use airgap_mirror.Pack.Format.{
  pack_header_size, record_header_size, version, pack_magic, record_magic, slice,
}

-- io.EOF, io.ErrUnexpectedEOF, and all other errors.
pub data ReadErr : Type 0 where
  eof unexpected_eof malformed : ReadErr

pub record Reader : Type 0 where
  pub file : List ℕ
  pub header : PackHeader
  pub off : ℕ
  pub remaining : ℕ

pub data Read : Type 0 where
  full : List ℕ → Read
  short : ReadErr → Read

-- io.ReadFull of `n` bytes at `off`: io.EOF if there is no byte at all.
unfoldable pub read_full : List ℕ → ℕ → ℕ → Read
read_full file off n =
    let rest = drop off file in
    if length rest == 0
    then short eof
    else if ltb (length rest) n
    then short unexpected_eof
    else full (take n rest)

pub data Opened : Type 0 where
  opened : Reader → Opened
  refused : ReadErr → Opened

header_of : List ℕ → PackHeader
header_of b = record {
  pack_id = uuid_string (slice 16 32 b);
  epoch_id = uuid_string (slice 32 48 b);
  batch_id = uuid_string (slice 48 64 b);
  record_count = from_le (slice 64 72 b);
  logical_payload_bytes = from_le (slice 72 80 b);
  created_unix = from_le (slice 80 88 b);
}

parse_header : List ℕ → Read → Opened
parse_header file (short e) = refused e
parse_header file (full b) =
    if not (beq (slice 0 8 b) pack_magic)
      || not (from_le (slice 8 10 b) == version)
      || not (from_le (slice 12 16 b) == pack_header_size)
    then refused malformed
    else opened (record {
      file = file;
      header = header_of b;
      off = pack_header_size;
      remaining = from_le (slice 64 72 b);
    })

-- NewReaderFile
unfoldable pub new_reader : List ℕ → Opened
unfolding parse_header header_of
new_reader file = parse_header file (read_full file 0 pack_header_size)

-- What Next returns: an error, or the record, the bytes of its body that are there, and the reader
-- behind it.
pub data Next : Type 0 where
  stop : ReadErr → Next
  item : PackRecord → List ℕ → Reader → Next

-- A negative value of an int64.
abbrev is_neg : ℕ → Bool
is_neg n = leb two63 n

next_record : Reader → List ℕ → ℕ → ℕ → Read → Next
next_record r h n pn (short e) = stop e
next_record r h n pn (full pb) =
    let length64 = add64 (record_header_size + pn) n in
    elim (validate_logical_path pb) [
      | some _ ↦ stop malformed
      | none ↦
          item
            (record {
              entry_id = uuid_string (slice 16 32 h);
              logical_path = pb;
              content_length = n;
              sha256 = hex_encode (slice 48 80 h);
              offset = r.off;
              record_length = length64;
            })
            (take n (drop (r.off + record_header_size + pn) r.file))
            (record r { off = add64 r.off length64; remaining = r.remaining - 1 })
    ]

next_header : Reader → Read → Next
unfolding next_record
next_header r (short e) = stop e
next_header r (full h) =
    let n = from_le (slice 32 40 h) in
    let pn = from_le (slice 40 44 h) in
    if not (beq (slice 0 8 h) record_magic)
    then stop malformed
    else if pn == 0 || ltb (2 ^ 20) pn || is_neg n
    then stop malformed
    else next_record r h n pn (read_full r.file (r.off + record_header_size) pn)

unfoldable pub next : Reader → Next
unfolding next_header
next r =
    if r.remaining == 0
    then stop eof
    else if is_neg r.off
    then stop malformed
    else next_header r (read_full r.file r.off record_header_size)
