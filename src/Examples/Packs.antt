-- ===== src/Examples/Packs.antt =====
-- A pack file of two entries, written, read, cut short and written on.
use airgap_mirror.Prelude.{
  ℕ, zero, suc, beq, true, false, ◌+◌, ◌≡◌, ◌↔◌, refl, none, some, All, List, [], ◌∷◌, ◌++◌, length,
  replicate, arith,
}
use airgap_mirror.Prelude.Int64.{add64, sub64}
use airgap_mirror.Domain.Transitions.{Err}
use airgap_mirror.Domain.Status.{Text, ArtifactOperation}
use airgap_mirror.Domain.Types.{Artifact, PackLocation}
use airgap_mirror.Pack.Bytes.{IsByte, hex_encode, hex_decode}
use airgap_mirror.Pack.Uuid.{
  uuid_bytes, uuid_string, uuid_bytes-uuid_string, new_id, IsVersion4, new_id_keeps,
}
use airgap_mirror.Pack.Clean.{validate_logical_path, clean}
use airgap_mirror.Pack.Clean.Safe.{IsSafe, valid_iff}
use airgap_mirror.Pack.Format.{pack_header_size, decode_sha256, header_bytes}
use airgap_mirror.Pack.Spec.{
  Entry, Ids, GoodIds, GoodEntry, pack_file, Fits, total_length, total_content,
}
use airgap_mirror.Pack.Reader.{Reader, eof, opened, new_reader}
use airgap_mirror.Pack.Reader.ReadBack.{items_of, read_on, header_for, read-pack_file}
use airgap_mirror.Pack.Writer.{
  Writer, write, finish_append, write_at, write_header, append, append_io, in_path, placed, failed,
  create, resume, limit,
}
use airgap_mirror.Pack.Writer.Represents.{Represents}
use airgap_mirror.Pack.Writer.Results.{append_commits}
use airgap_mirror.Pack.Writer.Faults.{
  AfterFailure, append_io-AfterFailure, before_count, failed_append-resumes,
}
use airgap_mirror.Pack.Writer.Resume.{resume-recovers}
use airgap_mirror.Pack.Writer.Create.{create-append_at_zero}

abbrev pub ids : Ids
ids = record { pack = replicate 16 1; epoch = replicate 16 2; batch = replicate 16 3 }

bytes_of : (n b : ℕ) → IsByte b → All IsByte (replicate n b)
bytes_of zero b h = tt
bytes_of (suc n) b h = (h, bytes_of n b h)

ids-GoodIds : GoodIds ids
ids-GoodIds = record {
  pack_16 = refl;
  epoch_16 = refl;
  batch_16 = refl;
  pack_bytes = bytes_of 16 1 (omega arith);
  epoch_bytes = bytes_of 16 2 (omega arith);
  batch_bytes = bytes_of 16 3 (omega arith);
}

-- The path a/b.
abbrev pub a_b : Text
a_b = 97 ∷ 47 ∷ 98 ∷ []

a_b-valid : validate_logical_path a_b ≡ none
unfolding validate_logical_path clean beq
a_b-valid = refl

abbrev pub entry : Entry
entry = record {
  id = replicate 16 7;
  path = a_b;
  sha = replicate 32 171;
  content = 10 ∷ 20 ∷ 30 ∷ [];
}

entry-GoodEntry : GoodEntry entry
entry-GoodEntry = record {
  id_16 = refl;
  sha_32 = refl;
  path_valid = a_b-valid;
  path_some = omega arith;
  path_limit = omega arith;
}

abbrev entries : List Entry
entries = entry ∷ entry ∷ []

entries-Fits : Fits entries
unfolding total_length
entries-Fits = omega arith

read-pack_file_example :
    (r : Reader) × (new_reader (pack_file ids 5 entries ++ 9 ∷ []) ≡ opened r)
    × (r.header ≡ header_for ids 5 entries)
    × (read_on 3 r ≡ (items_of pack_header_size entries, some eof))
read-pack_file_example =
    read-pack_file ids 5 entries (9 ∷ []) ids-GoodIds entries-Fits (omega arith)
      (entry-GoodEntry, (entry-GoodEntry, tt))

-- The bytes of the path a/b are safe to join to a root.
valid_iff_example : (validate_logical_path a_b ≡ none) ↔ IsSafe a_b
valid_iff_example = valid_iff a_b

-- The path ../a is refused.
dot_dot_refused : validate_logical_path (46 ∷ 46 ∷ 47 ∷ 97 ∷ []) ≡ some Err.other
unfolding validate_logical_path clean beq
dot_dot_refused = refl

new_id_keeps_example :
    (b : List ℕ) × (uuid_bytes (new_id (replicate 16 200)) ≡ some b)
    × (uuid_string b ≡ new_id (replicate 16 200))
    × IsVersion4 (replicate 16 200) b
new_id_keeps_example = new_id_keeps (replicate 16 200) refl (bytes_of 16 200 (omega arith))

uuid_bytes-uuid_string_example : uuid_bytes (uuid_string (replicate 16 7)) ≡ some (replicate 16 7)
uuid_bytes-uuid_string_example =
    uuid_bytes-uuid_string (replicate 16 7) refl (bytes_of 16 7 (omega arith))

-- A digest that all contents share.
abbrev digest : List ℕ → List ℕ
digest c = replicate 32 171

abbrev artifact : Artifact
artifact = record {
  id = uuid_string (replicate 16 7);
  epoch_id = [];
  source_id = [];
  logical_path = a_b;
  size = 3;
  sha256 = hex_encode (replicate 32 171);
  upstream_url = [];
  upstream_integrity = [];
  local_source_path = [];
  operation = ArtifactOperation.add;
  publish_unit_id = [];
  package_key = [];
  version = [];
  metadata = false;
  attributes = [];
}

abbrev writer : Writer
writer = record {
  file = pack_file ids 5 entries;
  pos = length (pack_file ids 5 entries);
  header = record {
    pack_id = uuid_string (replicate 16 1);
    epoch_id = uuid_string (replicate 16 2);
    batch_id = uuid_string (replicate 16 3);
    record_count = 2;
    logical_payload_bytes = 6;
    created_unix = 5;
  };
  records = 2;
  payload = 6;
  closed = false;
}

writer-Represents : Represents writer ids 5 entries
unfolding total_content
writer-Represents = record {
  file = refl;
  pos = refl;
  pack_id = uuid_bytes-uuid_string (replicate 16 1) refl (bytes_of 16 1 (omega arith));
  epoch_id = uuid_bytes-uuid_string (replicate 16 2) refl (bytes_of 16 2 (omega arith));
  batch_id = uuid_bytes-uuid_string (replicate 16 3) refl (bytes_of 16 3 (omega arith));
  created_unix = refl;
  records = refl;
  payload = refl;
  is_open = refl;
}

sha_read : decode_sha256 (hex_encode (replicate 32 171)) ≡ some (replicate 32 171)
unfolding decode_sha256 hex_encode hex_decode
sha_read = refl

abbrev read_entry : Entry
read_entry = record entry { content = limit 3 (10 ∷ 20 ∷ 30 ∷ 9 ∷ []) }

read_entry-GoodEntry : GoodEntry read_entry
read_entry-GoodEntry = record {
  id_16 = refl;
  sha_32 = refl;
  path_valid = a_b-valid;
  path_some = omega arith;
  path_limit = omega arith;
}

three_fit : Fits (entries ++ read_entry ∷ [])
unfolding total_length limit
three_fit = omega arith

limit-size : length (limit 3 (10 ∷ 20 ∷ 30 ∷ 9 ∷ [])) ≡ 3
unfolding limit
limit-size = refl

append_commits_example :
    (loc : PackLocation) × (w' : Writer) × (append digest writer artifact (10 ∷ 20 ∷ 30 ∷ 9 ∷ [])
      ≡ (placed loc, w'))
    × (loc.offset ≡ length (pack_file ids 5 entries))
    × (loc.record_length ≡ 80 + 3 + 3)
    × Represents w' ids 5 (entries ++ read_entry ∷ [])
append_commits_example =
    append_commits digest writer ids 5 entries ids-GoodIds writer-Represents artifact
      (10 ∷ 20 ∷ 30 ∷ 9 ∷ []) (replicate 16 7) (replicate 32 171) uuid_bytes-uuid_string_example
      sha_read limit-size refl read_entry-GoodEntry (entry-GoodEntry, (entry-GoodEntry, tt))
      three_fit

-- A reader of one byte, where three are declared.
short_append : (append digest writer artifact (10 ∷ [])).0 ≡ failed
unfolding append validate_logical_path beq clean decode_sha256 hex_decode hex_encode uuid_bytes
    uuid_string limit
short_append = refl

-- The write of the path breaks off after its first byte.
torn_append : (append_io digest (in_path 1) writer artifact (10 ∷ 20 ∷ 30 ∷ [])).0 ≡ failed
unfolding append_io validate_logical_path beq clean decode_sha256 hex_decode hex_encode uuid_bytes
    uuid_string limit
torn_append = refl

append_io-AfterFailure_example :
    AfterFailure artifact
      (in_path 1)
      writer
      (append_io digest (in_path 1) writer artifact (10 ∷ 20 ∷ 30 ∷ [])).1
append_io-AfterFailure_example =
    append_io-AfterFailure digest writer ids 5 entries writer-Represents artifact
      (10 ∷ 20 ∷ 30 ∷ []) (in_path 1) torn_append

early : before_count (in_path 1) ≡ true
unfolding before_count
early = refl

failed_append-resumes_example :
    (v : Writer) × (resume
        (some (append_io digest (in_path 1) writer artifact (10 ∷ 20 ∷ 30 ∷ [])).1.file)
        writer.header
      ≡ some v)
    × Represents v ids 5 entries
failed_append-resumes_example =
    failed_append-resumes digest writer ids 5 entries ids-GoodIds writer-Represents artifact
      (10 ∷ 20 ∷ 30 ∷ []) (in_path 1) writer.header (entry-GoodEntry, (entry-GoodEntry, tt))
      entries-Fits (omega arith) refl refl refl early torn_append

-- The file ends in half a record header.
resume-recovers_example :
    (w : Writer) × (resume (some (pack_file ids 5 entries ++ replicate 40 65)) writer.header
      ≡ some w)
    × Represents w ids 5 entries
resume-recovers_example =
    resume-recovers ids 5 entries (replicate 40 65) ids-GoodIds
      (entry-GoodEntry, (entry-GoodEntry, tt)) entries-Fits (omega arith) writer.header refl refl
      refl

-- What Create leaves of an empty path.
abbrev fresh : Writer
fresh = record writer {
  file = write_at 0 (header_bytes (replicate 16 1) (replicate 16 2) (replicate 16 3) 0 0 5) [];
  pos = 0;
  records = 0;
  payload = 0;
}

fresh-created : create none 9 writer.header ≡ some fresh
unfolding create write_header uuid_bytes uuid_string hex_encode hex_decode
fresh-created = refl

abbrev at_zero : PackLocation
at_zero = record { pack_id = uuid_string (replicate 16 1); offset = 0; record_length = 86 }

fresh-placed : (append digest fresh artifact (10 ∷ 20 ∷ 30 ∷ [])).0 ≡ placed at_zero
unfolding append validate_logical_path beq clean decode_sha256 hex_decode hex_encode uuid_bytes
    uuid_string limit finish_append write_header write sub64 add64
fresh-placed = refl

create-append_at_zero_example : at_zero.offset ≡ 0
create-append_at_zero_example =
    create-append_at_zero digest 9 writer.header fresh artifact (10 ∷ 20 ∷ 30 ∷ []) at_zero
      fresh-created fresh-placed
