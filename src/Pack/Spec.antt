-- ===== src/Pack/Spec.antt =====
-- What a pack file is: a header that counts its entries, and the entries one after another. The
-- proofs about internal/pack/writer.go and internal/pack/reader.go are stated with it.
use airgap_mirror.Prelude.{ℕ, ◌+◌, ◌^◌, ◌≤◌, ◌<◌, ◌≡◌, none, List, [], ◌∷◌, ◌++◌, All, length}
use airgap_mirror.Prelude.Int64.{two63}
use airgap_mirror.Domain.Status.{Text}
use airgap_mirror.Domain.Types.{PackRecord}
use airgap_mirror.Pack.Bytes.{IsByte, hex_encode}
use airgap_mirror.Pack.Uuid.{uuid_string}
use airgap_mirror.Pack.Clean.{validate_logical_path}
use airgap_mirror.Pack.Format.{pack_header_size, record_header_size, header_bytes, record_bytes}

pub record Entry : Type 0 where
  pub id : List ℕ
  pub path : Text
  pub sha : List ℕ
  pub content : List ℕ

pub record Ids : Type 0 where
  pub pack : List ℕ
  pub epoch : List ℕ
  pub batch : List ℕ

pub record GoodIds (i : Ids) : Type 0 where
  pub pack_16 : length i.pack ≡ 16
  pub epoch_16 : length i.epoch ≡ 16
  pub batch_16 : length i.batch ≡ 16
  pub pack_bytes : All IsByte i.pack
  pub epoch_bytes : All IsByte i.epoch
  pub batch_bytes : All IsByte i.batch

-- The limits that Next puts on a record.
pub record GoodEntry (e : Entry) : Type 0 where
  pub id_16 : length e.id ≡ 16
  pub sha_32 : length e.sha ≡ 32
  pub path_valid : validate_logical_path e.path ≡ none
  pub path_some : 0 < length e.path
  pub path_limit : length e.path ≤ 2 ^ 20

unfoldable pub encode : Entry → List ℕ
encode e = record_bytes e.id (length e.content) (length e.path) e.sha ++ (e.path ++ e.content)

unfoldable pub encode_all : List Entry → List ℕ
encode_all [] = []
encode_all (e ∷ es) = encode e ++ encode_all es

abbrev pub entry_length : Entry → ℕ
entry_length e = record_header_size + length e.path + length e.content

unfoldable pub total_content : List Entry → ℕ
total_content [] = 0
total_content (e ∷ es) = length e.content + total_content es

unfoldable pub total_length : List Entry → ℕ
total_length [] = 0
total_length (e ∷ es) = entry_length e + total_length es

unfoldable pub pack_file : Ids → ℕ → List Entry → List ℕ
pack_file i created es =
    header_bytes i.pack i.epoch i.batch (length es) (total_content es) created ++ encode_all es

-- A pack that int64 offsets can address.
abbrev pub Fits : List Entry → Type 0
Fits es = pack_header_size + total_length es < two63

-- The record that Next reports of an entry at an offset.
unfoldable pub record_of : ℕ → Entry → PackRecord
record_of off e = record {
  entry_id = uuid_string e.id;
  logical_path = e.path;
  content_length = length e.content;
  sha256 = hex_encode e.sha;
  offset = off;
  record_length = entry_length e;
}
