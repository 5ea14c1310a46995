-- ===== src/Transfer/Upload.antt =====
-- The upload of one pack by AppendPack and PackOffset of internal/service/transfer.go, over any
-- sequence of calls, short reads and crashes.
mod Calls
mod Keeps
pub mod Results
use airgap_mirror.Prelude.{
  ℕ, ◌+◌, ◌≤◌, ◌<◌, ◌≡◌, refl, sym, ap, ◌∙◌, ◌⊎◌, inl, inr, Bool, true, false, not, List, [], ◌++◌,
  Option, none, some, take, drop, length, ◌==◌, beq, beq_refl, if◌then◌else◌, Bool-cases, arith,
  length-append, ==_eq, ==_refl, not-eq_false, take-length_self,
}
use airgap_mirror.Prelude.Int64.{two63, two64, lt64}
use airgap_mirror.Prelude.Tables.{affects}
use airgap_mirror.Domain.Status.{Text, PackStatus, pack_eq}
use airgap_mirror.Domain.Types.{ImportPack}
use airgap_mirror.Domain.Transitions.{Err}
use airgap_mirror.Pack.Bytes.{hex_encode}
use airgap_mirror.Store.{Store, get_import_pack, update_import_pack}
use airgap_mirror.Transfer.{
  Files, put, Reply, Server, max_upload_chunk, content_at, append_chunk, append_pack,
  append_pack_to, pack_appended, pack_offset, offset_of, uploaded_to, verify_uploaded_pack,
}
use airgap_mirror.Transfer.Chunk.{Kept, Grown, append_chunk-cases, content_at-put}

-- What the client sends is what `data` has at that offset, as much of it as can be read.
abbrev pub Honest : List ℕ → ℕ → List ℕ → ℕ → Type 0
Honest whole offset r n = take n r ≡ take (length (take n r)) (drop offset whole)

-- The committed part of a pack is in its file, and the file is a beginning of `data`.
pub record Sound (whole : List ℕ) (sid pid : Text) (s : Server) : Type 0 where
  pub row : ImportPack
  pub found : get_import_pack sid pid s.store ≡ some row
  pub has_pack : affects (λ x. beq x.id pid) s.store.packs ≡ true
  pub prefix :
      content_at row.staging_path s.files
      ≡ take (length (content_at row.staging_path s.files)) whole
  pub committed : row.uploaded_size ≤ length (content_at row.staging_path s.files)
  pub limited : length (content_at row.staging_path s.files) ≤ row.expected_size
  pub expected : row.expected_size ≡ length whole
  pub small : row.expected_size + max_upload_chunk < two63
  pub complete : row.status ≡ PackStatus.uploaded → row.uploaded_size ≡ row.expected_size

pub data Step (whole : List ℕ) (sid pid : Text) : Server → Server → Type 0 where
  appends :
      {s : Server} (offset : ℕ) (r : List ℕ) (n : ℕ)
      → offset < two64
      → n < two64
      → Honest whole offset r n
      → Step whole sid pid s (append_pack sid pid offset r n s).1
  asks : {s : Server} → Step whole sid pid s (pack_offset sid pid s).1
  -- The process ends between the write of the file and the update of the database.
  crashes :
      {s : Server} (p : ImportPack) (offset : ℕ) (r : List ℕ) (n : ℕ)
      → get_import_pack sid pid s.store ≡ some p
      → offset < two64
      → n < two64
      → Honest whole offset r n
      → Step whole sid pid s
          (record s { files = (append_chunk p.staging_path offset p.expected_size r n s.files).1 })

pub data Steps (whole : List ℕ) (sid pid : Text) : Server → Server → Type 0 where
  done : {s : Server} → Steps whole sid pid s s
  more :
      {s t u : Server} → Step whole sid pid s t → Steps whole sid pid t u → Steps whole sid pid s u
