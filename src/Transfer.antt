-- ===== src/Transfer.antt =====
-- internal/service/transfer.go: the resumable upload of a manifest and of packs. A file system is a
-- map from paths to the bytes of the files; its calls meet no error but a missing file.
pub mod Chunk
pub mod Upload
use airgap_mirror.Prelude.{
  ℕ, ◌+◌, ◌*◌, ◌^◌, Bool, true, false, not, ◌||◌, List, [], Option, none, some, take, length, leb,
  ltb, ◌==◌, beq, if◌then◌else◌,
}
use airgap_mirror.Prelude.Int64.{two63, add64, lt64}
use airgap_mirror.Domain.Status.{Text, SessionStatus, PackStatus, session_eq, pack_eq}
use airgap_mirror.Domain.Types.{ImportSession, ImportPack}
use airgap_mirror.Domain.Transitions.{Err}
use airgap_mirror.Pack.Bytes.{hex_encode}
use airgap_mirror.Pack.Writer.{write_at, truncate}
use airgap_mirror.Store.{
  Store, get_import_session, update_import_session, get_import_pack, update_import_pack,
}

abbrev pub Files : Type 0
Files = Text → Option (List ℕ)

unfoldable pub put : Text → List ℕ → Files → Files
put path content files q = if beq q path then some content else files q

pub record Server : Type 0 where
  pub store : Store
  pub files : Files

-- The number and the error that a call returns.
abbrev pub Reply : Type 0
Reply = ℕ × Option Err

-- MaxUploadChunk
abbrev pub max_upload_chunk : ℕ
max_upload_chunk = 134217728

-- The bytes of a file, none if it does not exist.
unfoldable pub content_at : Text → Files → List ℕ
content_at path files = elim (files path) [ none ↦ [] | some c ↦ c ]

unfoldable pub file_offset : Text → Files → ℕ
unfolding content_at
file_offset path files = length (content_at path files)

-- io.CopyN: what could be read of the `n` bytes is written before the call fails.
copy_n : Text → ℕ → List ℕ → ℕ → Files → Reply × Files
copy_n path offset r n files =
    let got = take n r in
    let files' = put path (write_at offset got (content_at path files)) files in
    if ltb (length got) n
    then ((add64 offset (length got), some Err.other), files')
    else ((add64 offset (length got), none), files')

unfoldable pub append_chunk : Text → ℕ → ℕ → List ℕ → ℕ → Files → Reply × Files
unfolding copy_n
append_chunk path offset total r n files =
    if lt64 offset 0 || lt64 n 0 || lt64 max_upload_chunk n
    then ((offset, some Err.invalid), files)
    else if not (file_offset path files == offset)
    then ((file_offset path files, some Err.conflict), files)
    else if lt64 total (add64 offset n)
    then ((offset, some Err.invalid), files)
    else copy_n path offset r n files

-- The part that ManifestOffset and PackOffset share: the file at `path` is compared with the
-- committed size and with the size that is expected, and a longer one is cut back.
unfoldable pub offset_of : Text → ℕ → ℕ → Server → Reply × Server
offset_of path committed expected s =
    let actual = file_offset path s.files in
    if lt64 actual committed
    then ((actual, some Err.conflict), s)
    else if lt64 committed actual
    then if lt64 expected actual then ((actual, some Err.conflict), s) else (
      (committed, none),
      record s { files = put path (truncate committed (content_at path s.files)) s.files },
    )
    else ((committed, none), s)

unfoldable pub manifest_offset : Text → Server → Reply × Server
unfolding offset_of
manifest_offset id s = elim (get_import_session id s.store) [
  | none ↦ ((0, some Err.not_found), s)
  | some v ↦ offset_of v.manifest_path v.manifest_uploaded v.manifest_size s
]

manifest_appended : ℕ → ImportSession → Reply × Files → Server → Reply × Server
manifest_appended now v ((next, some e), files) s = ((next, some e), record s { files = files })
manifest_appended now v ((next, none), files) s =
    elim (update_import_session (record v { manifest_uploaded = next; updated_at = now }) s.store) [
      | none ↦ ((next, some Err.not_found), record s { files = files })
      | some store ↦ ((next, none), record { store = store; files = files })
    ]

append_manifest_to : ℕ → ImportSession → ℕ → List ℕ → ℕ → Server → Reply × Server
unfolding manifest_appended
append_manifest_to now v offset r n s =
    if not (session_eq v.status SessionStatus.uploading_manifest)
    then ((v.manifest_uploaded, some Err.conflict), s)
    else manifest_appended now v (append_chunk v.manifest_path offset v.manifest_size r n s.files) s

-- AppendManifest; `now` is the clock.
unfoldable pub append_manifest : ℕ → Text → ℕ → List ℕ → ℕ → Server → Reply × Server
unfolding append_manifest_to
append_manifest now id offset r n s = elim (get_import_session id s.store) [
  | none ↦ ((0, some Err.not_found), s)
  | some v ↦ append_manifest_to now v offset r n s
]

unfoldable pub pack_offset : Text → Text → Server → Reply × Server
unfolding offset_of
pack_offset sid pid s = elim (get_import_pack sid pid s.store) [
  | none ↦ ((0, some Err.not_found), s)
  | some p ↦ offset_of p.staging_path p.uploaded_size p.expected_size s
]

unfoldable pub uploaded_to : ℕ → ImportPack → ImportPack
uploaded_to next p = record p {
  uploaded_size = next;
  status = if next == p.expected_size then PackStatus.uploaded else p.status;
}

unfoldable pub pack_appended : ImportPack → Reply × Files → Server → Reply × Server
unfolding uploaded_to
pack_appended p ((next, some e), files) s = ((next, some e), record s { files = files })
pack_appended p ((next, none), files) s = elim (update_import_pack (uploaded_to next p) s.store) [
  | none ↦ ((next, some Err.not_found), record s { files = files })
  | some store ↦ ((next, none), record { store = store; files = files })
]

unfoldable pub append_pack_to : ImportPack → ℕ → List ℕ → ℕ → Server → Reply × Server
append_pack_to p offset r n s =
    if not (pack_eq p.status PackStatus.uploading)
    then ((p.uploaded_size, some Err.conflict), s)
    else pack_appended p (append_chunk p.staging_path offset p.expected_size r n s.files) s

-- AppendPack
unfoldable pub append_pack : Text → Text → ℕ → List ℕ → ℕ → Server → Reply × Server
append_pack sid pid offset r n s = elim (get_import_pack sid pid s.store) [
  | none ↦ ((0, some Err.not_found), s)
  | some p ↦ append_pack_to p offset r n s
]

-- FileSHA256 of internal/pack/hash.go; `none` is the error on a missing file.
unfoldable pub file_sha256 : (List ℕ → List ℕ) → Text → Files → Option (Text × ℕ)
file_sha256 sha256 path files = elim (files path) [
  | none ↦ none
  | some c ↦ some (hex_encode (sha256 c), length c)
]

unfoldable pub verify_uploaded_pack : (List ℕ → List ℕ) → ImportPack → Files → Option Err
unfolding file_sha256
verify_uploaded_pack sha256 p files = elim (file_sha256 sha256 p.staging_path files) [
  | none ↦ some Err.other
  | some (h, n) ↦
      if not (n == p.expected_size) || not (beq h p.expected_sha256)
      then some Err.conflict
      else none
]
