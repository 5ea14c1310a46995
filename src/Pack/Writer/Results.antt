-- ===== src/Pack/Writer/Results.antt =====
-- Append of internal/pack/writer.go adds one entry to the pack.
use airgap_mirror.Prelude.{
  ℕ, ◌+◌, ◌≡◌, refl, ◌∙◌, false, none, some, All, List, [], ◌∷◌, ◌++◌, length, arith,
}
use airgap_mirror.Domain.Types.{Artifact, PackLocation}
use airgap_mirror.Pack.Bytes.{hex_encode}
use airgap_mirror.Pack.Uuid.{uuid_bytes}
use airgap_mirror.Pack.Clean.{validate_logical_path}
use airgap_mirror.Pack.Format.{decode_sha256}
use airgap_mirror.Pack.Writer.{
  Writer, limit, append, append_record, append_io, works, append_checked, placed,
}
use airgap_mirror.Pack.Writer.Represents.{Represents}
use airgap_mirror.Pack.Writer.Appends.{location, longer, committed}
use airgap_mirror.Pack.Spec.{Entry, Ids, GoodIds, GoodEntry, Fits}

-- The checks that pass.
checked :
    (sha256 : List ℕ → List ℕ) (w : Writer) (a : Artifact) (r id sha : List ℕ)
    → w.closed ≡ false
    → validate_logical_path a.logical_path ≡ none
    → decode_sha256 a.sha256 ≡ some sha
    → uuid_bytes a.id ≡ some id
    → append sha256 w a r ≡ append_record sha256 works w a r sha id
unfolding append append_io append_checked
checked sha256 w a r id sha is_open valid psha pid = simp (is_open, valid, psha, pid)

module _ (sha256 : List ℕ → List ℕ) (w : Writer) (i : Ids) (created : ℕ) (es : List Entry)
    (ids : GoodIds i) (rep : Represents w i created es) (a : Artifact) (r : List ℕ) where
  -- On a writer that stands at the end of a pack of good entries, for an artifact with a valid
  -- path, id and digest, whose bytes have the declared size and digest, and while the pack fits
  -- into int64 offsets: Append succeeds, reports where the record starts and how long it is, and
  -- the file is the pack with the entry added and counted in the header.
  pub append_commits :
      (id sha : List ℕ)
      → uuid_bytes a.id ≡ some id
      → decode_sha256 a.sha256 ≡ some sha
      → length (limit a.size r) ≡ a.size
      → hex_encode (sha256 (limit a.size r)) ≡ a.sha256
      → GoodEntry (record { id = id; path = a.logical_path; sha = sha; content = limit a.size r })
      → All GoodEntry es
      → Fits (
          es ++ record { id = id; path = a.logical_path; sha = sha; content = limit a.size r } ∷ [])
      → (loc : PackLocation) × (w' : Writer) × (append sha256 w a r ≡ (placed loc, w'))
        × (loc.offset ≡ length w.file)
        × (loc.record_length ≡ 80 + length a.logical_path + a.size)
        × Represents w' i created (
            es
            ++ record { id = id; path = a.logical_path; sha = sha; content = limit a.size r } ∷ [])
  unfolding append append_io
  append_commits id sha pid psha size digest good goods fits = (
    location sha256 w i created es ids rep a r id sha,
    longer sha256 w i created es ids rep a r id sha,
    at,
    refl,
    omega (arith, size),
    record {
      file = refl;
      pos = refl;
      pack_id = rep.pack_id;
      epoch_id = rep.epoch_id;
      batch_id = rep.batch_id;
      created_unix = rep.created_unix;
      records = refl;
      payload = refl;
      is_open = rep.is_open;
    },
  )
    where
      at : append sha256 w a r ≡ (
        placed (location sha256 w i created es ids rep a r id sha),
        longer sha256 w i created es ids rep a r id sha,
      )
      at =
          checked sha256 w a r id sha rep.is_open good.path_valid psha pid
          ∙ committed sha256 w i created es ids rep a r id sha size digest good goods fits
