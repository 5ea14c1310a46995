-- ===== src/Examples/Uploads.antt =====
-- A pack of three bytes, sent in two chunks with a question for the offset between them.
use airgap_mirror.Prelude.{ℕ, ◌+◌, ◌≡◌, refl, none, some, List, [], ◌∷◌, arith, beq}
use airgap_mirror.Prelude.Tables.{find, modify, affects}
use airgap_mirror.Prelude.Int64.{lt64, add64}
use airgap_mirror.Domain.Status.{PackStatus, pack_eq}
use airgap_mirror.Domain.Types.{ImportPack, Pack}
use airgap_mirror.Pack.Writer.{write_at}
use airgap_mirror.Store.{get_import_pack, update_import_pack}
use airgap_mirror.Transfer.{
  Server, append_pack, append_pack_to, pack_appended, append_chunk, file_offset, put, pack_offset,
  content_at,
}
use airgap_mirror.Transfer.Upload.{Sound, Step, Steps}
use airgap_mirror.Transfer.Upload.Results.{Step-Sound, upload_integrity, resume_accepts}

abbrev whole : List ℕ
whole = 1 ∷ 2 ∷ 3 ∷ []

abbrev row : ImportPack
row = record {
  session_id = 5 ∷ [];
  pack_id = 6 ∷ [];
  expected_size = 3;
  expected_sha256 = [];
  uploaded_size = 0;
  staging_path = 7 ∷ [];
  status = PackStatus.uploading;
}

abbrev pack : Pack
pack = record {
  id = 6 ∷ [];
  epoch_id = [];
  batch_id = [];
  sequence = 1;
  size = 3;
  sha256 = [];
  entry_count = 1;
  uploaded_size = 0;
  file_path = [];
  status = PackStatus.uploading;
}

abbrev start : Server
start = record {
  store = record { sessions = []; import_packs = row ∷ []; packs = pack ∷ [] };
  files = λ path. none;
}

start-Sound : Sound whole (5 ∷ []) (6 ∷ []) start
unfolding get_import_pack affects beq content_at find
start-Sound = record {
  row = row;
  found = refl;
  has_pack = refl;
  prefix = refl;
  committed = omega arith;
  limited = omega arith;
  expected = refl;
  small = omega arith;
  complete = λ h. absurd (cc h);
}

abbrev first : Server
first = (append_pack (5 ∷ []) (6 ∷ []) 0 (1 ∷ 2 ∷ []) 2 start).1

abbrev asked : Server
asked = (pack_offset (5 ∷ []) (6 ∷ []) first).1

abbrev second : Server
second = (append_pack (5 ∷ []) (6 ∷ []) 2 (3 ∷ []) 1 asked).1

both : Steps whole (5 ∷ []) (6 ∷ []) start second
both = Steps.more (Step.appends 0 (1 ∷ 2 ∷ []) 2 (omega arith) (omega arith) refl) (
    Steps.more Step.asks
      (Steps.more (Step.appends 2 (3 ∷ []) 1 (omega arith) (omega arith) refl) Steps.done))

abbrev sent : ImportPack
sent = record row { uploaded_size = 3; status = PackStatus.uploaded }

sent-found : get_import_pack (5 ∷ []) (6 ∷ []) second.store ≡ some sent
unfolding append_pack pack_offset append_pack_to pack_appended get_import_pack find beq pack_eq
    append_chunk lt64 file_offset add64 update_import_pack affects modify put write_at
sent-found = refl

upload_integrity_example : content_at (7 ∷ []) second.files ≡ whole
upload_integrity_example =
    upload_integrity whole (5 ∷ []) (6 ∷ []) start-Sound both sent sent-found refl

Step-Sound_example : Sound whole (5 ∷ []) (6 ∷ []) first
Step-Sound_example =
    Step-Sound whole (5 ∷ []) (6 ∷ [])
      (Step.appends 0 (1 ∷ 2 ∷ []) 2 (omega arith) (omega arith) refl) start-Sound

abbrev half : ImportPack
half = record row { uploaded_size = 2 }

half-found : get_import_pack (5 ∷ []) (6 ∷ []) first.store ≡ some half
unfolding append_pack append_pack_to pack_appended get_import_pack find beq pack_eq append_chunk
    lt64 file_offset add64 update_import_pack affects modify
half-found = refl

resume_accepts_example :
    ((pack_offset (5 ∷ []) (6 ∷ []) first).0 ≡ (2, none))
    × ((append_pack (5 ∷ []) (6 ∷ []) 2 (3 ∷ []) 1 asked).0 ≡ (2 + 1, none))
resume_accepts_example =
    resume_accepts whole (5 ∷ []) (6 ∷ []) start-Sound
      (Steps.more (Step.appends 0 (1 ∷ 2 ∷ []) 2 (omega arith) (omega arith) refl) Steps.done) half
      (3 ∷ []) 1 half-found refl (omega arith) (omega arith) (omega arith)
