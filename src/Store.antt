-- ===== src/Store.antt =====
-- The server's database, internal/storage/sqlite/server_schema.sql, as far as uploads use it, and the
-- queries of internal/storage/sqlite/server_import_registration.go on it. A query meets no error of
-- the driver, and a transaction that returns an error leaves the tables as they were.
pub mod Rows
pub mod Commit
use airgap_mirror.Prelude.{ℕ, Bool, ◌&&◌, List, Option, none, some, beq, if◌then◌else◌, not}
use airgap_mirror.Prelude.Tables.{find, modify, affects}
use airgap_mirror.Domain.Status.{Text}
use airgap_mirror.Domain.Types.{ImportSession, ImportPack, Pack}

pub record Store : Type 0 where
  pub sessions : List ImportSession
  pub import_packs : List ImportPack
  pub packs : List Pack

unfoldable pub get_import_session : Text → Store → Option ImportSession
get_import_session id s = find (λ v. beq v.id id) s.sessions

unfoldable pub get_import_session_by_request : Text → Store → Option ImportSession
get_import_session_by_request id s = find (λ v. beq v.request_id id) s.sessions

unfoldable pub set_session : ImportSession → ImportSession → ImportSession
set_session v x = record x {
  manifest_uploaded = v.manifest_uploaded;
  status = v.status;
  updated_at = v.updated_at;
  error_text = v.error_text;
}

-- UpdateImportSession; `none` is domain.ErrNotFound.
unfoldable pub update_import_session : ImportSession → Store → Option Store
unfolding set_session
update_import_session v s =
    if not (affects (λ x. beq x.id v.id) s.sessions)
    then none
    else some (record s { sessions = modify (λ x. beq x.id v.id) (set_session v) s.sessions })

unfoldable pub is_import_pack : Text → Text → ImportPack → Bool
is_import_pack sid pid v = beq v.session_id sid && beq v.pack_id pid

unfoldable pub get_import_pack : Text → Text → Store → Option ImportPack
unfolding is_import_pack
get_import_pack sid pid s = find (is_import_pack sid pid) s.import_packs

unfoldable pub set_import_pack : ImportPack → ImportPack → ImportPack
set_import_pack v x = record x { uploaded_size = v.uploaded_size; status = v.status }

unfoldable pub set_pack : ImportPack → Pack → Pack
set_pack v x = record x { uploaded_size = v.uploaded_size; status = v.status }

-- UpdateImportPack, which also writes the row of `packs`; `none` is domain.ErrNotFound.
unfoldable pub update_import_pack : ImportPack → Store → Option Store
unfolding set_import_pack set_pack is_import_pack
update_import_pack v s =
    if not (affects (is_import_pack v.session_id v.pack_id) s.import_packs)
    then none
    else if not (affects (λ x. beq x.id v.pack_id) s.packs)
    then none
    else some (record s {
      import_packs =
          modify (is_import_pack v.session_id v.pack_id) (set_import_pack v) s.import_packs;
      packs = modify (λ x. beq x.id v.pack_id) (set_pack v) s.packs;
    })
