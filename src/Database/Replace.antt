-- ===== src/Database/Replace.antt =====
-- internal/storage/sqlite/server_catalog_replace.go. The rows of the attached database are an argument;
-- the checks of the file itself, which stand before it is attached, are not modelled.
use airgap_mirror.Prelude.{
  ℕ, Bool, ◌&&◌, ◌||◌, not, List, [], ◌++◌, beq, none, some, ◌==◌, ◌+◌, length, ltb,
}
use airgap_mirror.Prelude.Int64.{lt64}
use airgap_mirror.Prelude.Tables.{find, modify, affects, rows, remove, count}
use airgap_mirror.Domain.Status.{Text}
use airgap_mirror.Domain.Types.{SourceState, CatalogEntry, CatalogStats}
use airgap_mirror.Domain.Transitions.{Err}
use airgap_mirror.Domain.Result.{Result, ok, err, ◌>>=◌, ◌>>◌, check, found}
use airgap_mirror.Database.{Database}
use airgap_mirror.Database.Sources.{is_source, state_of, busy}
use airgap_mirror.Database.Units.{entry_of, sum_sizes, with_catalog}

unfoldable pub bad_request : Text → Text → CatalogStats → Bool
bad_request source path expected =
    beq source []
    || beq path []
    || not (beq expected.source_id source)
    || lt64 expected.bytes 0
    || lt64 expected.objects 0

-- UPDATE source_states of a source that is not busy.
unfoldable pub idle_state : Text → SourceState → Bool
idle_state source v = state_of source v && not (busy v)

-- The catalog_version is that of `advance`.
unfoldable pub replaced : CatalogStats → ℕ → SourceState → SourceState
replaced expected at v = record v {
  live_bytes = expected.bytes;
  live_objects = expected.objects;
  catalog_version = v.catalog_version + 1;
  updated_at = at;
}

unfoldable pub replace_catalog :
    Bool → Text → Text → List CatalogEntry → CatalogStats → ℕ → Database → Result Database
unfolding replaced idle_state
replace_catalog fk source path rebuild expected at db = do
  check (bad_request source path expected) Err.invalid
  bytes ← (elim (sum_sizes 0 rebuild) [ none ↦ err Err.other | some n ↦ ok n ])
  check (affects (λ x. not (entry_of source x)) rebuild) Err.conflict
  check (not (bytes == expected.bytes) || not (length rebuild == expected.objects)) Err.conflict
  st ← found (find (state_of source) db.states)
  check (busy st) Err.conflict
  check (fk && ltb 0 (length rebuild) && not (affects (is_source source) db.sources)) Err.other
  check (not (length (rows (entry_of source) rebuild) == expected.objects)) Err.conflict
  check (not (count (idle_state source) db.states == 1)) Err.conflict
  ok
      (record (with_catalog
        (rows (entry_of source) rebuild ++ remove (entry_of source) db.imports.catalog) db) {
          states = modify (idle_state source) (replaced expected at) db.states;
        })
