-- ===== src/Examples/Catalog.antt =====
-- A catalog of two entries, one of which is deleted.
use airgap_mirror.Prelude.{◌≡◌, refl, true, [], ◌∷◌, List, arith, ltb, length, if◌then◌else◌, beq}
use airgap_mirror.Prelude.Int64.{two63}
use airgap_mirror.Prelude.Tables.{rows, affects}
use airgap_mirror.Domain.Types.{CatalogEntry}
use airgap_mirror.Domain.Transitions.{Err}
use airgap_mirror.Domain.Result.{ok, err}
use airgap_mirror.Database.{Database}
use airgap_mirror.Database.Sources.{initial_state, is_source}
use airgap_mirror.Database.Units.{stats, entry_of}
use airgap_mirror.Database.Catalog.{Change, apply_changes, replay, view, changes_refine}
use airgap_mirror.Database.Catalog.Totals.{total, stats_exact}
use airgap_mirror.Database.Exclusion.Runs.{empty_database}
use airgap_mirror.Examples.Maintenance.{source}

abbrev entry : CatalogEntry
entry = record {
  source_id = 115 ∷ [];
  logical_path = 97 ∷ [];
  size = 3;
  sha256 = [];
  package_key = [];
  version = [];
  attributes = [];
  updated_at = 5;
}

abbrev db : Database
db = record empty_database { sources = source ∷ []; states = initial_state source ∷ [] }

abbrev calls : List Change
calls =
    Change.put entry
    ∷ Change.put (record entry { logical_path = 98 ∷ [] })
    ∷ Change.delete (115 ∷ []) (97 ∷ [])
    ∷ []

changes_refine_example :
    (t : Database) × (apply_changes true calls db ≡ ok t) × (view t ≡ replay calls (view db))
unfolding affects is_source beq
changes_refine_example = changes_refine true calls db (refl, (refl, (tt, tt)))

abbrev full : Database
full = record db {
  imports = record db.imports { catalog = entry ∷ record entry { logical_path = 98 ∷ [] } ∷ [] };
}

stats_exact_example : stats (115 ∷ []) full ≡ (
    if ltb (total (rows (entry_of (115 ∷ [])) full.imports.catalog)) two63
    then ok (record {
      source_id = 115 ∷ [];
      bytes = total (rows (entry_of (115 ∷ [])) full.imports.catalog);
      objects = length (rows (entry_of (115 ∷ [])) full.imports.catalog);
    })
    else err Err.other)
stats_exact_example = stats_exact (115 ∷ []) full (omega arith, (omega arith, tt))
