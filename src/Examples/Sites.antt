-- ===== src/Examples/Sites.antt =====
-- One metadata file that is published, interrupted and published again.
use airgap_mirror.Prelude.{
  arith, ◌≡◌, refl, true, none, some, [], ◌∷◌, All, beq, inl, if◌then◌else◌,
}
use airgap_mirror.Domain.Status.{Text, ArtifactOperation}
use airgap_mirror.Domain.Types.{Source, PublishMetadataEntry}
use airgap_mirror.Domain.Result.{ok, err, check, ◌>>◌, ◌>>=◌, pass}
use airgap_mirror.Pack.Clean.{validate_logical_path, split, clean}
use airgap_mirror.Pack.Clean.Stack.{IsName}
use airgap_mirror.Transfer.{Files}
use airgap_mirror.Database.Sources.{initial_state, is_source}
use airgap_mirror.Database.Units.{upsert_entry, with_catalog}
use airgap_mirror.Store.Commit.{upsert}
use airgap_mirror.Prelude.Tables.{affects}
use airgap_mirror.Pack.Bytes.{hex_encode}
use airgap_mirror.Database.Exclusion.Runs.{empty_database}
use airgap_mirror.Site.{
  Site, Lstat, safe_target, write_verified, rename, hash_file, reject_symlink_parents,
}
use airgap_mirror.Site.Target.{safe_target_exact}
use airgap_mirror.Site.Written.{Written, write_verified-Written}
use airgap_mirror.Publisher.{
  Outside, publish_metadata, target_of, catalog_row, publish_at, publish_content, differs,
  move_staged, to_catalog,
}
use airgap_mirror.Publisher.Metadata.{
  Installed, publish_metadata-Installed, interrupted, publish_recovers,
}
use airgap_mirror.Examples.Maintenance

-- The root /s.
abbrev pub source : Source
source = record Maintenance.source { root_path = 47 ∷ 115 ∷ [] }

abbrev target : Text
target = 47 ∷ 115 ∷ 47 ∷ 97 ∷ []

s-IsName : All IsName (split (115 ∷ []))
unfolding split
s-IsName = ((λ h. absurd (cc h), λ h. absurd (ground arith), λ h. absurd (ground arith)), tt)

safe_target_exact_example :
    safe_target (λ p. p) (47 ∷ 115 ∷ []) (97 ∷ [])
    ≡ elim (validate_logical_path (97 ∷ [])) [ none ↦ ok target | some e ↦ err e ]
safe_target_exact_example =
    safe_target_exact (λ p. p) (47 ∷ 115 ∷ []) (115 ∷ []) (97 ∷ []) refl s-IsName

abbrev staged : Files
staged q = if beq q (120 ∷ []) then some (5 ∷ []) else none

-- The SHA-256 of every content is empty here.
write_verified-Written_example :
    Written
      (λ c. [])
      target
      1
      []
      staged
      (write_verified
        (λ c. [])
        (λ p. p)
        (λ p. Lstat.plain)
        (47 ∷ 115 ∷ [])
        target
        1
        []
        (7 ∷ [])
        true
        staged)
write_verified-Written_example =
    write_verified-Written (λ c. []) (λ p. p) (λ p. Lstat.plain) (47 ∷ 115 ∷ []) target 1 []
      (7 ∷ []) true staged

abbrev pub outside : Outside
outside = record {
  sha256 = λ c. [];
  abs = λ p. p;
  lstat = λ p. Lstat.plain;
  enforced = true;
  validate = λ source ep u db. none;
  manifest = λ path. none;
}

abbrev entry : PublishMetadataEntry
entry = record {
  entry_id = 1 ∷ [];
  publish_unit_id = 3 ∷ [];
  source_id = 115 ∷ [];
  logical_path = 97 ∷ [];
  size = 1;
  sha256 = [];
  operation = ArtifactOperation.add;
  staged_path = 120 ∷ [];
  package_key = [];
  version = [];
  attributes = [];
}

abbrev before : Site
before = record {
  db = record empty_database { sources = source ∷ []; states = initial_state source ∷ [] };
  files = staged;
}

abbrev after : Site
after = record {
  db = record before.db {
    imports = record before.db.imports { catalog = catalog_row 9 entry ∷ [] };
  };
  files = rename (120 ∷ []) target staged;
}

has_target : target_of outside source entry ≡ ok target
unfolding target_of ◌>>◌ ◌>>=◌ check beq safe_target pass validate_logical_path clean
    reject_symlink_parents
has_target = refl

published : publish_metadata outside 9 source entry before ≡ (none, after)
unfolding publish_metadata publish_at publish_content hash_file differs move_staged to_catalog
    upsert_entry with_catalog affects is_source upsert reject_symlink_parents check ◌>>◌ ◌>>=◌
    hex_encode beq split
published = rw (publish_metadata, has_target) refl

publish_metadata-Installed_example :
    (path : Text) × (target_of outside source entry ≡ ok path)
    × Installed outside 9 entry path after
publish_metadata-Installed_example =
    publish_metadata-Installed outside 9 source entry before after (inl refl) published

publish_recovers_example :
    publish_metadata outside 9 source entry (interrupted entry target before) ≡ (none, after)
unfolding beq
publish_recovers_example =
    publish_recovers outside 9 source entry target before after (5 ∷ []) (inl refl) has_target refl
      refl published
