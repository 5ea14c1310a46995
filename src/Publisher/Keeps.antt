-- ===== src/Publisher/Keeps.antt =====
-- PublishReady of internal/service/publisher.go leaves the sessions and the packs alone.
use airgap_mirror.Prelude.{
  ℕ, ◌≡◌, refl, ◌∙◌, Bool, not, ◌||◌, inl, inr, List, [], ◌∷◌, beq, Bool-cases, Option-cases, ◌==◌,
}
use airgap_mirror.Domain.Status.{Text, ArtifactOperation}
use airgap_mirror.Domain.Types.{Source, Epoch, PublishUnit, PublishMetadataEntry, CatalogEntry}
use airgap_mirror.Domain.Transitions.{Err}
use airgap_mirror.Domain.Result.{Ensures, returns, after_check, Result-cases}
use airgap_mirror.Database.{Database}
use airgap_mirror.Database.Epochs.{is_published}
use airgap_mirror.Database.Units.{
  with_units, with_catalog, mark_published, upsert_entry, delete_entry,
}
use airgap_mirror.Site.{Site, hash_file, reject_symlink_parents}
use airgap_mirror.Publisher.{
  Outside, Done, and_then, empty_sha256, catalog_row, to_catalog, differs, published_before,
  move_staged, publish_content, drop_content, publish_at, target_of, publish_metadata, publish_all,
  list_publish_metadata, list_publish_units, mark_unit, publish_entries, unexpected, publish_unit,
  publish_units, epoch_and_source, publish_ready,
}
use airgap_mirror.Publisher.Metadata.{Leaves, leaves, fails, after_done}

-- The call that succeeds leaves the store as it was.
abbrev pub Keeps : Site → Done → Type 0
Keeps s d = Leaves (λ t. t.db.store ≡ s.db.store) d

upsert-store :
    (fk : Bool) (v : CatalogEntry) (db : Database)
    → Ensures (λ t. t.store ≡ db.store) (upsert_entry fk v db)
unfolding upsert_entry with_catalog
upsert-store fk v db = after_check _ _ _ λ _. returns _ refl

mark-store :
    (id : Text) (at : ℕ) (db : Database)
    → Ensures (λ t. t.store ≡ db.store) (mark_published id at db)
unfolding mark_published with_units
mark-store id at db = after_check _ _ _ λ _. returns _ refl

-- Calls one after the other keep the store.
chain-Keeps :
    (s : Site) (d : Done) (k : Site → Done)
    → Keeps s d
    → ((t : Site) → Keeps t (k t))
    → Keeps s (and_then d k)
chain-Keeps s d k h g =
    after_done d k λ t e. record { holds = λ u f. (g t).holds u f ∙ h.holds t e }

module _ (o : Outside) (now : ℕ) where
  catalog-Keeps : (m : PublishMetadataEntry) (s : Site) → Keeps s (to_catalog o now m s)
  unfolding to_catalog
  catalog-Keeps m s = elim (Result-cases (upsert_entry o.enforced (catalog_row now m) s.db)) [
    | inl r ↦ rw (to_catalog, r.1) (fails r.0 s)
    | inr r ↦
        rw (to_catalog, r.1)
          (leaves _ ((upsert-store o.enforced (catalog_row now m) s.db).holds r.0 r.1))
  ]

  before-Keeps :
      (m : PublishMetadataEntry) (target : Text) (s : Site)
      → Keeps s (published_before o now m target s)
  unfolding published_before
  before-Keeps m target s = elim (Option-cases (hash_file o.sha256 target s.files)) [
    | inl e ↦ rw (published_before, e) (fails Err.other s)
    | inr r ↦
        rw (published_before, r.1)
          (elim (Bool-cases (differs r.0 m)) [
            | inl d ↦ rw d (fails Err.conflict s)
            | inr d ↦ rw d (catalog-Keeps m s)
          ])
  ]

  module _ (source : Source) where
    move-Keeps :
        (m : PublishMetadataEntry) (target : Text) (s : Site)
        → Keeps s (move_staged o now source m target s)
    unfolding move_staged
    move-Keeps m target s =
        elim (Result-cases (reject_symlink_parents o.abs o.lstat source.root_path target)) [
          | inl r ↦ rw (move_staged, r.1) (fails r.0 s)
          | inr r ↦ rw (move_staged, r.1) (record { holds = (catalog-Keeps m _).holds })
        ]

    content-Keeps :
        (m : PublishMetadataEntry) (target : Text) (s : Site)
        → Keeps s (publish_content o now source m target s)
    unfolding publish_content
    content-Keeps m target s = elim (Option-cases (hash_file o.sha256 m.staged_path s.files)) [
      | inl e ↦ rw (publish_content, e) (before-Keeps m target s)
      | inr r ↦
          rw (publish_content, r.1)
            (elim (Bool-cases (differs r.0 m)) [
              | inl d ↦ rw d (fails Err.conflict s)
              | inr d ↦ rw d (move-Keeps m target s)
            ])
    ]

    drop-Keeps :
        (m : PublishMetadataEntry) (target : Text) (s : Site)
        → Keeps s (drop_content m source target s)
    unfolding drop_content delete_entry with_catalog
    drop-Keeps m target s =
        elim (Bool-cases
          (not (m.size == 0) || not (beq m.sha256 empty_sha256) || not (beq m.staged_path []))) [
            | inl e ↦ rw e (fails Err.invalid s)
            | inr e ↦ rw e (leaves _ refl)
          ]

    at-Keeps :
        (m : PublishMetadataEntry) (target : Text) (op : ArtifactOperation) (s : Site)
        → Keeps s (publish_at o now source m target op s)
    unfolding publish_at
    at-Keeps m target ArtifactOperation.delete s = drop-Keeps m target s
    at-Keeps m target (ArtifactOperation.other t) s = fails Err.invalid s
    at-Keeps m target ArtifactOperation.add s = elim (Bool-cases (beq m.staged_path [])) [
      | inl e ↦ rw e (fails Err.invalid s)
      | inr e ↦ rw e (content-Keeps m target s)
    ]
    at-Keeps m target ArtifactOperation.update s = elim (Bool-cases (beq m.staged_path [])) [
      | inl e ↦ rw e (fails Err.invalid s)
      | inr e ↦ rw e (content-Keeps m target s)
    ]

    metadata-Keeps :
        (m : PublishMetadataEntry) (s : Site) → Keeps s (publish_metadata o now source m s)
    unfolding publish_metadata
    metadata-Keeps m s = elim (Result-cases (target_of o source m)) [
      | inl r ↦ rw (publish_metadata, r.1) (fails r.0 s)
      | inr r ↦ rw (publish_metadata, r.1) (at-Keeps m r.0 m.operation s)
    ]

    all-Keeps :
        (entries : List PublishMetadataEntry) (s : Site)
        → Keeps s (publish_all o now source entries s)
    unfolding publish_all
    all-Keeps [] s = leaves s refl
    all-Keeps (m ∷ rest) s = chain-Keeps s _ _ (metadata-Keeps m s) (λ t. all-Keeps rest t)

    mark-Keeps : (u : PublishUnit) (s : Site) → Keeps s (mark_unit now u s)
    unfolding mark_unit
    mark-Keeps u s = elim (Result-cases (mark_published u.id now s.db)) [
      | inl r ↦ rw (mark_unit, r.1) (fails r.0 s)
      | inr r ↦ rw (mark_unit, r.1) (leaves _ ((mark-store u.id now s.db).holds r.0 r.1))
    ]

    entries-Keeps : (u : PublishUnit) (s : Site) → Keeps s (publish_entries o now source u s)
    unfolding publish_entries
    entries-Keeps u s = elim (Result-cases (list_publish_metadata u.id s.db.imports)) [
      | inl r ↦ rw (publish_entries, r.1) (fails r.0 s)
      | inr r ↦ rw (publish_entries, r.1) (chain-Keeps s _ _ (all-Keeps _ s) (λ t. mark-Keeps u t))
    ]

    unit-Keeps :
        (ep : Epoch) (u : PublishUnit) (s : Site) → Keeps s (publish_unit o now source ep u s)
    unfolding publish_unit
    unit-Keeps ep u s =
        elim (Bool-cases (is_published u.status || not (u.imported == u.required))) [
          | inl e ↦ rw e (leaves s refl)
          | inr e ↦ rw e (elim (Bool-cases (unexpected u.status)) [
            | inl d ↦ rw d (fails Err.conflict s)
            | inr d ↦ rw d (elim (Option-cases (o.validate source ep u s.db)) [
              | inl v ↦ rw v (entries-Keeps u s)
              | inr v ↦ rw v.1 (fails v.0 s)
            ])
          ])
        ]

    units-Keeps :
        (ep : Epoch) (us : List PublishUnit) (s : Site)
        → Keeps s (publish_units o now source ep us s)
    unfolding publish_units
    units-Keeps ep [] s = leaves s refl
    units-Keeps ep (u ∷ rest) s = chain-Keeps s _ _ (unit-Keeps ep u s) (λ t. units-Keeps ep rest t)

  pub ready-Keeps : (id : Text) (s : Site) → Keeps s (publish_ready o now id s)
  unfolding publish_ready
  ready-Keeps id s = elim (Result-cases (epoch_and_source id s.db)) [
    | inl r ↦ rw (publish_ready, r.1) (fails r.0 s)
    | inr ((ep, source), e) ↦
        rw (publish_ready, e) (units-Keeps source ep (list_publish_units id s.db) s)
  ]
