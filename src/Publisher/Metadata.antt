-- ===== src/Publisher/Metadata.antt =====
-- What publishMetadata of internal/service/publisher.go leaves, and that it can be called again after an
-- interruption between the move of the file and the write of the catalog.
use mathlib.Core.Path.{subst}
use airgap_mirror.Prelude.{
  ℕ, ◌≡◌, refl, ap, false, ◌⊎◌, inl, inr, List, [], none, some, beq, beq_refl, beq_eq, Bool-cases,
  Option-cases, ==_eq, length, arith,
}
use airgap_mirror.Domain.Status.{Text, ArtifactOperation}
use airgap_mirror.Domain.Types.{Source, PublishMetadataEntry}
use airgap_mirror.Domain.Transitions.{Err}
use airgap_mirror.Domain.Result.{Result-cases, ok}
use airgap_mirror.Pack.Bytes.{hex_encode}
use airgap_mirror.Transfer.{Files}
use airgap_mirror.Database.{Database}
use airgap_mirror.Database.Units.{get_entry, upsert_entry}
use airgap_mirror.Database.Catalog.{upsert-found}
use airgap_mirror.Site.{Site, hash_file, rename, reject_symlink_parents}
use airgap_mirror.Publisher.{
  Outside, Done, and_then, catalog_row, to_catalog, differs, published_before, move_staged,
  publish_content, publish_at, target_of, publish_metadata,
}

-- What a call that succeeds makes true of what it leaves.
pub record Leaves {κ} (P : Site → Type κ) (d : Done) : Type κ where
  pub holds : (t : Site) → d ≡ (none, t) → P t

module _ {κ} {P : Site → Type κ} where
  pub fails : (e : Err) (s : Site) → Leaves P (some e, s)
  fails e s = record { holds = λ t h. absurd (cc (ap (λ d. d.0) h)) }

  pub leaves : (s : Site) → P s → Leaves P (none, s)
  leaves s p = record { holds = λ t h. subst P (ap (λ d. d.1) h) p }

  pub after_done :
      (d : Done) (k : Site → Done)
      → ((t : Site) → d ≡ (none, t) → Leaves P (k t))
      → Leaves P (and_then d k)
  unfolding and_then
  after_done (some e, t) k h = fails e t
  after_done (none, t) k h = h t refl

-- The target has the content that the entry declares, and the catalog has its row.
pub record Installed (o : Outside) (now : ℕ) (m : PublishMetadataEntry) (target : Text) (t : Site)
    : Type 0 where
  pub content : List ℕ
  pub there : t.files target ≡ some content
  pub hash : hex_encode (o.sha256 content) ≡ m.sha256
  pub size : length content ≡ m.size
  pub row : get_entry m.source_id m.logical_path t.db ≡ ok (catalog_row now m)

agrees :
    (h : Text) (n : ℕ) (m : PublishMetadataEntry)
    → differs (h, n) m ≡ false
    → (h ≡ m.sha256) × (n ≡ m.size)
unfolding differs
agrees h n m d = (beq_eq h m.sha256 (ground arith), ==_eq n m.size (ground arith))

-- Once the target has the content, the write of the catalog ends the installation.
to_catalog-Installed :
    (o : Outside) (now : ℕ) (m : PublishMetadataEntry) (target : Text) (s : Site) (c : List ℕ)
    → s.files target ≡ some c
    → differs (hex_encode (o.sha256 c), length c) m ≡ false
    → Leaves (Installed o now m target) (to_catalog o now m s)
unfolding to_catalog
to_catalog-Installed o now m target s c at same =
    elim (Result-cases (upsert_entry o.enforced (catalog_row now m) s.db)) [
      | inl r ↦ rw (to_catalog, r.1) (fails r.0 s)
      | inr r ↦
          rw (to_catalog, r.1)
            (let (h, n) = agrees _ _ m same in
              leaves _
                (record { content = c; there = at; hash = h; size = n; row = row_found r.0 r.1 }))
    ]
  where
    row_found :
        (db : Database)
        → upsert_entry o.enforced (catalog_row now m) s.db ≡ ok db
        → get_entry m.source_id m.logical_path db ≡ ok (catalog_row now m)
    row_found db e =
        unfold catalog_row in (upsert-found o.enforced (catalog_row now m) s.db).holds db e

hash-some :
    (sha256 : List ℕ → List ℕ) (path : Text) (files : Files) (c : List ℕ)
    → files path ≡ some c
    → hash_file sha256 path files ≡ some (hex_encode (sha256 c), length c)
unfolding hash_file
hash-some sha256 path files c h = rw (hash_file, h) refl

hash-none :
    (sha256 : List ℕ → List ℕ) (path : Text) (files : Files)
    → files path ≡ none
    → hash_file sha256 path files ≡ none
unfolding hash_file
hash-none sha256 path files h = rw (hash_file, h) refl

rename_target :
    (old new : Text) (files : Files) (c : List ℕ)
    → files old ≡ some c
    → rename old new files new ≡ some c
unfolding rename
rename_target old new files c h = rw (beq_refl new) h

rename_source :
    (old new : Text) (files : Files) → beq old new ≡ false → rename old new files old ≡ none
unfolding rename
rename_source old new files h = rw (h, beq_refl old) refl

module _ (o : Outside) (now : ℕ) (source : Source) (m : PublishMetadataEntry) (target : Text) where
  before-Installed :
      (s : Site) → Leaves (Installed o now m target) (published_before o now m target s)
  unfolding published_before
  before-Installed s = elim (Option-cases (s.files target)) [
    | inl e ↦ rw (published_before, hash-none o.sha256 target s.files e) (fails Err.other s)
    | inr (c, at) ↦
        rw (published_before, hash-some o.sha256 target s.files c at)
          (elim (Bool-cases (differs (hex_encode (o.sha256 c), length c) m)) [
            | inl d ↦ rw d (fails Err.conflict s)
            | inr d ↦ rw d (to_catalog-Installed o now m target s c at d)
          ])
  ]

  content-Installed :
      (s : Site) → Leaves (Installed o now m target) (publish_content o now source m target s)
  unfolding publish_content move_staged
  content-Installed s = elim (Option-cases (s.files m.staged_path)) [
    | inl e ↦ rw (publish_content, hash-none o.sha256 m.staged_path s.files e) (before-Installed s)
    | inr (c, at) ↦
        rw (publish_content, hash-some o.sha256 m.staged_path s.files c at)
          (elim (Bool-cases (differs (hex_encode (o.sha256 c), length c) m)) [
            | inl d ↦ rw d (fails Err.conflict s)
            | inr d ↦
                rw d
                  (elim (Result-cases
                    (reject_symlink_parents o.abs o.lstat source.root_path target)) [
                      | inl r ↦ rw (move_staged, r.1) (fails r.0 s)
                      | inr r ↦
                          rw (move_staged, r.1)
                            (to_catalog-Installed o now m target
                              (record s { files = rename m.staged_path target s.files }) c
                              (rename_target m.staged_path target s.files c at) d)
                    ])
          ])
  ]

  at-Installed :
      (op : ArtifactOperation) (s : Site)
      → (op ≡ ArtifactOperation.add) ⊎ (op ≡ ArtifactOperation.update)
      → Leaves (Installed o now m target) (publish_at o now source m target op s)
  unfolding publish_at
  at-Installed ArtifactOperation.add s h = elim (Bool-cases (beq m.staged_path [])) [
    | inl e ↦ rw e (fails Err.invalid s)
    | inr e ↦ rw e (content-Installed s)
  ]
  at-Installed ArtifactOperation.update s h = elim (Bool-cases (beq m.staged_path [])) [
    | inl e ↦ rw e (fails Err.invalid s)
    | inr e ↦ rw e (content-Installed s)
  ]
  at-Installed ArtifactOperation.delete s h = absurd (ground arith)
  at-Installed (ArtifactOperation.other t) s h = absurd (ground arith)

-- If publishMetadata adds or updates an entry without an error, its target is what safeTarget gives,
-- the file there has the size and the SHA-256 that the entry declares, and the catalog has the entry's
-- row.
pub publish_metadata-Installed :
    (o : Outside) (now : ℕ) (source : Source) (m : PublishMetadataEntry) (s t : Site)
    → (m.operation ≡ ArtifactOperation.add) ⊎ (m.operation ≡ ArtifactOperation.update)
    → publish_metadata o now source m s ≡ (none, t)
    → (target : Text) × (target_of o source m ≡ ok target) × Installed o now m target t
unfolding publish_metadata
publish_metadata-Installed o now source m s t op = elim (Result-cases (target_of o source m)) [
  | inl r ↦ rw (publish_metadata, r.1) (λ h. absurd (cc (ap (λ d. d.0) h)))
  | inr r ↦
      rw (publish_metadata, r.1)
        (λ h. (r.0, refl, (at-Installed o now source m r.0 m.operation s op).holds t h))
]

-- The move has been made, and the catalog has not been written.
abbrev pub interrupted : PublishMetadataEntry → Text → Site → Site
interrupted m target s = record s { files = rename m.staged_path target s.files }

module _ (o : Outside) (now : ℕ) (source : Source) (m : PublishMetadataEntry) (target : Text)
    (s : Site) (c : List ℕ) (at : s.files m.staged_path ≡ some c)
    (apart : beq m.staged_path target ≡ false) where
  content_again :
      (t : Site)
      → publish_content o now source m target s ≡ (none, t)
      → publish_content o now source m target (interrupted m target s) ≡ (none, t)
  unfolding publish_content move_staged published_before
  content_again t =
      rw (publish_content, hash-some o.sha256 m.staged_path s.files c at)
        (elim (Bool-cases (differs (hex_encode (o.sha256 c), length c) m)) [
          | inl d ↦ rw d (λ h. absurd (cc (ap (λ r. r.0) h)))
          | inr d ↦
              rw d
                (elim (Result-cases
                  (reject_symlink_parents o.abs o.lstat source.root_path target)) [
                    | inl r ↦ rw (move_staged, r.1) (λ h. absurd (cc (ap (λ r. r.0) h)))
                    | inr r ↦
                        rw (move_staged, r.1)
                          (λ h.
                            rw
                              (
                                publish_content,
                                hash-none o.sha256 m.staged_path
                                    (rename m.staged_path target s.files)
                                    (rename_source m.staged_path target s.files apart),
                              )
                              (rw
                                (
                                  published_before,
                                  hash-some o.sha256 target (rename m.staged_path target s.files) c
                                      (rename_target m.staged_path target s.files c at),
                                )
                                (rw d h)))
                  ])
        ])

again_at :
    (o : Outside) (now : ℕ) (source : Source) (m : PublishMetadataEntry) (target : Text)
    (op : ArtifactOperation) (s t : Site) (c : List ℕ)
    → (op ≡ ArtifactOperation.add) ⊎ (op ≡ ArtifactOperation.update)
    → s.files m.staged_path ≡ some c
    → beq m.staged_path target ≡ false
    → publish_at o now source m target op s ≡ (none, t)
    → publish_at o now source m target op (interrupted m target s) ≡ (none, t)
unfolding publish_at
again_at o now source m target ArtifactOperation.add s t c h at apart =
    elim (Bool-cases (beq m.staged_path [])) [
      | inl e ↦ rw e (λ k. absurd (cc (ap (λ r. r.0) k)))
      | inr e ↦ rw e (content_again o now source m target s c at apart t)
    ]
again_at o now source m target ArtifactOperation.update s t c h at apart =
    elim (Bool-cases (beq m.staged_path [])) [
      | inl e ↦ rw e (λ k. absurd (cc (ap (λ r. r.0) k)))
      | inr e ↦ rw e (content_again o now source m target s c at apart t)
    ]
again_at o now source m target ArtifactOperation.delete s t c h at apart = absurd (ground arith)
again_at o now source m target (ArtifactOperation.other x) s t c h at apart = absurd (ground arith)

-- Suppose that publishMetadata would add or update an entry whose staged file exists, in a place other
-- than the target, without an error. If it is interrupted after the file has been moved and before the
-- catalog is written, then a second call, at the same time, ends without an error in the same state.
pub publish_recovers :
    (o : Outside) (now : ℕ) (source : Source) (m : PublishMetadataEntry) (target : Text)
    (s t : Site) (c : List ℕ)
    → (m.operation ≡ ArtifactOperation.add) ⊎ (m.operation ≡ ArtifactOperation.update)
    → target_of o source m ≡ ok target
    → s.files m.staged_path ≡ some c
    → beq m.staged_path target ≡ false
    → publish_metadata o now source m s ≡ (none, t)
    → publish_metadata o now source m (interrupted m target s) ≡ (none, t)
unfolding publish_metadata
publish_recovers o now source m target s t c op e at apart =
    rw (publish_metadata, e) (again_at o now source m target m.operation s t c op at apart)
