-- ===== src/Database/Units/Full.antt =====
-- A unit is PUBLISHED only when all its entries are imported: DeclarePublishUnit and MarkPublished of
-- internal/storage/sqlite/server_publish_catalog.go, and CommitImportedEntry.
use mathlib.Core.Path.{subst}
use airgap_mirror.Prelude.{
  ℕ, ◌≡◌, refl, sym, Bool, true, false, not, ◌||◌, List, [], ◌∷◌, All, beq, Bool-cases,
  Option-cases, &&-true, inl, inr, arith, ◌==◌,
}
use airgap_mirror.Prelude.Int64.{add64, lt64}
use airgap_mirror.Prelude.Tables.{find, modify}
use airgap_mirror.Domain.Status.{Text}
use airgap_mirror.Domain.Types.{Source, PublishUnit, ManifestEntry, CatalogEntry}
use airgap_mirror.Domain.Result.{ok, Ensures, returns, after_check}
use airgap_mirror.Store.Commit.{Imports, commit_imported_entry, open_unit, count_entry}
use airgap_mirror.Store.Commit.Repeats.{commit-units}
use airgap_mirror.Database.{Database}
use airgap_mirror.Database.Epochs.{is_published}
use airgap_mirror.Database.Units.{
  is_unit, with_units, declared_unit, declare_publish_unit, full_unit, publish, mark_published,
}

abbrev pub full_if_published : PublishUnit → Bool
full_if_published u = not (is_published u.status) || (u.imported == u.required)

abbrev pub PublishedFull : Database → Type 0
PublishedFull db = All (λ u. full_if_published u ≡ true) db.imports.units

-- The calls that write publish_units.
pub data UnitCall (db : Database) : Database → Type 0 where
  declare :
      {t : Database} (fk : Bool) (u : PublishUnit)
      → declare_publish_unit fk u db ≡ ok t
      → UnitCall db t
  mark : {t : Database} (id : Text) (at : ℕ) → mark_published id at db ≡ ok t → UnitCall db t
  commit :
      (fk : Bool) (now : ℕ) (m : ManifestEntry) (c : CatalogEntry) (staged : Text)
      → UnitCall db (record db {
        imports = (commit_imported_entry fk db.sources now m c staged db.imports).1;
      })

pub data UnitCalls (db : Database) : Database → Type 0 where
  here : UnitCalls db db
  next : {s t : Database} → UnitCalls db s → UnitCall s t → UnitCalls db t

modify-All :
    (p : PublishUnit → Bool) (f : PublishUnit → PublishUnit) (xs : List PublishUnit)
    → ((u : PublishUnit) → p u ≡ true → full_if_published u ≡ true → full_if_published (f u) ≡ true)
    → All (λ u. full_if_published u ≡ true) xs
    → All (λ u. full_if_published u ≡ true) (modify p f xs)
unfolding modify
modify-All p f [] keep h = tt
modify-All p f (u ∷ xs) keep (h, more) = elim (Bool-cases (p u)) [
  | inl e ↦ rw e (keep u e h, modify-All p f xs keep more)
  | inr e ↦ rw e (h, modify-All p f xs keep more)
]

publish-full :
    (id : Text) (at : ℕ) (u : PublishUnit)
    → full_unit id u ≡ true
    → full_if_published (publish at u) ≡ true
unfolding full_unit publish is_published
publish-full id at u h = rw (&&-true (is_unit id u) (u.imported == u.required) h).1 refl

count-full :
    (id : Text) (u : PublishUnit)
    → open_unit id u ≡ true
    → full_if_published u ≡ true
    → full_if_published (count_entry u) ≡ true
unfolding open_unit count_entry is_published lt64
count-full id u h k = elim (Bool-cases (add64 u.imported 1 == u.required)) [
  | inl e ↦ rw e refl
  | inr e ↦
      rw e
        (waits (is_published u.status) (&&-true (beq u.id id) (lt64 u.imported u.required) h).1 k)
]
  where
    waits :
        (b : Bool)
        → lt64 u.imported u.required ≡ true
        → (not b || (u.imported == u.required)) ≡ true
        → (not b || false) ≡ true
    waits true h k = ground arith
    waits false h k = refl

commit-Full :
    (fk : Bool) (sources : List Source) (now : ℕ) (m : ManifestEntry) (c : CatalogEntry)
    (staged : Text) (s : Imports)
    → All (λ u. full_if_published u ≡ true) s.units
    → All
        (λ u. full_if_published u ≡ true)
        (commit_imported_entry fk sources now m c staged s).1.units
commit-Full fk sources now m c staged s h = elim (commit-units fk sources now m c staged s) [
  | inl e ↦ subst (All (λ u. full_if_published u ≡ true)) (sym e) h
  | inr e ↦ subst (All (λ u. full_if_published u ≡ true)) (sym e) (
      modify-All (open_unit m.artifact.publish_unit_id) count_entry s.units
        (count-full m.artifact.publish_unit_id) h)
]

declare-Full :
    (fk : Bool) (u : PublishUnit) (db : Database)
    → PublishedFull db
    → Ensures PublishedFull (declare_publish_unit fk u db)
unfolding declare_publish_unit with_units declared_unit is_published
declare-Full fk u db h = elim (Option-cases (find (is_unit u.id) db.imports.units)) [
  | inl e ↦
      rw (declare_publish_unit, e)
        (after_check _ _ _ λ _. after_check _ _ _ λ _. after_check _ _ _ λ _. returns _ (refl, h))
  | inr r ↦ rw (declare_publish_unit, r.1) (after_check _ _ _ λ _. returns _ h)
]

mark-Full :
    (id : Text) (at : ℕ) (db : Database)
    → PublishedFull db
    → Ensures PublishedFull (mark_published id at db)
unfolding mark_published with_units
mark-Full id at db h = after_check _ _ _ λ _.
    returns _
      (modify-All (full_unit id) (publish at) db.imports.units (λ u e _. publish-full id at u e) h)

call-Full : {db t : Database} → UnitCall db t → PublishedFull db → PublishedFull t
call-Full {db} (declare fk u e) h = (declare-Full fk u db h).holds _ e
call-Full {db} (mark id at e) h = (mark-Full id at db h).holds _ e
call-Full {db} (commit fk now m c staged) h = commit-Full fk db.sources now m c staged db.imports h

-- If every PUBLISHED unit counts as many imported entries as it requires, this still holds after any
-- sequence of successful DeclarePublishUnit and MarkPublished and of CommitImportedEntry, whatever the
-- latter return.
pub calls-PublishedFull : {db t : Database} → UnitCalls db t → PublishedFull db → PublishedFull t
calls-PublishedFull here h = h
calls-PublishedFull (next r c) h = call-Full c (calls-PublishedFull r h)
