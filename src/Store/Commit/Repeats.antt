-- ===== src/Store/Commit/Repeats.antt =====
-- CommitImportedEntry of internal/storage/sqlite/server_import_commit.go, called again.
use mathlib.Core.Path.{subst}
use airgap_mirror.Prelude.{
  ℕ, not, ◌||◌, ◌≤◌, ◌≡◌, refl, sym, ap, ◌∙◌, Bool, true, false, List, [], ◌∷◌, All, Option, none,
  some, beq, beq_refl, Bool-cases, Option-cases, ◌⊎◌, inl, inr, arith, &&-true,
}
use airgap_mirror.Prelude.Int64.{add64, lt64}
use airgap_mirror.Prelude.Tables.{find, modify, affects}
use airgap_mirror.Domain.Status.{Text}
use airgap_mirror.Domain.Types.{ManifestEntry, CatalogEntry, PublishUnit, Source}
use airgap_mirror.Store.Commit.{
  ImportedEntry, Imports, bool_eq, is_entry, same_entry, imported_entry, metadata_entry, no_source,
  refused_metadata, write_entry, open_unit, count_entry, count_unit, commit_imported_entry,
}

write-entries :
    (fk : Bool) (sources : List Source) (now : ℕ) (m : ManifestEntry) (c : CatalogEntry)
    (staged : Text) (s t : Imports)
    → write_entry fk sources now m c staged s ≡ some t
    → t.entries ≡ imported_entry now m ∷ s.entries
unfolding write_entry
write-entries fk sources now m c staged s t = elim (Bool-cases m.artifact.metadata) [
  | inl h ↦
      rw h
        (elim (Bool-cases
          (not s.has_operation || refused_metadata fk (metadata_entry m staged) s)) [
            | inl k ↦ rw k (λ e. absurd (cc e))
            | inr k ↦ rw k (λ e. entries_of t _ e)
          ])
  | inr h ↦ rw h (elim (Bool-cases (no_source fk sources c s.catalog)) [
    | inl k ↦ rw k (λ e. absurd (cc e))
    | inr k ↦ rw k (λ e. entries_of t _ e)
  ])
]
  where
    entries_of : (a b : Imports) → some b ≡ some a → a.entries ≡ b.entries
    entries_of a b e = ap (λ o. elim o [ none ↦ b.entries | some x ↦ x.entries ]) (sym e)

counted :
    (id : Text) (s s' : Imports) (o : Option Imports)
    → count_unit id s o ≡ ((true, none), s')
    → (t : Imports) × (o ≡ some t) × (s'.entries ≡ t.entries)
unfolding count_unit
counted id s s' none = λ h. absurd (cc h)
counted id s s' (some t) = elim (Bool-cases (affects (open_unit id) t.units)) [
  | inl k ↦ rw k (λ h. (t, refl, ap (λ p. p.1.entries) (sym h)))
  | inr k ↦ rw k (λ h. absurd (cc h))
]

is_entry_refl : (now : ℕ) (m : ManifestEntry) → is_entry m (imported_entry now m) ≡ true
unfolding is_entry imported_entry
is_entry_refl now m = rw (beq_refl m.artifact.epoch_id, beq_refl m.entry_id) refl

bool_eq_refl : (b : Bool) → bool_eq b b ≡ true
unfolding bool_eq
bool_eq_refl true = refl
bool_eq_refl false = refl

same_entry_refl :
    (now : ℕ) (m : ManifestEntry) → same_entry m.artifact (imported_entry now m) ≡ true
unfolding same_entry imported_entry
same_entry_refl now m =
    rw
      (
        beq_refl m.artifact.source_id,
        beq_refl m.artifact.logical_path,
        beq_refl m.artifact.sha256,
        beq_refl m.artifact.publish_unit_id,
        bool_eq_refl m.artifact.metadata,
      )
      refl

found_first :
    (now : ℕ) (m : ManifestEntry) (rest entries : List ImportedEntry)
    → entries ≡ imported_entry now m ∷ rest
    → find (is_entry m) entries ≡ some (imported_entry now m)
unfolding find
found_first now m rest entries h = rw h (rw (is_entry_refl now m) refl)

again :
    (fk : Bool) (sources : List Source) (now now' : ℕ) (m : ManifestEntry) (c : CatalogEntry)
    (staged : Text) (rest : List ImportedEntry) (s : Imports)
    → s.entries ≡ imported_entry now m ∷ rest
    → commit_imported_entry fk sources now' m c staged s ≡ ((false, none), s)
unfolding commit_imported_entry
again fk sources now now' m c staged rest s h =
    rw (commit_imported_entry, found_first now m rest s.entries h) (rw (same_entry_refl now m) refl)

-- A call that imports has found no row.
fresh :
    (fk : Bool) (sources : List Source) (now : ℕ) (m : ManifestEntry) (c : CatalogEntry)
    (staged : Text) (s s' : Imports)
    → commit_imported_entry fk sources now m c staged s ≡ ((true, none), s')
    → count_unit m.artifact.publish_unit_id s (write_entry fk sources now m c staged s)
      ≡ ((true, none), s')
unfolding commit_imported_entry
fresh fk sources now m c staged s s' = elim (Option-cases (find (is_entry m) s.entries)) [
  | inl e ↦ rw (commit_imported_entry, e) (λ h. h)
  | inr r ↦
      rw (commit_imported_entry, r.1)
        (elim (Bool-cases (same_entry m.artifact r.0)) [
          | inl k ↦ rw k (λ h. absurd (cc h))
          | inr k ↦ rw k (λ h. absurd (cc h))
        ])
]

-- Once CommitImportedEntry has taken an entry, every later call for the same manifest entry reports
-- that nothing was imported, without an error, and changes nothing, whatever its other arguments.
pub commit_repeats :
    (fk fk' : Bool) (sources sources' : List Source) (now now' : ℕ) (m : ManifestEntry)
    (c c' : CatalogEntry) (staged staged' : Text) (s s' : Imports)
    → commit_imported_entry fk sources now m c staged s ≡ ((true, none), s')
    → commit_imported_entry fk' sources' now' m c' staged' s' ≡ ((false, none), s')
commit_repeats fk fk' sources sources' now now' m c c' staged staged' s s' h =
    let (t, written, same) =
      counted m.artifact.publish_unit_id s s' (write_entry fk sources now m c staged s)
        (fresh fk sources now m c staged s s' h) in
    again fk' sources' now now' m c' staged' s.entries s'
      (same ∙ write-entries fk sources now m c staged s t written)

abbrev pub WithinRequired : PublishUnit → Type 0
WithinRequired u = u.imported ≤ u.required

-- A number that is not above another, and is less as an int64, has room for one more.
counts_one : (i r : ℕ) → i ≤ r → lt64 i r ≡ true → add64 i 1 ≤ r
unfolding lt64 add64
counts_one i r h k = ground arith

modify-WithinRequired :
    (id : Text) (units : List PublishUnit)
    → All WithinRequired units
    → All WithinRequired (modify (open_unit id) count_entry units)
unfolding modify open_unit count_entry
modify-WithinRequired id [] h = tt
modify-WithinRequired id (u ∷ units) (h, more) = (
  elim (Bool-cases (open_unit id u)) [
    | inl k ↦ rw k (below (&&-true (beq u.id id) (lt64 u.imported u.required) k).1)
    | inr k ↦ rw k h
  ],
  modify-WithinRequired id units more,
)
  where
    below : lt64 u.imported u.required ≡ true → add64 u.imported 1 ≤ u.required
    below = counts_one u.imported u.required h

write-units :
    (fk : Bool) (sources : List Source) (now : ℕ) (m : ManifestEntry) (c : CatalogEntry)
    (staged : Text) (s t : Imports)
    → write_entry fk sources now m c staged s ≡ some t
    → t.units ≡ s.units
unfolding write_entry
write-units fk sources now m c staged s t = elim (Bool-cases m.artifact.metadata) [
  | inl h ↦
      rw h
        (elim (Bool-cases
          (not s.has_operation || refused_metadata fk (metadata_entry m staged) s)) [
            | inl k ↦ rw k (λ e. absurd (cc e))
            | inr k ↦ rw k (λ e. units_of t _ e)
          ])
  | inr h ↦ rw h (elim (Bool-cases (no_source fk sources c s.catalog)) [
    | inl k ↦ rw k (λ e. absurd (cc e))
    | inr k ↦ rw k (λ e. units_of t _ e)
  ])
]
  where
    units_of : (a b : Imports) → some b ≡ some a → a.units ≡ b.units
    units_of a b e = ap (λ o. elim o [ none ↦ b.units | some x ↦ x.units ]) (sym e)

counted-units :
    (id : Text) (s : Imports) (o : Option Imports)
    → ((t : Imports) → o ≡ some t → t.units ≡ s.units)
    → ((count_unit id s o).1.units ≡ s.units)
      ⊎ ((count_unit id s o).1.units ≡ modify (open_unit id) count_entry s.units)
unfolding count_unit
counted-units id s none e = inl refl
counted-units id s (some t) e = elim (Bool-cases (affects (open_unit id) t.units)) [
  | inl k ↦ rw k (inr (ap (modify (open_unit id) count_entry) (e t refl)))
  | inr k ↦ rw k (inl refl)
]

-- A call leaves the units alone, or counts one entry of an open unit.
pub commit-units :
    (fk : Bool) (sources : List Source) (now : ℕ) (m : ManifestEntry) (c : CatalogEntry)
    (staged : Text) (s : Imports)
    → ((commit_imported_entry fk sources now m c staged s).1.units ≡ s.units)
      ⊎ ((commit_imported_entry fk sources now m c staged s).1.units
          ≡ modify (open_unit m.artifact.publish_unit_id) count_entry s.units)
unfolding commit_imported_entry
commit-units fk sources now m c staged s = elim (Option-cases (find (is_entry m) s.entries)) [
  | inl e ↦
      rw (commit_imported_entry, e)
        (counted-units m.artifact.publish_unit_id s _ (write-units fk sources now m c staged s))
  | inr r ↦
      rw (commit_imported_entry, r.1)
        (elim (Bool-cases (same_entry m.artifact r.0)) [
          | inl k ↦ rw k (inl refl)
          | inr k ↦ rw k (inl refl)
        ])
]

-- If no unit counts more imported entries than it requires, none does after a call of
-- CommitImportedEntry, whatever the call returns.
pub commit-WithinRequired :
    (fk : Bool) (sources : List Source) (now : ℕ) (m : ManifestEntry) (c : CatalogEntry)
    (staged : Text) (s : Imports)
    → All WithinRequired s.units
    → All WithinRequired (commit_imported_entry fk sources now m c staged s).1.units
commit-WithinRequired fk sources now m c staged s h =
    elim (commit-units fk sources now m c staged s) [
      | inl e ↦ subst (All WithinRequired) (sym e) h
      | inr e ↦
          subst (All WithinRequired) (sym e)
            (modify-WithinRequired m.artifact.publish_unit_id s.units h)
    ]
