-- ===== src/Database/Manifest/Linked.antt =====
-- What the checks of RegisterManifest of internal/storage/sqlite/server_manifest.go ensure.
use airgap_mirror.Prelude.{
  ℕ, ◌≡◌, ◌≤◌, ◌⊎◌, refl, ap, ◌∙◌, Bool, true, false, not, ◌||◌, inl, inr, List, [], ◌∷◌, Option,
  none, some, All, beq, beq_eq, Bool-cases, length, ==_eq, not-eq_false, arith,
}
use airgap_mirror.Prelude.Int64.{lt64}
use airgap_mirror.Prelude.Texts.{codes}
use airgap_mirror.Prelude.Tables.{find, affects, count, count_pos, count-find}
use airgap_mirror.Domain.Status.{Text}
use airgap_mirror.Domain.Types.{Epoch, Batch, Pack, PublishUnit, ImportSession}
use airgap_mirror.Domain.Result.{ok, Ensures, returns, after_check, after_call}
use airgap_mirror.Database.{Database}
use airgap_mirror.Database.Epochs.{get_epoch, get_batch}
use airgap_mirror.Database.Manifest.{
  UnitRow, EntryRow, Incoming, meta_value, manifest_schema_version, unequal, unequal_number, less,
  bad_unit, bad_entry, unit_of, no_unit, pack_of, no_pack, at_path, repeated_path, of_unit, too_few,
  in_pack, miscounted, check_manifest, declares_other,
}

-- A column is NULL or has this value.
abbrev pub NullOr : {A : Type 0} → Option A → A → Type 0
NullOr o t = (o ≡ none) ⊎ (o ≡ some t)

-- A unit of the table is another than this one, or is declared in the same way.
abbrev pub Agrees : UnitRow → PublishUnit → Type 0
Agrees u p =
    (beq p.id u.id ≡ false)
    ⊎ (NullOr u.epoch_id p.epoch_id
        × NullOr u.source_id p.source_id
        × NullOr u.key p.key
        × NullOr u.required p.required
        × NullOr u.metadata_path p.metadata_path)

-- What is in a manifest belongs to the session, its rows fit together, and what they name is there.
pub record Linked (v : ImportSession) (i : Incoming) (db : Database) : Type 0 where
  pub source : meta_value (codes "source_id") i.meta ≡ ok v.source_id
  pub epoch : meta_value (codes "epoch_id") i.meta ≡ ok v.epoch_id
  pub batch : meta_value (codes "batch_id") i.meta ≡ ok v.batch_id
  pub version : meta_value (codes "schema_version") i.meta ≡ ok manifest_schema_version
  pub units_owned : All (λ u. NullOr u.epoch_id v.epoch_id × NullOr u.source_id v.source_id) i.units
  pub entries_owned :
      All (λ e. NullOr e.epoch_id v.epoch_id × NullOr e.source_id v.source_id) i.entries
  pub in_units : All (λ e. (u : UnitRow) × (find (unit_of e) i.units ≡ some u)) i.entries
  pub in_packs : All (λ e. (p : Pack) × (find (pack_of v e) db.store.packs ≡ some p)) i.entries
  pub alone : All (λ e. count (at_path e.logical_path) i.entries ≤ 1) i.entries
  pub required :
      All
        (λ u.
          (u.required ≡ none)
          ⊎ ((n : ℕ) × (u.required ≡ some n) × (lt64 n (count (of_unit u.id) i.entries) ≡ false)))
        i.units
  pub counted :
      All
        (λ p.
          (beq p.batch_id v.batch_id ≡ false) ⊎ (p.entry_count ≡ count (in_pack p.id) i.entries))
        db.store.packs
  pub of_epoch :
      (ep : Epoch) × (get_epoch v.epoch_id db ≡ ok ep) × (length i.units ≡ ep.publish_unit_count)
  pub of_batch :
      (b : Batch) × (get_batch v.batch_id db ≡ ok b) × (length i.entries ≡ b.object_count)

pub All-affects {ℓ κ} :
    {A : Type ℓ} (p : A → Bool) (Q : A → Type κ) (xs : List A)
    → ((x : A) → p x ≡ false → Q x)
    → affects p xs ≡ false
    → All Q xs
unfolding affects
All-affects p Q [] h = λ e. tt
All-affects p Q (x ∷ xs) h = elim (Bool-cases (p x)) [
  | inl e ↦ rw e (λ k. absurd (cc k))
  | inr e ↦ rw e (λ k. (h x e, All-affects p Q xs h k))
]

there {ℓ} :
    {A : Type ℓ} (p : A → Bool) (xs : List A) → affects p xs ≡ true → (a : A) × (find p xs ≡ some a)
there p xs h = count-find p xs (count_pos p xs h)

text-NullOr : (o : Option Text) (t : Text) → unequal o t ≡ false → NullOr o t
unfolding unequal
text-NullOr none t h = inl refl
text-NullOr (some s) t h = inr (ap some (beq_eq s t (not-eq_false _ h)))

number-NullOr : (o : Option ℕ) (n : ℕ) → unequal_number o n ≡ false → NullOr o n
unfolding unequal_number
number-NullOr none n h = inl refl
number-NullOr (some m) n h = inr (ap some (==_eq m n (not-eq_false _ h)))

module _ (v : ImportSession) where
  unit_owned :
      (u : UnitRow)
      → bad_unit v u ≡ false
      → NullOr u.epoch_id v.epoch_id × NullOr u.source_id v.source_id
  unfolding bad_unit
  unit_owned u h = (text-NullOr _ _ (ground arith), text-NullOr _ _ (ground arith))

  entry_owned :
      (e : EntryRow)
      → bad_entry v e ≡ false
      → NullOr e.epoch_id v.epoch_id × NullOr e.source_id v.source_id
  unfolding bad_entry
  entry_owned e h = (text-NullOr _ _ (ground arith), text-NullOr _ _ (ground arith))

  counted_by :
      (entries : List EntryRow) (p : Pack)
      → miscounted v entries p ≡ false
      → (beq p.batch_id v.batch_id ≡ false) ⊎ (p.entry_count ≡ count (in_pack p.id) entries)
  unfolding miscounted
  counted_by entries p h = elim (Bool-cases (beq p.batch_id v.batch_id)) [
    | inl e ↦ inr (==_eq _ _ (ground arith))
    | inr e ↦ inl e
  ]

alone_by :
    (entries : List EntryRow) (e : EntryRow)
    → repeated_path entries e ≡ false
    → count (at_path e.logical_path) entries ≤ 1
unfolding repeated_path
alone_by entries e h = ground arith

required_by :
    (o : Option ℕ) (c : ℕ)
    → less o c ≡ false
    → (o ≡ none) ⊎ ((n : ℕ) × (o ≡ some n) × (lt64 n c ≡ false))
unfolding less
required_by none c h = inl refl
required_by (some n) c h = inr (n, refl, h)

pub other-Agrees : (u : UnitRow) (p : PublishUnit) → declares_other u p ≡ false → Agrees u p
unfolding declares_other
other-Agrees u p h = elim (Bool-cases (beq p.id u.id)) [
  | inl e ↦ inr (
    text-NullOr _ _ (ground arith),
    text-NullOr _ _ (ground arith),
    text-NullOr _ _ (ground arith),
    number-NullOr _ _ (ground arith),
    text-NullOr _ _ (ground arith),
  )
  | inr e ↦ inl e
]

same_identity :
    (a b c x y z : Text)
    → (not (beq a x) || not (beq b y) || not (beq c z)) ≡ false
    → (a ≡ x) × (b ≡ y) × (c ≡ z)
same_identity a b c x y z h =
    (beq_eq a x (ground arith), beq_eq b y (ground arith), beq_eq c z (ground arith))

pub check-Linked :
    (v : ImportSession) (ep : Epoch) (i : Incoming) (db : Database)
    → get_epoch v.epoch_id db ≡ ok ep
    → Ensures (λ u. Linked v i db) (check_manifest v ep i db)
unfolding check_manifest no_unit no_pack too_few
check-Linked v ep i db known = after_call _ _ λ source s. after_call _ _ λ epoch e.
    after_call _ _ λ batch b. after_check _ _ _ λ identity. after_call _ _ λ version w.
      after_check _ _ _ λ current. after_call _ _ λ stored k. after_check _ _ _ λ units_fit.
        after_check _ _ _ λ entries_fit. after_check _ _ _ λ units. after_check _ _ _ λ packs.
          after_check _ _ _ λ paths. after_check _ _ _ λ few. after_check _ _ _ λ objects.
            after_check _ _ _ λ counts. after_check _ _ _ λ declared.
              let (at_source, at_epoch, at_batch) =
                same_identity source epoch batch _ _ _ identity in
              returns _ (record {
                source = s ∙ ap ok at_source;
                epoch = e ∙ ap ok at_epoch;
                batch = b ∙ ap ok at_batch;
                version = w ∙ ap ok (beq_eq _ _ (not-eq_false _ current));
                units_owned = All-affects _ _ i.units (unit_owned v) units_fit;
                entries_owned = All-affects _ _ i.entries (entry_owned v) entries_fit;
                in_units =
                    All-affects _ _ i.entries (λ e h. there _ i.units (not-eq_false _ h)) units;
                in_packs =
                    All-affects _ _ i.entries (λ e h. there _ db.store.packs (not-eq_false _ h))
                      packs;
                alone = All-affects _ _ i.entries (alone_by i.entries) paths;
                required = All-affects _ _ i.units (λ u h. required_by u.required _ h) few;
                counted = All-affects _ _ db.store.packs (counted_by v i.entries) counts;
                of_epoch = (ep, known, ==_eq _ _ (not-eq_false _ declared));
                of_batch = (stored, k, ==_eq _ _ (not-eq_false _ objects));
              })
