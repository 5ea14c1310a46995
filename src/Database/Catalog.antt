-- ===== src/Database/Catalog.antt =====
-- The catalog of internal/storage/sqlite/server_publish_catalog.go as a map from sources and paths to
-- entries.
pub mod Totals
use mathlib.Core.Path.{fun_ext}
use airgap_mirror.Prelude.{
  ℕ, ◌+◌, ◌≤◌, ◌<◌, ◌≡◌, refl, sym, ap, ◌∙◌, Bool, true, false, not, ◌&&◌, List, [], ◌∷◌, Option,
  none, some, beq, beq_refl, beq_eq, Bool-cases, &&-true, inl, inr, arith, if◌then◌else◌, All,
  length,
}
use airgap_mirror.Prelude.Int64.{two63, two64, add64, lt64, NonNeg}
use airgap_mirror.Prelude.Tables.{find, modify, affects, remove, rows}
use airgap_mirror.Domain.Status.{Text}
use airgap_mirror.Domain.Types.{Source, CatalogEntry, CatalogStats}
use airgap_mirror.Domain.Result.{
  Ensures, returns, after_check, Result, ok, err, found, check, ◌>>=◌, ◌>>◌,
}
use airgap_mirror.Store.Commit.{upsert, set_catalog}
use airgap_mirror.Database.{Database}
use airgap_mirror.Database.Sources.{is_source}
use airgap_mirror.Database.Units.{
  is_entry_at, with_catalog, get_entry, upsert_entry, delete_entry, sum_checked, sum_sizes,
  entry_of, stats,
}

-- The calls that change the catalog.
pub data Change : Type 0 where
  put : CatalogEntry → Change
  delete : Text → Text → Change

abbrev pub Map : Type 0
Map = Text → Text → Option CatalogEntry

-- The map, changed at one key.
abbrev pub assign : Text → Text → Option CatalogEntry → Map → Map
assign source path o m s q = if beq source s && beq path q then o else m s q

abbrev pub replay : List Change → Map → Map
replay [] m = m
replay (put v ∷ rest) m = replay rest (assign v.source_id v.logical_path (some v) m)
replay (delete source path ∷ rest) m = replay rest (assign source path none m)

-- The calls on the tables.
unfoldable pub apply_changes : Bool → List Change → Database → Result Database
apply_changes fk [] db = ok db
apply_changes fk (put v ∷ rest) db = upsert_entry fk v db >>= (λ t. apply_changes fk rest t)
apply_changes fk (delete source path ∷ rest) db =
    apply_changes fk rest (delete_entry source path db)

abbrev pub view : Database → Map
view db s q = find (is_entry_at s q) db.imports.catalog

key-false :
    (a b c d : Text) (x : CatalogEntry)
    → (beq a c && beq b d) ≡ false
    → is_entry_at a b x ≡ true
    → is_entry_at c d x ≡ false
unfolding is_entry_at
key-false a b c d x h k =
    let (p, q) = &&-true (beq x.source_id a) (beq x.logical_path b) k in
    ap (λ t. beq t c && beq x.logical_path d) (beq_eq x.source_id a p)
    ∙ ap (λ t. beq a c && beq t d) (beq_eq x.logical_path b q)
    ∙ h

key-true : (a b c d : Text) → (beq a c && beq b d) ≡ true → (a ≡ c) × (b ≡ d)
key-true a b c d h = let (p, q) = &&-true (beq a c) (beq b d) h in (beq_eq a c p, beq_eq b d q)

find-remove_self :
    (s q : Text) (xs : List CatalogEntry)
    → find (is_entry_at s q) (remove (is_entry_at s q) xs) ≡ none
unfolding find remove
find-remove_self s q [] = refl
find-remove_self s q (x ∷ xs) = elim (Bool-cases (is_entry_at s q x)) [
  | inl e ↦ rw e (find-remove_self s q xs)
  | inr e ↦ rw e (rw e (find-remove_self s q xs))
]

find-remove_other :
    (a b s q : Text) (xs : List CatalogEntry)
    → (beq a s && beq b q) ≡ false
    → find (is_entry_at s q) (remove (is_entry_at a b) xs) ≡ find (is_entry_at s q) xs
unfolding find remove
find-remove_other a b s q [] h = refl
find-remove_other a b s q (x ∷ xs) h = elim (Bool-cases (is_entry_at a b x)) [
  | inl e ↦ rw (e, key-false a b s q x h e) (find-remove_other a b s q xs h)
  | inr e ↦ rw (e, find-remove_other a b s q xs h) refl
]

-- The row that an upsert leaves is the new entry: the columns of the key agree, and the rest is written.
set-same :
    (v x : CatalogEntry) → is_entry_at v.source_id v.logical_path x ≡ true → set_catalog v x ≡ v
unfolding set_catalog is_entry_at
set-same v x h =
    let (p, q) = &&-true (beq x.source_id v.source_id) (beq x.logical_path v.logical_path) h in
    ap
      (λ t. record x {
        source_id = t;
        size = v.size;
        sha256 = v.sha256;
        package_key = v.package_key;
        version = v.version;
        attributes = v.attributes;
        updated_at = v.updated_at;
      })
      (beq_eq x.source_id v.source_id p)
    ∙ ap (λ t. record v { logical_path = t }) (beq_eq x.logical_path v.logical_path q)

entry_self : (v : CatalogEntry) → is_entry_at v.source_id v.logical_path v ≡ true
unfolding is_entry_at
entry_self v = rw (beq_refl v.source_id, beq_refl v.logical_path) refl

modify_self :
    (v : CatalogEntry) (xs : List CatalogEntry)
    → affects (is_entry_at v.source_id v.logical_path) xs ≡ true
    → find
        (is_entry_at v.source_id v.logical_path)
        (modify (is_entry_at v.source_id v.logical_path) (set_catalog v) xs)
      ≡ some v
unfolding find modify affects
modify_self v [] = λ h. absurd (cc h)
modify_self v (x ∷ xs) = elim (Bool-cases (is_entry_at v.source_id v.logical_path x)) [
  | inl e ↦ rw (e, set-same v x e, entry_self v) (λ h. refl)
  | inr e ↦ rw e (rw e (modify_self v xs))
]

modify-other :
    (v : CatalogEntry) (s q : Text) (xs : List CatalogEntry)
    → (beq v.source_id s && beq v.logical_path q) ≡ false
    → find (is_entry_at s q) (modify (is_entry_at v.source_id v.logical_path) (set_catalog v) xs)
      ≡ find (is_entry_at s q) xs
unfolding find modify
modify-other v s q [] h = refl
modify-other v s q (x ∷ xs) h = elim (Bool-cases (is_entry_at v.source_id v.logical_path x)) [
  | inl e ↦
      rw
        (
          e,
          set-same v x e,
          key-false v.source_id v.logical_path s q v h (entry_self v),
          key-false v.source_id v.logical_path s q x h e,
        )
        (modify-other v s q xs h)
  | inr e ↦ rw (e, modify-other v s q xs h) refl
]

module _ (v : CatalogEntry) where
  upsert-find_self :
      (xs : List CatalogEntry)
      → find
          (is_entry_at v.source_id v.logical_path)
          (upsert (is_entry_at v.source_id v.logical_path) (set_catalog v) v xs)
        ≡ some v
  unfolding upsert find
  upsert-find_self xs = elim (Bool-cases (affects (is_entry_at v.source_id v.logical_path) xs)) [
    | inl e ↦ rw e (modify_self v xs e)
    | inr e ↦ rw e (rw (entry_self v) refl)
  ]

  upsert-find_other :
      (s q : Text) (xs : List CatalogEntry)
      → (beq v.source_id s && beq v.logical_path q) ≡ false
      → find
          (is_entry_at s q)
          (upsert (is_entry_at v.source_id v.logical_path) (set_catalog v) v xs)
        ≡ find (is_entry_at s q) xs
  unfolding upsert find
  upsert-find_other s q xs h =
      elim (Bool-cases (affects (is_entry_at v.source_id v.logical_path) xs)) [
        | inl e ↦ rw e (modify-other v s q xs h)
        | inr e ↦ rw e (rw (key-false v.source_id v.logical_path s q v h (entry_self v)) refl)
      ]

-- What an Upsert that succeeds writes, Get finds.
pub upsert-found :
    (fk : Bool) (v : CatalogEntry) (db : Database)
    → Ensures (λ t. get_entry v.source_id v.logical_path t ≡ ok v) (upsert_entry fk v db)
unfolding upsert_entry get_entry with_catalog found
upsert-found fk v db =
    after_check _ _ _ λ _. returns _ (rw (upsert-find_self v db.imports.catalog) refl)

put-entry : CatalogEntry → Database → Database
put-entry v db =
    with_catalog
      (upsert (is_entry_at v.source_id v.logical_path) (set_catalog v) v db.imports.catalog) db

view-put :
    (v : CatalogEntry) (db : Database)
    → view (put-entry v db) ≡ assign v.source_id v.logical_path (some v) (view db)
unfolding put-entry with_catalog
view-put v db = fun_ext λ s. fun_ext λ q.
    elim (Bool-cases (beq v.source_id s && beq v.logical_path q)) [
      | inl e ↦ rw e (
          let (a, b) = key-true v.source_id v.logical_path s q e in
          ap (λ t. find (is_entry_at t q) (put-entry v db).imports.catalog) (sym a)
          ∙ ap (λ t. find (is_entry_at v.source_id t) (put-entry v db).imports.catalog) (sym b)
          ∙ upsert-find_self v db.imports.catalog)
      | inr e ↦ rw e (upsert-find_other v s q db.imports.catalog e)
    ]

view-delete :
    (source path : Text) (db : Database)
    → view (delete_entry source path db) ≡ assign source path none (view db)
unfolding delete_entry with_catalog
view-delete source path db = fun_ext λ s. fun_ext λ q.
    elim (Bool-cases (beq source s && beq path q)) [
      | inl e ↦ rw e (
          let (a, b) = key-true source path s q e in
          ap (λ t. find (is_entry_at t q) (delete_entry source path db).imports.catalog) (sym a)
          ∙ ap (λ t. find (is_entry_at source t) (delete_entry source path db).imports.catalog)
              (sym b)
          ∙ find-remove_self source path db.imports.catalog)
      | inr e ↦ rw e (find-remove_other source path s q db.imports.catalog e)
    ]

-- The source of an entry is there, or REFERENCES is not enforced.
abbrev pub Admitted : Bool → List Source → Change → Type 0
Admitted fk sources (put v) = (fk && not (affects (is_source v.source_id) sources)) ≡ false
Admitted fk sources (delete source path) = Unit {0}

put-succeeds :
    (fk : Bool) (v : CatalogEntry) (db : Database)
    → (fk && not (affects (is_source v.source_id) db.sources)) ≡ false
    → upsert_entry fk v db ≡ ok (put-entry v db)
unfolding upsert_entry put-entry check ◌>>◌ ◌>>=◌
put-succeeds fk v db h =
    rw
      (unrefused fk (not (affects (is_entry_at v.source_id v.logical_path) db.imports.catalog))
        (not (affects (is_source v.source_id) db.sources)) h)
      refl
  where
    unrefused : (a b c : Bool) → (a && c) ≡ false → (a && b && c) ≡ false
    unrefused a b c h = ground arith

-- Any sequence of Upsert and Delete on the catalog, whose entries are of sources that are there where
-- REFERENCES is enforced, succeeds, and what Get finds afterwards, for every source and path, is what
-- the same calls make of a map from sources and paths to entries.
pub changes_refine :
    (fk : Bool) (calls : List Change) (db : Database)
    → All (Admitted fk db.sources) calls
    → (t : Database) × (apply_changes fk calls db ≡ ok t) × (view t ≡ replay calls (view db))
unfolding apply_changes ◌>>=◌ put-entry with_catalog delete_entry
changes_refine fk [] db h = (db, refl, refl)
changes_refine fk (put v ∷ rest) db (h, more) =
    let (t, done, same) = changes_refine fk rest (put-entry v db) more in
    (t, rw (put-succeeds fk v db h) done, same ∙ ap (λ m. replay rest m) (view-put v db))
changes_refine fk (delete source path ∷ rest) db (h, more) =
    let (t, done, same) = changes_refine fk rest (delete_entry source path db) more in
    (t, done, same ∙ ap (λ m. replay rest m) (view-delete source path db))
