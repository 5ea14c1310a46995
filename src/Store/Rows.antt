-- ===== src/Store/Rows.antt =====
-- What UpdateImportPack of internal/storage/sqlite/server_import_registration.go makes of a row.
use airgap_mirror.Prelude.{◌≡◌, refl, ◌∙◌, true, &&-true, some, beq, beq_eq}
use airgap_mirror.Prelude.Tables.{
  modify, affects, find-sat, affects-find, find-modify, affects-modify,
}
use airgap_mirror.Domain.Status.{Text}
use airgap_mirror.Domain.Types.{ImportPack}
use airgap_mirror.Store.{
  Store, is_import_pack, get_import_pack, set_import_pack, set_pack, update_import_pack,
}

pub row-keys :
    (sid pid : Text) (s : Store) (p : ImportPack)
    → get_import_pack sid pid s ≡ some p
    → (p.session_id ≡ sid) × (p.pack_id ≡ pid)
unfolding get_import_pack is_import_pack
row-keys sid pid s p h =
    let (a, b) = &&-true _ _ (find-sat (is_import_pack sid pid) s.import_packs p h) in
    (beq_eq p.session_id sid a, beq_eq p.pack_id pid b)

-- An update of a row that was read is found again, and the row of `packs` is still there.
pub update-found :
    (sid pid : Text) (s : Store) (p v : ImportPack)
    → get_import_pack sid pid s ≡ some p
    → affects (λ x. beq x.id pid) s.packs ≡ true
    → v.session_id ≡ p.session_id
    → v.pack_id ≡ p.pack_id
    → (s' : Store) × (update_import_pack v s ≡ some s')
      × (get_import_pack sid pid s' ≡ some (set_import_pack v p))
      × (affects (λ x. beq x.id pid) s'.packs ≡ true)
unfolding get_import_pack update_import_pack set_import_pack set_pack is_import_pack
update-found sid pid s p v h k es ep =
    let keys = row-keys sid pid s p h in
    let same : v.session_id ≡ sid = es ∙ keys.0 in
    let same' : v.pack_id ≡ pid = ep ∙ keys.1 in
    (
      record s {
        import_packs = modify (is_import_pack sid pid) (set_import_pack v) s.import_packs;
        packs = modify (λ x. beq x.id pid) (set_pack v) s.packs;
      },
      rw (same, same', affects-find (is_import_pack sid pid) s.import_packs p h, k) refl,
      find-modify (is_import_pack sid pid) (set_import_pack v) s.import_packs p (λ x. refl) h,
      affects-modify (λ x. beq x.id pid) (λ x. beq x.id pid) (set_pack v) s.packs (λ x. refl) ∙ k,
    )
