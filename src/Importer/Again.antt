-- ===== src/Importer/Again.antt =====
-- CommitPack of internal/service/importer.go, called again.
use mathlib.Core.Path.{subst}
use airgap_mirror.Prelude.{
  ℕ, ◌+◌, ◌≡◌, refl, sym, ap, ◌∙◌, true, not, ◌&&◌, ◌||◌, ◌⊎◌, inl, inr, List, [], ◌∷◌, none, some,
  beq, Bool-cases, Option-cases, ◌==◌, not-eq_false,
}
use airgap_mirror.Prelude.Tables.{
  affects, affects-find, affects-modify, find-modify, count_pos, count-find,
}
use airgap_mirror.Domain.Status.{Text, BatchStatus, PackStatus, pack_eq, pack_eq-eq, batch_eq}
use airgap_mirror.Domain.Types.{Source, Pack, PackRecord, ImportSession, ImportPack, ManifestEntry}
use airgap_mirror.Domain.Transitions.{Err}
use airgap_mirror.Domain.Result.{
  ok, err, found, Ensures, returns, after_check, after_found, after_pass,
}
use airgap_mirror.Pack.Reader.{Reader, ReadErr, Next, stop, item, next}
use airgap_mirror.Store.{
  Store, get_import_session, update_import_session, set_session, is_import_pack, get_import_pack,
}
use airgap_mirror.Transfer.{verify_uploaded_pack}
use airgap_mirror.Database.{Database}
use airgap_mirror.Database.Epochs.{transition_batch}
use airgap_mirror.Database.Register.{mark_row, mark_import_pack_committed}
use airgap_mirror.Site.{Site}
use airgap_mirror.Publisher.{Outside, Done}
use airgap_mirror.Publisher.Metadata.{Leaves, leaves, fails, after_done}
use airgap_mirror.Publisher.Keeps.{Keeps, ready-Keeps}
use airgap_mirror.Importer.{get_then, put_session}
use airgap_mirror.Importer.Completes.{after_get, after_put}
use airgap_mirror.Importer.Packs.{
  other_header, mismatch, deletes, put_entry, Placed, recorded, record_entry, commit_record, is_eof,
  walk, walk_pack, close_pack, walk_manifest, import_opened, import_uploaded, ready_to_import,
  commit_pack,
}

-- The session is there, and the pack is IMPORTED.
pub record PackImported (sid pid : Text) (s : Store) : Type 0 where
  pub session : ImportSession
  pub session_there : get_import_session sid s ≡ some session
  pub pack : ImportPack
  pub pack_there : get_import_pack sid pid s ≡ some pack
  pub imported : pack.status ≡ PackStatus.imported

-- A call on such a pack ends at once.
imported-commit_pack :
    (o : Outside) (now : ℕ) (sid pid : Text) (s : Site)
    → PackImported sid pid s.db.store
    → commit_pack o now sid pid s ≡ (none, s)
unfolding commit_pack get_then found pack_eq
imported-commit_pack o now sid pid s x =
    let test : pack_eq x.pack.status PackStatus.imported ≡ true =
      ap (λ v. pack_eq v PackStatus.imported) x.imported in
    rw (x.session_there, x.pack_there) (rw test refl)

Next-cases :
    (n : Next)
    → ((e : ReadErr) × (n ≡ stop e))
      ⊎ ((rec : PackRecord) × ((body : List ℕ) × ((r : Reader) × (n ≡ item rec body r))))
Next-cases (stop e) = inl (e, refl)
Next-cases (item rec body r) = inr (rec, (body, (r, refl)))

module _ (o : Outside) (now : ℕ) where
  entry-Keeps :
      (m : ManifestEntry) (placed : Placed) (s : Site)
      → Keeps s (record_entry o.enforced now m placed s)
  unfolding record_entry recorded
  entry-Keeps m (err e, files) s = fails e _
  entry-Keeps m (ok staged, files) s = record { holds = λ t h. ap (λ d. d.1.db.store) (sym h) }

  record-Keeps :
      (source : Source) (v : ImportSession) (pid : Text) (m : ManifestEntry) (rec : PackRecord)
      (body : List ℕ) (s : Site)
      → Keeps s (commit_record o now source v pid m rec body s)
  unfolding commit_record
  record-Keeps source v pid m rec body s = elim (Bool-cases (mismatch v pid m rec)) [
    | inl e ↦ rw e (fails Err.conflict s)
    | inr e ↦ rw e (elim (Bool-cases (deletes m.artifact.operation && not m.artifact.metadata)) [
      | inl d ↦ rw d (fails Err.invalid s)
      | inr d ↦ rw d (entry-Keeps m (put_entry o source v m rec body s.files) s)
    ])
  ]

  -- What the continuation makes true from every site with the store of the first, the walk does.
  walk-Leaves {κ} :
      (P : Site → Type κ) (source : Source) (v : ImportSession) (pid : Text) (expected : ℕ)
      (manifest : List ManifestEntry) (count : ℕ) (r : Reader) (s : Site) (k : Site → Done)
      → ((t : Site) → t.db.store ≡ s.db.store → Leaves P (k t))
      → Leaves P (walk o now source v pid expected manifest count r s k)
  unfolding walk
  walk-Leaves P source v pid expected [] count r s k h =
      elim (Bool-cases (not (count == expected) || not (is_eof (next r)))) [
        | inl e ↦ rw e (fails Err.conflict s)
        | inr e ↦ rw e (h s refl)
      ]
  walk-Leaves P source v pid expected (m ∷ rest) count r s k h = elim (Next-cases (next r)) [
    | inl e ↦ rw (walk, e.1) (fails Err.other s)
    | inr (rec, (body, (r', e))) ↦
        rw (walk, e)
          (after_done _ _ λ t d.
            walk-Leaves P source v pid expected rest (count + 1) r' t k
              (λ u same. h u (same ∙ (record-Keeps source v pid m rec body s).holds t d)))
  ]

HasSession : Text → Store → Type 0
HasSession sid s = affects (λ v. beq v.id sid) s.sessions ≡ true

mark-PackImported :
    (sid pid : Text) (db : Database)
    → HasSession sid db.store
    → Ensures (λ t. PackImported sid pid t.store) (mark_import_pack_committed sid pid db)
unfolding HasSession mark_import_pack_committed get_import_session get_import_pack mark_row
    is_import_pack
mark-PackImported sid pid db has = after_check _ _ _ λ here.
    let (v, there) = count-find _ db.store.sessions (count_pos _ db.store.sessions has) in
    let (p, at) =
      count-find _ db.store.import_packs
        (count_pos _ db.store.import_packs (not-eq_false _ here)) in
    returns _ (record {
      session = v;
      session_there = there;
      pack = mark_row p;
      pack_there = find-modify _ mark_row db.store.import_packs p (λ x. refl) at;
      imported = refl;
    })

put-HasSession :
    (sid : Text) (v : ImportSession) (db : Database)
    → HasSession sid db.store
    → Ensures (λ t. HasSession sid t.store) (put_session v db)
unfolding HasSession put_session update_import_session set_session
put-HasSession sid v db has = elim (Bool-cases (affects (λ x. beq x.id v.id) db.store.sessions)) [
  | inl e ↦
      rw (put_session, e)
        (returns _ (
          affects-modify (λ x. beq x.id sid) (λ x. beq x.id v.id) (set_session v) db.store.sessions
            (λ x. refl)
          ∙ has))
  | inr e ↦ rw (put_session, e) (record { holds = λ a h. absurd (cc h) })
]

transition-store :
    (now : ℕ) (id : Text) (to : BatchStatus) (msg : Text) (db : Database)
    → Ensures (λ t. t.store ≡ db.store) (transition_batch now id to msg db)
unfolding transition_batch
transition-store now id to msg db = after_found _ _ λ b _. after_pass _ _ λ _. returns _ refl

module _ (o : Outside) (now : ℕ) (v : ImportSession) (ip : ImportPack) (sid pid : Text) where
  Commits : Done → Type 0
  Commits d = Leaves (λ t. PackImported sid pid t.db.store) d

  close-Commits : (s : Site) → HasSession sid s.db.store → Commits (close_pack o now v ip sid pid s)
  unfolding Commits close_pack
  close-Commits s has = after_put _ _ _ λ db h. record {
    holds = λ t e.
        subst (PackImported sid pid) (sym ((ready-Keeps o now v.epoch_id _).holds t e))
          ((mark-PackImported sid pid s.db has).holds db h);
  }

  walk-Commits :
      (source : Source) (p : Pack) (r : Reader) (s : Site)
      → HasSession sid s.db.store
      → Commits (walk_manifest o now source v ip sid pid p r s)
  unfolding Commits walk_manifest
  walk-Commits source p r s has = after_put _ _ _ λ db h.
      let kept = (put-HasSession sid _ s.db has).holds db h in
      elim (Option-cases (o.manifest v.manifest_path)) [
        | inl e ↦ rw e (fails Err.other (record s { db = db }))
        | inr (rows, e) ↦ rw e (
            walk-Leaves o now _ source v pid p.entry_count (walk_pack pid rows) 0 r
              (record s { db = db }) _
              (λ u same. close-Commits u (subst (HasSession sid) (sym same) kept)))
      ]

  opened-Commits :
      (source : Source) (p : Pack) (r : Reader) (s : Site)
      → HasSession sid s.db.store
      → Commits (import_opened o now source v ip sid pid p r s)
  unfolding Commits import_opened
  opened-Commits source p r s has = elim (Bool-cases (other_header v pid r.header)) [
    | inl e ↦ rw e (fails Err.conflict s)
    | inr e ↦ rw e (
        after_get _ _ _ λ b _. elim (Bool-cases (batch_eq b.status BatchStatus.transferring)) [
          | inl d ↦ rw d (
              after_put _ _ _ λ db h.
                walk-Commits source p r (record s { db = db })
                  (subst (HasSession sid) (sym ((transition-store now _ _ _ s.db).holds db h)) has))
          | inr d ↦ rw d (walk-Commits source p r s has)
        ])
  ]

  uploaded-Commits :
      (s : Site) → HasSession sid s.db.store → Commits (import_uploaded o now v ip sid pid s)
  unfolding Commits import_uploaded
  uploaded-Commits s has = elim (Option-cases (verify_uploaded_pack o.sha256 ip s.files)) [
    | inr (e, h) ↦ rw (import_uploaded, h) (fails e s)
    | inl h ↦
        rw (import_uploaded, h)
          (after_get _ _ _ λ p _.
            after_get _ _ _ λ source _. after_get _ _ _ λ r _. opened-Commits source p r s has)
  ]

session-found :
    (id : Text) (s : Store) (v : ImportSession)
    → found (get_import_session id s) ≡ ok v
    → get_import_session id s ≡ some v
unfolding found
session-found id s v h = elim (Option-cases (get_import_session id s)) [
  | inl e ↦ absurd (cc (sym h ∙ ap found e))
  | inr (x, e) ↦ e ∙ ap some (cc (sym (ap found e) ∙ h))
]

pack-found :
    (sid pid : Text) (s : Store) (v : ImportPack)
    → found (get_import_pack sid pid s) ≡ ok v
    → get_import_pack sid pid s ≡ some v
unfolding found
pack-found sid pid s v h = elim (Option-cases (get_import_pack sid pid s)) [
  | inl e ↦ absurd (cc (sym h ∙ ap found e))
  | inr (x, e) ↦ e ∙ ap some (cc (sym (ap found e) ∙ h))
]

commit_pack-Leaves :
    (o : Outside) (now : ℕ) (sid pid : Text) (s : Site)
    → Leaves (λ t. PackImported sid pid t.db.store) (commit_pack o now sid pid s)
unfolding commit_pack HasSession get_import_session Commits
commit_pack-Leaves o now sid pid s = after_get _ _ _ λ v h. after_get _ _ _ λ ip k.
    elim (Bool-cases (pack_eq ip.status PackStatus.imported)) [
      | inl e ↦ rw e (
          leaves s (record {
            session = v;
            session_there = session-found sid s.db.store v h;
            pack = ip;
            pack_there = pack-found sid pid s.db.store ip k;
            imported = pack_eq-eq ip.status PackStatus.imported e;
          }))
      | inr e ↦ rw e (elim (Bool-cases (not (ready_to_import v.status))) [
        | inl d ↦ rw d (fails Err.conflict s)
        | inr d ↦ rw d (elim (Bool-cases (not (pack_eq ip.status PackStatus.uploaded))) [
          | inl c ↦ rw c (fails Err.conflict s)
          | inr c ↦ rw c (
              uploaded-Commits o now v ip sid pid s
                (affects-find _ s.db.store.sessions v (session-found sid s.db.store v h)))
        ])
      ])
    ]

-- If CommitPack returns without an error, the session is there and the pack is IMPORTED, and every
-- later call on that pack, whatever the surroundings and the time, succeeds and changes nothing.
pub commit_pack_repeats :
    (o : Outside) (now : ℕ) (sid pid : Text) (s t : Site)
    → commit_pack o now sid pid s ≡ (none, t)
    → PackImported sid pid t.db.store
      × ((o' : Outside) (later : ℕ) → commit_pack o' later sid pid t ≡ (none, t))
commit_pack_repeats o now sid pid s t h =
    let done = (commit_pack-Leaves o now sid pid s).holds t h in
    (done, λ o' later. imported-commit_pack o' later sid pid t done)
