-- ===== src/Transfer/Upload/Results.antt =====
-- What the calls of internal/service/transfer.go promise a client that uploads a pack.
use mathlib.Core.Path.{subst}
use airgap_mirror.Prelude.{
  ℕ, take_all, ◌+◌, ◌≤◌, ◌<◌, ◌≡◌, refl, sym, ap, ◌∙◌, true, List, none, some, take, length,
  length-take_le, beq, arith,
}
use airgap_mirror.Prelude.Int64.{two63}
use airgap_mirror.Domain.Status.{Text, PackStatus, pack_eq}
use airgap_mirror.Domain.Types.{ImportPack}
use airgap_mirror.Store.{Store, get_import_pack}
use airgap_mirror.Transfer.{
  Server, max_upload_chunk, content_at, append_chunk, append_pack, pack_offset, uploaded_to,
}
use airgap_mirror.Prelude.Tables.{affects}
use airgap_mirror.Store.Rows.{update-found}
use airgap_mirror.Transfer.Chunk.{append_chunk-accepts}
use airgap_mirror.Transfer.Upload.{Sound, Step, Steps}
use airgap_mirror.Transfer.Upload.Calls.{
  append_pack-row, append_to-up, appended-ok, session-uploaded_to, pack-uploaded_to,
}
use airgap_mirror.Transfer.Upload.Keeps.{
  append_pack-Sound, pack_offset-Sound, pack_offset_sound, with_chunk, cases,
}

same_row :
    (s : Store) (sid pid : Text) (p q : ImportPack)
    → get_import_pack sid pid s ≡ some p
    → get_import_pack sid pid s ≡ some q
    → q ≡ p
same_row s sid pid p q h k = ap (λ o. elim o [ none ↦ p | some x ↦ x ]) (sym k ∙ h)

module _ (whole : List ℕ) (sid pid : Text) where
  -- Where it holds that the pack's file is a beginning of the client's, with the committed part in
  -- it and within the expected size, appending what the client has, asking for the offset and
  -- losing the process in between all keep it so.
  pub Step-Sound :
      {s t : Server} → Step whole sid pid s t → Sound whole sid pid s → Sound whole sid pid t
  Step-Sound (Step.appends offset r n o64 n64 honest) sound =
      append_pack-Sound whole sid pid _ sound offset r n o64 n64 honest
  Step-Sound (Step.asks) sound = pack_offset-Sound whole sid pid _ sound
  Step-Sound {s = s} (Step.crashes p offset r n found o64 n64 honest) sound =
      rw (sym (same_row s.store sid pid p sound.row found sound.found)) (
        with_chunk whole sid pid s sound offset r n honest
          (cases whole sid pid s sound offset r n o64 n64))

  Steps-Sound :
      {s t : Server} → Steps whole sid pid s t → Sound whole sid pid s → Sound whole sid pid t
  Steps-Sound Steps.done sound = sound
  Steps-Sound (Steps.more first rest) sound = Steps-Sound rest (Step-Sound first sound)

  all_of : (c : List ℕ) → c ≡ take (length c) whole → length whole ≤ length c → c ≡ whole
  all_of c h l = h ∙ take_all (length c) whole l

  whole_at :
      (t : Server) (end : Sound whole sid pid t)
      → end.row.status ≡ PackStatus.uploaded
      → content_at end.row.staging_path t.files ≡ whole
  whole_at t end up =
      all_of (content_at end.row.staging_path t.files) end.prefix
        (omega (arith, end.complete up, end.expected, end.committed))

  -- A whole chunk at the committed offset, where nothing else is in the file.
  chunk_accepted :
      (t : Server) (p : ImportPack) (r : List ℕ) (n : ℕ)
      → get_import_pack sid pid t.store ≡ some p
      → affects (λ x. beq x.id pid) t.store.packs ≡ true
      → p.status ≡ PackStatus.uploading
      → length (content_at p.staging_path t.files) ≡ p.uploaded_size
      → p.expected_size + max_upload_chunk < two63
      → n ≤ max_upload_chunk
      → p.uploaded_size + n ≤ p.expected_size
      → n ≤ length r
      → (append_pack sid pid p.uploaded_size r n t).0 ≡ (p.uploaded_size + n, none)
  unfolding pack_eq
  chunk_accepted t p r n found has up at limit small fits enough =
      let accepted =
        append_chunk-accepts p.staging_path p.uploaded_size p.expected_size r n t.files at limit
          small fits enough in
      let out = append_chunk p.staging_path p.uploaded_size p.expected_size r n t.files in
      let (store, updated, _, _) =
        update-found sid pid t.store p (uploaded_to out.0.0 p) found has
          (session-uploaded_to out.0.0 p) (pack-uploaded_to out.0.0 p) in
      ap (λ o. o.0)
        (append_pack-row sid pid t p p.uploaded_size r n found
          ∙ append_to-up p p.uploaded_size r n t (rw up refl)
          ∙ appended-ok p out t store (ap (λ o. o.1) accepted) updated)
      ∙ accepted

  -- From a sound state, however the calls, short reads and crashes of an upload that sends the
  -- client's bytes interleave: a pack whose row says UPLOADED has in its file exactly the bytes of
  -- the client's.
  pub upload_integrity :
      {s t : Server}
      → Sound whole sid pid s
      → Steps whole sid pid s t
      → (p : ImportPack) → get_import_pack sid pid t.store ≡ some p
      → p.status ≡ PackStatus.uploaded
      → content_at p.staging_path t.files ≡ whole
  upload_integrity {t = t} start steps p found up =
      let end = Steps-Sound steps start in
      let same = same_row t.store sid pid p end.row found end.found in
      ap (λ q. content_at q.staging_path t.files) (sym same)
      ∙ whole_at t end (ap (λ q. q.status) same ∙ up)

  resume_row :
      (s : Server) (sound : Sound whole sid pid s) (r : List ℕ) (n : ℕ)
      → sound.row.status ≡ PackStatus.uploading
      → n ≤ max_upload_chunk
      → sound.row.uploaded_size + n ≤ sound.row.expected_size
      → n ≤ length r
      → ((pack_offset sid pid s).0 ≡ (sound.row.uploaded_size, none))
        × ((append_pack sid pid sound.row.uploaded_size r n (pack_offset sid pid s).1).0
            ≡ (sound.row.uploaded_size + n, none))
  resume_row s sound r n up small fits has =
      let (reply, store, file) = pack_offset_sound whole sid pid s sound in
      (
        reply,
        chunk_accepted (pack_offset sid pid s).1 sound.row r n (rw store sound.found)
            (rw store sound.has_pack) up
            (rw
              (
                file,
                length-take_le sound.row.uploaded_size (content_at sound.row.staging_path s.files)
                    sound.committed,
              )
              refl)
            sound.small small fits has,
      )

  -- From a sound state, after any calls, short reads and crashes of an upload that sends the
  -- client's bytes: for a pack that takes uploads PackOffset returns the committed size, and
  -- AppendPack of a whole chunk at that offset, within the limits, returns the size behind it and
  -- no error.
  pub resume_accepts :
      {s t : Server}
      → Sound whole sid pid s
      → Steps whole sid pid s t
      → (p : ImportPack) (r : List ℕ) (n : ℕ) → get_import_pack sid pid t.store ≡ some p
      → p.status ≡ PackStatus.uploading
      → n ≤ max_upload_chunk
      → p.uploaded_size + n ≤ p.expected_size
      → n ≤ length r
      → ((pack_offset sid pid t).0 ≡ (p.uploaded_size, none))
        × ((append_pack sid pid p.uploaded_size r n (pack_offset sid pid t).1).0
            ≡ (p.uploaded_size + n, none))
  resume_accepts {t = t} start steps p r n found up small fits has =
      let end = Steps-Sound steps start in
      subst
        (λ q.
          q.status ≡ PackStatus.uploading
          → q.uploaded_size + n ≤ q.expected_size
          → ((pack_offset sid pid t).0 ≡ (q.uploaded_size, none))
            × ((append_pack sid pid q.uploaded_size r n (pack_offset sid pid t).1).0
                ≡ (q.uploaded_size + n, none)))
        (same_row t.store sid pid p end.row found end.found)
        (λ u f. resume_row t end r n u small f has) up fits
