-- ===== src/Transfer/Upload/Keeps.antt =====
-- A step of an upload keeps what `Sound` says.
use airgap_mirror.Prelude.{
  ℕ, length-take_le, take-take_le, not_lt→ltb, ltb, ltb→not_lt, ◌≤◌, ◌<◌, ◌≡◌, refl, sym, ap, ◌∙◌,
  ◌⊎◌, inl, inr, true, List, ◌++◌, none, some, take, length, beq, Bool-cases, arith, length-append,
  take-length_self, Option-cases,
}
use airgap_mirror.Prelude.Int64.{two64, lt64_exact}
use airgap_mirror.Prelude.Tables.{affects}
use airgap_mirror.Domain.Status.{Text, PackStatus, pack_eq}
use airgap_mirror.Domain.Transitions.{Err}
use airgap_mirror.Pack.Writer.{truncate}
use airgap_mirror.Store.{Store, get_import_pack, set_import_pack}
use airgap_mirror.Store.Rows.{update-found}
use airgap_mirror.Transfer.{
  Files, put, Reply, Server, content_at, append_chunk, append_pack, pack_appended, pack_offset,
  offset_of, uploaded_to, file_offset,
}
use airgap_mirror.Transfer.Chunk.{Kept, Grown, append_chunk-cases, content_at-put}
use airgap_mirror.Transfer.Upload.{Honest, Sound}
use airgap_mirror.Transfer.Upload.Calls.{
  appended-error, appended-ok, append_pack-row, append_to-up, append_to-refused,
  session-uploaded_to, pack-uploaded_to, truncate-take, uploaded_complete, prefix-append,
}

module _ (whole : List ℕ) (sid pid : Text) (s : Server) (sound : Sound whole sid pid s) where
  abbrev pub path : Text
  path = sound.row.staging_path

  abbrev pub here : List ℕ
  here = content_at path s.files

  -- Another file at the path, which still holds the committed part.
  with_file :
      (files : Files) (c : List ℕ)
      → content_at path files ≡ c
      → c ≡ take (length c) whole
      → sound.row.uploaded_size ≤ length c
      → length c ≤ sound.row.expected_size
      → Sound whole sid pid (record s { files = files })
  with_file files c e p u l = record {
    row = sound.row;
    found = sound.found;
    has_pack = sound.has_pack;
    prefix = rw e p;
    committed = rw e u;
    limited = rw e l;
    expected = sound.expected;
    small = sound.small;
    complete = sound.complete;
  }

  pub cases :
      (offset : ℕ) (r : List ℕ) (n : ℕ)
      → offset < two64
      → n < two64
      → Kept s.files (append_chunk path offset sound.row.expected_size r n s.files)
        ⊎ Grown path offset sound.row.expected_size r n s.files
            (append_chunk path offset sound.row.expected_size r n s.files)
  cases offset r n o64 n64 =
      append_chunk-cases path offset sound.row.expected_size r n s.files
        (omega (arith, sound.limited, sound.small)) (sound.small) o64 n64

  abbrev pub chunk : ℕ → List ℕ → ℕ → Reply × Files
  chunk offset r n = append_chunk path offset sound.row.expected_size r n s.files

  module _ (offset : ℕ) (r : List ℕ) (n : ℕ) (honest : Honest whole offset r n) where
    Grown-content :
        Grown path offset sound.row.expected_size r n s.files (chunk offset r n)
        → content_at path (chunk offset r n).1 ≡ here ++ take n r
    Grown-content g = rw (g.written) (content_at-put path (here ++ take n r) s.files)

    Grown-prefix :
        Grown path offset sound.row.expected_size r n s.files (chunk offset r n)
        → (here ++ take n r) ≡ take (length (here ++ take n r)) whole
    Grown-prefix g = prefix-append here (take n r) whole sound.prefix (rw (sym g.at_end) honest)

    pub with_chunk :
        (Kept s.files (chunk offset r n)
          ⊎ Grown path offset sound.row.expected_size r n s.files (chunk offset r n))
        → Sound whole sid pid (record s { files = (chunk offset r n).1 })
    with_chunk (inl (e, _, same)) = rw same sound
    with_chunk (inr g) =
        with_file (chunk offset r n).1 (here ++ take n r) (Grown-content g) (Grown-prefix g)
          (omega (arith, length-append here (take n r), sound.committed))
          (omega (arith, length-append here (take n r), g.bounded, g.limited, g.at_end))

    -- The row and the file behind a whole chunk.
    committed_chunk :
        Grown path offset sound.row.expected_size r n s.files (chunk offset r n)
        → pack_eq sound.row.status PackStatus.uploading ≡ true
        → (store : Store)
        → get_import_pack sid pid store
          ≡ some (set_import_pack (uploaded_to (chunk offset r n).0.0 sound.row) sound.row)
        → affects (λ x. beq x.id pid) store.packs ≡ true
        → Sound whole sid pid (record { store = store; files = (chunk offset r n).1 })
    unfolding uploaded_to set_import_pack
    committed_chunk g up store found has = record {
      row = uploaded_to (chunk offset r n).0.0 sound.row;
      found = found;
      has_pack = has;
      prefix = rw (Grown-content g) (Grown-prefix g);
      committed =
          rw (Grown-content g) (omega (arith, length-append here (take n r), g.next, g.at_end));
      limited =
          rw (Grown-content g)
            (omega (arith, length-append here (take n r), g.bounded, g.limited, g.at_end));
      expected = sound.expected;
      small = sound.small;
      complete = uploaded_complete (chunk offset r n).0.0 sound.row up;
    }

  pub append_pack-Sound :
      (offset : ℕ) (r : List ℕ) (n : ℕ)
      → offset < two64
      → n < two64
      → Honest whole offset r n
      → Sound whole sid pid (append_pack sid pid offset r n s).1
  append_pack-Sound offset r n o64 n64 honest =
      rw (append_pack-row sid pid s sound.row offset r n sound.found)
        (elim (Bool-cases (pack_eq sound.row.status PackStatus.uploading)) [
          | inl up ↦
              rw (append_to-up sound.row offset r n s up)
                (by_error up (cases offset r n o64 n64) (Option-cases (chunk offset r n).0.1))
          | inr up ↦ rw (append_to-refused sound.row offset r n s up) sound
        ])
    where
      by_error :
          pack_eq sound.row.status PackStatus.uploading ≡ true
          → (Kept s.files (chunk offset r n)
              ⊎ Grown path offset sound.row.expected_size r n s.files (chunk offset r n))
          → ((chunk offset r n).0.1 ≡ none) ⊎ ((e : Err) × ((chunk offset r n).0.1 ≡ some e))
          → Sound whole sid pid (pack_appended sound.row (chunk offset r n) s).1
      by_error up out (inr (e, h)) =
          rw (appended-error sound.row (chunk offset r n) s e h) (with_chunk offset r n honest out)
      by_error up (inl (e, fails, _)) (inl h) = absurd (cc (h, fails))
      by_error up (inr g) (inl h) =
          let (store, updated, found, has) =
            update-found sid pid s.store sound.row (uploaded_to (chunk offset r n).0.0 sound.row)
              sound.found sound.has_pack (session-uploaded_to (chunk offset r n).0.0 sound.row)
              (pack-uploaded_to (chunk offset r n).0.0 sound.row) in
          rw (appended-ok sound.row (chunk offset r n) s store h updated)
            (committed_chunk offset r n honest g up store found has)

  abbrev pub committed : ℕ
  committed = sound.row.uploaded_size

  cut-content : content_at path (put path (truncate committed here) s.files) ≡ take committed here
  cut-content = content_at-put path _ s.files ∙ truncate-take committed here sound.committed

  cut-prefix : take committed here ≡ take (length (take committed here)) whole
  cut-prefix = rw (length-take_le committed here sound.committed) (
      ap (take committed) sound.prefix ∙ take-take_le committed (length here) whole sound.committed)

  -- What PackOffset does in a sound state.
  abbrev pub Asked : Reply × Server → Type 0
  Asked out =
      (out.0 ≡ (committed, none))
      × (out.1.store ≡ s.store)
      × (content_at path out.1.files ≡ take committed here)

  offset_of_sound : Asked (offset_of path committed sound.row.expected_size s)
  unfolding offset_of file_offset
  offset_of_sound =
      rw
        (
          lt64_exact (length here) committed (omega (arith, sound.limited, sound.small))
              (omega (arith, sound.limited, sound.small, sound.committed)),
          lt64_exact committed (length here)
              (omega (arith, sound.limited, sound.small, sound.committed))
              (omega (arith, sound.limited, sound.small)),
          lt64_exact sound.row.expected_size (length here) (omega (arith, sound.small))
              (omega (arith, sound.limited, sound.small)),
          not_lt→ltb (length here) committed sound.committed,
          not_lt→ltb sound.row.expected_size (length here) sound.limited,
        )
        (elim (Bool-cases (ltb committed (length here))) [
          | inl e ↦ rw e (refl, refl, cut-content)
          | inr e ↦ rw e (refl, refl, sym (all_committed (ltb→not_lt committed (length here) e)))
        ])
    where
      all_committed : length here ≤ committed → take committed here ≡ here
      all_committed h =
          let e : committed ≡ length here = omega (arith, sound.committed) in
          rw e (take-length_self here)

  pub pack_offset_sound : Asked (pack_offset sid pid s)
  unfolding pack_offset
  pack_offset_sound = rw (pack_offset, sound.found) offset_of_sound

  pub pack_offset-Sound : Sound whole sid pid (pack_offset sid pid s).1
  pack_offset-Sound =
      let (_, store, file) = pack_offset_sound in from_parts (pack_offset sid pid s).1 store file
    where
      from_parts :
          (t : Server)
          → t.store ≡ s.store
          → content_at path t.files ≡ take committed here
          → Sound whole sid pid t
      from_parts t store file = record {
        row = sound.row;
        found = rw store sound.found;
        has_pack = rw store sound.has_pack;
        prefix = rw file cut-prefix;
        committed = rw (file, length-take_le committed here sound.committed) (omega arith);
        limited =
            rw (file, length-take_le committed here sound.committed)
              (omega (arith, sound.committed, sound.limited));
        expected = sound.expected;
        small = sound.small;
        complete = sound.complete;
      }
