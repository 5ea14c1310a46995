-- ===== src/Pack/Writer/Appends.antt =====
-- What Append of internal/pack/writer.go does behind its checks.
use airgap_mirror.Prelude.{
  ℕ, ◌+◌, ◌%◌, ◌^◌, ◌≡◌, refl, ap, ◌∙◌, true, false, some, All, List, [], ◌∷◌, ◌++◌, length,
  append_assoc, length-append, arith, All-append, beq_refl, ◌==◌, beq, not, ◌||◌, ==_refl,
}
use airgap_mirror.Prelude.Int64.{two64, add64, add64_exact, sub64, sub64_exact}
use airgap_mirror.Domain.Types.{Artifact, PackLocation}
use airgap_mirror.Pack.Bytes.{hex_encode}
use airgap_mirror.Pack.Format.{header_bytes, record_bytes, record_header_size}
use airgap_mirror.Pack.Fields
use airgap_mirror.Pack.Lengths.{
  total_bounds, encode_all-snoc, total_content-snoc, total_length-snoc, length-pack_file,
}
use airgap_mirror.Pack.Writer.{
  Writer, write, limit, write_header, append_record, put_record, roll_back, commit_header,
  count_record, works, finish_append, Appended, placed, failed,
}
use airgap_mirror.Pack.Writer.Represents.{
  Represents, write-end_3, write_header-over, truncate-append,
}
use airgap_mirror.Pack.Spec.{
  Entry, Ids, GoodIds, GoodEntry, encode, encode_all, entry_length, total_content, total_length,
  pack_file, Fits,
}

module _ (sha256 : List ℕ → List ℕ) (w : Writer) (i : Ids) (created : ℕ) (es : List Entry)
    (ids : GoodIds i) (rep : Represents w i created es) (a : Artifact) (r id sha : List ℕ) where
  abbrev content : List ℕ
  content = limit a.size r

  abbrev header : List ℕ
  header = record_bytes id a.size (length a.logical_path % 2 ^ 32) sha

  -- The writer after the three writes of Append.
  abbrev written : Writer
  written = write content (write a.logical_path (write header w))

  -- On a mismatch of size or digest the file is cut back, and nothing else has changed.
  pub rolled_back :
      (not (length content == a.size) || not (beq (hex_encode (sha256 content)) a.sha256)) ≡ true
      → append_record sha256 works w a r sha id ≡ (failed, w)
  unfolding append_record put_record roll_back commit_header count_record
  rolled_back mismatch = rw mismatch (
      rw (write-end_3 header a.logical_path content w rep.pos) (
        ap {B = Appended × Writer} (λ f. (failed, record w { file = f }))
          (truncate-append w.file _ w.pos rep.pos)))

  -- The entry that a successful call adds.
  abbrev pub entry : Entry
  entry = record { id = id; path = a.logical_path; sha = sha; content = content }

  abbrev pub location : PackLocation
  location = record {
    pack_id = w.header.pack_id;
    offset = length w.file;
    record_length = entry_length entry;
  }

  -- The writer behind the new entry.
  abbrev pub longer : Writer
  longer = record w {
    file = pack_file i created (es ++ entry ∷ []);
    pos = length (pack_file i created (es ++ entry ∷ []));
    records = length (es ++ entry ∷ []);
    payload = total_content (es ++ entry ∷ []);
  }

  module _ (same_size : length content ≡ a.size) (same_sha : hex_encode (sha256 content) ≡ a.sha256)
      (good : GoodEntry entry) (goods : All GoodEntry es) (fits : Fits (es ++ entry ∷ [])) where
    short_path : length a.logical_path % 2 ^ 32 ≡ length a.logical_path
    short_path = omega (arith, good.path_limit)

    -- The bytes of the three writes are the entry's.
    encoded : header ++ (a.logical_path ++ content) ≡ encode entry
    unfolding encode
    encoded = rw (short_path, same_size)

    matched :
        (not (length content == a.size) || not (beq (hex_encode (sha256 content)) a.sha256)) ≡ false
    matched = rw (same_size, same_sha, ==_refl a.size, beq_refl a.sha256)

    records-longer : (w.records + 1) % two64 ≡ length (es ++ entry ∷ [])
    records-longer =
        omega (arith, rep.records, length-append es (entry ∷ []), total_bounds (es ++ entry ∷ []))

    payload-longer : add64 w.payload a.size ≡ total_content (es ++ entry ∷ [])
    payload-longer =
        add64_exact w.payload a.size (
          omega (
            arith,
            rep.payload,
            same_size,
            total_content-snoc es entry,
            total_bounds (es ++ entry ∷ []),
          ))
        ∙ omega (arith, rep.payload, same_size, total_content-snoc es entry)

    length-file : length w.file ≡ 128 + total_length es
    length-file = rw rep.file (length-pack_file i created es ids goods)

    length-longer :
        length (pack_file i created (es ++ entry ∷ [])) ≡ 128 + total_length (es ++ entry ∷ [])
    length-longer =
        length-pack_file i created (es ++ entry ∷ []) ids
          (All-append GoodEntry es (entry ∷ []) goods (good, tt))

    end-longer : w.pos + entry_length entry ≡ length (pack_file i created (es ++ entry ∷ []))
    end-longer = omega (arith, rep.pos, length-file, total_length-snoc es entry, length-longer)

    file-longer :
        header_bytes i.pack i.epoch i.batch
            (length (es ++ entry ∷ []))
            (total_content (es ++ entry ∷ []))
            created
          ++ (encode_all es ++ encode entry)
        ≡ pack_file i created (es ++ entry ∷ [])
    unfolding pack_file
    file-longer = rw (encode_all-snoc es entry)

    -- The writer whose header is written last.
    abbrev counted : Writer
    counted = record w {
      file = w.file ++ encode entry;
      pos = w.pos + length header + length a.logical_path + length content;
      records = length (es ++ entry ∷ []);
      payload = total_content (es ++ entry ∷ []);
    }

    header-written :
        write_header counted
        ≡ some (record counted { file = pack_file i created (es ++ entry ∷ []) })
    header-written =
        write_header-over counted i old (encode_all es ++ encode entry) ids rep.pack_id rep.epoch_id
          rep.batch_id (ap (λ f. f ++ encode entry) (rep.file ∙ split) ∙ simp append_assoc) old_128
        ∙ ap (λ f. some (record counted { file = f })) (rw rep.created_unix file-longer)
      where
        old : List ℕ
        old = header_bytes i.pack i.epoch i.batch (length es) (total_content es) created

        old_128 : length old ≡ 128
        old_128 =
            Fields.length-header_bytes i.pack i.epoch i.batch _ _ _ ids.pack_16 ids.epoch_16
              ids.batch_16

        split : pack_file i created es ≡ old ++ encode_all es
        split = unfold pack_file in refl

    end64 :
        add64 (w.pos + record_header_size + length a.logical_path) a.size
        ≡ length (pack_file i created (es ++ entry ∷ []))
    end64 =
        add64_exact _ a.size (omega (arith, end-longer, same_size, length-longer))
        ∙ omega (arith, end-longer, same_size)

    length-record :
        sub64 (length (pack_file i created (es ++ entry ∷ []))) w.pos ≡ entry_length entry
    length-record =
        sub64_exact _ w.pos (omega (arith, end-longer)) (omega (arith, length-longer))
        ∙ omega (arith, end-longer)

    pub committed : append_record sha256 works w a r sha id ≡ (placed location, longer)
    unfolding append_record put_record roll_back commit_header count_record finish_append
    committed = rw matched (
        rw (write-end_3 header a.logical_path content w rep.pos) (
          rw encoded (
            rw (records-longer, payload-longer)
              (rw (header-written, finish_append)
                (rw (end64, length-record)
                  (ap {B = Appended × Writer}
                    (λ o. (
                      placed (record {
                        pack_id = w.header.pack_id;
                        offset = o;
                        record_length = entry_length entry;
                      }),
                      longer,
                    ))
                    rep.pos))))))
