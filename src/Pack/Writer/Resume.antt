-- ===== src/Pack/Writer/Resume.antt =====
-- Resume of internal/pack/writer.go finds the end of the last whole record again.
use airgap_mirror.Prelude.{
  ℕ, zero, suc, ◌+◌, ◌%◌, ◌≤◌, ◌<◌, ◌≡◌, refl, ap, sym, ◌∙◌, some, All, List, [], ◌∷◌, ◌++◌, length,
  append_assoc, length-append, arith, true, false, beq_refl, leb-false,
}
use airgap_mirror.Prelude.Int64.{two63, two64, add64, add64_exact}
use airgap_mirror.Domain.Types.{PackHeader, PackRecord}
use airgap_mirror.Pack.Uuid.{uuid_string, uuid_bytes-uuid_string}
use airgap_mirror.Pack.Format.{header_bytes, pack_header_size}
use airgap_mirror.Pack.Fields
use airgap_mirror.Pack.Lengths.{length-encode, length-pack_file, total_bounds}
use airgap_mirror.Pack.Reader.{ReadErr, Reader, next, stop, item}
use airgap_mirror.Pack.Reader.Step.{next-at}
use airgap_mirror.Pack.Reader.ReadBack.{next-end, header_for, new_reader-pack_file, file-split}
use airgap_mirror.Pack.Writer.{
  Writer, Progress, scan, same_pack, at_end, resume, resume_opened, write_header, truncate,
}
use airgap_mirror.Pack.Writer.Represents.{Represents, write_header-over, truncate-append}
use airgap_mirror.Pack.Spec.{
  Entry, Ids, GoodIds, GoodEntry, encode, encode_all, entry_length, total_content, total_length,
  pack_file, Fits, record_of,
}

scan-item :
    (fuel : ℕ) (r : Reader) (acc : Progress) {q : PackRecord} {body : List ℕ} {r' : Reader}
    → next r ≡ item q body r'
    → scan (suc fuel) r acc
      ≡ scan fuel r' (record {
        last = add64 q.offset q.record_length;
        count = (acc.count + 1) % two64;
        payload = add64 acc.payload q.content_length;
      })
unfolding scan
scan-item fuel r acc h = rw (h, scan)

scan-stop :
    (fuel : ℕ) (r : Reader) (acc : Progress) {e : ReadErr}
    → next r ≡ stop e
    → scan (suc fuel) r acc ≡ acc
unfolding scan
scan-stop fuel r acc h = rw (h, scan)

same_progress :
    {l l' c c' p p' : ℕ}
    → l ≡ l'
    → c ≡ c'
    → p ≡ p'
    → ◌≡◌ {A = Progress}
        (record { last = l; count = c; payload = p })
        (record { last = l'; count = c'; payload = p' })
same_progress el ec ep = rw (el, ec, ep)

-- The loop of Resume goes through the entries that the header counts, whatever follows them, when
-- its fuel exceeds their number.
scan-entries :
    (es : List Entry) (pre post : List ℕ) (h : PackHeader) (fuel : ℕ) (file : List ℕ) (off : ℕ)
    (count payload : ℕ)
    → All GoodEntry es
    → off + total_length es < two63
    → count + payload ≤ off
    → length es < fuel
    → file ≡ pre ++ (encode_all es ++ post)
    → off ≡ length pre
    → scan fuel
        (record { file = file; header = h; off = off; remaining = length es })
        (record { last = off; count = count; payload = payload })
      ≡ record {
        last = off + total_length es;
        count = count + length es;
        payload = payload + total_content es;
      }
unfolding encode_all total_length total_content record_of
scan-entries es pre post h zero file off count payload good fits small lt ef eo =
    absurd (omega arith)
scan-entries [] pre post h (suc fuel) file off count payload good fits small lt ef eo =
    scan-stop fuel _ _ (next-end file h off)
    ∙ same_progress (omega arith) (omega arith) (omega arith)
scan-entries (e ∷ es) pre post h (suc fuel) file off count payload good fits small lt ef eo =
    let again =
      scan-entries es (pre ++ encode e) post h fuel file (off + entry_length e) (count + 1)
        (payload + length e.content) good.1 (omega arith) (omega arith) (omega arith)
        (ef ∙ (simp append_assoc))
        (omega (arith, length-append pre (encode e), length-encode e good.0, eo)) in
    scan-item fuel _ _ (
      next-at pre (encode_all es ++ post) e h (length es) file off good.0 (omega arith)
        (ef ∙ (simp append_assoc)) eo)
    ∙ (ap
          (scan fuel
            (record { file = file; header = h; off = off + entry_length e; remaining = length es }))
          (same_progress (add64_exact off (entry_length e) (omega arith)) (omega arith)
            (add64_exact payload (length e.content) (omega arith)))
        ∙ (again ∙ same_progress (omega arith) (omega arith) (omega arith)))

same_pack_refl :
    (h x : PackHeader)
    → h.pack_id ≡ x.pack_id
    → h.epoch_id ≡ x.epoch_id
    → h.batch_id ≡ x.batch_id
    → same_pack h x ≡ true
unfolding same_pack
same_pack_refl h x p e b =
    rw (p, e, b, beq_refl x.pack_id, beq_refl x.epoch_id, beq_refl x.batch_id) refl

module _ (i : Ids) (created : ℕ) (es : List Entry) (junk : List ℕ) (ids : GoodIds i)
    (good : All GoodEntry es) (fits : Fits es) (small : created < two63) where
  abbrev torn : List ℕ
  torn = pack_file i created es ++ junk

  abbrev found : Reader
  found = record {
    file = torn;
    header = header_for i created es;
    off = pack_header_size;
    remaining = length es;
  }

  abbrev end : ℕ
  end = pack_header_size + total_length es

  -- The loop sees every entry that the header counts.
  scanned :
      scan (suc (length torn)) found (record { last = pack_header_size; count = 0; payload = 0 })
      ≡ record { last = end; count = length es; payload = total_content es }
  scanned =
      scan-entries es hb junk (header_for i created es) (suc (length torn)) torn pack_header_size 0
        0 good fits (omega arith) enough (file-split i created es junk ids fits small)
        (omega (arith, length-hb))
      ∙ same_progress refl (omega arith) (omega arith)
    where
      hb : List ℕ
      hb = header_bytes i.pack i.epoch i.batch (length es) (total_content es) created

      length-hb : length hb ≡ 128
      length-hb =
          Fields.length-header_bytes i.pack i.epoch i.batch _ _ created ids.pack_16 ids.epoch_16
            ids.batch_16

      enough : length es < suc (length torn)
      enough = omega (
        arith,
        length-append (pack_file i created es) junk,
        length-pack_file i created es ids good,
        total_bounds es,
      )

  -- The writer that Resume returns.
  abbrev resumed : Writer
  resumed = record {
    file = pack_file i created es;
    pos = end;
    header = header_for i created es;
    records = length es;
    payload = total_content es;
    closed = false;
  }

  resumed-Represents : Represents resumed i created es
  unfolding header_for
  resumed-Represents = record {
    file = refl;
    pos = sym (length-pack_file i created es ids good);
    pack_id = uuid_bytes-uuid_string i.pack ids.pack_16 ids.pack_bytes;
    epoch_id = uuid_bytes-uuid_string i.epoch ids.epoch_16 ids.epoch_bytes;
    batch_id = uuid_bytes-uuid_string i.batch ids.batch_16 ids.batch_bytes;
    created_unix = refl;
    records = refl;
    payload = refl;
    is_open = refl;
  }

  abbrev cut : Writer
  cut = record resumed { file = truncate end torn; pos = pack_header_size }

  header-rewritten : write_header cut ≡ some (record resumed { pos = pack_header_size })
  unfolding pack_file header_for
  header-rewritten =
      write_header-over cut i hb (encode_all es) ids resumed-Represents.pack_id
        resumed-Represents.epoch_id resumed-Represents.batch_id whole length-hb
    where
      hb : List ℕ
      hb = header_bytes i.pack i.epoch i.batch (length es) (total_content es) created

      length-hb : length hb ≡ 128
      length-hb =
          Fields.length-header_bytes i.pack i.epoch i.batch _ _ created ids.pack_16 ids.epoch_16
            ids.batch_16

      whole : truncate end torn ≡ hb ++ encode_all es
      whole =
          truncate-append (pack_file i created es) junk end
            (sym (length-pack_file i created es ids good))

  -- For a pack of good entries that fits into int64 offsets, whatever follows the entries that the
  -- header counts, a torn record or none: if the ids agree, Resume cuts it off and returns a
  -- writer that stands behind these entries.
  pub resume-recovers :
      (x : PackHeader)
      → x.pack_id ≡ uuid_string i.pack
      → x.epoch_id ≡ uuid_string i.epoch
      → x.batch_id ≡ uuid_string i.batch
      → (w : Writer) × (resume (some torn) x ≡ some w) × Represents w i created es
  unfolding resume resume_opened header_for at_end
  resume-recovers x p e b = (
    resumed,
    rw (new_reader-pack_file i created es junk ids fits small, resume_opened)
        (rw (scanned) (
          rw
            (
              same_pack_refl (header_for i created es) x (sym p) (sym e) (sym b),
              leb-false two63 end fits,
            )
            (rw (header-rewritten, at_end) refl))),
    resumed-Represents,
  )
