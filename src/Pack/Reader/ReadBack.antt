-- ===== src/Pack/Reader/ReadBack.antt =====
-- NewReaderFile and Next of internal/pack/reader.go give back the entries of a pack file.
use airgap_mirror.Prelude.{
  ℕ, zero, suc, ◌+◌, ◌<◌, ◌≡◌, refl, ◌∙◌, none, some, Option, All, List, [], ◌∷◌, ◌++◌, length,
  append_assoc, length-append, arith, beq_refl,
}
use airgap_mirror.Prelude.Int64.{two63}
use airgap_mirror.Domain.Types.{PackHeader, PackRecord}
use airgap_mirror.Pack.Bytes.{from_le-put64, from_le-put16, from_le-put32}
use airgap_mirror.Pack.Uuid.{uuid_string}
use airgap_mirror.Pack.Format.{header_bytes, pack_header_size, pack_magic, version}
use airgap_mirror.Pack.Fields
use airgap_mirror.Pack.Lengths.{length-encode, total_bounds}
use airgap_mirror.Pack.Reader.{
  ReadErr, eof, Reader, full, stop, item, next, new_reader, parse_header, header_of, opened,
}
use airgap_mirror.Pack.Reader.Step.{next-at, read_full-at}
use airgap_mirror.Pack.Spec.{
  Entry, Ids, GoodIds, GoodEntry, encode, encode_all, entry_length, total_content, total_length,
  pack_file, Fits, record_of,
}

-- Reading on from an entry to the end: the records and bodies of the entries, in their order.
abbrev pub Items : Type 0
Items = List (PackRecord × List ℕ)

unfoldable pub items_of : ℕ → List Entry → Items
items_of off [] = []
items_of off (e ∷ es) = (record_of off e, e.content) ∷ items_of (off + entry_length e) es

-- Next until it stops, with the reason.
pub read_on : ℕ → Reader → Items × Option ReadErr
read_on zero r = ([], none)
read_on (suc fuel) r = elim (next r) [
  | stop e ↦ ([], some e)
  | item q body r' ↦ let (items, end) = read_on fuel r' in ((q, body) ∷ items, end)
]

read_on-stop :
    (fuel : ℕ) (r : Reader) {e : ReadErr} → next r ≡ stop e → read_on (suc fuel) r ≡ ([], some e)
unfolding read_on
read_on-stop fuel r h = rw (h, read_on)

read_on-item :
    (fuel : ℕ) (r : Reader) {q : PackRecord} {body : List ℕ} {r' : Reader}
    → next r ≡ item q body r'
    → read_on (suc fuel) r ≡ ((q, body) ∷ (read_on fuel r').0, (read_on fuel r').1)
unfolding read_on
read_on-item fuel r h = rw (h, read_on)

pub next-end :
    (file : List ℕ) (h : PackHeader) (off : ℕ)
    → next (record { file = file; header = h; off = off; remaining = 0 }) ≡ stop eof
unfolding next
next-end file h off = refl

read_on-entries :
    (es : List Entry) (pre post : List ℕ) (h : PackHeader) (fuel : ℕ) (file : List ℕ) (off : ℕ)
    → All GoodEntry es
    → off + total_length es < two63
    → length es < fuel
    → file ≡ pre ++ (encode_all es ++ post)
    → off ≡ length pre
    → read_on fuel (record { file = file; header = h; off = off; remaining = length es })
      ≡ (items_of off es, some eof)
unfolding items_of encode_all total_length
read_on-entries es pre post h zero file off good fits lt ef eo = absurd (omega arith)
read_on-entries [] pre post h (suc fuel) file off good fits lt ef eo =
    read_on-stop fuel _ (next-end file h off)
read_on-entries (e ∷ es) pre post h (suc fuel) file off good fits lt ef eo =
    let again =
      read_on-entries es (pre ++ encode e) post h fuel file (off + entry_length e) good.1
        (omega arith) (omega arith) (ef ∙ (simp append_assoc))
        (omega (arith, length-append pre (encode e), length-encode e good.0, eo)) in
    read_on-item fuel _ (
      next-at pre (encode_all es ++ post) e h (length es) file off good.0 (omega arith)
        (ef ∙ (simp append_assoc)) eo)
    ∙ rw again

-- The header that a pack file carries.
unfoldable pub header_for : Ids → ℕ → List Entry → PackHeader
header_for i created es = record {
  pack_id = uuid_string i.pack;
  epoch_id = uuid_string i.epoch;
  batch_id = uuid_string i.batch;
  record_count = length es;
  logical_payload_bytes = total_content es;
  created_unix = created;
}

module _ (i : Ids) (created : ℕ) (es : List Entry) (junk : List ℕ) (ids : GoodIds i)
    (fits : Fits es) (small : created < two63) where
  abbrev file : List ℕ
  file = pack_file i created es ++ junk

  abbrev hb : List ℕ
  hb = header_bytes i.pack i.epoch i.batch (length es) (total_content es) created

  length-hb : length hb ≡ 128
  length-hb =
      Fields.length-header_bytes i.pack i.epoch i.batch _ _ created ids.pack_16 ids.epoch_16
        ids.batch_16

  pub file-split : file ≡ hb ++ (encode_all es ++ junk)
  unfolding pack_file
  file-split = simp append_assoc

  parse-hb :
      parse_header file (full hb)
      ≡ opened (record {
        file = file;
        header = header_for i created es;
        off = pack_header_size;
        remaining = length es;
      })
  unfolding parse_header header_of header_for
  parse-hb =
      rw
        (
          Fields.header-magic i.pack i.epoch i.batch (length es) (total_content es) created
              ids.pack_16 ids.epoch_16 ids.batch_16,
          Fields.header-version i.pack i.epoch i.batch (length es) (total_content es) created
              ids.pack_16 ids.epoch_16 ids.batch_16,
          Fields.header-size i.pack i.epoch i.batch (length es) (total_content es) created
              ids.pack_16 ids.epoch_16 ids.batch_16,
          Fields.header-pack i.pack i.epoch i.batch (length es) (total_content es) created
              ids.pack_16 ids.epoch_16 ids.batch_16,
          Fields.header-epoch i.pack i.epoch i.batch (length es) (total_content es) created
              ids.pack_16 ids.epoch_16 ids.batch_16,
          Fields.header-batch i.pack i.epoch i.batch (length es) (total_content es) created
              ids.pack_16 ids.epoch_16 ids.batch_16,
          Fields.header-records i.pack i.epoch i.batch (length es) (total_content es) created
              ids.pack_16 ids.epoch_16 ids.batch_16,
          Fields.header-payload i.pack i.epoch i.batch (length es) (total_content es) created
              ids.pack_16 ids.epoch_16 ids.batch_16,
          Fields.header-created i.pack i.epoch i.batch (length es) (total_content es) created
              ids.pack_16 ids.epoch_16 ids.batch_16,
          beq_refl pack_magic,
          from_le-put64 (length es) (omega (arith, total_bounds es)),
          from_le-put64 (total_content es) (omega (arith, total_bounds es)),
          from_le-put64 created (omega arith),
        )
        (rw (from_le-put16 version (omega arith), from_le-put32 pack_header_size (omega arith)))

  pub new_reader-pack_file :
      new_reader file
      ≡ opened (record {
        file = file;
        header = header_for i created es;
        off = pack_header_size;
        remaining = length es;
      })
  unfolding new_reader
  new_reader-pack_file =
      rw
        (read_full-at file [] hb _ 0 pack_header_size file-split refl (omega (arith, length-hb))
          (omega arith))
        parse-hb

  -- A file that starts with a pack of good entries, which fits into int64 offsets, opens, whatever
  -- follows the pack; Next gives every entry in order, with its id, path, length, digest, offset
  -- and body, and then io.EOF.
  pub read-pack_file :
      All GoodEntry es
      → (r : Reader) × (new_reader file ≡ opened r)
        × (r.header ≡ header_for i created es)
        × (read_on (suc (length es)) r ≡ (items_of pack_header_size es, some eof))
  read-pack_file good = (
    record {
      file = file;
      header = header_for i created es;
      off = pack_header_size;
      remaining = length es;
    },
    new_reader-pack_file,
    refl,
    read_on-entries es hb junk _ (suc (length es)) file pack_header_size good fits (omega arith)
        file-split (omega (arith, length-hb)),
  )
