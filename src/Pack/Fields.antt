-- ===== src/Pack/Fields.antt =====
-- The fields of a pack header and of a record header, read back from the bytes.
use airgap_mirror.Prelude.{ℕ, ◌≡◌, refl, ◌∙◌, List, length, length-append}
use airgap_mirror.Pack.Bytes.{put16, put32, put64, le_bytes, length-put64}
use airgap_mirror.Pack.Format.{
  slice, header_bytes, record_bytes, pack_magic, record_magic, version, pack_header_size,
}
use airgap_mirror.Pack.Slices.{slice-skip, slice-here, slice_last}

module _ (pack epoch batch : List ℕ) (records payload created : ℕ) (lp : length pack ≡ 16)
    (le : length epoch ≡ 16) (lb : length batch ≡ 16) where
  abbrev hb : List ℕ
  hb = header_bytes pack epoch batch records payload created

  pub length-header_bytes : length hb ≡ 128
  unfolding header_bytes put16 put32 le_bytes
  length-header_bytes = simp (length-append, length-put64, lp, le, lb)

  pub header-magic : slice 0 8 hb ≡ pack_magic
  unfolding header_bytes
  header-magic = refl

  pub header-version : slice 8 10 hb ≡ put16 version
  unfolding header_bytes put16 le_bytes
  header-version = refl

  pub header-size : slice 12 16 hb ≡ put32 pack_header_size
  unfolding header_bytes put16 put32 le_bytes
  header-size = refl

  pub header-pack : slice 16 32 hb ≡ pack
  unfolding header_bytes put16 put32 le_bytes
  header-pack = slice-here 16 pack _ lp

  pub header-epoch : slice 32 48 hb ≡ epoch
  unfolding header_bytes put16 put32 le_bytes
  header-epoch = slice-skip 16 0 16 pack _ lp ∙ slice-here 16 epoch _ le

  pub header-batch : slice 48 64 hb ≡ batch
  unfolding header_bytes put16 put32 le_bytes
  header-batch =
      slice-skip 16 16 32 pack _ lp ∙ (slice-skip 16 0 16 epoch _ le ∙ slice-here 16 batch _ lb)

  pub header-records : slice 64 72 hb ≡ put64 records
  unfolding header_bytes put16 put32 le_bytes
  header-records =
      slice-skip 16 32 40 pack _ lp
      ∙ (slice-skip 16 16 24 epoch _ le
          ∙ (slice-skip 16 0 8 batch _ lb ∙ slice-here 8 (put64 records) _ (length-put64 records)))

  pub header-payload : slice 72 80 hb ≡ put64 payload
  unfolding header_bytes put16 put32 le_bytes
  header-payload =
      slice-skip 16 40 48 pack _ lp
      ∙ (slice-skip 16 24 32 epoch _ le
          ∙ (slice-skip 16 8 16 batch _ lb
              ∙ (slice-skip 8 0 8 (put64 records) _ (length-put64 records)
                  ∙ slice-here 8 (put64 payload) _ (length-put64 payload))))

  pub header-created : slice 80 88 hb ≡ put64 created
  unfolding header_bytes put16 put32 le_bytes
  header-created =
      slice-skip 16 48 56 pack _ lp
      ∙ (slice-skip 16 32 40 epoch _ le
          ∙ (slice-skip 16 16 24 batch _ lb
              ∙ (slice-skip 8 8 16 (put64 records) _ (length-put64 records)
                  ∙ (slice-skip 8 0 8 (put64 payload) _ (length-put64 payload)
                      ∙ slice-here 8 (put64 created) _ (length-put64 created)))))

module _ (id : List ℕ) (size path_length : ℕ) (sha : List ℕ) (li : length id ≡ 16)
    (ls : length sha ≡ 32) where
  abbrev rb : List ℕ
  rb = record_bytes id size path_length sha

  pub length-record_bytes : length rb ≡ 80
  unfolding record_bytes put16 put32 le_bytes
  length-record_bytes = simp (length-append, length-put64, li, ls)

  pub record-magic : slice 0 8 rb ≡ record_magic
  unfolding record_bytes
  record-magic = refl

  pub record-id : slice 16 32 rb ≡ id
  unfolding record_bytes put16 put32 le_bytes
  record-id = slice-here 16 id _ li

  pub record-size : slice 32 40 rb ≡ put64 size
  unfolding record_bytes put16 put32 le_bytes
  record-size = slice-skip 16 0 8 id _ li ∙ slice-here 8 (put64 size) _ (length-put64 size)

  pub record-path_length : slice 40 44 rb ≡ put32 path_length
  unfolding record_bytes put16 put32 le_bytes
  record-path_length =
      slice-skip 16 8 12 id _ li ∙ slice-skip 8 0 4 (put64 size) _ (length-put64 size)

  pub record-sha : slice 48 80 rb ≡ sha
  unfolding record_bytes put16 put32 le_bytes
  record-sha =
      slice-skip 16 16 48 id _ li
      ∙ (slice-skip 8 8 40 (put64 size) _ (length-put64 size) ∙ slice_last 32 sha ls)
