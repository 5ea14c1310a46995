-- ===== src/Pack/Reader/Step.antt =====
-- NewReaderFile and Next of internal/pack/reader.go give back what a pack file holds.
use airgap_mirror.Prelude.{
  ℕ, suc, ◌+◌, ◌-◌, ◌^◌, ◌<◌, ◌≡◌, refl, ap, List, ◌++◌, length, take, drop, append_assoc,
  length-append, drop-append_length, take-append_length, arith, beq_refl, not_lt→ltb, ne_==,
  leb-false,
}
use airgap_mirror.Prelude.Int64.{two63, add64_exact}
use airgap_mirror.Domain.Types.{PackHeader}
use airgap_mirror.Pack.Bytes.{from_le-put64, from_le-put32}
use airgap_mirror.Pack.Format.{record_header_size, record_bytes, record_magic}
use airgap_mirror.Pack.Reader.{Reader, full, read_full, item, next, next_header, next_record}
use airgap_mirror.Pack.Fields
use airgap_mirror.Pack.Spec.{Entry, GoodEntry, encode, entry_length, record_of}

pub read_full-at :
    (file pre mid post : List ℕ) (off n : ℕ)
    → file ≡ pre ++ (mid ++ post)
    → off ≡ length pre
    → n ≡ length mid
    → 0 < n
    → read_full file off n ≡ full mid
unfolding read_full
read_full-at file pre mid post off n ef eo en pos =
    rw (ef, eo, drop-append_length pre (mid ++ post))
      (rw
        (
          ne_== (length (mid ++ post)) 0 (omega (arith, length-append mid post)),
          not_lt→ltb (length (mid ++ post)) n (omega (arith, length-append mid post)),
        )
        (rw en (ap full (take-append_length mid post))))

take-at :
    (file pre mid post : List ℕ) (off n : ℕ)
    → file ≡ pre ++ (mid ++ post)
    → off ≡ length pre
    → n ≡ length mid
    → take n (drop off file) ≡ mid
take-at file pre mid post off n ef eo en =
    rw (ef, eo, drop-append_length pre (mid ++ post), en) (take-append_length mid post)

module _ (pre post : List ℕ) (e : Entry) (h : PackHeader) (k : ℕ) (good : GoodEntry e)
    (fits : length pre + entry_length e < two63) where
  abbrev rb : List ℕ
  rb = record_bytes e.id (length e.content) (length e.path) e.sha

  abbrev file : List ℕ
  file = pre ++ (encode e ++ post)

  abbrev at_entry : Reader
  at_entry = record { file = file; header = h; off = length pre; remaining = suc k }

  abbrev behind : Reader
  behind = record { file = file; header = h; off = length pre + entry_length e; remaining = k }

  length-rb : length rb ≡ 80
  length-rb = Fields.length-record_bytes e.id _ _ e.sha good.id_16 good.sha_32

  file-path : file ≡ (pre ++ rb) ++ (e.path ++ (e.content ++ post))
  unfolding encode
  file-path = simp append_assoc

  file-content : file ≡ ((pre ++ rb) ++ e.path) ++ (e.content ++ post)
  unfolding encode
  file-content = simp append_assoc

  file-record : file ≡ pre ++ (rb ++ ((e.path ++ e.content) ++ post))
  unfolding encode
  file-record = simp append_assoc

  read-header : read_full file (length pre) record_header_size ≡ full rb
  read-header =
      read_full-at file pre rb _ _ _ file-record refl (omega (arith, length-rb)) (omega arith)

  read-path : read_full file (length pre + record_header_size) (length e.path) ≡ full e.path
  read-path =
      read_full-at file (pre ++ rb) e.path _ _ _ file-path
        (omega (arith, length-rb, length-append pre rb)) refl good.path_some

  read-content :
      take (length e.content) (drop (length pre + record_header_size + length e.path) file)
      ≡ e.content
  read-content =
      take-at file ((pre ++ rb) ++ e.path) e.content post _ _ file-content
        (omega (arith, length-rb, length-append pre rb, length-append (pre ++ rb) e.path)) refl

  step-record :
      next_record at_entry rb (length e.content) (length e.path) (full e.path)
      ≡ item (record_of (length pre) e) e.content behind
  unfolding next_record record_of
  step-record =
      let one_less : suc k - 1 ≡ k = omega arith in
      rw (
        good.path_valid,
        next_record,
        read-content,
        add64_exact (record_header_size + length e.path) (length e.content) (omega arith),
        add64_exact (length pre) (entry_length e) (omega arith),
        one_less,
        Fields.record-id e.id (length e.content) (length e.path) e.sha good.id_16 good.sha_32,
        Fields.record-sha e.id (length e.content) (length e.path) e.sha good.id_16 good.sha_32,
      )

  step-header : next_header at_entry (full rb) ≡ item (record_of (length pre) e) e.content behind
  unfolding next_header
  step-header =
      rw
        (
          Fields.record-magic e.id _ _ e.sha good.id_16 good.sha_32,
          beq_refl record_magic,
          Fields.record-size e.id _ _ e.sha good.id_16 good.sha_32,
          Fields.record-path_length e.id _ _ e.sha good.id_16 good.sha_32,
          from_le-put64 (length e.content) (omega arith),
          from_le-put32 (length e.path) (omega (arith, good.path_limit)),
        )
        (rw
          (
            ne_== (length e.path) 0 (omega (arith, good.path_some)),
            not_lt→ltb (2 ^ 20) (length e.path) good.path_limit,
            leb-false two63 (length e.content) (omega arith),
            read-path,
          )
          step-record)

  -- Next
  pub next-entry : next at_entry ≡ item (record_of (length pre) e) e.content behind
  unfolding next
  next-entry =
      rw (ne_== (suc k) 0 (omega arith), leb-false two63 (length pre) (omega arith), read-header)
        step-header

-- `next-entry` for a file and an offset that are known by equations.
pub next-at :
    (pre post : List ℕ) (e : Entry) (h : PackHeader) (k : ℕ) (file : List ℕ) (off : ℕ)
    → GoodEntry e
    → off + entry_length e < two63
    → file ≡ pre ++ (encode e ++ post)
    → off ≡ length pre
    → next (record { file = file; header = h; off = off; remaining = suc k })
      ≡ item
          (record_of off e)
          e.content
          (record { file = file; header = h; off = off + entry_length e; remaining = k })
next-at pre post e h k file off good fits ef eo =
    rw (ef, eo) (next-entry pre post e h k good (omega (arith, eo)))
