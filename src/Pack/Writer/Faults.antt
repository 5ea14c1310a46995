-- ===== src/Pack/Writer/Faults.antt =====
-- What a call of Append of internal/pack/writer.go that fails leaves behind.
use mathlib.Core.Path.{subst}
use airgap_mirror.Prelude.{
  Bool-cases, inl, inr, ℕ, ◌+◌, ◌%◌, ◌^◌, ◌≡◌, ◌⊎◌, refl, ap, sym, ◌∙◌, Bool, true, false, none,
  some, Option, All, ◌<◌, List, [], ◌++◌, take, length, length-append, append_assoc, append-nil,
  arith, ◌==◌, beq, not, ◌||◌, if◌then◌else◌,
}
use airgap_mirror.Prelude.Int64.{two63, two64, add64}
use airgap_mirror.Domain.Transitions.{Err}
use airgap_mirror.Domain.Types.{Artifact, PackHeader}
use airgap_mirror.Pack.Bytes.{hex_encode}
use airgap_mirror.Pack.Uuid.{uuid_bytes, uuid_string}
use airgap_mirror.Pack.Clean.{validate_logical_path}
use airgap_mirror.Pack.Format.{decode_sha256, record_bytes}
use airgap_mirror.Pack.Writer.{
  Writer, write, limit, write_header, ids_header, Fault, works, at_start, at_truncate, at_rewind,
  at_seek, in_header, in_path, in_content, in_pack_header, Appended, failed, roll_back,
  half_written, header_only, commit_header, count_record, put_record, append_record, append_checked,
  append_io, finish_append, resume,
}
use airgap_mirror.Pack.Writer.Represents.{Represents, write-end, write-end_3, truncate-append}
use airgap_mirror.Pack.Writer.Resume.{resume-recovers}
use airgap_mirror.Pack.Spec.{Entry, Ids, GoodIds, GoodEntry, Fits}

-- Something stands behind the old file, and the counters are the old ones.
pub record Torn (w t : Writer) : Type 0 where
  pub junk : List ℕ
  pub file : t.file ≡ w.file ++ junk
  pub header : t.header ≡ w.header
  pub records : t.records ≡ w.records
  pub payload : t.payload ≡ w.payload

-- The artifact is counted.
pub record Counted (a : Artifact) (w t : Writer) : Type 0 where
  pub header : t.header ≡ w.header
  pub records : t.records ≡ (w.records + 1) % two64
  pub payload : t.payload ≡ add64 w.payload a.size

abbrev pub AfterFailure : Artifact → Fault → Writer → Writer → Type 0
AfterFailure a (in_header n) w t = Torn w t
AfterFailure a (in_path n) w t = Torn w t
AfterFailure a at_truncate w t = Torn w t
AfterFailure a at_rewind w t = Torn w t
AfterFailure a (in_pack_header n) w t = (t ≡ w) ⊎ Counted a w t
AfterFailure a at_seek w t = (t ≡ w) ⊎ Counted a w t
AfterFailure a _ w t = t ≡ w

same-Torn : (w : Writer) → Torn w w
same-Torn w = record {
  junk = [];
  file = sym (append-nil w.file);
  header = refl;
  records = refl;
  payload = refl;
}

-- A call that fails a check changes nothing.
unchanged : (a : Artifact) (f : Fault) (w : Writer) → AfterFailure a f w w
unchanged a works w = refl
unchanged a at_start w = refl
unchanged a (in_content n) w = refl
unchanged a (in_header n) w = same-Torn w
unchanged a (in_path n) w = same-Torn w
unchanged a at_truncate w = same-Torn w
unchanged a at_rewind w = same-Torn w
unchanged a (in_pack_header n) w = inl refl
unchanged a at_seek w = inl refl

half_written-Counted :
    (a : Artifact) (n : ℕ) (w v : Writer) (o : Option Writer)
    → Counted a w v
    → Counted a w (half_written n v o)
unfolding half_written
half_written-Counted a n w v none c = c
half_written-Counted a n w v (some x) c = record {
  header = c.header;
  records = c.records;
  payload = c.payload;
}

ids_header-Counted :
    (a : Artifact) (w v : Writer) (p x b : Option (List ℕ))
    → Counted a w v
    → Counted a w (header_only v (ids_header v p x b))
unfolding ids_header header_only
ids_header-Counted a w v (some p) (some x) (some b) c = record {
  header = c.header;
  records = c.records;
  payload = c.payload;
}
ids_header-Counted a w v (some p) (some x) none c = c
ids_header-Counted a w v (some p) none b c = c
ids_header-Counted a w v none x b c = c

finish-failed :
    (off end : ℕ) (w : Writer) (o : Option Writer)
    → (finish_append off end w o).0 ≡ failed
    → o ≡ none
unfolding finish_append
finish-failed off end w none h = refl
finish-failed off end w (some w') h = absurd (cc h)

module _ (sha256 : List ℕ → List ℕ) (w : Writer) (i : Ids) (created : ℕ) (es : List Entry)
    (rep : Represents w i created es) (a : Artifact) (r id sha : List ℕ) where
  abbrev content : List ℕ
  content = limit a.size r

  abbrev header : List ℕ
  header = record_bytes id a.size (length a.logical_path % 2 ^ 32) sha

  abbrev bad_content : Bool
  bad_content = not (length content == a.size) || not (beq (hex_encode (sha256 content)) a.sha256)

  header_written : (v : Writer) → v.header ≡ w.header → write_header v ≡ none → ⊥
  unfolding write_header ids_header
  header_written v e =
      rw (ap (λ h. uuid_bytes h.pack_id) e ∙ rep.pack_id, ids_header)
        (rw (ap (λ h. uuid_bytes h.epoch_id) e ∙ rep.epoch_id, ids_header)
          (rw (ap (λ h. uuid_bytes h.batch_id) e ∙ rep.batch_id, ids_header) (λ h. cc h)))

  -- The file is cut back, whatever of the content has been written.
  cut_back :
      (c : List ℕ) → (roll_back works w.pos (write c (write a.logical_path (write header w)))).1 ≡ w
  unfolding roll_back
  cut_back c =
      rw (write-end_3 header a.logical_path c w rep.pos)
        (ap (λ f. record w { file = f }) (truncate-append w.file _ w.pos rep.pos))

  header-Torn : (n : ℕ) → Torn w (write (take n header) w)
  header-Torn n =
      rw (write-end (take n header) w rep.pos) (record {
        junk = take n header;
        file = refl;
        header = refl;
        records = refl;
        payload = refl;
      })

  path-Torn : (n : ℕ) → Torn w (write (take n a.logical_path) (write header w))
  path-Torn n = rw (write-end header w rep.pos) (
      rw
        (write-end (take n a.logical_path)
          (record w { file = w.file ++ header; pos = w.pos + length header })
          (omega (arith, rep.pos, length-append w.file header)))
        (record {
          junk = header ++ take n a.logical_path;
          file = append_assoc w.file header (take n a.logical_path);
          header = refl;
          records = refl;
          payload = refl;
        }))

  truncate-Torn :
      Torn w (roll_back at_truncate w.pos (write content (write a.logical_path (write header w)))).1
  unfolding roll_back
  truncate-Torn = rw (write-end_3 header a.logical_path content w rep.pos) (record {
    junk = header ++ (a.logical_path ++ content);
    file = refl;
    header = refl;
    records = refl;
    payload = refl;
  })

  rewind-Torn :
      Torn w (roll_back at_rewind w.pos (write content (write a.logical_path (write header w)))).1
  unfolding roll_back
  rewind-Torn = rw (write-end_3 header a.logical_path content w rep.pos) (record {
    junk = [];
    file = truncate-append w.file _ w.pos rep.pos ∙ sym (append-nil w.file);
    header = refl;
    records = refl;
    payload = refl;
  })

  counted : Counted a w (count_record a (write content (write a.logical_path (write header w))))
  unfolding count_record
  counted =
      rw (write-end_3 header a.logical_path content w rep.pos)
        (record { header = refl; records = refl; payload = refl })

  -- Content that matches is counted, and the header of the pack is written.
  never_fails :
      (f : Fault) (off end : ℕ) (v : Writer)
      → v.header ≡ w.header
      → (finish_append off end v (write_header v)).0 ≡ failed
      → ⊥
  never_fails f off end v e h = header_written v e (finish-failed off end v _ h)

  record-AfterFailure :
      (f : Fault)
      → (append_record sha256 f w a r sha id).0 ≡ failed
      → AfterFailure a f w (append_record sha256 f w a r sha id).1
  unfolding append_record put_record commit_header roll_back write_header
  record-AfterFailure at_start = λ h. refl
  record-AfterFailure (in_header n) = λ h. header-Torn n
  record-AfterFailure (in_path n) = λ h. path-Torn n
  record-AfterFailure (in_content n) = λ h. cut_back (take n content)
  record-AfterFailure works = elim (Bool-cases bad_content) [
    | inl e ↦ rw e (λ h. cut_back content)
    | inr e ↦ rw e (λ h. absurd (never_fails works _ _ _ counted.header h))
  ]
  record-AfterFailure at_truncate = elim (Bool-cases bad_content) [
    | inl e ↦ rw e (λ h. truncate-Torn)
    | inr e ↦ rw e (λ h. absurd (never_fails works _ _ _ counted.header h))
  ]
  record-AfterFailure at_rewind = elim (Bool-cases bad_content) [
    | inl e ↦ rw e (λ h. rewind-Torn)
    | inr e ↦ rw e (λ h. absurd (never_fails works _ _ _ counted.header h))
  ]
  record-AfterFailure (in_pack_header n) = elim (Bool-cases bad_content) [
    | inl e ↦ rw e (λ h. inl (cut_back content))
    | inr e ↦ rw e (λ h. inr (half_written-Counted a n w _ _ counted))
  ]
  record-AfterFailure at_seek = elim (Bool-cases bad_content) [
    | inl e ↦ rw e (λ h. inl (cut_back content))
    | inr e ↦ rw e (λ h. inr (ids_header-Counted a w _ _ _ _ counted))
  ]

module _ (sha256 : List ℕ → List ℕ) (w : Writer) (i : Ids) (created : ℕ) (es : List Entry)
    (rep : Represents w i created es) (a : Artifact) (r : List ℕ) (f : Fault) where
  checked-AfterFailure :
      (sha id : Option (List ℕ))
      → (append_checked sha256 f w a r sha id).0 ≡ failed
      → AfterFailure a f w (append_checked sha256 f w a r sha id).1
  unfolding append_checked
  checked-AfterFailure (some sha) (some id) h =
      record-AfterFailure sha256 w i created es rep a r id sha f h
  checked-AfterFailure (some sha) none h = unchanged a f w
  checked-AfterFailure none id h = unchanged a f w

  -- On a writer that stands at the end of a pack, where one call of the operating system at most fails,
  -- a call of Append that fails leaves the writer and its file as they were, if no such call fails, or
  -- the first Seek or the copy of the content does; if a write of the record's header or its path, or
  -- the Truncate or Seek that takes back wrong content fails, something may stand behind the old file,
  -- but the counters are the old ones; if the write of the pack's header or the last Seek fails, all is
  -- as it was, or the artifact is counted.
  pub append_io-AfterFailure :
      (append_io sha256 f w a r).0 ≡ failed → AfterFailure a f w (append_io sha256 f w a r).1
  unfolding append_io
  append_io-AfterFailure = if_open w.closed _ (
      if_valid (validate_logical_path a.logical_path) _
        (checked-AfterFailure (decode_sha256 a.sha256) (uuid_bytes a.id)))
    where
      if_open :
          (b : Bool) (d : Appended × Writer)
          → (d.0 ≡ failed → AfterFailure a f w d.1)
          → (if b then (failed, w) else d).0 ≡ failed
          → AfterFailure a f w (if b then (failed, w) else d).1
      if_open true d k h = unchanged a f w
      if_open false d k h = k h

      if_valid :
          (o : Option Err) (d : Appended × Writer)
          → (d.0 ≡ failed → AfterFailure a f w d.1)
          → (elim o as (λ _. Appended × Writer) [ some _ ↦ (failed, w) | none ↦ d ]).0 ≡ failed
          → AfterFailure a f w
              (elim o as (λ _. Appended × Writer) [ some _ ↦ (failed, w) | none ↦ d ]).1
      if_valid none d k h = k h
      if_valid (some e) d k h = unchanged a f w

-- The artifact is not counted yet when such a call fails.
unfoldable pub before_count : Fault → Bool
before_count (in_pack_header n) = false
before_count at_seek = false
before_count _ = true

before_count-Torn :
    (a : Artifact) (f : Fault) (w t : Writer)
    → before_count f ≡ true
    → AfterFailure a f w t
    → Torn w t
unfolding before_count
before_count-Torn a (in_header n) w t b h = h
before_count-Torn a (in_path n) w t b h = h
before_count-Torn a at_truncate w t b h = h
before_count-Torn a at_rewind w t b h = h
before_count-Torn a (in_pack_header n) w t b h = absurd (cc b)
before_count-Torn a at_seek w t b h = absurd (cc b)
before_count-Torn a works w t b h = subst (Torn w) (sym h) (same-Torn w)
before_count-Torn a at_start w t b h = subst (Torn w) (sym h) (same-Torn w)
before_count-Torn a (in_content n) w t b h = subst (Torn w) (sym h) (same-Torn w)

-- On a writer that stands at the end of a pack of good entries that fits into int64 offsets, where a call
-- of Append fails and at most one call of the operating system does, which is not the write of the
-- pack's header or the last Seek: Resume, with the same ids, opens what is left of the file, and gives a
-- writer that stands at the end of the same pack.
pub failed_append-resumes :
    (sha256 : List ℕ → List ℕ) (w : Writer) (i : Ids) (created : ℕ) (es : List Entry)
    (ids : GoodIds i) (rep : Represents w i created es) (a : Artifact) (r : List ℕ) (f : Fault)
    (x : PackHeader)
    → All GoodEntry es
    → Fits es
    → created < two63
    → x.pack_id ≡ uuid_string i.pack
    → x.epoch_id ≡ uuid_string i.epoch
    → x.batch_id ≡ uuid_string i.batch
    → before_count f ≡ true
    → (append_io sha256 f w a r).0 ≡ failed
    → (v : Writer) × (resume (some (append_io sha256 f w a r).1.file) x ≡ some v)
      × Represents v i created es
failed_append-resumes sha256 w i created es ids rep a r f x good fits small p e b early fails =
    let torn =
      before_count-Torn a f w _ early
        (append_io-AfterFailure sha256 w i created es rep a r f fails) in
    let (v, at, same) = resume-recovers i created es torn.junk ids good fits small x p e b in
    (v, ap (λ c. resume (some c) x) (torn.file ∙ ap (λ c. c ++ torn.junk) rep.file) ∙ at, same)
