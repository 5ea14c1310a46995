-- ===== src/Pack/Writer/Create.antt =====
-- Where the first Append after Create of internal/pack/writer.go puts its record. Create writes the
-- header by WriteAt, which leaves the position of the file at 0, and unlike Resume seeks nowhere.
use airgap_mirror.Prelude.{
  ℕ, ◌≡◌, ap, sym, ◌∙◌, Bool-cases, Option-cases, inl, inr, false, if◌then◌else◌, [], none, some,
  Option, List, length, not, ◌||◌, ◌==◌, beq,
}
use airgap_mirror.Domain.Types.{Artifact, PackHeader, PackLocation}
use airgap_mirror.Pack.Bytes.{hex_encode}
use airgap_mirror.Pack.Uuid.{uuid_bytes}
use airgap_mirror.Pack.Clean.{validate_logical_path}
use airgap_mirror.Pack.Format.{decode_sha256}
use airgap_mirror.Pack.Writer.{
  Writer, write_header, ids_header, create, append, append_record, append_io, put_record, roll_back,
  commit_header, count_record, works, append_checked, limit, finish_append, placed, failed,
}

ids_header-pos :
    (w w' : Writer) (p x b : Option (List ℕ)) → ids_header w p x b ≡ some w' → w'.pos ≡ w.pos
unfolding ids_header
ids_header-pos w w' (some p) (some x) (some b) h =
    ap (λ o. elim o [ none ↦ w.pos | some v ↦ v.pos ]) (sym h)
ids_header-pos w w' (some p) (some x) none h = absurd (cc h)
ids_header-pos w w' (some p) none b h = absurd (cc h)
ids_header-pos w w' none x b h = absurd (cc h)

finish-offset :
    (off end : ℕ) (w : Writer) (o : Option Writer) (loc : PackLocation)
    → (finish_append off end w o).0 ≡ placed loc
    → loc.offset ≡ off
unfolding finish_append
finish-offset off end w none loc h = absurd (cc h)
finish-offset off end w (some w') loc h =
    ap (λ o. elim o [ placed l ↦ l.offset | failed ↦ off ]) (sym h)

module _ (sha256 : List ℕ → List ℕ) (w : Writer) (a : Artifact) (r : List ℕ)
    (loc : PackLocation) where
  record-offset :
      (id sha : List ℕ)
      → (append_record sha256 works w a r sha id).0 ≡ placed loc
      → loc.offset ≡ w.pos
  unfolding append_record put_record roll_back commit_header count_record
  record-offset id sha =
      elim (Bool-cases (
        not (length (limit a.size r) == a.size)
        || not (beq (hex_encode (sha256 (limit a.size r))) a.sha256))) [
          | inl e ↦ rw e (λ h. absurd (cc h))
          | inr e ↦ rw e (λ h. finish-offset w.pos _ _ _ loc h)
        ]

  checked-offset :
      (sha id : Option (List ℕ))
      → (append_checked sha256 works w a r sha id).0 ≡ placed loc
      → loc.offset ≡ w.pos
  unfolding append_checked
  checked-offset (some sha) (some id) h = record-offset id sha h
  checked-offset (some sha) none h = absurd (cc h)
  checked-offset none id h = absurd (cc h)

  append-offset : (append sha256 w a r).0 ≡ placed loc → loc.offset ≡ w.pos
  unfolding append append_io
  append-offset = elim (Bool-cases w.closed) [
    | inl c ↦ rw c (λ h. absurd (cc h))
    | inr c ↦ rw c (elim (Option-cases (validate_logical_path a.logical_path)) [
      | inl v ↦ rw v (checked-offset (decode_sha256 a.sha256) (uuid_bytes a.id))
      | inr v ↦ rw v.1 (λ h. absurd (cc h))
    ])
  ]

-- If Create succeeds and the first Append too, the location that Append reports has offset 0,
-- where the header of the pack stands.
pub create-append_at_zero :
    (sha256 : List ℕ → List ℕ) (now : ℕ) (h : PackHeader) (w : Writer) (a : Artifact) (r : List ℕ)
    (loc : PackLocation)
    → create none now h ≡ some w
    → (append sha256 w a r).0 ≡ placed loc
    → loc.offset ≡ 0
unfolding create write_header
create-append_at_zero sha256 now h w a r loc made put =
    append-offset sha256 w a r loc put
    ∙ ids_header-pos fresh w (uuid_bytes h.pack_id) (uuid_bytes h.epoch_id) (uuid_bytes h.batch_id)
        made
  where
    fresh : Writer
    fresh = record {
      file = [];
      pos = 0;
      header = record h { created_unix = if h.created_unix == 0 then now else h.created_unix };
      records = 0;
      payload = 0;
      closed = false;
    }
