-- ===== src/Pack/Writer/Represents.antt =====
-- A Writer of internal/pack/writer.go that stands at the end of a pack file, and what its writes do.
use airgap_mirror.Prelude.{
  ℕ, zero, suc, ◌+◌, ◌-◌, ◌≤◌, ◌≡◌, refl, ap, sym, ◌∙◌, false, some, List, [], ◌∷◌, ◌++◌, length,
  drop, append_assoc, append-nil, length-append, arith, take-append_length, drop-append_length,
  take-length_self,
}
use airgap_mirror.Pack.Uuid.{uuid_bytes}
use airgap_mirror.Pack.Format.{header_bytes, zeros}
use airgap_mirror.Pack.Fields
use airgap_mirror.Pack.Writer.{Writer, write_at, truncate, write, write_header, ids_header}
use airgap_mirror.Pack.Spec.{Entry, Ids, GoodIds, total_content, pack_file}

pub record Represents (w : Writer) (i : Ids) (created : ℕ) (es : List Entry) : Type 0 where
  pub file : w.file ≡ pack_file i created es
  pub pos : w.pos ≡ length w.file
  pub pack_id : uuid_bytes w.header.pack_id ≡ some i.pack
  pub epoch_id : uuid_bytes w.header.epoch_id ≡ some i.epoch
  pub batch_id : uuid_bytes w.header.batch_id ≡ some i.batch
  pub created_unix : w.header.created_unix ≡ created
  pub records : w.records ≡ length es
  pub payload : w.payload ≡ total_content es
  pub is_open : w.closed ≡ false

pub zeros_none : (n : ℕ) → n ≡ 0 → zeros n ≡ []
zeros_none n e = rw e

drop_past : (n : ℕ) (xs : List ℕ) → length xs ≤ n → drop n xs ≡ []
drop_past zero [] h = refl
drop_past zero (x ∷ xs) h = absurd (omega arith)
drop_past (suc n) [] h = refl
drop_past (suc n) (x ∷ xs) h = drop_past n xs (omega arith)

-- A write at the end appends.
pub write_at-end : (f b : List ℕ) (off : ℕ) → off ≡ length f → write_at off b f ≡ f ++ b
unfolding write_at
write_at-end f b off e = rw (
  e,
  take-length_self f,
  zeros_none (length f - length f) (omega arith),
  drop_past (length f + length b) f (omega arith),
  append-nil,
  append-nil,
)

pub write_at-start : (f b : List ℕ) → write_at 0 b f ≡ b ++ drop (length b) f
unfolding write_at
write_at-start f b =
    let e : 0 + length b ≡ length b = omega arith in rw (zeros_none (0 - length f) (omega arith), e)

-- Cutting off what was appended.
pub truncate-append : (f b : List ℕ) (n : ℕ) → n ≡ length f → truncate n (f ++ b) ≡ f
unfolding truncate
truncate-append f b n e = rw (
  e,
  take-append_length f b,
  zeros_none (length f - length (f ++ b)) (omega (arith, length-append f b)),
  append-nil,
)

-- writeHeader over a file whose first 128 bytes are a header puts the present counters there.
pub write_header-over :
    (w : Writer) (i : Ids) (old body : List ℕ)
    → GoodIds i
    → uuid_bytes w.header.pack_id ≡ some i.pack
    → uuid_bytes w.header.epoch_id ≡ some i.epoch
    → uuid_bytes w.header.batch_id ≡ some i.batch
    → w.file ≡ old ++ body
    → length old ≡ 128
    → write_header w
      ≡ some (record w {
        file =
            header_bytes i.pack i.epoch i.batch w.records w.payload w.header.created_unix ++ body;
      })
unfolding write_header ids_header
write_header-over w i old body ids p x b ef l =
    rw (p, ids_header)
      (rw (x, ids_header)
        (rw (b, ids_header)
          (ap (λ f. some (record w { file = f }))
            (write_at-start w.file hb ∙ ap (λ t. hb ++ t) dropped))))
  where
    hb : List ℕ
    hb = header_bytes i.pack i.epoch i.batch w.records w.payload w.header.created_unix

    length-hb : length hb ≡ 128
    length-hb =
        Fields.length-header_bytes i.pack i.epoch i.batch _ _ _ ids.pack_16 ids.epoch_16
          ids.batch_16

    dropped : drop (length hb) w.file ≡ body
    dropped = rw (ef, length-hb ∙ sym l) (drop-append_length old body)

-- A write at the end of the file.
pub write-end :
    (b : List ℕ) (w : Writer)
    → w.pos ≡ length w.file
    → write b w ≡ record w { file = w.file ++ b; pos = w.pos + length b }
unfolding write
write-end b w h =
    ap (λ f. record w { file = f; pos = w.pos + length b }) (write_at-end w.file b w.pos h)

pub write-end_3 :
    (b c d : List ℕ) (w : Writer)
    → w.pos ≡ length w.file
    → write d (write c (write b w))
      ≡ record w { file = w.file ++ (b ++ (c ++ d)); pos = w.pos + length b + length c + length d }
write-end_3 b c d w h = rw (write-end b w h) (
    rw
      (write-end c (record w { file = w.file ++ b; pos = w.pos + length b })
        (omega (arith, h, length-append w.file b)))
      (write-end d (record w { file = (w.file ++ b) ++ c; pos = w.pos + length b + length c })
          (omega (arith, h, length-append w.file b, length-append (w.file ++ b) c))
        ∙ ap (λ f. record w { file = f; pos = w.pos + length b + length c + length d })
            (simp append_assoc)))
