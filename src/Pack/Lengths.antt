-- ===== src/Pack/Lengths.antt =====
-- How long a pack file is, and what one more entry makes of it.
use airgap_mirror.Prelude.{
  ℕ, ◌+◌, ◌≤◌, ◌≡◌, refl, List, [], ◌∷◌, ◌++◌, All, length, append_assoc, append-nil, length-append,
  arith,
}
use airgap_mirror.Pack.Fields
use airgap_mirror.Pack.Format.{header_bytes}
use airgap_mirror.Pack.Spec.{
  Entry, Ids, GoodIds, GoodEntry, encode, encode_all, entry_length, total_content, total_length,
  pack_file,
}

pub length-encode : (e : Entry) → GoodEntry e → length (encode e) ≡ entry_length e
unfolding encode
length-encode e good =
    let l =
      Fields.length-record_bytes e.id (length e.content) (length e.path) e.sha good.id_16
        good.sha_32 in
    simp (length-append, l) (omega arith)

pub total_bounds : (es : List Entry) → length es + total_content es ≤ total_length es
unfolding total_content total_length
total_bounds [] = omega arith
total_bounds (e ∷ es) = omega (arith, total_bounds es)

pub encode_all-snoc :
    (es : List Entry) (e : Entry) → encode_all (es ++ e ∷ []) ≡ encode_all es ++ encode e
unfolding encode_all
encode_all-snoc [] e = append-nil (encode e)
encode_all-snoc (x ∷ es) e = rw (encode_all-snoc es e, append_assoc)

pub total_content-snoc :
    (es : List Entry) (e : Entry)
    → total_content (es ++ e ∷ []) ≡ total_content es + length e.content
unfolding total_content
total_content-snoc [] e = omega arith
total_content-snoc (x ∷ es) e = omega (arith, total_content-snoc es e)

pub total_length-snoc :
    (es : List Entry) (e : Entry) → total_length (es ++ e ∷ []) ≡ total_length es + entry_length e
unfolding total_length
total_length-snoc [] e = omega arith
total_length-snoc (x ∷ es) e = omega (arith, total_length-snoc es e)

pub length-encode_all :
    (es : List Entry) → All GoodEntry es → length (encode_all es) ≡ total_length es
unfolding encode_all total_length
length-encode_all [] good = refl
length-encode_all (e ∷ es) good = omega (
  arith,
  length-append (encode e) (encode_all es),
  length-encode e good.0,
  length-encode_all es good.1,
)

pub length-pack_file :
    (i : Ids) (created : ℕ) (es : List Entry)
    → GoodIds i
    → All GoodEntry es
    → length (pack_file i created es) ≡ 128 + total_length es
unfolding pack_file
length-pack_file i created es ids good =
    let hb = header_bytes i.pack i.epoch i.batch (length es) (total_content es) created in
    omega (
      arith,
      length-append hb (encode_all es),
      length-encode_all es good,
      Fields.length-header_bytes i.pack i.epoch i.batch (length es) (total_content es) created
          ids.pack_16 ids.epoch_16 ids.batch_16,
    )
