-- ===== src/Transfer/Chunk.antt =====
-- What one call of appendChunk of internal/service/transfer.go does to the file.
use airgap_mirror.Prelude.{
  ℕ, leb-false, not_lt→ltb, ==_refl, zero, suc, ◌∷◌, ◌+◌, ◌≤◌, ◌<◌, ◌≡◌, refl, ap, ◌⊎◌, inl, inr,
  false, not, ◌||◌, List, [], ◌++◌, none, some, take, length, ltb, ◌==◌, beq_refl, Bool-cases,
  arith, length-take_le, ==_eq, not-eq_false, sym, ltb→not_lt,
}
use airgap_mirror.Prelude.Int64.{two63, two64, add64, add64_exact, lt64, lt64_exact, lt64-zero}
use airgap_mirror.Domain.Status.{Text}
use airgap_mirror.Domain.Transitions.{Err}
use airgap_mirror.Pack.Writer.{write_at}
use airgap_mirror.Pack.Writer.Represents.{write_at-end}
use airgap_mirror.Transfer.{
  Files, put, Reply, max_upload_chunk, content_at, file_offset, copy_n, append_chunk,
}

pub content_at-put :
    (path : Text) (c : List ℕ) (files : Files) → content_at path (put path c files) ≡ c
unfolding content_at put
content_at-put path c files = rw (content_at, beq_refl path) refl

-- The call fails and leaves the file as it was.
abbrev pub Kept : Files → Reply × Files → Type 0
Kept files out = (e : Err) × (out.0.1 ≡ some e) × (out.1 ≡ files)

-- The call puts bytes of the reader behind the file's; it fails exactly when they are too few.
pub record Grown (path : Text) (offset total : ℕ) (r : List ℕ) (n : ℕ) (files : Files)
    (out : Reply × Files) : Type 0 where
  pub at_end : offset ≡ length (content_at path files)
  pub limited : offset + n ≤ total
  pub written : out.1 ≡ put path (content_at path files ++ take n r) files
  pub next : out.0.0 ≡ offset + length (take n r)
  pub bounded : length (take n r) ≤ n
  pub complete : out.0.1 ≡ none → length (take n r) ≡ n

take_bound : (n : ℕ) (xs : List ℕ) → length (take n xs) ≤ n
take_bound zero xs = omega arith
take_bound (suc n) [] = omega arith
take_bound (suc n) (x ∷ xs) = omega (arith, take_bound n xs)

chunk_small :
    (offset n : ℕ)
    → n < two64
    → (lt64 offset 0 || lt64 n 0 || lt64 max_upload_chunk n) ≡ false
    → n ≤ max_upload_chunk
unfolding lt64
chunk_small offset n h k = ground arith

module _ (path : Text) (offset total : ℕ) (r : List ℕ) (n : ℕ) (files : Files)
    (small : length (content_at path files) + max_upload_chunk < two63)
    (total_small : total + max_upload_chunk < two63) (offset_64 : offset < two64)
    (n_64 : n < two64) where
  copied :
      offset ≡ length (content_at path files)
      → offset + n ≤ total
      → Grown path offset total r n files (copy_n path offset r n files)
  unfolding copy_n
  copied e l =
      let got : length (take n r) ≤ n = take_bound n r in
      let sum : add64 offset (length (take n r)) ≡ offset + length (take n r) =
        add64_exact offset (length (take n r)) (omega arith) in
      let put_at : write_at offset (take n r) (content_at path files)
          ≡ content_at path files ++ take n r =
        write_at-end (content_at path files) (take n r) offset e in
      elim (Bool-cases (ltb (length (take n r)) n)) [
        | inl b ↦ rw b (record {
          at_end = e;
          limited = l;
          written = ap (λ f. put path f files) put_at;
          next = sum;
          bounded = got;
          complete = λ h. absurd (cc h);
        })
        | inr b ↦ rw b (record {
          at_end = e;
          limited = l;
          written = ap (λ f. put path f files) put_at;
          next = sum;
          bounded = got;
          complete = λ h. omega (arith, ltb→not_lt (length (take n r)) n b);
        })
      ]

  at_end :
      not (length (content_at path files) == offset) ≡ false
      → offset ≡ length (content_at path files)
  at_end c = sym (==_eq (length (content_at path files)) offset (not-eq_false _ c))

  room :
      n ≤ max_upload_chunk
      → offset ≡ length (content_at path files)
      → lt64 total (add64 offset n) ≡ false
      → offset + n ≤ total
  unfolding add64 lt64
  room h e d = ground arith

  pub append_chunk-cases :
      Kept files (append_chunk path offset total r n files)
      ⊎ Grown path offset total r n files (append_chunk path offset total r n files)
  unfolding append_chunk file_offset
  append_chunk-cases = elim (Bool-cases (lt64 offset 0 || lt64 n 0 || lt64 max_upload_chunk n)) [
    | inl b ↦ rw b (inl (Err.invalid, refl, refl))
    | inr b ↦ rw b (elim (Bool-cases (not (length (content_at path files) == offset))) [
      | inl c ↦ rw c (inl (Err.conflict, refl, refl))
      | inr c ↦ rw c (elim (Bool-cases (lt64 total (add64 offset n))) [
        | inl d ↦ rw d (inl (Err.invalid, refl, refl))
        | inr d ↦ rw d (inr (copied (at_end c) (room (chunk_small offset n n_64 b) (at_end c) d)))
      ])
    ])
  ]

-- A whole chunk at the end of the file, within the limits, is accepted.
pub append_chunk-accepts :
    (path : Text) (offset total : ℕ) (r : List ℕ) (n : ℕ) (files : Files)
    → length (content_at path files) ≡ offset
    → total + max_upload_chunk < two63
    → n ≤ max_upload_chunk
    → offset + n ≤ total
    → n ≤ length r
    → (append_chunk path offset total r n files).0 ≡ (offset + n, none)
unfolding append_chunk file_offset copy_n
append_chunk-accepts path offset total r n files at small chunk fits has =
    rw
      (
        lt64-zero offset (omega arith),
        lt64-zero n (omega arith),
        lt64_exact max_upload_chunk n (omega arith) (omega arith),
        leb-false two63 offset (omega arith),
        leb-false two63 n (omega arith),
        not_lt→ltb max_upload_chunk n chunk,
        at,
        ==_refl offset,
        add64_exact offset n (omega arith),
        lt64_exact total (offset + n) (omega arith) (omega arith),
        not_lt→ltb total (offset + n) fits,
      )
      (rw (length-take_le n r has)
        (rw (not_lt→ltb n n (omega arith), add64_exact offset n (omega arith)) refl))
