-- ===== src/Database/Catalog/Totals.antt =====
-- Stats of internal/storage/sqlite/server_publish_catalog.go, without overflow and with it.
use airgap_mirror.Prelude.{
  ℕ, ◌+◌, ◌≡◌, List, [], ◌∷◌, none, some, arith, Bool-cases, inl, inr, if◌then◌else◌, All, length,
  ltb,
}
use airgap_mirror.Prelude.Int64.{two63, add64_exact, lt64_exact, lt64-zero, NonNeg}
use airgap_mirror.Prelude.Tables.{rows}
use airgap_mirror.Domain.Status.{Text}
use airgap_mirror.Domain.Types.{CatalogEntry}
use airgap_mirror.Domain.Transitions.{Err}
use airgap_mirror.Domain.Result.{ok, err}
use airgap_mirror.Database.{Database}
use airgap_mirror.Database.Units.{sum_checked, sum_sizes, entry_of, stats}

-- The sum of the sizes, without a bound.
abbrev pub total : List CatalogEntry → ℕ
total [] = 0
total (x ∷ xs) = x.size + total xs

sum_checked_exact :
    (a b : ℕ)
    → NonNeg a
    → NonNeg b
    → sum_checked a b ≡ (if ltb (a + b) two63 then some (a + b) else none)
unfolding sum_checked
sum_checked_exact a b h k =
    rw
      (
        add64_exact a b (omega arith),
        lt64_exact a 0 h (omega arith),
        lt64_exact b 0 k (omega arith),
        lt64-zero (a + b) (omega arith),
      )
      (ground arith)

sum_sizes_exact :
    (acc : ℕ) (xs : List CatalogEntry)
    → NonNeg acc
    → All (λ x. NonNeg x.size) xs
    → sum_sizes acc xs ≡ (if ltb (acc + total xs) two63 then some (acc + total xs) else none)
unfolding sum_sizes
sum_sizes_exact acc [] h k = ground arith
sum_sizes_exact acc (x ∷ xs) h (k, more) = elim (Bool-cases (ltb (acc + x.size) two63)) [
  | inl e ↦
      rw (sum_sizes, sum_checked_exact acc x.size h k)
        (rw e (ground (arith, sum_sizes_exact (acc + x.size) xs (ground arith) more)))
  | inr e ↦ rw (sum_sizes, sum_checked_exact acc x.size h k) (rw e (ground arith))
]

All-rows :
    (source : Text) (xs : List CatalogEntry)
    → All (λ x. NonNeg x.size) xs
    → All (λ x. NonNeg x.size) (rows (entry_of source) xs)
unfolding rows
All-rows source [] h = tt
All-rows source (x ∷ xs) (h, more) = elim (Bool-cases (entry_of source x)) [
  | inl e ↦ rw e (h, All-rows source xs more)
  | inr e ↦ rw e (All-rows source xs more)
]

-- Where no size in the catalog is negative, Stats gives the number of the source's entries and the sum
-- of their sizes if that is below 2 ^ 63, and an error if it is not.
pub stats_exact :
    (source : Text) (db : Database)
    → All (λ x. NonNeg x.size) db.imports.catalog
    → let entries = rows (entry_of source) db.imports.catalog in
      stats source db ≡ (
        if ltb (total entries) two63
        then ok (record { source_id = source; bytes = total entries; objects = length entries })
        else err Err.other)
unfolding stats
stats_exact source db h =
    let entries = rows (entry_of source) db.imports.catalog in
    elim (Bool-cases (ltb (0 + total entries) two63)) [
      | inl e ↦
          rw (stats, sum_sizes_exact 0 entries (omega arith) (All-rows source db.imports.catalog h))
            (rw e (ground arith))
      | inr e ↦
          rw (stats, sum_sizes_exact 0 entries (omega arith) (All-rows source db.imports.catalog h))
            (rw e (ground arith))
    ]
