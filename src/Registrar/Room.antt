-- ===== src/Registrar/Room.antt =====
-- The free space that BundleRegistrar.Register of internal/service/transfer.go asks for.
use mathlib.Core.Path.{subst}
use airgap_mirror.Prelude.{
  ℕ, ◌+◌, ◌≡◌, ◌≤◌, ◌<◌, Bool, false, List, [], ◌∷◌, Option, some, All, ltb, if◌then◌else◌, arith,
}
use airgap_mirror.Prelude.Int64.{two63, two64, add64, lt64}
use airgap_mirror.Domain.Status.{Text}
use airgap_mirror.Domain.Types.{PackSpec, BatchDescriptor, ImportSession, Source}
use airgap_mirror.Domain.Result.{ok, ◌>>◌, Ensures, returns, after_check, after_call}
use airgap_mirror.Database.{Database}
use airgap_mirror.Database.Sources.{get_source}
use airgap_mirror.Database.Manifest.Accepted.{or_other-some}
use airgap_mirror.Registrar.{largest_pack, needed, check_capacity, register}

-- The largest size is what no pack exceeds.
record Largest (packs : List PackSpec) (least most : ℕ) : Type 0 where
  above : All (λ p. p.size ≤ most) packs
  kept : least ≤ most
  small : most < two63

larger :
    (most size : ℕ)
    → most < two63
    → size < two64
    → lt64 size 0 ≡ false
    → let m = if lt64 most size then size else most in (size ≤ m) × (most ≤ m) × (m < two63)
unfolding lt64
larger most size h k e = ground arith

largest_pack-Largest :
    (seen : List Text) (least : ℕ) (packs : List PackSpec)
    → least < two63
    → All (λ p. p.size < two64) packs
    → Ensures (Largest packs least) (largest_pack seen least packs)
unfolding largest_pack
largest_pack-Largest seen least [] h k =
    returns _ (record { above = tt; kept = omega arith; small = h })
largest_pack-Largest seen least (p ∷ rest) h k = after_check _ _ _ λ e. after_check _ _ _ λ _.
    let (size, least_le, small) = larger least p.size h k.0 (ground arith) in
    record {
      holds = λ most r.
          let ih = (largest_pack-Largest (p.id ∷ seen) _ rest small k.1).holds most r in
          let kept = ih.kept in
          record { above = (omega arith, ih.above); kept = omega arith; small = ih.small };
    }

-- The disks have room for the batch and any one of its packs, and for the manifest and that pack.
pub record HasRoom (inspect : Text → Option ℕ) (staging : Text) (d : BatchDescriptor)
    (source : Source) : Type 0 where
  pub free : ℕ
  pub free_there : inspect source.root_path ≡ some free
  pub staged : ℕ
  pub staged_there : inspect staging ≡ some staged
  pub fits :
      All (λ p. (d.batch_bytes + p.size ≤ free) × (p.size + d.manifest_size ≤ staged)) d.packs

needed_exact :
    (d : BatchDescriptor) (most : ℕ)
    → d.batch_bytes < two63
    → most < two63
    → needed d most ≡ d.batch_bytes + most
unfolding needed lt64 add64
needed_exact d most h k = ground arith

staged_exact :
    (most size : ℕ)
    → most < two63
    → size < two64
    → lt64 size 0 ≡ false
    → add64 most size ≡ most + size
unfolding lt64 add64
staged_exact most size h k e = ground arith

not_less : (a b : ℕ) → ltb a b ≡ false → b ≤ a
not_less a b h = ground arith

fits_all :
    (batch manifest free staged most : ℕ) (packs : List PackSpec)
    → batch + most ≤ free
    → most + manifest ≤ staged
    → All (λ p. p.size ≤ most) packs
    → All (λ p. (batch + p.size ≤ free) × (p.size + manifest ≤ staged)) packs
fits_all batch manifest free staged most [] h k a = tt
fits_all batch manifest free staged most (p ∷ rest) h k a =
    let le = a.0 in
    ((omega arith, omega arith), fits_all batch manifest free staged most rest h k a.1)

module _ (inspect : Text → Option ℕ) (staging : Text) (d : BatchDescriptor) where
  capacity-HasRoom :
      (source : Source) (most : ℕ)
      → d.batch_bytes < two63
      → d.manifest_size < two64
      → lt64 d.manifest_size 0 ≡ false
      → Largest d.packs 0 most
      → Ensures
          (λ u. HasRoom inspect staging d source)
          (check_capacity (some inspect) staging source.root_path d most)
  unfolding check_capacity
  capacity-HasRoom source most h k e l = after_call _ _ λ free f. after_check _ _ _ λ enough.
      after_call _ _ λ staged g. after_check _ _ _ λ also. returns _ (record {
        free = free;
        free_there = or_other-some _ free f;
        staged = staged;
        staged_there = or_other-some _ staged g;
        fits =
            fits_all d.batch_bytes d.manifest_size free staged most d.packs
              (subst (λ n. n ≤ free) (needed_exact d most h l.small) (not_less free _ enough))
              (subst (λ n. n ≤ staged) (staged_exact most d.manifest_size l.small k e)
                (not_less staged _ also))
              l.above;
      })

  register-Ensures :
      (fk : Bool) (new_id : Option Text) (now : ℕ) (request : Text) (db : Database)
      → d.batch_bytes < two63
      → d.manifest_size < two64
      → All (λ p. p.size < two64) d.packs
      → Ensures
          (λ out.
            (source : Source) × (get_source d.source_id db ≡ ok source)
            × HasRoom inspect staging d source)
          (register fk (some inspect) staging new_id now request d db)
  unfolding register ◌>>◌
  register-Ensures fk new_id now request db h k sizes = after_check _ _ _ λ _.
      after_check _ _ _ λ e. after_call _ _ λ most l. after_call _ _ λ source s.
        after_call _ _ λ u c. after_call _ _ λ id _. record {
          holds = λ out r. (
            source,
            s,
            (capacity-HasRoom source most h k (ground arith)
                  ((largest_pack-Largest [] 0 d.packs (omega arith) sizes).holds most l)).holds
                u c,
          );
        }

-- Where a CapacityInspector is there, and no size wraps around below 2 ^ 64, of which that of the batch
-- is not negative: if Register succeeds, the source is there, its root has room for the bytes of the
-- batch and any one of its packs together, and the staging directory for that pack and the manifest.
pub register-HasRoom :
    (inspect : Text → Option ℕ) (staging : Text) (d : BatchDescriptor) (fk : Bool)
    (new_id : Option Text) (now : ℕ) (request : Text) (db : Database)
    (out : ImportSession × Database)
    → d.batch_bytes < two63
    → d.manifest_size < two64
    → All (λ p. p.size < two64) d.packs
    → register fk (some inspect) staging new_id now request d db ≡ ok out
    → (source : Source) × (get_source d.source_id db ≡ ok source) × HasRoom inspect staging d source
register-HasRoom inspect staging d fk new_id now request db out h k sizes r =
    (register-Ensures inspect staging d fk new_id now request db h k sizes).holds out r
