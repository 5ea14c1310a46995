-- ===== src/Planner/Place/Packs.antt =====
-- How one round of BatchPlanner.Plan of internal/service/planner.go takes a pack.
use airgap_mirror.Prelude.{
  ℕ, ◌+◌, ◌≤◌, ◌<◌, ◌≡◌, refl, inl, inr, false, List, Option, none, some, arith, Bool-cases,
}
use airgap_mirror.Prelude.Int64.{two63, add64, lt64}
use airgap_mirror.Domain.Status.{Text}
use airgap_mirror.Domain.Types.{Epoch, Artifact, Batch, Pack}
use airgap_mirror.Planner.{Call, flush_pack, needs_pack, new_pack, open_pack, take_pack}
use airgap_mirror.Planner.Totals.{
  written_bytes, written_objects, written_size, written_entries, Fit, assigned_artifacts,
  created_batches, OpenPack, RoomBatch, RoomPack, Planned, plan_of,
}

pack_room :
    (target n : ℕ) (k : Pack)
    → 0 < k.size
    → k.size + n < two63
    → target < two63
    → needs_pack target n (some k) ≡ false
    → k.size + n ≤ target
unfolding needs_pack lt64 add64
pack_room target n k pos small limit h = ground arith

module _ (max target total count now : ℕ) (ids : ℕ → Text) (e : Epoch) (done : List Artifact)
    (bs ps f : ℕ) (cs : List Call) (n : ℕ) (max_63 : max < two63) (target_63 : target < two63)
    (fits : total + n < two63) where
  flush_pack_at :
      (b : Batch) (k : Pack)
      → Planned max target total count done
          (RoomBatch max n)
          (OpenPack target)
          (plan_of (some b) (some k) bs ps f cs)
      → Planned max target total count done
          (RoomBatch max n)
          (RoomPack target n)
          (open_pack max target now ids e b (flush_pack (plan_of (some b) (some k) bs ps f cs)))
  unfolding flush_pack open_pack new_pack written_bytes written_objects written_size written_entries
      Fit assigned_artifacts created_batches
  flush_pack_at b k p = record {
    bytes = p.bytes;
    objects = p.objects;
    size = omega (arith, p.size);
    entries = omega (arith, p.entries);
    fit = (p.open_pack.1, p.fit);
    open_batch = p.open_batch;
    open_pack = inl (refl, refl);
    assigned = p.assigned;
    numbered = p.numbered;
    inside = λ h. absurd (cc h);
  }

  open_pack_at :
      (b : Batch)
      → Planned max target total count done
          (RoomBatch max n)
          (OpenPack target)
          (plan_of (some b) none bs ps f cs)
      → Planned max target total count done
          (RoomBatch max n)
          (RoomPack target n)
          (open_pack max target now ids e b (flush_pack (plan_of (some b) none bs ps f cs)))
  unfolding flush_pack open_pack new_pack written_bytes written_objects written_size written_entries
      Fit assigned_artifacts created_batches
  open_pack_at b p = record {
    bytes = p.bytes;
    objects = p.objects;
    size = omega (arith, p.size);
    entries = omega (arith, p.entries);
    fit = p.fit;
    open_batch = p.open_batch;
    open_pack = inl (refl, refl);
    assigned = p.assigned;
    numbered = p.numbered;
    inside = λ h. absurd (cc h);
  }

  keep_pack :
      (b : Batch) (k : Pack)
      → needs_pack target n (some k) ≡ false
      → Planned max target total count done
          (RoomBatch max n)
          (OpenPack target)
          (plan_of (some b) (some k) bs ps f cs)
      → Planned max target total count done
          (RoomBatch max n)
          (RoomPack target n)
          (plan_of (some b) (some k) bs ps f cs)
  keep_pack b k h p = record {
    bytes = p.bytes;
    objects = p.objects;
    size = p.size;
    entries = p.entries;
    fit = p.fit;
    open_batch = p.open_batch;
    open_pack = inr (pack_room target n k p.open_pack.0 (omega (arith, p.size)) target_63 h);
    assigned = p.assigned;
    numbered = p.numbered;
    inside = p.inside;
  }

  pub take_pack_at :
      (b : Option Batch) (k : Option Pack)
      → Planned max target total count done
          (RoomBatch max n)
          (OpenPack target)
          (plan_of b k bs ps f cs)
      → Planned max target total count done
          (RoomBatch max n)
          (RoomPack target n)
          (take_pack max target now ids e n (plan_of b k bs ps f cs))
  unfolding take_pack needs_pack
  take_pack_at none k p = absurd p.open_batch
  take_pack_at (some b) none p = open_pack_at b p
  take_pack_at (some b) (some k) p = elim (Bool-cases (needs_pack target n (some k))) [
    | inl h ↦ rw h (flush_pack_at b k p)
    | inr h ↦ rw h (keep_pack b k h p)
  ]
