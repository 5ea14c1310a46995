-- ===== src/Planner/Place.antt =====
-- One round of Plan of internal/service/planner.go keeps the totals and the limits.
mod Packs
use airgap_mirror.Prelude.{
  ℕ, ◌+◌, ◌≤◌, ◌<◌, ◌≡◌, refl, ap, inl, inr, false, List, ◌∷◌, Option, none, some, arith,
  Bool-cases,
}
use airgap_mirror.Prelude.Int64.{two63, add64, lt64, add64_exact}
use airgap_mirror.Domain.Status.{Text}
use airgap_mirror.Domain.Types.{Epoch, Artifact, Batch, Pack}
use airgap_mirror.Planner.{
  Call, Plan, flush_pack, flush_batch, needs_batch, needs_pack, new_batch, new_pack, open_batch,
  open_pack, take_batch, take_pack, count_in, place, planned_size,
}
use airgap_mirror.Planner.Place.Packs.{take_pack_at}
use airgap_mirror.Planner.Totals.{
  written_bytes, written_objects, written_size, written_entries, Fit, assigned_artifacts,
  created_batches, OpenBatch, OpenPack, RoomBatch, RoomPack, Planned, plan_of,
}

batch_room :
    (max n : ℕ) (b : Batch)
    → 0 < b.planned_bytes
    → b.planned_bytes + n < two63
    → max < two63
    → needs_batch max n (some b) ≡ false
    → b.planned_bytes + n ≤ max
unfolding needs_batch lt64 add64
batch_room max n b pos small limit h = ground arith

module _ (max target total count now : ℕ) (ids : ℕ → Text) (e : Epoch) (done : List Artifact)
    (bs ps f : ℕ) (cs : List Call) (n : ℕ) (max_63 : max < two63) (target_63 : target < two63)
    (fits : total + n < two63) where
  new_batch_at :
      (b : Option Batch) (k : Option Pack)
      → Planned max target total count done
          (OpenBatch max)
          (OpenPack target)
          (plan_of b k bs ps f cs)
      → Planned max target total count done
          (RoomBatch max n)
          (OpenPack target)
          (open_batch max target now ids e (flush_batch (plan_of b k bs ps f cs)))
  unfolding flush_batch flush_pack open_batch new_batch written_bytes written_objects written_size
      Fit assigned_artifacts created_batches written_entries
  new_batch_at none none p = record {
    bytes = p.bytes;
    objects = p.objects;
    size = p.size;
    entries = p.entries;
    fit = p.fit;
    open_batch = inl (refl, refl);
    open_pack = tt;
    assigned = p.assigned;
    numbered = omega (arith, p.numbered);
    inside = λ h. absurd (cc h);
  }
  new_batch_at none (some k) p = absurd (cc (p.inside refl))
  new_batch_at (some b) none p = record {
    bytes = omega (arith, p.bytes);
    objects = omega (arith, p.objects);
    size = p.size;
    entries = p.entries;
    fit = (p.open_batch.1, p.fit);
    open_batch = inl (refl, refl);
    open_pack = tt;
    assigned = p.assigned;
    numbered = omega (arith, p.numbered);
    inside = λ h. absurd (cc h);
  }
  new_batch_at (some b) (some k) p = record {
    bytes = omega (arith, p.bytes);
    objects = omega (arith, p.objects);
    size = omega (arith, p.size);
    entries = omega (arith, p.entries);
    fit = (p.open_batch.1, (p.open_pack.1, p.fit));
    open_batch = inl (refl, refl);
    open_pack = tt;
    assigned = p.assigned;
    numbered = omega (arith, p.numbered);
    inside = λ h. absurd (cc h);
  }

  keep_batch :
      (b : Batch) (k : Option Pack)
      → needs_batch max n (some b) ≡ false
      → Planned max target total count done
          (OpenBatch max)
          (OpenPack target)
          (plan_of (some b) k bs ps f cs)
      → Planned max target total count done
          (RoomBatch max n)
          (OpenPack target)
          (plan_of (some b) k bs ps f cs)
  keep_batch b k h p = record {
    bytes = p.bytes;
    objects = p.objects;
    size = p.size;
    entries = p.entries;
    fit = p.fit;
    open_batch = inr (batch_room max n b p.open_batch.0 (omega (arith, p.bytes)) max_63 h);
    open_pack = p.open_pack;
    assigned = p.assigned;
    numbered = p.numbered;
    inside = p.inside;
  }

  take_batch_at :
      (b : Option Batch) (k : Option Pack)
      → Planned max target total count done
          (OpenBatch max)
          (OpenPack target)
          (plan_of b k bs ps f cs)
      → Planned max target total count done
          (RoomBatch max n)
          (OpenPack target)
          (take_batch max target now ids e n (plan_of b k bs ps f cs))
  unfolding take_batch needs_batch
  take_batch_at none k p = new_batch_at none k p
  take_batch_at (some b) k p = elim (Bool-cases (needs_batch max n (some b))) [
    | inl h ↦ rw h (new_batch_at (some b) k p)
    | inr h ↦ rw h (keep_batch b k h p)
  ]

  count_in_at :
      (a : Artifact) (b : Option Batch) (k : Option Pack)
      → 0 < n
      → Planned max target total count done
          (RoomBatch max n)
          (RoomPack target n)
          (plan_of b k bs ps f cs)
      → Planned max target
          (total + n)
          (count + 1)
          (a ∷ done)
          (OpenBatch max)
          (OpenPack target)
          (count_in max target now ids e a n b k (plan_of b k bs ps f cs))
  unfolding count_in written_bytes written_objects written_size written_entries Fit
      assigned_artifacts created_batches
  count_in_at a none k pos p = absurd p.open_batch
  count_in_at a (some b) none pos p = absurd p.open_pack
  count_in_at a (some b) (some k) pos p =
      let eb = add64_exact b.planned_bytes n (omega (arith, p.bytes)) in
      let ek = add64_exact k.size n (omega (arith, p.size)) in
      record {
        bytes = omega (arith, p.bytes, eb);
        objects = omega (arith, p.objects);
        size = omega (arith, p.size, ek);
        entries = omega (arith, p.entries);
        fit = p.fit;
        open_batch = (
          omega (arith, eb),
          elim p.open_batch [
            | inl (_, c) ↦ inr (omega (arith, c))
            | inr r ↦ inl (omega (arith, eb, r))
          ],
        );
        open_pack = (
          omega (arith, ek),
          elim p.open_pack [
            | inl (_, c) ↦ inr (omega (arith, c))
            | inr r ↦ inl (omega (arith, ek, r))
          ],
        );
        assigned = ap (λ l. a ∷ l) p.assigned;
        numbered = p.numbered;
        inside = λ h. absurd (cc h);
      }

module _ (max target now : ℕ) (ids : ℕ → Text) (e : Epoch) (max_63 : max < two63)
    (target_63 : target < two63) where
  -- One artifact more is planned.
  pub place-Planned :
      (a : Artifact) (total count : ℕ) (done : List Artifact) (s : Plan)
      → 0 < planned_size a
      → total + planned_size a < two63
      → Planned max target total count done (OpenBatch max) (OpenPack target) s
      → Planned max target
          (total + planned_size a)
          (count + 1)
          (a ∷ done)
          (OpenBatch max)
          (OpenPack target)
          (place max target now ids e a s)
  unfolding place
  place-Planned a total count done s pos fits p =
      let n = planned_size a in
      let t = take_batch max target now ids e n s in
      let u = take_pack max target now ids e n t in
      count_in_at max target total count now ids e done u.bs u.ps u.fresh u.calls n max_63 target_63
        fits a u.batch u.pack pos
        (take_pack_at max target total count now ids e done t.bs t.ps t.fresh t.calls n max_63
          target_63 fits t.batch t.pack
          (take_batch_at max target total count now ids e done s.bs s.ps s.fresh s.calls n max_63
            target_63 fits s.batch s.pack p))
