-- ===== src/Planner.antt =====
-- BatchPlanner.Plan of internal/service/planner.go. What the two stores are told is kept as the list
-- of the calls, the last one first; the stores fail at no call. `fresh` numbers the ids of NewID.
pub mod Totals
pub mod Place
pub mod Results
pub mod Pages
pub mod Assigned
use airgap_mirror.Prelude.{
  ℕ, take, ltb, zero, suc, ◌+◌, Bool, true, false, not, ◌&&◌, ◌||◌, List, [], ◌∷◌, Option, none,
  some, length, ◌==◌, beq, if◌then◌else◌,
}
use airgap_mirror.Prelude.Int64.{add64, lt64}
use airgap_mirror.Domain.Status.{Text, EpochStatus, BatchStatus, PackStatus, ArtifactOperation}
use airgap_mirror.Domain.Types.{Epoch, Artifact, Batch, Pack}
use airgap_mirror.Domain.Transitions.{Err}
use airgap_mirror.Pack.Format.{record_header_size}

pub data Call : Type 0 where
  create_batch update_batch : Batch → Call
  create_pack update_pack : Pack → Call
  -- AssignArtifact and AddDownloadEntry of the artifact, with the ids of the batch and the pack.
  assign_artifact add_download_entry : Artifact → Text → Text → Call
  update_epoch : Epoch → Call

pub record Plan : Type 0 where
  pub batch : Option Batch
  pub pack : Option Pack
  pub bs : ℕ
  pub ps : ℕ
  pub fresh : ℕ
  pub calls : List Call

-- `n` of the loop.
unfoldable pub planned_size : Artifact → ℕ
planned_size a = add64 (record_header_size + length a.logical_path) a.size

is_delete : ArtifactOperation → Bool
is_delete ArtifactOperation.delete = true
is_delete _ = false

unfoldable pub bad_tombstone : Artifact → Bool
unfolding is_delete
bad_tombstone a = is_delete a.operation && (not a.metadata || not (a.size == 0) || beq a.sha256 [])

-- A row of planned_artifacts: its ordinal and the artifact.
abbrev pub Row : Type 0
Row = ℕ × Artifact

-- WHERE ordinal>?
unfoldable pub later : ℕ → List Row → List Row
later after [] = []
later after (r ∷ rest) = let more = later after rest in if ltb after r.0 then r ∷ more else more

-- ListUnassignedArtifacts. The rows are those of the epoch that have no batch when the run begins, in
-- the order of their ordinals; those that the run has given a batch since have ordinals up to `after`.
unfoldable pub list_unassigned : ℕ → ℕ → List Row → List Row
list_unassigned after limit rows = take limit (later after rows)

-- How a page ends: with an error, or with the ordinal of its last row.
pub data Paged : Type 0 where
  halted : Err → Plan → Paged
  reached : ℕ → Plan → Paged

-- fp
unfoldable pub flush_pack : Plan → Plan
flush_pack s = elim s.pack [
  | none ↦ s
  | some k ↦ record s { pack = none; calls = Call.update_pack k ∷ s.calls }
]

-- fb
unfoldable pub flush_batch : Plan → Plan
flush_batch s = elim s.batch [
  | none ↦ s
  | some b ↦
      let s' = flush_pack s in record s' { batch = none; calls = Call.update_batch b ∷ s'.calls }
]

unfoldable pub needs_batch : ℕ → ℕ → Option Batch → Bool
needs_batch max n none = true
needs_batch max n (some b) = lt64 0 b.planned_bytes && lt64 max (add64 b.planned_bytes n)

unfoldable pub needs_pack : ℕ → ℕ → Option Pack → Bool
needs_pack target n none = true
needs_pack target n (some k) = lt64 0 k.size && lt64 target (add64 k.size n)

module _ (max target : ℕ) (now : ℕ) (ids : ℕ → Text) (e : Epoch) where
  new_batch : Plan → Batch
  new_batch s = record {
    id = ids s.fresh;
    epoch_id = e.id;
    source_id = e.source_id;
    sequence = s.bs + 1;
    status = BatchStatus.planned;
    planned_bytes = 0;
    object_count = 0;
    pack_count = 0;
    created_at = now;
    imported_at = none;
    error_text = [];
  }

  new_pack : Text → Plan → Pack
  new_pack batch_id s = record {
    id = ids s.fresh;
    epoch_id = e.id;
    batch_id = batch_id;
    sequence = s.ps + 1;
    size = 0;
    sha256 = [];
    entry_count = 0;
    uploaded_size = 0;
    file_path = [];
    status = PackStatus.planned;
  }

  open_batch : Plan → Plan
  unfolding new_batch
  open_batch s = record s {
    batch = some (new_batch s);
    bs = s.bs + 1;
    ps = 0;
    fresh = s.fresh + 1;
    calls = Call.create_batch (new_batch s) ∷ s.calls;
  }

  open_pack : Batch → Plan → Plan
  unfolding new_pack
  open_pack b s = record s {
    batch = some (record b { pack_count = b.pack_count + 1 });
    pack = some (new_pack b.id s);
    ps = s.ps + 1;
    fresh = s.fresh + 1;
    calls = Call.create_pack (new_pack b.id s) ∷ s.calls;
  }

  take_batch : ℕ → Plan → Plan
  unfolding open_batch
  take_batch n s = if needs_batch max n s.batch then open_batch (flush_batch s) else s

  pub take_pack : ℕ → Plan → Plan
  unfolding open_pack
  take_pack n s = elim s.batch [
    | none ↦ s
    | some b ↦ if needs_pack target n s.pack then open_pack b (flush_pack s) else s
  ]

  count_in : Artifact → ℕ → Option Batch → Option Pack → Plan → Plan
  count_in a n (some b) (some k) s = record s {
    batch =
        some
          (record b { planned_bytes = add64 b.planned_bytes n; object_count = b.object_count + 1 });
    pack = some (record k { size = add64 k.size n; entry_count = k.entry_count + 1 });
    calls = Call.add_download_entry a b.id k.id ∷ Call.assign_artifact a b.id k.id ∷ s.calls;
  }
  count_in a n _ _ s = s

  -- One round of the inner loop, for an artifact that is no bad tombstone.
  unfoldable pub place : Artifact → Plan → Plan
  unfolding take_batch take_pack count_in
  place a s =
      let n = planned_size a in
      let s' = take_pack n (take_batch n s) in count_in a n s'.batch s'.pack s'

  -- The loop over the artifacts, up to the first bad tombstone.
  unfoldable pub place_all : List Artifact → Plan → Option Err × Plan
  place_all [] s = (none, s)
  place_all (a ∷ rest) s =
      let later = place_all rest (place a s) in
      if bad_tombstone a then (some Err.invalid, s) else later

  -- The inner loop over one page, from the ordinal `after`.
  unfoldable pub place_rows : List Row → ℕ → Plan → Paged
  place_rows [] after s = reached after s
  place_rows (r ∷ rest) after s =
      let more = place_rows rest r.0 (place r.1 s) in
      if bad_tombstone r.1 then halted Err.invalid s else more

  -- The outer loop: it ends at the first empty page. Each page holds a row at least, so that one
  -- round more than there are rows is fuel enough (Planner.Pages).
  unfoldable pub place_pages : ℕ → ℕ → List Row → ℕ → Plan → Option Err × Plan
  place_pages zero size rows after s = (some Err.other, s)
  place_pages (suc fuel) size rows after s = elim (list_unassigned after size rows) [
    | [] ↦ (none, s)
    | r ∷ page ↦ elim (place_rows (r ∷ page) after s) [
      | halted err t ↦ (some err, t)
      | reached last t ↦ place_pages fuel size rows last t
    ]
  ]

  -- Without artifacts, one empty batch with one empty pack is created.
  no_artifacts : Plan → Epoch × Plan
  unfolding new_batch new_pack
  no_artifacts f =
      let b = new_batch f in
      let e' = record e { total_batches = 1 } in
      (
        e',
        record f {
          fresh = f.fresh + 2;
          calls =
              Call.update_epoch e'
              ∷ Call.create_pack (new_pack b.id (record f { fresh = f.fresh + 1; ps = 0 }))
              ∷ Call.create_batch (record b { sequence = 1; pack_count = 1 })
              ∷ f.calls;
        },
      )

  with_total : Plan → Epoch × Plan
  with_total f =
      let e' = record e { total_batches = f.bs } in
      (e', record f { calls = Call.update_epoch e' ∷ f.calls })

  -- After the loop the last batch is flushed.
  unfoldable pub finish : Plan → Epoch × Plan
  unfolding no_artifacts with_total
  finish s = let f = flush_batch s in if f.bs == 0 then no_artifacts f else with_total f

  finished : Option Err × Plan → Option Err × (Epoch × Plan)
  unfolding finish
  finished (some err, s) = (some err, (e, s))
  finished (none, s) = (none, finish s)

  -- BatchPlanner.Plan, of the rows of the epoch that have no batch.
  unfoldable pub plan : ℕ → List Row → Option Err × (Epoch × Plan)
  unfolding finished
  plan page_size rows =
      if lt64 0 max && lt64 0 target
      then finished (
          place_pages (suc (length rows)) (if lt64 0 page_size then page_size else 1000) rows 0
            (record { batch = none; pack = none; bs = 0; ps = 0; fresh = 0; calls = [] }))
      else (
        some Err.other,
        (e, record { batch = none; pack = none; bs = 0; ps = 0; fresh = 0; calls = [] }),
      )
