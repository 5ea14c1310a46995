-- ===== src/Pack/Writer.antt =====
-- internal/pack/writer.go. A file is its bytes with a position. Any one call of the operating system can
-- fail in Append; those of Create, Resume and Close succeed.
pub mod Represents
mod Appends
pub mod Results
pub mod Faults
pub mod Resume
pub mod Create
use airgap_mirror.Prelude.{
  ℕ, zero, suc, ◌+◌, ◌-◌, ◌%◌, ◌^◌, Bool, true, false, not, ◌||◌, List, [], ◌++◌, Option, none,
  some, take, drop, length, leb, ◌==◌, beq, if◌then◌else◌,
}
use airgap_mirror.Prelude.Int64.{two63, two64, add64, sub64}
use airgap_mirror.Domain.Transitions.{Err}
use airgap_mirror.Domain.Types.{Artifact, PackHeader, PackLocation}
use airgap_mirror.Pack.Bytes.{hex_encode}
use airgap_mirror.Pack.Uuid.{uuid_bytes}
use airgap_mirror.Pack.Clean.{validate_logical_path}
use airgap_mirror.Pack.Format.{
  pack_header_size, record_header_size, zeros, header_bytes, record_bytes, decode_sha256,
}
use airgap_mirror.Pack.Reader.{Reader, Opened, opened, refused, new_reader, stop, item, next}

pub record Writer : Type 0 where
  pub file : List ℕ
  pub pos : ℕ
  pub header : PackHeader
  pub records : ℕ  -- uint64
  pub payload : ℕ  -- uint64
  pub closed : Bool

-- WriteAt: what lies between the end of the file and `off` is filled with zeros.
unfoldable pub write_at : ℕ → List ℕ → List ℕ → List ℕ
write_at off b file =
    (take off file ++ zeros (off - length file)) ++ (b ++ drop (off + length b) file)

-- Truncate
unfoldable pub truncate : ℕ → List ℕ → List ℕ
truncate n file = take n file ++ zeros (n - length file)

-- Write at the position of the file.
unfoldable pub write : List ℕ → Writer → Writer
unfolding write_at
write b w = record w { file = write_at w.pos b w.file; pos = w.pos + length b }

ids_header : Writer → Option (List ℕ) → Option (List ℕ) → Option (List ℕ) → Option Writer
unfolding write_at
ids_header w (some p) (some x) (some b) = some (record w {
  file = write_at 0 (header_bytes p x b w.records w.payload w.header.created_unix) w.file;
})
ids_header w _ _ _ = none

-- writeHeader: WriteAt leaves the position alone. `none` is an error.
unfoldable pub write_header : Writer → Option Writer
unfolding ids_header
write_header w =
    ids_header w (uuid_bytes w.header.pack_id) (uuid_bytes w.header.epoch_id)
      (uuid_bytes w.header.batch_id)

-- Create, where no file stands at the path (`existing` is `none`); `now` is the clock's Unix time.
unfoldable pub create : Option (List ℕ) → ℕ → PackHeader → Option Writer
create (some _) now h = none
create none now h = write_header (record {
  file = [];
  pos = 0;
  header = record h { created_unix = if h.created_unix == 0 then now else h.created_unix };
  records = 0;
  payload = 0;
  closed = false;
})

pub record Progress : Type 0 where
  pub last : ℕ
  pub count : ℕ
  pub payload : ℕ

-- The loop of Resume. Each round takes a record of at least 81 bytes, so the length of the file is
-- fuel enough.
unfoldable pub scan : ℕ → Reader → Progress → Progress
scan zero r acc = acc
scan (suc fuel) r acc = elim (next r) [
  | stop e ↦ acc
  | item q body r' ↦ scan fuel r' (record {
    last = add64 q.offset q.record_length;
    count = (acc.count + 1) % two64;
    payload = add64 acc.payload q.content_length;
  })
]

same_pack : PackHeader → PackHeader → Bool
same_pack h x = not (
    not (beq h.pack_id x.pack_id)
    || not (beq h.epoch_id x.epoch_id)
    || not (beq h.batch_id x.batch_id))

at_end : ℕ → Option Writer → Option Writer
at_end last none = none
at_end last (some w) = some (record w { pos = last })

resume_opened : List ℕ → PackHeader → Opened → Option Writer
unfolding truncate same_pack at_end
resume_opened file x (refused e) = none
resume_opened file x (opened r) =
    let p =
      scan (suc (length file)) r (record { last = pack_header_size; count = 0; payload = 0 }) in
    if not (same_pack r.header x)
    then none
    else if leb two63 p.last
    then none
    else at_end p.last (
        write_header (record {
          file = truncate p.last file;
          pos = pack_header_size;
          header = r.header;
          records = p.count;
          payload = p.payload;
          closed = false;
        }))

-- Resume; `none` as the file is one that does not exist.
unfoldable pub resume : Option (List ℕ) → PackHeader → Option Writer
unfolding resume_opened
resume none x = none
resume (some file) x = resume_opened file x (new_reader file)

pub data Appended : Type 0 where
  placed : PackLocation → Appended
  failed : Appended

-- io.LimitReader: nothing is read if the size is negative.
unfoldable pub limit : ℕ → List ℕ → List ℕ
limit size r = if leb two63 size then [] else take size r

unfoldable pub finish_append : ℕ → ℕ → Writer → Option Writer → Appended × Writer
finish_append off end w none = (failed, w)
finish_append off end w (some w') = (
  placed (record { pack_id = w'.header.pack_id; offset = off; record_length = sub64 end off }),
  record w' { pos = end },
)

-- Which call of the operating system fails in a call of Append; one of them at most does. A write that
-- fails may have written some bytes before. `in_content` is also an error of the reader.
pub data Fault : Type 0 where
  works at_start at_truncate at_rewind at_seek : Fault
  in_header in_path in_content in_pack_header : ℕ → Fault

-- After content that does not match; the errors of Truncate and Seek are dropped.
roll_back : Fault → ℕ → Writer → Appended × Writer
unfolding truncate
roll_back at_truncate off w = (failed, record w { pos = off })
roll_back at_rewind off w = (failed, record w { file = truncate off w.file })
roll_back _ off w = (failed, record w { file = truncate off w.file; pos = off })

-- The header of the pack, of 128 bytes, as far as it is written.
half_written : ℕ → Writer → Option Writer → Writer
half_written n w none = w
half_written n w (some w') =
    let k = if leb n pack_header_size then n else pack_header_size in
    record w { file = take k w'.file ++ drop k w.file }

header_only : Writer → Option Writer → Writer
header_only w none = w
header_only w (some w') = w'

commit_header : Fault → ℕ → ℕ → Writer → Appended × Writer
unfolding finish_append half_written header_only
commit_header (in_pack_header n) off end w = (failed, half_written n w (write_header w))
commit_header at_seek off end w = (failed, header_only w (write_header w))
commit_header _ off end w = finish_append off end w (write_header w)

count_record : Artifact → Writer → Writer
count_record a w = record w { records = (w.records + 1) % two64; payload = add64 w.payload a.size }

module _ (sha256 : List ℕ → List ℕ) where
  -- From the copy of the content on, where it meets no error.
  put_record : Fault → Writer → Artifact → List ℕ → List ℕ → List ℕ → Appended × Writer
  unfolding roll_back commit_header count_record
  put_record f w a r sha id =
      let off = w.pos in
      let pb = a.logical_path in
      let content = limit a.size r in
      let w1 =
        write content (write pb (write (record_bytes id a.size (length pb % 2 ^ 32) sha) w)) in
      if not (length content == a.size) || not (beq (hex_encode (sha256 content)) a.sha256)
      then roll_back f off w1
      else commit_header f off (add64 (off + record_header_size + length pb) a.size)
          (count_record a w1)

  pub append_record : Fault → Writer → Artifact → List ℕ → List ℕ → List ℕ → Appended × Writer
  unfolding put_record roll_back
  append_record at_start w a r sha id = (failed, w)
  append_record (in_header n) w a r sha id =
      (failed, write (take n (record_bytes id a.size (length a.logical_path % 2 ^ 32) sha)) w)
  append_record (in_path n) w a r sha id = (
    failed,
    write (take n a.logical_path)
        (write (record_bytes id a.size (length a.logical_path % 2 ^ 32) sha) w),
  )
  append_record (in_content n) w a r sha id = roll_back works w.pos (
      write (take n (limit a.size r)) (
        write a.logical_path
          (write (record_bytes id a.size (length a.logical_path % 2 ^ 32) sha) w)))
  append_record f w a r sha id = put_record f w a r sha id

  append_checked :
      Fault → Writer → Artifact → List ℕ → Option (List ℕ) → Option (List ℕ) → Appended × Writer
  unfolding append_record
  append_checked f w a r (some sha) (some id) = append_record f w a r sha id
  append_checked f w a r _ _ = (failed, w)

  -- Append, reading the artifact's bytes from `r`.
  unfoldable pub append_io : Fault → Writer → Artifact → List ℕ → Appended × Writer
  unfolding append_checked
  append_io f w a r =
      if w.closed then (failed, w) else elim (validate_logical_path a.logical_path) [
        | some _ ↦ (failed, w)
        | none ↦ append_checked f w a r (decode_sha256 a.sha256) (uuid_bytes a.id)
      ]

  -- Append where no call of the operating system fails.
  unfoldable pub append : Writer → Artifact → List ℕ → Appended × Writer
  unfolding append_io
  append w a r = append_io works w a r

closing : Writer → Option Writer → Option Err × Writer
closing w none = (some Err.other, w)
closing w (some w') = (none, w')

-- Close; the error, if any, and the writer.
unfoldable pub close : Writer → Option Err × Writer
unfolding closing
close w =
    if w.closed
    then (none, w)
    else let w' = record w { closed = true } in closing w' (write_header w')
