-- ===== src/Site.antt =====
-- internal/service/files.go on Unix. A server's tables and files together; `abs` is filepath.Abs, and
-- `lstat` says what os.Lstat finds at a path: the directories and symbolic links do not change.
pub mod Target
pub mod Written
use airgap_mirror.Prelude.{
  ℕ, Bool, true, false, not, ◌&&◌, ◌||◌, List, [], ◌∷◌, ◌++◌, Option, none, some, beq, length, drop,
  take, ◌+◌, if◌then◌else◌, ◌==◌,
}
use airgap_mirror.Domain.Status.{Text}
use airgap_mirror.Domain.Transitions.{Err}
use airgap_mirror.Domain.Result.{Result, ok, err, ◌>>=◌, ◌>>◌, check, pass}
use airgap_mirror.Pack.Clean.{clean, join, split, validate_logical_path, has_prefix}
use airgap_mirror.Pack.Bytes.{hex_encode}
use airgap_mirror.Prelude.Int64.{add64, lt64}
use airgap_mirror.Transfer.{Files, put}
use airgap_mirror.Database.{Database}

pub record Site : Type 0 where
  pub db : Database
  pub files : Files

-- What os.Lstat reports.
pub data Lstat : Type 0 where
  missing link plain : Lstat

-- filepath.Rel(root, path) is neither `..` nor below it, for clean rooted paths.
unfoldable pub within : Text → Text → Bool
within root path = beq root (b'/' ∷ []) || beq path root || has_prefix path (root ++ b'/' ∷ [])

not_empty : List Text → List Text
not_empty [] = []
not_empty (s ∷ ss) = let rest = not_empty ss in if beq s [] then rest else s ∷ rest

-- filepath.Join of elements of which the first is not empty.
unfoldable pub join_path : List Text → Text
unfolding not_empty
join_path parts = clean (join (not_empty parts))

-- safeTarget
unfoldable pub safe_target : (Text → Text) → Text → Text → Result Text
unfolding within
safe_target abs root logical = do
  pass (validate_logical_path logical)
  check (not (within (abs root) (clean (abs root ++ b'/' ∷ logical)))) Err.invalid
  ok (clean (abs root ++ b'/' ∷ logical))

unfoldable pub is_link : Lstat → Bool
is_link Lstat.link = true
is_link _ = false

unfoldable pub is_missing : Lstat → Bool
is_missing Lstat.missing = true
is_missing _ = false

-- The loop over the components of a path below `cur`.
unfoldable pub reject_links : (Text → Lstat) → Text → List Text → Result (Unit {0})
unfolding is_link
reject_links lstat cur [] = ok tt
reject_links lstat cur (part ∷ rest) = do
  check (is_link (lstat (clean (cur ++ b'/' ∷ part)))) Err.other
  reject_links lstat (clean (cur ++ b'/' ∷ part)) rest

-- All but the last.
unfoldable pub parents : List Text → List Text
parents [] = []
parents (s ∷ []) = []
parents (s ∷ t ∷ rest) = s ∷ parents (t ∷ rest)

-- filepath.Rel(root, target) of a target within the root, in its segments.
unfoldable pub relative : Text → Text → List Text
relative root target =
    if beq root (b'/' ∷ []) then split (drop 1 target) else split (drop (length root + 1) target)

-- rejectSymlinkParents, for a target that safeTarget has given, so that it is not the root.
unfoldable pub reject_symlink_parents :
    (Text → Text) → (Text → Lstat) → Text → Text → Result (Unit {0})
unfolding reject_links is_missing parents relative
reject_symlink_parents abs lstat root target = do
  check (is_missing (lstat (abs root))) Err.other
  check (is_link (lstat (abs root))) Err.other
  reject_links lstat (abs root) (parents (relative (abs root) target))

-- hashFile; `none` is the error on a missing file.
unfoldable pub hash_file : (List ℕ → List ℕ) → Text → Files → Option (Text × ℕ)
hash_file sha256 path files = elim (files path) [
  | none ↦ none
  | some c ↦ some (hex_encode (sha256 c), length c)
]

-- os.Rename of a file that exists.
unfoldable pub rename : Text → Text → Files → Files
rename old new files q = if beq q new then files old else if beq q old then none else files q

-- os.Remove
unfoldable pub remove_file : Text → Files → Files
remove_file path files q = if beq q path then none else files q

-- io.LimitReader(r, size+1), read to its end.
unfoldable pub limit_reader : ℕ → List ℕ → List ℕ
limit_reader size body = if lt64 0 (add64 size 1) then take (add64 size 1) body else []

-- The content that writeVerified puts in place once it is complete; the temporary file is gone in the
-- end.
unfoldable pub write_checked :
    (List ℕ → List ℕ) → Text → ℕ → Text → List ℕ → Files → Result Bool × Files
write_checked sha256 target size want got files =
    if not (length got == size)
    then (err Err.other, files)
    else if not (beq (hex_encode (sha256 got)) want)
    then (err Err.other, files)
    else (ok false, put target got files)

-- writeVerified: whether the target was there already, or the error.
unfoldable pub write_verified :
    (List ℕ → List ℕ)
    → (Text → Text)
    → (Text → Lstat)
    → Text
    → Text
    → ℕ
    → Text
    → List ℕ
    → Bool
    → Files
    → Result Bool × Files
write_verified sha256 abs lstat root target size want body replace files =
    elim (reject_symlink_parents abs lstat root target) [
      | err e ↦ (err e, files)
      | ok _ ↦ elim (files target) [
        | none ↦ write_checked sha256 target size want (limit_reader size body) files
        | some c ↦
            if (length c == size) && beq (hex_encode (sha256 c)) want
            then (ok true, files)
            else if not replace
            then (err Err.conflict, files)
            else write_checked sha256 target size want (limit_reader size body) files
      ]
    ]
