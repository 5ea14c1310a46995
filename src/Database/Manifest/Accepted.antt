-- ===== src/Database/Manifest/Accepted.antt =====
-- What CompleteManifest of internal/service/transfer.go has checked when it has registered a manifest.
use airgap_mirror.Prelude.{ℕ, ◌≡◌, ap, false, List, ◌++◌, Option, none, some, All, length}
use airgap_mirror.Domain.Status.{Text, PublishUnitStatus}
use airgap_mirror.Domain.Types.{PublishUnit, ImportSession}
use airgap_mirror.Domain.Result.{ok, err}
use airgap_mirror.Pack.Bytes.{hex_encode}
use airgap_mirror.Store.{get_import_session}
use airgap_mirror.Transfer.{Files}
use airgap_mirror.Database.{Database}
use airgap_mirror.Database.Manifest.{Incoming, or_other, takes_key, manifest_ready}
use airgap_mirror.Database.Manifest.Linked.{Agrees, Linked}

pub or_other-some {ℓ} : {A : Type ℓ} (o : Option A) (a : A) → or_other o ≡ ok a → o ≡ some a
unfolding or_other
or_other-some none a h = absurd (cc h)
or_other-some (some x) a h = ap (λ r. elim r [ ok y ↦ some y | err e ↦ none ]) h

-- Rows are put in front of the table of units, and they are all WAITING with no entry imported.
abbrev pub IsFresh : PublishUnit → Type 0
IsFresh u = (u.status ≡ PublishUnitStatus.waiting) × (u.imported ≡ 0)

-- The session is ready, its manifest fits, and the table of units has it without a contradiction.
pub record Accepted (attach : Text → Option Incoming) (now : ℕ) (id : Text) (db t : Database)
    : Type 0 where
  pub session : ImportSession
  pub session_there : get_import_session id db.store ≡ some session
  pub manifest : Incoming
  pub attached : attach session.manifest_path ≡ some manifest
  pub linked : Linked session manifest db
  pub agreed : All (λ u. All (Agrees u) db.imports.units) manifest.units
  pub keys_kept : All (λ u. All (λ p. takes_key u p ≡ false) db.imports.units) manifest.units
  pub new_units : List PublishUnit
  pub stored : t.imports.units ≡ new_units ++ db.imports.units
  pub fresh : All IsFresh new_units
  pub ready : get_import_session id t.store ≡ some (manifest_ready now session)

-- The file of the session's manifest has the size and the SHA-256 that the session declares.
pub record Verified (sha256 : List ℕ → List ℕ) (files : Files) (v : ImportSession) : Type 0 where
  pub content : List ℕ
  pub there : files v.manifest_path ≡ some content
  pub sized : length content ≡ v.manifest_size
  pub hash : hex_encode (sha256 content) ≡ v.manifest_sha256
