-- ===== src/Transfer/Upload/Calls.antt =====
-- What the branches of AppendPack of internal/service/transfer.go return, and lists of sent bytes.
use airgap_mirror.Prelude.{
  ℕ, ◌-◌, append-nil, ◌≤◌, ◌≡◌, refl, ap, ◌∙◌, inl, inr, true, false, List, ◌++◌, none, some, take,
  drop, length, ◌==◌, Bool-cases, arith, length-append, ==_eq, take-plus,
}
use airgap_mirror.Domain.Status.{Text, PackStatus, pack_eq, pack_eq-eq}
use airgap_mirror.Domain.Types.{ImportPack}
use airgap_mirror.Domain.Transitions.{Err}
use airgap_mirror.Pack.Writer.{truncate}
use airgap_mirror.Pack.Writer.Represents.{zeros_none}
use airgap_mirror.Store.{Store, get_import_pack, update_import_pack}
use airgap_mirror.Transfer.{
  Files, Reply, Server, append_chunk, append_pack, append_pack_to, pack_appended, uploaded_to,
}

pub appended-error :
    (p : ImportPack) (out : Reply × Files) (s : Server) (e : Err)
    → out.0.1 ≡ some e
    → pack_appended p out s ≡ (out.0, record s { files = out.1 })
unfolding pack_appended
appended-error p ((next, some e'), files) s e h = refl
appended-error p ((next, none), files) s e h = absurd (cc h)

pub appended-ok :
    (p : ImportPack) (out : Reply × Files) (s : Server) (store : Store)
    → out.0.1 ≡ none
    → update_import_pack (uploaded_to out.0.0 p) s.store ≡ some store
    → pack_appended p out s ≡ (out.0, record { store = store; files = out.1 })
unfolding pack_appended
appended-ok p ((next, some e), files) s store h k = absurd (cc h)
appended-ok p ((next, none), files) s store h k = rw (pack_appended, k) refl

pub append_pack-row :
    (sid pid : Text) (s : Server) (p : ImportPack) (offset : ℕ) (r : List ℕ) (n : ℕ)
    → get_import_pack sid pid s.store ≡ some p
    → append_pack sid pid offset r n s ≡ append_pack_to p offset r n s
unfolding append_pack
append_pack-row sid pid s p offset r n h = rw (append_pack, h) refl

pub append_to-up :
    (p : ImportPack) (offset : ℕ) (r : List ℕ) (n : ℕ) (s : Server)
    → pack_eq p.status PackStatus.uploading ≡ true
    → append_pack_to p offset r n s
      ≡ pack_appended p (append_chunk p.staging_path offset p.expected_size r n s.files) s
unfolding append_pack_to
append_to-up p offset r n s up = rw (up) refl

pub append_to-refused :
    (p : ImportPack) (offset : ℕ) (r : List ℕ) (n : ℕ) (s : Server)
    → pack_eq p.status PackStatus.uploading ≡ false
    → append_pack_to p offset r n s ≡ ((p.uploaded_size, some Err.conflict), s)
unfolding append_pack_to
append_to-refused p offset r n s up = rw (up) refl

pub session-uploaded_to :
    (next : ℕ) (p : ImportPack) → (uploaded_to next p).session_id ≡ p.session_id
unfolding uploaded_to
session-uploaded_to next p = refl

pub pack-uploaded_to : (next : ℕ) (p : ImportPack) → (uploaded_to next p).pack_id ≡ p.pack_id
unfolding uploaded_to
pack-uploaded_to next p = refl

pub truncate-take : (n : ℕ) (c : List ℕ) → n ≤ length c → truncate n c ≡ take n c
unfolding truncate
truncate-take n c h = rw (zeros_none (n - length c) (omega arith), append-nil)

pub uploaded_complete :
    (next : ℕ) (p : ImportPack)
    → pack_eq p.status PackStatus.uploading ≡ true
    → (uploaded_to next p).status ≡ PackStatus.uploaded
    → next ≡ p.expected_size
unfolding uploaded_to
uploaded_complete next p up = elim (Bool-cases (next == p.expected_size)) [
  | inl e ↦ rw e (λ h. ==_eq next p.expected_size e)
  | inr e ↦ rw e (λ h. absurd (cc (h, pack_eq-eq p.status PackStatus.uploading up)))
]

-- Sent bytes extend a beginning to a longer one.
pub prefix-append :
    (c x whole : List ℕ)
    → c ≡ take (length c) whole
    → x ≡ take (length x) (drop (length c) whole)
    → c ++ x ≡ take (length (c ++ x)) whole
prefix-append c x whole h k =
    rw (length-append c x, take-plus (length c) (length x) whole)
      (ap (λ a. a ++ x) h ∙ ap (λ b. take (length c) whole ++ b) k)
