-- ===== src/Site/Written.antt =====
-- What writeVerified of internal/service/files.go leaves, on every branch.
use airgap_mirror.Prelude.{
  ℕ, ◌≡◌, refl, Bool, true, false, not, ◌&&◌, inl, inr, List, some, beq, beq_refl, beq_eq,
  Bool-cases, Option-cases, &&-true, ◌==◌, ==_eq, length, if◌then◌else◌,
}
use airgap_mirror.Domain.Status.{Text}
use airgap_mirror.Domain.Transitions.{Err}
use airgap_mirror.Domain.Result.{Result, ok, err, Result-cases}
use airgap_mirror.Pack.Bytes.{hex_encode}
use airgap_mirror.Transfer.{Files, put}
use airgap_mirror.Site.{Lstat, limit_reader, reject_symlink_parents, write_checked, write_verified}

pub record Verified (sha256 : List ℕ → List ℕ) (target : Text) (size : ℕ) (want : Text)
    (before after : Files) : Type 0 where
  pub content : List ℕ
  pub there : after target ≡ some content
  pub hash : hex_encode (sha256 content) ≡ want
  pub sized : length content ≡ size
  pub others : (q : Text) → beq q target ≡ false → after q ≡ before q

-- Without an error the target is as declared and the other files are as before; with one, all are.
abbrev pub Written : (List ℕ → List ℕ) → Text → ℕ → Text → Files → Result Bool × Files → Type 0
Written sha256 target size want before (ok _, after) = Verified sha256 target size want before after
Written sha256 target size want before (err _, after) = after ≡ before

put_other :
    (target q : Text) (c : List ℕ) (files : Files)
    → beq q target ≡ false
    → put target c files q ≡ files q
unfolding put
put_other target q c files h = rw h refl

put_self : (target : Text) (c : List ℕ) (files : Files) → put target c files target ≡ some c
unfolding put
put_self target c files = rw (beq_refl target) refl

module _ (sha256 : List ℕ → List ℕ) (target : Text) (size : ℕ) (want : Text) (files : Files) where
  checked-Written :
      (got : List ℕ)
      → Written sha256 target size want files (write_checked sha256 target size want got files)
  unfolding write_checked
  checked-Written got = elim (Bool-cases (length got == size)) [
    | inl n ↦ rw n (elim (Bool-cases (beq (hex_encode (sha256 got)) want)) [
      | inl h ↦ rw h (record {
        content = got;
        there = put_self target got files;
        hash = beq_eq _ _ h;
        sized = ==_eq _ _ n;
        others = λ q e. put_other target q got files e;
      })
      | inr h ↦ rw h refl
    ])
    | inr n ↦ rw n refl
  ]

  old-Written :
      (c got : List ℕ) (replace : Bool)
      → files target ≡ some c
      → Written sha256 target size want files (
          if (length c == size) && beq (hex_encode (sha256 c)) want
          then (ok true, files)
          else if not replace
          then (err Err.conflict, files)
          else write_checked sha256 target size want got files)
  old-Written c got replace at =
      elim (Bool-cases ((length c == size) && beq (hex_encode (sha256 c)) want)) [
        | inl e ↦ rw e (
            let (n, h) = &&-true (length c == size) (beq (hex_encode (sha256 c)) want) e in
            record {
              content = c;
              there = at;
              hash = beq_eq _ _ h;
              sized = ==_eq _ _ n;
              others = λ q _. refl;
            })
        | inr e ↦
            rw e
              (elim (Bool-cases replace) [ inl r ↦ rw r (checked-Written got) | inr r ↦ rw r refl ])
      ]

-- If writeVerified returns no error, the target has a content of the wanted size and SHA-256, and every
-- other file is as it was; if it returns one, every file is as it was.
pub write_verified-Written :
    (sha256 : List ℕ → List ℕ) (abs : Text → Text) (lstat : Text → Lstat) (root target : Text)
    (size : ℕ) (want : Text) (body : List ℕ) (replace : Bool) (files : Files)
    → Written sha256 target size want files
        (write_verified sha256 abs lstat root target size want body replace files)
unfolding write_verified
write_verified-Written sha256 abs lstat root target size want body replace files =
    elim (Result-cases (reject_symlink_parents abs lstat root target)) [
      | inl r ↦ rw (write_verified, r.1) refl
      | inr r ↦
          rw (write_verified, r.1)
            (elim (Option-cases (files target)) [
              | inl e ↦
                  rw e (checked-Written sha256 target size want files (limit_reader size body))
              | inr c ↦ rw c.1 (
                  old-Written sha256 target size want files c.0 (limit_reader size body) replace
                    c.1)
            ])
    ]
