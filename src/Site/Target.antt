-- ===== src/Site/Target.antt =====
-- Where safeTarget of internal/service/files.go puts an artifact.
use mathlib.Core.List.{reverse_aux, reverse-reverse}
use mathlib.Core.Path.{subst}
use airgap_mirror.Prelude.{
  ℕ, ◌≡◌, refl, sym, ap, ◌∙◌, true, [], ◌∷◌, ◌++◌, none, some, All, All-append, beq, ==_refl, arith,
  Option-cases, inl, inr,
}
use airgap_mirror.Domain.Status.{Text}
use airgap_mirror.Domain.Transitions.{Err}
use airgap_mirror.Domain.Result.{ok, err, ◌>>=◌, ◌>>◌, check, pass}
use airgap_mirror.Pack.Clean.{clean, clean_segments, split, join, has_prefix, validate_logical_path}
use airgap_mirror.Pack.Clean.Split.{split-append, join-split}
use airgap_mirror.Pack.Clean.Stack.{IsName, clean_segments-names}
use airgap_mirror.Pack.Clean.Safe.{valid_iff}
use airgap_mirror.Site.{within, safe_target}

rooted-clean : (p : Text) → All IsName (split p) → clean (b'/' ∷ p) ≡ b'/' ∷ p
unfolding clean clean_segments split beq
rooted-clean p h =
    ap (λ l. b'/' ∷ join (reverse_aux l [])) (clean_segments-names true [] (split p) h)
    ∙ ap (λ l. b'/' ∷ join l) (reverse-reverse (split p))
    ∙ ap (λ l. b'/' ∷ l) (join-split p)

joined-names :
    (root p : Text)
    → All IsName (split root)
    → All IsName (split p)
    → All IsName (split (root ++ b'/' ∷ p))
joined-names root p h k =
    subst (λ l. All IsName l) (sym (split-append root p))
      (All-append IsName (split root) (split p) h k)

has_prefix_self : (a : Text) (c : ℕ) (b : Text) → has_prefix (a ++ c ∷ b) (a ++ c ∷ []) ≡ true
unfolding has_prefix
has_prefix_self [] c b = rw (==_refl c) refl
has_prefix_self (x ∷ a) c b = rw (==_refl x) (has_prefix_self a c b)

within-join : (root p : Text) → within root (root ++ b'/' ∷ p) ≡ true
unfolding within
within-join root p = rw (has_prefix_self root b'/' p) (ground arith)

accepted :
    (abs : Text → Text) (root at p : Text)
    → abs root ≡ b'/' ∷ at
    → All IsName (split at)
    → validate_logical_path p ≡ none
    → safe_target abs root p ≡ ok (abs root ++ b'/' ∷ p)
unfolding safe_target pass check ◌>>◌ ◌>>=◌
accepted abs root at p e h v =
    let cleaned : clean (abs root ++ b'/' ∷ p) ≡ abs root ++ b'/' ∷ p =
      subst (λ r. clean (r ++ b'/' ∷ p) ≡ r ++ b'/' ∷ p) (sym e)
        (rooted-clean (at ++ b'/' ∷ p) (joined-names at p h ((valid_iff p).0 v).names)) in
    rw v (rw (cleaned, within-join (abs root) p) refl)

refused :
    (abs : Text → Text) (root p : Text) (e : Err)
    → validate_logical_path p ≡ some e
    → safe_target abs root p ≡ err e
unfolding safe_target pass ◌>>◌ ◌>>=◌
refused abs root p e v = rw v refl

-- Where filepath.Abs makes of the root a path of plain names from `/`, safeTarget gives, for a logical
-- path that ValidateLogicalPath accepts, this root, a slash and the logical path, unchanged; for any
-- other it returns that function's error.
pub safe_target_exact :
    (abs : Text → Text) (root at p : Text)
    → abs root ≡ b'/' ∷ at
    → All IsName (split at)
    → safe_target abs root p
      ≡ elim (validate_logical_path p) [ none ↦ ok (abs root ++ b'/' ∷ p) | some e ↦ err e ]
safe_target_exact abs root at p e h = elim (Option-cases (validate_logical_path p)) [
  | inl v ↦ rw v (accepted abs root at p e h v)
  | inr v ↦ rw v.1 (refused abs root p v.0 v.1)
]
