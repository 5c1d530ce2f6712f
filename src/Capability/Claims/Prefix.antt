-- ===== src/Capability/Claims/Prefix.antt =====
-- A storage prefix that the schema check of src/capability/claims.ts passes is a plain path.
use supabash_fs.Core.Path.Canonical.{IsSegment, normalize-render}
use supabash_fs.Core.Path.Segments.{join-split, split-cons}
use supabash_fs.Prelude.{
  ===_iff, All, List, Text, [], any, ap, arith, every, false, join, ok, refl, sym, text, true, ℕ,
  ◌===◌, ◌==◌, ◌∙◌, ◌∷◌, ◌≡◌,
}
use supabash_fs.Core.Path.{
  dot, dot_dot, encoded_at, has_encoded, is_backslash, is_control, is_slash, normalize_virtual_path,
  render, slash,
}
use supabash_fs.Capability.Claims.{is_prefix_char, safe_prefix, safe_prefix_segment}

prefix_char-plain :
    (c : ℕ)
    → is_prefix_char c ≡ true
    → (is_control c ≡ false)
      × (is_backslash c ≡ false)
      × (is_slash c ≡ false)
      × ((c == b'%') ≡ false)
      × ((c == b'.') ≡ false)
prefix_char-plain c h = ground arith

segment_chars :
    (s : Text)
    → every is_prefix_char s ≡ true
    → (any is_control s ≡ false)
      × (any is_backslash s ≡ false)
      × (any is_slash s ≡ false)
      × (has_encoded s ≡ false)
      × (any (λ c. c == b'.') s ≡ false)
unfolding has_encoded encoded_at
segment_chars [] h = (refl, refl, refl, refl, refl)
segment_chars (c ∷ []) h = ground (arith, prefix_char-plain c)
segment_chars (c ∷ d ∷ []) h = ground (arith, prefix_char-plain c, segment_chars (d ∷ []))
segment_chars (c ∷ d ∷ e ∷ s) h = ground (arith, prefix_char-plain c, segment_chars (d ∷ e ∷ s))

dotted :
    (s t : Text)
    → any (λ c. c == b'.') s ≡ false
    → any (λ c. c == b'.') t ≡ true
    → (s === t) ≡ false
dotted s t h k = ground (arith, ===_iff s t)

undotted :
    (s t : Text)
    → any (λ c. c == b'.') s ≡ false
    → any (λ c. c == b'.') t ≡ true
    → (t === s) ≡ false
undotted s t h k = ground (arith, ===_iff t s)

part-IsSegment : (s : Text) → safe_prefix_segment s ≡ true → IsSegment s
part-IsSegment s h =
    let (a, b, c, d, e) = segment_chars s (ground arith) in
    record {
      named = ground arith;
      not_dot = dotted s dot e refl;
      not_dot_dot = dotted s dot_dot e refl;
      not_reserved =
          rw (undotted s (text ".supabash") e refl, undotted s (text ".supabash-directory") e refl)
            refl;
      within = c;
      clean = ground arith;
    }

every-IsSegment : (ss : List Text) → every safe_prefix_segment ss ≡ true → All IsSegment ss
every-IsSegment [] h = tt
every-IsSegment (s ∷ ss) h = (part-IsSegment s (ground arith), every-IsSegment ss (ground arith))

-- A prefix that passes the schema check is, behind a slash, a path that the normalisation leaves as
-- it is.
pub safe_prefix-canonical :
    (prefix : Text)
    → safe_prefix prefix ≡ true
    → normalize_virtual_path (slash ∷ prefix) ≡ ok (slash ∷ prefix)
unfolding safe_prefix
safe_prefix-canonical prefix h =
    let c = split-cons prefix in
    let plain = every-IsSegment (c.first ∷ c.rest) (rw c.eq at h) in
    let same : slash ∷ prefix ≡ render (c.first ∷ c.rest) =
      unfold render in ap (λ t. slash ∷ t) (sym (join-split prefix) ∙ ap (join slash) c.eq) in
    rw same (normalize-render (c.first ∷ c.rest) plain)
