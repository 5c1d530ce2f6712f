-- ===== src/Core/Path/Descend.antt =====
-- Containment and parents of canonical paths, by their segments (src/core/path.ts).
use supabash_fs.Core.Path.Canonical.{All-within, IsSegment, normalize-render}
use supabash_fs.Prelude.{
  ===_iff, ===_refl, All, Bool, List, Text, [], any, ap, append_assoc, arith, false, if◌then◌else◌,
  is_empty, join, ok, refl, starts_with, true, ℕ, ◌&&◌, ◌++◌, ◌===◌, ◌||◌, ◌∙◌, ◌∷◌, ◌≡◌,
}
use supabash_fs.Core.Path.{is_same_or_descendant, is_slash, render, root_path, slash}

-- The first list of segments begins the second.
unfoldable pub is_prefix : List Text → List Text → Bool
is_prefix [] ss = true
is_prefix (p ∷ ps) [] = false
is_prefix (p ∷ ps) (s ∷ ss) = (p === s) && is_prefix ps ss

-- A slash after a word without slashes ends the word.
starts_with-word :
    (w v s t : Text)
    → any is_slash w ≡ false
    → any is_slash v ≡ false
    → starts_with (w ++ slash ∷ s) (v ++ slash ∷ t) ≡ ((v === w) && starts_with s t)
unfolding starts_with ◌===◌
starts_with-word [] [] s t h k = refl
starts_with-word [] (d ∷ v) s t h k = ground arith
starts_with-word (c ∷ w) [] s t h k = ground arith
starts_with-word (c ∷ w) (d ∷ v) s t h k = ground (arith, starts_with-word w v s t)

starts_with-longer :
    (w v t : Text) → any is_slash w ≡ false → starts_with w (v ++ slash ∷ t) ≡ false
unfolding starts_with
starts_with-longer [] [] t h = refl
starts_with-longer [] (d ∷ v) t h = refl
starts_with-longer (c ∷ w) [] t h = ground arith
starts_with-longer (c ∷ w) (d ∷ v) t h = ground (arith, starts_with-longer w v t)

-- The test of `isSameOrDescendant` on texts, as a question about segments.
abbrev contains_text : Text → Text → Bool
contains_text c p = c === p || starts_with c ((if p === root_path then [] else p) ++ slash ∷ [])

===_join :
    (w v s t : Text)
    → any is_slash w ≡ false
    → any is_slash v ≡ false
    → ((w ++ slash ∷ s) === (v ++ slash ∷ t)) ≡ ((v === w) && (s === t))
unfolding ◌===◌
===_join [] [] s t h k = refl
===_join [] (d ∷ v) s t h k = ground arith
===_join (c ∷ w) [] s t h k = ground arith
===_join (c ∷ w) (d ∷ v) s t h k = ground (arith, ===_join w v s t)

===_word :
    (w v t : Text)
    → any is_slash w ≡ false
    → ((w === (v ++ slash ∷ t)) ≡ false) × (((v ++ slash ∷ t) === w) ≡ false)
unfolding ◌===◌
===_word [] [] t h = (refl, refl)
===_word [] (d ∷ v) t h = (refl, refl)
===_word (c ∷ w) [] t h = (ground arith, ground arith)
===_word (c ∷ w) (d ∷ v) t h = (ground (arith, ===_word w v t), ground (arith, ===_word w v t))

===_sym : (s t : Text) → (s === t) ≡ (t === s)
===_sym s t = ground (arith, ===_iff s t, ===_iff t s)

join-contains :
    (p : Text) (ps : List Text) (s : Text) (ss : List Text)
    → All (λ w. any is_slash w ≡ false) (p ∷ ps)
    → All (λ w. any is_slash w ≡ false) (s ∷ ss)
    → ((join slash (s ∷ ss) === join slash (p ∷ ps))
        || starts_with (join slash (s ∷ ss)) (join slash (p ∷ ps) ++ slash ∷ []))
      ≡ is_prefix (p ∷ ps) (s ∷ ss)
unfolding join is_prefix
join-contains p [] s [] (h, _) (k, _) = ground (arith, starts_with-longer s p [] k, ===_sym s p)
join-contains p [] s (s2 ∷ ss) (h, _) (k, _) =
    rw
      (
        (===_word p s (join slash (s2 ∷ ss)) h).1,
        starts_with-word s p (join slash (s2 ∷ ss)) [] k h,
      )
      (unfold starts_with in ground arith)
join-contains p (p2 ∷ ps) s [] (h, hs) (k, ks) =
    let rest = join slash (p2 ∷ ps) in
    rw
      (
        append_assoc p (slash ∷ rest) (slash ∷ []),
        (===_word s p rest k).0,
        starts_with-longer s p (rest ++ slash ∷ []) k,
      )
      (ground arith)
join-contains p (p2 ∷ ps) s (s2 ∷ ss) (h, hs) (k, ks) =
    let rest = join slash (p2 ∷ ps) in
    let more = join slash (s2 ∷ ss) in
    rw
      (
        append_assoc p (slash ∷ rest) (slash ∷ []),
        ===_join s p more rest k h,
        starts_with-word s p more (rest ++ slash ∷ []) k h,
      )
      (ground (arith, join-contains p2 ps s2 ss hs ks, ===_sym p s, ===_sym p2 s2))

-- The text of a first segment is not empty.
pub join-cons :
    (s : Text) (ss : List Text)
    → is_empty s ≡ false
    → record { first : ℕ; rest : Text; eq : join slash (s ∷ ss) ≡ first ∷ rest }
unfolding join
join-cons [] ss h = cc
join-cons (c ∷ s) [] h = record { first = c; rest = s; eq = refl }
join-cons (c ∷ s) (t ∷ ss) h = record {
  first = c;
  rest = s ++ slash ∷ join slash (t ∷ ss);
  eq = refl;
}

contains_text-slash :
    (s : Text) (d : ℕ) (t : Text)
    → contains_text (slash ∷ s) (slash ∷ d ∷ t)
      ≡ ((s === (d ∷ t)) || starts_with s ((d ∷ t) ++ slash ∷ []))
unfolding ◌===◌ starts_with
contains_text-slash s d t = refl

contains_text-render :
    (ps ss : List Text)
    → All IsSegment ps
    → All IsSegment ss
    → contains_text (render ss) (render ps) ≡ is_prefix ps ss
unfolding render is_prefix ◌===◌
contains_text-render [] [] h k = refl
contains_text-render [] (s ∷ ss) h k = unfold starts_with in ground arith
contains_text-render (p ∷ ps) [] h k =
    let j = join-cons p ps h.0.named in rw j.eq (unfold starts_with in refl)
contains_text-render (p ∷ ps) (s ∷ ss) h k =
    let j = join-cons p ps h.0.named in
    let c = join-contains p ps s ss (All-within (p ∷ ps) h) (All-within (s ∷ ss) k) in
    rw j.eq (contains_text-slash (join slash (s ∷ ss)) j.first j.rest ∙ (rw j.eq at c))

-- Of canonical paths `isSameOrDescendant` asks whether the segments of the parent begin those of the
-- candidate.
pub is_same_or_descendant-render :
    (ss ps : List Text)
    → All IsSegment ss
    → All IsSegment ps
    → is_same_or_descendant (render ss) (render ps) ≡ ok (is_prefix ps ss)
unfolding is_same_or_descendant
is_same_or_descendant-render ss ps h k =
    rw (normalize-render ss h, normalize-render ps k) (ap ok (contains_text-render ps ss k h))

pub is_prefix-append : (ps ss : List Text) → is_prefix ps (ps ++ ss) ≡ true
unfolding is_prefix
is_prefix-append [] ss = refl
is_prefix-append (p ∷ ps) ss = rw (===_refl p) (is_prefix-append ps ss)

-- Two paths that contain one path are nested.
pub is_prefix_nested :
    (ps qs ss : List Text)
    → is_prefix ps ss ≡ true
    → is_prefix qs ss ≡ true
    → (is_prefix ps qs || is_prefix qs ps) ≡ true
unfolding is_prefix
is_prefix_nested [] qs ss h k = refl
is_prefix_nested (p ∷ ps) [] ss h k = ground arith
is_prefix_nested (p ∷ ps) (q ∷ qs) [] h k = cc
is_prefix_nested (p ∷ ps) (q ∷ qs) (s ∷ ss) h k =
    ground (arith, is_prefix_nested ps qs ss, ===_iff p s, ===_iff q s, ===_iff p q, ===_iff q p)
