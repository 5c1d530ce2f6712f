-- ===== src/Core/Path/Move.antt =====
-- Moving and joining canonical paths, and their parents (src/core/path.ts).
use supabash_fs.Prelude.{
  All, All-append, All-right, List, Text, [], ambiguous, any, any-append, ap, append-nil,
  append_assoc, ap₂, arith, drop, drop-append, err, false, if◌then◌else◌, is_empty, join, keep,
  length, length-append, map, not, ok, refl, split, starts_with, suc, sym, take, zero, ℕ, ◌++◌,
  ◌===◌, ◌∙◌, ◌∷◌, ◌≡◌,
}
use supabash_fs.Core.Path.{
  absolute_segments, before_last_slash, encoded_at, has_encoded, is_slash, move_descendant,
  normalize_virtual_path, parent_paths, parent_virtual_path, path_error, prefixes, render, resolve,
  root_path, slash,
}
use supabash_fs.Core.Path.Segments.{dirty, dirty-append, dirty-join, split-join, split-slash}
use supabash_fs.Core.Path.Canonical.{
  All-clean, All-within, IsSegment, any-All, normalize-render, normalize_clean,
  resolve_of_IsSegment,
}
use supabash_fs.Core.Path.Descend.{
  is_prefix, is_prefix-append, is_same_or_descendant-render, join-cons,
}

join-append :
    (s : Text) (ss : List Text) (t : Text) (ts : List Text)
    → join slash ((s ∷ ss) ++ t ∷ ts) ≡ join slash (s ∷ ss) ++ slash ∷ join slash (t ∷ ts)
unfolding join
join-append s [] t ts = refl
join-append s (u ∷ ss) t ts =
    rw (join-append u ss t ts)
      (sym (append_assoc s (slash ∷ join slash (u ∷ ss)) (slash ∷ join slash (t ∷ ts))))

render-append :
    (s : Text) (ss : List Text) (t : Text) (ts : List Text)
    → render ((s ∷ ss) ++ t ∷ ts) ≡ render (s ∷ ss) ++ render (t ∷ ts)
unfolding render
render-append s ss t ts = rw (join-append s ss t ts)

-- A slash too many in front changes nothing.
normalize-slash-render :
    (t : Text) (ts : List Text)
    → All IsSegment (t ∷ ts)
    → normalize_virtual_path (slash ∷ render (t ∷ ts)) ≡ ok (render (t ∷ ts))
unfolding render
normalize-slash-render t ts h =
    let j = join slash (t ∷ ts) in
    normalize_clean (slash ∷ slash ∷ j) (t ∷ ts) refl
      (unfold has_encoded encoded_at in
        dirty-append [] (slash ∷ j)
        ∙ dirty-append [] j
        ∙ dirty-join (t ∷ ts)
        ∙ any-All dirty (t ∷ ts) (All-clean (t ∷ ts) h))
      (unfold absolute_segments starts_with in
        rw
          (
            split-slash slash (slash ∷ j) refl,
            split-slash slash j refl,
            split-join t ts (All-within (t ∷ ts) h),
          )
          (unfold resolve in resolve_of_IsSegment (slash ∷ slash ∷ j) [] (t ∷ ts) h))

-- The destination with the part of the path below the source.
moved :
    (dst ss : List Text)
    → All IsSegment dst
    → All IsSegment ss
    → normalize_virtual_path (render dst ++ (if is_empty ss then [] else render ss))
      ≡ ok (render (dst ++ ss))
moved dst [] h k = rw (append-nil (render dst), append-nil dst) (normalize-render dst h)
moved [] (t ∷ ts) h k = unfold render in normalize-slash-render t ts k
moved (d ∷ ds) (t ∷ ts) h k =
    rw (← render-append d ds t ts)
      (normalize-render ((d ∷ ds) ++ t ∷ ts) (All-append IsSegment (d ∷ ds) (t ∷ ts) h k))

below :
    (s : Text) (src ss : List Text)
    → drop (length (render (s ∷ src))) (render ((s ∷ src) ++ ss))
      ≡ (if is_empty ss then [] else render ss)
below s src [] = rw (append-nil (s ∷ src)) (
    ap (drop (length (render (s ∷ src)))) (sym (append-nil (render (s ∷ src))))
    ∙ drop-append (render (s ∷ src)) [])
below s src (t ∷ ts) =
    rw (render-append s src t ts) (drop-append (render (s ∷ src)) (render (t ∷ ts)))

-- A canonical path at or below a directory other than the root, moved with it to a canonical path,
-- keeps its segments below the directory.
pub move_descendant-render :
    (s : Text) (src ss dst : List Text)
    → All IsSegment (s ∷ src)
    → All IsSegment ss
    → All IsSegment dst
    → move_descendant (render ((s ∷ src) ++ ss)) (render (s ∷ src)) (render dst)
      ≡ ok (render (dst ++ ss))
unfolding move_descendant
move_descendant-render s src ss dst h k l =
    let path = (s ∷ src) ++ ss in
    let plain = All-append IsSegment (s ∷ src) ss h k in
    rw
      (
        normalize-render path plain,
        normalize-render (s ∷ src) h,
        normalize-render dst l,
        is_same_or_descendant-render path (s ∷ src) plain h,
        is_prefix-append (s ∷ src) ss,
        below s src ss,
      )
      (moved dst ss l k)

-- A canonical path outside a canonical source is refused as ambiguous.
pub move_descendant_outside :
    (src ss dst : List Text)
    → All IsSegment src
    → All IsSegment ss
    → All IsSegment dst
    → is_prefix src ss ≡ false
    → move_descendant (render ss) (render src) (render dst) ≡ err (path_error (render ss) ambiguous)
unfolding move_descendant
move_descendant_outside src ss dst h k l e =
    rw
      (
        normalize-render ss k,
        normalize-render src h,
        normalize-render dst l,
        is_same_or_descendant-render ss src k h,
        e,
      )
      refl

keep-named : (ss : List Text) → All IsSegment ss → keep (λ s. not (is_empty s)) ss ≡ ss
keep-named [] h = refl
keep-named (s ∷ ss) (p, h) = rw (p.named, keep-named ss h) refl

-- The numbers from `start` on.
abbrev pub counted : ℕ → ℕ → List ℕ
counted start zero = []
counted start (suc n) = start ∷ counted (suc start) n

take-append : (xs ys : List Text) → take (length xs) (xs ++ ys) ≡ xs
take-append [] ys = refl
take-append (x ∷ xs) ys = ap (λ t. x ∷ t) (take-append xs ys)

prefixes-take :
    (passed ss : List Text) (s : Text)
    → prefixes passed (s ∷ ss)
      ≡ map (λ k. render (take k (passed ++ s ∷ ss))) (counted (suc (length passed)) (length ss))
prefixes-take passed [] s = refl
prefixes-take passed (t ∷ ss) s =
    let front = passed ++ s ∷ [] in
    let longer : suc (length passed) ≡ length front =
      omega (arith, length-append passed (s ∷ [])) in
    let whole : front ++ t ∷ ss ≡ passed ++ s ∷ t ∷ ss = append_assoc passed (s ∷ []) (t ∷ ss) in
    let first : render (take (suc (length passed)) (passed ++ s ∷ t ∷ ss)) ≡ render front =
      ap₂ (λ n l. render (take n l)) longer (sym whole) ∙ ap render (take-append front (t ∷ ss)) in
    ap₂ (λ h r. h ∷ r) (sym first)
      (prefixes-take front ss t
        ∙ ap₂ (λ n l. map (λ k. render (take k l)) (counted (suc n) (length ss))) (sym longer)
            whole)

-- The parents of a canonical path of n segments are the renderings of its first 1, 2, … n - 1
-- segments, in this order; the root has none.
pub parent_paths-render :
    (ss : List Text)
    → All IsSegment ss
    → parent_paths (render ss) ≡ ok (map (λ k. render (take k ss)) (counted 1 (length (drop 1 ss))))
unfolding parent_paths
parent_paths-render [] h = rw (normalize-render [] tt) (unfold render split in refl)
parent_paths-render (s ∷ ss) h = rw (normalize-render (s ∷ ss) h) (
    unfold render in
    rw (split-join s ss (All-within (s ∷ ss) h), keep-named (s ∷ ss) h)
      (ap ok (prefixes-take [] ss s)))

before_last-append : (w t : Text) → any is_slash t ≡ false → before_last_slash (w ++ slash ∷ t) ≡ w
before_last-append [] t h = rw h refl
before_last-append (c ∷ w) t h =
    rw (any-append is_slash w (slash ∷ t), before_last-append w t h) (ground arith)

parent_of :
    (r : Text) (c : ℕ) (u t : Text)
    → r ≡ slash ∷ c ∷ u
    → any is_slash t ≡ false
    → ok (
        if (r ++ render (t ∷ [])) === root_path
        then root_path
        else if is_empty (before_last_slash (r ++ render (t ∷ [])))
        then root_path
        else before_last_slash (r ++ render (t ∷ [])))
      ≡ ok r
unfolding render join
parent_of r c u t e h = rw (before_last-append r t h, e) (unfold ◌===◌ in refl)

-- The parent of a canonical path is the path without its last segment.
pub parent_virtual_path-render :
    (ss : List Text) (t : Text)
    → All IsSegment (ss ++ t ∷ [])
    → parent_virtual_path (render (ss ++ t ∷ [])) ≡ ok (render ss)
unfolding parent_virtual_path
parent_virtual_path-render [] t h =
    rw (normalize-render (t ∷ []) h) (unfold render join in rw h.0.within (ground arith))
parent_virtual_path-render (s ∷ ss) t h =
    let j = join-cons s ss h.0.named in
    let last = (All-right IsSegment (s ∷ ss) (t ∷ []) h).0 in
    rw (normalize-render (s ∷ ss ++ t ∷ []) h, render-append s ss t [])
      (parent_of (render (s ∷ ss)) j.first j.rest t (unfold render in ap (λ u. slash ∷ u) j.eq)
        last.within)
