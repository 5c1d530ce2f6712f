-- ===== src/Core/Path/Segments.antt =====
-- Texts as segments joined by slashes: what `split` and `join` keep (src/core/path.ts).
use supabash_fs.Prelude.{
  ==_iff, All, Bool, Bool-cases, List, Text, [], any, any-append, ap, arith, false, inl, inr, join,
  push_head, refl, split, true, ℕ, ◌++◌, ◌==◌, ◌||◌, ◌∙◌, ◌∷◌, ◌≡◌,
}
use supabash_fs.Core.Path.{encoded_at, has_encoded, is_backslash, is_control, is_slash, slash}

-- What `normalizeVirtualPath` refuses before it reads any segment.
abbrev pub dirty : Text → Bool
dirty s = any is_control s || (any is_backslash s || has_encoded s)

encoded_at-append :
    (w t : Text) (a b c : ℕ) → encoded_at (a ∷ b ∷ c ∷ w ++ t) ≡ encoded_at (a ∷ b ∷ c ∷ w)
unfolding encoded_at
encoded_at-append w t a b c = refl

has_encoded-append : (w t : Text) → has_encoded (w ++ slash ∷ t) ≡ (has_encoded w || has_encoded t)
unfolding has_encoded encoded_at
has_encoded-append [] [] = refl
has_encoded-append [] (x ∷ []) = refl
has_encoded-append [] (x ∷ y ∷ t) = refl
has_encoded-append (a ∷ []) [] = refl
has_encoded-append (a ∷ []) (x ∷ []) = ground arith
has_encoded-append (a ∷ []) (x ∷ y ∷ t) = ground arith
has_encoded-append (a ∷ b ∷ []) t = ground (arith, has_encoded-append (b ∷ []) t)
has_encoded-append (a ∷ b ∷ c ∷ w) t = ground (arith, has_encoded-append (b ∷ c ∷ w) t)

pub dirty-append : (w t : Text) → dirty (w ++ slash ∷ t) ≡ (dirty w || dirty t)
dirty-append w t = ground (
  arith,
  has_encoded-append w t,
  any-append is_control w (slash ∷ t),
  any-append is_backslash w (slash ∷ t),
)

pub dirty-join : (ws : List Text) → dirty (join slash ws) ≡ any dirty ws
unfolding join has_encoded
dirty-join [] = refl
dirty-join (w ∷ []) = ground arith
dirty-join (w ∷ v ∷ ws) = ground (arith, dirty-append w (join slash (v ∷ ws)), dirty-join (v ∷ ws))

join-push_head :
    (c : ℕ) (w : Text) (ws : List Text)
    → join slash (push_head c (w ∷ ws)) ≡ c ∷ join slash (w ∷ ws)
unfolding join
join-push_head c w [] = refl
join-push_head c w (v ∷ ws) = refl

-- A split has a first word.
pub split-cons :
    (s : Text) → record { first : Text; rest : List Text; eq : split slash s ≡ first ∷ rest }
unfolding split
split-cons [] = record { first = []; rest = []; eq = refl }
split-cons (c ∷ s) =
    let h = split-cons s in
    elim (Bool-cases (c == slash)) [
      | inl e ↦ record { first = []; rest = split slash s; eq = rw e refl }
      | inr e ↦ record { first = c ∷ h.first; rest = h.rest; eq = rw (e, h.eq) refl }
    ]

-- The split of a text one unit longer.
pub split-slash :
    (c : ℕ) (s : Text) → (c == slash) ≡ true → split slash (c ∷ s) ≡ [] ∷ split slash s
unfolding split
split-slash c s e = rw e refl

split-push :
    (c : ℕ) (s : Text) → (c == slash) ≡ false → split slash (c ∷ s) ≡ push_head c (split slash s)
unfolding split
split-push c s e = rw e refl

join-nil_cons : (v : Text) (ws : List Text) → join slash ([] ∷ v ∷ ws) ≡ slash ∷ join slash (v ∷ ws)
unfolding join
join-nil_cons v ws = refl

pub join-split : (s : Text) → join slash (split slash s) ≡ s
join-split [] = unfold split join in refl
join-split (c ∷ s) =
    let h = split-cons s in
    elim (Bool-cases (c == slash)) [
      | inl e ↦
          rw (split-slash c s e, h.eq)
            (cc (join-nil_cons h.first h.rest, join-split s, h.eq, (==_iff c slash).0 e))
      | inr e ↦
          rw (split-push c s e, h.eq)
            (rw (join-push_head c h.first h.rest) (cc (join-split s, h.eq)))
    ]

push_head-no_slash :
    (c : ℕ) (ws : List Text)
    → (c == slash) ≡ false
    → All (λ w. any is_slash w ≡ false) ws
    → All (λ w. any is_slash w ≡ false) (push_head c ws)
push_head-no_slash c [] e h = (rw e refl, tt)
push_head-no_slash c (w ∷ ws) e h = (rw (e, h.0) refl, h.1)

pub split-no_slash : (s : Text) → All (λ w. any is_slash w ≡ false) (split slash s)
split-no_slash [] = unfold split in (refl, tt)
split-no_slash (c ∷ s) = elim (Bool-cases (c == slash)) [
  | inl e ↦ rw (split-slash c s e) (refl, split-no_slash s)
  | inr e ↦ rw (split-push c s e) (push_head-no_slash c (split slash s) e (split-no_slash s))
]

split-append :
    (w t : Text) → any is_slash w ≡ false → split slash (w ++ slash ∷ t) ≡ w ∷ split slash t
unfolding split
split-append [] t h = refl
split-append (c ∷ w) t h = ground (arith, split-append w t)

split_word : (w : Text) → any is_slash w ≡ false → split slash w ≡ w ∷ []
unfolding split
split_word [] h = refl
split_word (c ∷ w) h = ground (arith, split_word w)

pub split-join :
    (w : Text) (ws : List Text)
    → All (λ s. any is_slash s ≡ false) (w ∷ ws)
    → split slash (join slash (w ∷ ws)) ≡ w ∷ ws
unfolding join
split-join w [] (h, _) = split_word w h
split-join w (v ∷ ws) (h, k) =
    split-append w (join slash (v ∷ ws)) h ∙ ap (λ t. w ∷ t) (split-join v ws k)
