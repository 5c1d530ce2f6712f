-- ===== src/Core/Path.antt =====
-- src/core/path.ts: virtual paths. A thrown `VirtualPathError` is an error with an issue.
pub mod Segments
pub mod Canonical
pub mod Descend
pub mod Move
use supabash_fs.Prelude.{
  Bool, List, Result, SupabashError, Text, VirtualPathIssue, [], ambiguous, any, drop, drop_last,
  err, false, if◌then◌else◌, includes, invalid_path, is_empty, join, keep, leb, length, not, ok,
  out_of_root, reserved, some, split, starts_with, text, throw_if, ℕ, ◌&&◌, ◌++◌, ◌===◌, ◌==◌,
  ◌>>=◌, ◌>>◌, ◌||◌, ◌∷◌,
}

abbrev pub slash : ℕ
slash = b'/'

abbrev pub root_path : Text
root_path = text "/"

abbrev pub dot : Text
dot = text "."

abbrev pub dot_dot : Text
dot_dot = text ".."

abbrev pub reserved_segments : List Text
reserved_segments = text ".supabash" ∷ text ".supabash-directory" ∷ []

abbrev pub path_error : Text → VirtualPathIssue → SupabashError
path_error p i = record { code = invalid_path; path = some p; issue = some i }

-- Of a string's code points those up to 31, and 127, are single code units.
abbrev pub is_control : ℕ → Bool
is_control c = leb c 31 || c == 127

abbrev pub is_backslash : ℕ → Bool
is_backslash c = c == 0x5c

abbrev pub is_slash : ℕ → Bool
is_slash c = c == slash

-- One match of `%(?:2e|2f|5c)` at the start, in either case of the letter.
unfoldable pub encoded_at : Text → Bool
encoded_at (a ∷ b ∷ c ∷ s) =
    a == b'%'
    && ((b == b'2' && (c == b'e' || c == b'E' || c == b'f' || c == b'F'))
        || (b == b'5' && (c == b'c' || c == b'C')))
encoded_at _ = false

unfoldable pub has_encoded : Text → Bool
has_encoded [] = false
has_encoded (c ∷ s) = encoded_at (c ∷ s) || has_encoded s

unfoldable pub absolute_segments : Text → List Text
absolute_segments input = split slash (if starts_with input root_path then input else slash ∷ input)

-- The loop of `normalizeVirtualPath` over the segments that are left.
unfoldable pub resolve : Text → List Text → List Text → Result (List Text)
resolve input segments [] = ok segments
resolve input segments (segment ∷ rest) =
    if is_empty segment || segment === dot
    then resolve input segments rest
    else (let popped = resolve input (drop_last segments) rest in
        let pushed = resolve input (segments ++ segment ∷ []) rest in
        if segment === dot_dot
        then (if is_empty segments then err (path_error input out_of_root) else popped)
        else if includes reserved_segments segment
        then err (path_error input reserved)
        else pushed)

unfoldable pub render : List Text → Text
render [] = root_path
render (s ∷ ss) = slash ∷ join slash (s ∷ ss)

unfoldable pub normalize_virtual_path : Text → Result Text
normalize_virtual_path input = do
  throw_if (is_empty input) (path_error input ambiguous)
  throw_if (any is_control input) (path_error input ambiguous)
  throw_if (any is_backslash input || has_encoded input) (path_error input ambiguous)
  segments ← resolve input [] (absolute_segments input)
  ok (render segments)

unfoldable pub relative_object_path : Text → Result Text
relative_object_path path = do
  normalized ← normalize_virtual_path path
  throw_if (normalized === root_path) (path_error path ambiguous)
  ok (drop 1 normalized)

unfoldable pub join_virtual_path : Text → Text → Result Text
join_virtual_path base child = do
  normalized ← normalize_virtual_path base
  normalize_virtual_path (normalized ++ (slash ∷ child))

unfoldable pub is_same_or_descendant : Text → Text → Result Bool
is_same_or_descendant candidate parent = do
  c ← normalize_virtual_path candidate
  p ← normalize_virtual_path parent
  ok (c === p || starts_with c ((if p === root_path then [] else p) ++ slash ∷ []))

unfoldable pub move_descendant : Text → Text → Text → Result Text
move_descendant path source destination = do
  p ← normalize_virtual_path path
  s ← normalize_virtual_path source
  d ← normalize_virtual_path destination
  inside ← is_same_or_descendant p s
  throw_if (not inside) (path_error path ambiguous)
  normalize_virtual_path (d ++ drop (length s) p)

-- `segments.slice(0, -1).map((_, index) => render(segments.slice(0, index + 1)))`, from the
-- segments already passed
abbrev pub prefixes : List Text → List Text → List Text
prefixes passed [] = []
prefixes passed (s ∷ []) = []
prefixes passed (s ∷ t ∷ rest) = render (passed ++ s ∷ []) ∷ prefixes (passed ++ s ∷ []) (t ∷ rest)

unfoldable pub parent_paths : Text → Result (List Text)
parent_paths path = do
  normalized ← normalize_virtual_path path
  ok (prefixes [] (keep (λ s. not (is_empty s)) (split slash (drop 1 normalized))))

-- The text before the last slash: `path.slice(0, path.lastIndexOf('/'))`, empty at index 0 or -1.
abbrev pub before_last_slash : Text → Text
before_last_slash [] = []
before_last_slash (c ∷ s) =
    let rest = before_last_slash s in if any is_slash s then c ∷ rest else []

unfoldable pub parent_virtual_path : Text → Result Text
parent_virtual_path path = do
  normalized ← normalize_virtual_path path
  let parent = before_last_slash normalized
  ok (if normalized === root_path then root_path else if is_empty parent then root_path else parent)
