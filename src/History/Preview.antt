-- ===== src/History/Preview.antt =====
-- src/history/preview.ts: the text that a diff shows of a file. `encode` and `decode` stand for
-- TextEncoder and for TextDecoder with `fatal`, which gives no text for bytes that are not UTF-8.
use supabash_fs.Prelude.{
  Bool, Option, Text, [], false, if◌then◌else◌, last, leb, length, min, none, not, same_option,
  some, suc, take, text, true, zero, ℕ, ◌++◌, ◌===◌, ◌==◌, ◌||◌, ◌∷◌,
}
use supabash_fs.Prelude.Dict.{get}
use supabash_fs.Core.Entries.{Bytes, WorkspaceEntryKind, file}
use supabash_fs.History.Records.{RevisionEntry}
use supabash_fs.History.Store.{HistoryStore}

pub data RevisionDiffKind : Type 0 where
  added deleted metadata modified moved type_change unavailable : RevisionDiffKind

abbrev pub newline : ℕ
newline = 10

abbrev pub ends_with_newline : Text → Bool
ends_with_newline value = same_option (λ a b. a == b) (last value) (some newline)

abbrev pub with_trailing_newline : Text → Text
with_trailing_newline value = if ends_with_newline value then value else value ++ newline ∷ []

abbrev pub both_texts : Text → Text → Text
both_texts before after =
    text "--- before"
    ++ newline ∷ with_trailing_newline before
    ++ text "+++ after"
    ++ newline ∷ after

unfoldable pub render_preview : Option Text → Option Text → Option Text
render_preview none none = none
render_preview none (some after) = some after
render_preview (some before) none = some before
render_preview (some before) (some after) =
    if before === after then none else some (both_texts before after)

abbrev pub shows_text : RevisionDiffKind → Bool
shows_text added = true
shows_text deleted = true
shows_text modified = true
shows_text _ = false

module _ (encode : Text → Bytes) (decode : Bytes → Option Text) where
  -- The loop of `utf8Prefix`: the longest prefix of at most that many bytes that is a text
  abbrev pub prefix_of_length : Option Text → Text → Text
  prefix_of_length (some found) shorter = found
  prefix_of_length none shorter = shorter

  unfoldable pub utf8_prefix : Bytes → ℕ → Text
  utf8_prefix encoded zero = []
  utf8_prefix encoded (suc size) =
      let shorter = utf8_prefix encoded size in
      prefix_of_length (decode (take (suc size) encoded)) shorter

  abbrev pub text_in : Option Bytes → Option Text
  text_in none = none
  text_in (some body) = decode body

  abbrev pub text_of_hash : HistoryStore → Option Text → Option Text
  text_of_hash s none = none
  text_of_hash s (some hash) = text_in (get s.objects hash)

  abbrev pub text_of_kind : HistoryStore → RevisionEntry → WorkspaceEntryKind → Option Text
  text_of_kind s entry file = text_of_hash s entry.content_hash
  text_of_kind s entry _ = none

  abbrev pub text_of : HistoryStore → Option RevisionEntry → Option Text
  text_of s none = none
  text_of s (some entry) = text_of_kind s entry entry.entry_kind

  abbrev pub truncation : Text
  truncation = newline ∷ text "[truncated]" ++ newline ∷ []

  abbrev pub within : ℕ → Option Text → Option Text
  within limit none = none
  within limit (some rendered) =
      let encoded = encode rendered in
      some (
        if leb (length encoded) limit
        then rendered
        else utf8_prefix encoded (min limit (length encoded)) ++ truncation)

  unfoldable pub revision_diff_preview :
      HistoryStore
      → RevisionDiffKind
      → Option RevisionEntry
      → Option RevisionEntry
      → ℕ
      → Option Text
  revision_diff_preview s kind before after limit =
      if limit == 0 || not (shows_text kind)
      then none
      else within limit (render_preview (text_of s before) (text_of s after))
