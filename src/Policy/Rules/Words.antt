-- ===== src/Policy/Rules/Words.antt =====
-- What src/policy/rules.ts makes of wrappers, scripts and `find -exec`.
use supabash_fs.Policy.Types.{granted}
use supabash_fs.Prelude.Tests.{Bool-cases, if◌then◌else◌, not_both}
use supabash_fs.Prelude.{
  ===_iff, All, Bool, List, Member, Text, [], any, ap, append-nil, append_assoc, drop, false, inl,
  inr, is_empty, map, none, refl, some, suc, sym, text, true, zero, ℕ, ◌++◌, ◌===◌, ◌∙◌, ◌∷◌, ◌≡◌,
}
use supabash_fs.Policy.Commands.{is_wrapper_command}
use supabash_fs.Policy.Segments.{
  CommandSegment, CommandWord, is_flag, literal, segment_from_words, word_value,
}
use supabash_fs.Policy.Options.{is_equals}
use supabash_fs.Policy.Unwrap.{
  ends_exec, exec_commands, find_exec_segments, from_script_flag, nested_shell, rewrapped, script,
  script_behind, skip_assignments, skip_flags, skip_wrapper_words, starts_with_digit,
  unwrap_segment, unwrap_words, with_command, without_placeholder, wrapper_limit,
}
use supabash_fs.Policy.Rules.Runs.{
  Argument, Behind, Called, Executes, ScriptOf, assignments, bare, behind, direct, duration,
  executed, itself, nothing, other, wrapped,
}

skip_assignments-all :
    (values : List Text) (name : Text) (rest : List CommandWord)
    → All (λ value. (is_flag value ≡ false) × (any is_equals value ≡ true)) values
    → any is_equals name ≡ false
    → skip_assignments (map literal values ++ literal name ∷ rest) ≡ literal name ∷ rest
skip_assignments-all [] name rest h e = rw e refl
skip_assignments-all (value ∷ values) name rest (p, h) e =
    rw p.1 (skip_assignments-all values name rest h e)

-- A wrapper without flags.
without_flags :
    (wrapper value : Text) (rest : List CommandWord)
    → is_flag value ≡ false
    → skip_flags wrapper (literal value ∷ rest) false ≡ literal value ∷ rest
without_flags wrapper value rest e = rw e refl

bare_words :
    (timed assigned digit equals : Bool) (name : Text) (rest : List CommandWord)
    → digit ≡ false
    → equals ≡ false
    → (let words = literal name ∷ rest in
        let command = if timed then (if digit then rest else words) else words in
        if assigned then (if equals then rest else words) else words)
      ≡ literal name ∷ rest
bare_words timed assigned true equals name rest d e = absurd (not_both refl d)
bare_words timed assigned false true name rest d e = absurd (not_both refl e)
bare_words timed true false false name rest d e = refl
bare_words timed false false false name rest d e = refl

skip_wrapper_words-Argument :
    (wrapper : Text) (given : List Text) (name : Text) (rest : List CommandWord)
    → Argument wrapper given
    → is_flag name ≡ false
    → starts_with_digit name ≡ false
    → any is_equals name ≡ false
    → skip_wrapper_words wrapper (map literal given ++ literal name ∷ rest) ≡ literal name ∷ rest
unfolding ◌===◌
skip_wrapper_words-Argument _ _ name rest (bare wrapper) f d e =
    elim (Bool-cases (wrapper === text "timeout")) [
      | inl t ↦ elim (Bool-cases (wrapper === text "env")) [
        | inl v ↦ rw (f, t, d, v, e) refl
        | inr v ↦ rw (f, t, d, v) refl
      ]
      | inr t ↦ elim (Bool-cases (wrapper === text "env")) [
        | inl v ↦ rw (f, t, v, e) refl
        | inr v ↦ rw (f, t, v) refl
      ]
    ]
skip_wrapper_words-Argument _ _ name rest (duration value p q) f d e = rw (p, q) refl
skip_wrapper_words-Argument _ _ name rest (assignments [] h) f d e = rw (f, e) refl
skip_wrapper_words-Argument _ _ name rest (assignments (value ∷ values) h) f d e =
    rw h.0.0 (skip_assignments-all (value ∷ values) name rest h e)

Behind-unwraps :
    {n : ℕ} {words out : List CommandWord} → Behind n words out → unwrap_words n words ≡ out
Behind-unwraps (itself zero name rest e) = refl
Behind-unwraps (itself (suc n) name rest e) = rw e refl
Behind-unwraps (wrapped n wrapper given name rest out w a f d e b) =
    rw (w, skip_wrapper_words-Argument wrapper given name rest a f d e) (Behind-unwraps b)

Behind-named :
    {n : ℕ} {words out : List CommandWord}
    → Behind n words out
    → (name : Text) × (rest : List CommandWord) × (out ≡ literal name ∷ rest)
      × (is_wrapper_command name ≡ false)
Behind-named (itself n name rest e) = (name, rest, refl, e)
Behind-named (wrapped n wrapper given name rest out w a f d e b) = Behind-named b

rewrapped-direct :
    (segment : CommandSegment) (name : Text) (rest : List CommandWord)
    → segment.head ≡ name
    → rewrapped segment (literal name ∷ rest) ≡ granted segment
rewrapped-direct segment name rest e =
    let same : (name === segment.head) ≡ true = (===_iff name segment.head).1 (sym e) in
    rw same refl

rewrapped-behind :
    (segment : CommandSegment) (name : Text) (rest : List CommandWord)
    → is_wrapper_command segment.head ≡ true
    → is_wrapper_command name ≡ false
    → rewrapped segment (literal name ∷ rest)
      ≡ granted (segment_from_words (literal name ∷ rest) segment.redirects segment.joiner)
rewrapped-behind segment name rest w n = elim (Bool-cases (name === segment.head)) [
  | inl e ↦ absurd (not_both w (ap is_wrapper_command (sym ((===_iff name segment.head).0 e)) ∙ n))
  | inr e ↦ rw e refl
]

-- The policy finds the command that a segment calls.
pub unwrap_segment-Called :
    {segment command : CommandSegment}
    → Called segment command
    → unwrap_segment segment ≡ granted command
unfolding unwrap_segment
unwrap_segment-Called {segment} (direct name rest e h n) =
    ap (λ words. rewrapped segment (unwrap_words wrapper_limit words)) e
    ∙ ap (rewrapped segment) (Behind-unwraps (itself wrapper_limit name rest n))
    ∙ rewrapped-direct segment name rest h
unwrap_segment-Called {segment} (behind out w b) =
    let (name, rest, e, n) = Behind-named b in
    ap (rewrapped segment) (Behind-unwraps b ∙ e)
    ∙ rewrapped-behind segment name rest w n
    ∙ ap (λ words. granted (segment_from_words words segment.redirects segment.joiner)) (sym e)

from_script_flag-before :
    (before after : List CommandWord) (source : Text)
    → All (λ word. (word_value word === text "-c") ≡ false) before
    → from_script_flag (before ++ literal (text "-c") ∷ literal source ∷ after)
      ≡ literal (text "-c") ∷ literal source ∷ after
unfolding ◌===◌
from_script_flag-before [] after source h = refl
from_script_flag-before (word ∷ before) after source (p, h) =
    rw p (from_script_flag-before before after source h)

-- The policy finds the script of a shell.
pub nested_shell-ScriptOf :
    {shell : CommandSegment} {source : Text}
    → ScriptOf shell source
    → nested_shell shell ≡ some (script source)
unfolding nested_shell
nested_shell-ScriptOf {shell} {source} s = rw s.named (
    ap script_behind
      (ap from_script_flag s.written ∙ from_script_flag-before s.before s.after source s.earlier))

abbrev pub executed_segments : List (List CommandWord) → List CommandSegment
executed_segments commands = map (λ command. segment_from_words command [] none) commands

exec_commands-read :
    (read command : List CommandWord) (end : CommandWord) (words : List CommandWord)
    → All (λ word. ends_exec word ≡ false) command
    → ends_exec end ≡ true
    → is_empty (read ++ map without_placeholder command) ≡ false
    → exec_commands (command ++ end ∷ words) (some read)
      ≡ with_command (read ++ map without_placeholder command) (exec_commands words none)
exec_commands-read read [] end words h e n =
    rw (e, sym (ap is_empty (append-nil read)) ∙ n)
      (ap (λ r. with_command r (exec_commands words none)) (sym (append-nil read)))
exec_commands-read read (word ∷ command) end words (p, h) e n =
    let one = without_placeholder word ∷ [] in
    let same : (read ++ one) ++ map without_placeholder command
        ≡ read ++ map without_placeholder (word ∷ command) =
      append_assoc read one (map without_placeholder command) in
    rw p (
      exec_commands-read (read ++ one) command end words h e (ap is_empty same ∙ n)
      ∙ ap (λ r. with_command r (exec_commands words none)) same)

mapped_not_empty :
    (command : List CommandWord)
    → is_empty command ≡ false
    → is_empty (map without_placeholder command) ≡ false
mapped_not_empty [] h = h
mapped_not_empty (word ∷ command) h = refl

exec_commands-Executes :
    {words : List CommandWord} {commands : List (List CommandWord)}
    → Executes words commands
    → exec_commands words none ≡ granted (executed_segments commands)
exec_commands-Executes nothing = refl
exec_commands-Executes (other word words commands e x) = rw e (exec_commands-Executes x)
exec_commands-Executes (executed marker command end words commands m n h e x) =
    let later = exec_commands-Executes x in
    rw m (
      exec_commands-read [] command end words h e (mapped_not_empty command n)
      ∙ ap (with_command (map without_placeholder command)) later)

-- The policy finds the commands that a `find` executes.
pub find_exec_segments-Executes :
    (find : CommandSegment) {commands : List (List CommandWord)}
    → find.head ≡ text "find"
    → Executes (drop 1 find.words) commands
    → find_exec_segments find ≡ granted (executed_segments commands)
unfolding find_exec_segments
find_exec_segments-Executes find h x =
    let named : (find.head === text "find") ≡ true = (===_iff find.head (text "find")).1 h in
    rw named (exec_commands-Executes x)

pub Member-executed :
    (called : List CommandWord) (commands : List (List CommandWord))
    → Member called commands
    → Member (segment_from_words called [] none) (executed_segments commands)
Member-executed called [] m = absurd m
Member-executed called (command ∷ commands) (inl e) =
    inl (ap (λ words. segment_from_words words [] none) e)
Member-executed called (command ∷ commands) (inr m) = inr (Member-executed called commands m)
