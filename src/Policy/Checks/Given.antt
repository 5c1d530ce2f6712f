-- ===== src/Policy/Checks/Given.antt =====
-- The words that a command is given as paths, by their place (src/policy/checks.ts, command-paths.ts).
use supabash_fs.Prelude.{
  ===_iff, ===_refl, All, Bool, Bool-cases, List, Member, Result, Text, [], any, ap, arith, drop,
  err, false, if◌then◌else◌, includes, inl, inr, keep, map, not, not_both, ok, refl, starts_with,
  subst, sym, text, true, ◌&&◌, ◌===◌, ◌||◌, ◌∙◌, ◌∷◌, ◌≡◌, ◌≢◌,
}
use supabash_fs.Core.Path.{normalize_virtual_path, root_path}
use supabash_fs.Policy.Segments.{
  CommandRedirect, CommandSegment, CommandWord, end_of_flags, is_flag, literal, word_value,
}
use supabash_fs.Policy.Paths.{
  is_root_target, is_unbounded_glob, joined_path, reason_of, resolve_command_path,
  resolve_command_word,
}
use supabash_fs.Policy.Arguments.{args_of_head, path_args, positional_from, positional_words}
use supabash_fs.Policy.Checks.{
  any_root, is_path_redirect, names_root, path_redirects, redirect_targets,
}
use supabash_fs.Policy.Checks.Laws.{NamesPermitted}

-- The commands of which every argument is a path, among them.
abbrev pub path_heads : List Text
path_heads =
    text "cat" ∷ text "cp" ∷ text "ls" ∷ text "mkdir" ∷ text "mv" ∷ text "rm" ∷ text "touch" ∷ []

-- A word that a command is given as a path: behind the name of one of these commands, and no flag; or
-- where a redirect leads.
pub data GivenPath (command : CommandSegment) (value : Text) : Type 0 where
  argument :
      Member command.head path_heads
      → Member (literal value) (drop 1 command.words)
      → is_flag value ≡ false
      → GivenPath command value
  redirected :
      (op : Text)
      → Member (record { op = op; target = literal value }) command.redirects
      → includes path_redirects op ≡ true
      → GivenPath command value

path_args-heads :
    (command : CommandSegment)
    → Member command.head path_heads
    → path_args command ≡ positional_words command
unfolding args_of_head ◌===◌
path_args-heads command (inl e) = ap (λ h. args_of_head h command) e
path_args-heads command (inr (inl e)) = ap (λ h. args_of_head h command) e
path_args-heads command (inr (inr (inl e))) = ap (λ h. args_of_head h command) e
path_args-heads command (inr (inr (inr (inl e)))) = ap (λ h. args_of_head h command) e
path_args-heads command (inr (inr (inr (inr (inl e))))) = ap (λ h. args_of_head h command) e
path_args-heads command (inr (inr (inr (inr (inr (inl e)))))) = ap (λ h. args_of_head h command) e
path_args-heads command (inr (inr (inr (inr (inr (inr (inl e))))))) =
    ap (λ h. args_of_head h command) e
path_args-heads command (inr (inr (inr (inr (inr (inr (inr none_left))))))) = absurd none_left

is_flag_end : (value : Text) → is_flag value ≡ false → (value === end_of_flags) ≡ true → ⊥
unfolding is_flag starts_with ◌===◌
is_flag_end value f e = not_both refl (sym (ap is_flag ((===_iff value end_of_flags).0 e)) ∙ f)

positional_from-Member :
    (words : List CommandWord) (ended : Bool) (value : Text)
    → Member (literal value) words
    → is_flag value ≡ false
    → Member (literal value) (positional_from words ended)
positional_from-Member [] ended value m f = absurd m
positional_from-Member (word ∷ words) ended value (inl e) f =
    subst (λ w. Member (literal value) (positional_from (w ∷ words) ended)) e
      (head_kept ended (value === end_of_flags) (is_flag_end value f))
  where
    head_kept :
        (over ends : Bool)
        → (ends ≡ true → ⊥)
        → Member (literal value) (
            if not over && ends
            then positional_from words true
            else if over || not (is_flag value)
            then literal value ∷ positional_from words over
            else positional_from words over)
    head_kept over true h = absurd (h refl)
    head_kept true false h = inl refl
    head_kept false false h = rw f (inl refl)
positional_from-Member (word ∷ words) ended value (inr m) f =
    behind (not ended && word_value word === end_of_flags)
      (ended || not (is_flag (word_value word))) (positional_from-Member words true value m f)
      (positional_from-Member words ended value m f)
  where
    behind :
        (ends here : Bool)
        → Member (literal value) (positional_from words true)
        → Member (literal value) (positional_from words ended)
        → Member (literal value) (
            if ends
            then positional_from words true
            else if here
            then word ∷ positional_from words ended
            else positional_from words ended)
    behind true here a b = a
    behind false true a b = inr b
    behind false false a b = b

All-Member : {A : Type 0} (P : A → Type 0) (xs : List A) (x : A) → All P xs → Member x xs → P x
All-Member P [] x h m = absurd m
All-Member P (y ∷ ys) x (p, h) (inl e) = subst P (sym e) p
All-Member P (y ∷ ys) x (p, h) (inr m) = All-Member P ys x h m

redirects-Member :
    (redirects : List CommandRedirect) (op value : Text)
    → Member (record { op = op; target = literal value }) redirects
    → includes path_redirects op ≡ true
    → Member (literal value) (
        map
          (λ (r : CommandRedirect). r.target)
          (keep (λ (r : CommandRedirect). is_path_redirect r.op) redirects))
redirects-Member [] op value m h = absurd m
redirects-Member (r ∷ redirects) op value (inl e) h =
    let kept : is_path_redirect r.op ≡ true =
      subst (λ (q : CommandRedirect). is_path_redirect q.op ≡ true) e h in
    rw kept (inl (ap (λ (q : CommandRedirect). q.target) e))
redirects-Member (r ∷ redirects) op value (inr m) h =
    let later = redirects-Member redirects op value m h in
    elim (Bool-cases (is_path_redirect r.op)) [ inl e ↦ rw e (inr later) | inr e ↦ rw e later ]

-- The path that a word means in a directory, if it is no glob.
abbrev pub meant : Text → Text → Result Text
meant value cwd = normalize_virtual_path (joined_path value cwd)

abbrev pub is_any_glob : Text → Text → Bool
is_any_glob value cwd = is_unbounded_glob value || is_unbounded_glob (joined_path value cwd)

NamesPermitted-meant :
    (value cwd : Text)
    → is_any_glob value cwd ≡ false
    → NamesPermitted cwd (literal value)
    → (p : Text) × (meant value cwd ≡ ok p)
unfolding resolve_command_word resolve_command_path
NamesPermitted-meant value cwd g h = decided (meant value cwd) refl
  where
    decided : (r : Result Text) → meant value cwd ≡ r → (p : Text) × (meant value cwd ≡ ok p)
    decided (ok p) e = (p, e)
    decided (err x) e = absurd (h (reason_of x.issue) (rw (g, e) refl))

-- Where the paths of a command pass, what it is given as a path means one that is admitted.
pub given-meant :
    (command : CommandSegment) (directory value : Text)
    → All (NamesPermitted directory) (redirect_targets command)
      × All (NamesPermitted directory) (path_args command)
    → GivenPath command value
    → is_any_glob value directory ≡ false
    → (p : Text) × (meant value directory ≡ ok p)
given-meant command directory value (targets, args) (argument head among flag) g =
    let words = subst (All (NamesPermitted directory)) (path_args-heads command head) args in
    NamesPermitted-meant value directory g (
      All-Member (NamesPermitted directory) (positional_words command) (literal value) words
        (positional_from-Member (drop 1 command.words) false value among flag))
given-meant command directory value (targets, args) (redirected op among path) g =
    NamesPermitted-meant value directory g (
      All-Member (NamesPermitted directory) (redirect_targets command) (literal value) targets
        (redirects-Member command.redirects op value among path))

any-Member :
    {A : Type 0} (test : A → Bool) (xs : List A) (x : A)
    → any test xs ≡ false
    → Member x xs
    → test x ≡ false
any-Member test [] x h m = absurd m
any-Member test (y ∷ ys) x h (inl e) = ap test e ∙ ground (arith, h)
any-Member test (y ∷ ys) x h (inr m) = any-Member test ys x (ground (arith, h)) m

-- Where no argument names the root, none means it.
pub root_not_meant :
    (command : CommandSegment) (directory value : Text)
    → command.head ≡ text "rm"
    → any_root command directory ≡ false
    → Member (literal value) (drop 1 command.words)
    → is_flag value ≡ false
    → is_any_glob value directory ≡ false
    → meant value directory ≢ ok root_path
unfolding resolve_command_word resolve_command_path is_root_target
root_not_meant command directory value is_rm h among flag g e =
    let head : Member command.head path_heads = inr (inr (inr (inr (inr (inl is_rm))))) in
    let words : any (names_root directory) (positional_words command) ≡ false =
      subst (λ ws. any (names_root directory) ws ≡ false) (path_args-heads command head) h in
    let not_named =
      any-Member (names_root directory) (positional_words command) (literal value) words
        (positional_from-Member (drop 1 command.words) false value among flag) in
    let same : (root_path === root_path) ≡ true = ===_refl root_path in
    not_both same (rw (g, e) at not_named)
