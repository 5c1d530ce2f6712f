-- ===== src/Capability/Guard.antt =====
-- src/capability/guard.ts and readonly-fs.ts: which operations of a workspace a capability allows.
use supabash_fs.History.Publish.{CommitContext}
use supabash_fs.Prelude.Tests.{Bool-cases, if◌then◌else◌}
use supabash_fs.Prelude.{
  Bool, List, Option, SupabashError, Text, [], any, ap, arith, authorization, err, false, inl, inr,
  none, refl, some, supabash_error, true, ◌∷◌, ◌≡◌, ◌≢◌, ◌⊎◌,
}
use supabash_fs.Prelude.Exec.{Exec, gets, pure, throw, ◌>>=◌}
use supabash_fs.Capability.Claims.{
  DelegatedOperation, checkpoint, commit, history, purge, read, redact, restore, write,
}

-- A method call of a workspace. `committing` holds the context of the commit, if it has one; of the other calls the
-- arguments, which are passed on as they are, are left out.
pub data Request : Type 0 where
  changes checkpointing checkpoints deleting discarding diffing listing purging reading_revision
        restoring redacting floor :
      Request
  committing : Option CommitContext → Request

abbrev pub denied : SupabashError
denied = supabash_error authorization none

abbrev pub same_operation : DelegatedOperation → DelegatedOperation → Bool
same_operation checkpoint checkpoint = true
same_operation commit commit = true
same_operation history history = true
same_operation purge purge = true
same_operation redact redact = true
same_operation read read = true
same_operation restore restore = true
same_operation write write = true
same_operation _ _ = false

abbrev pub allows : List DelegatedOperation → DelegatedOperation → Bool
allows operations op = any (λ o. same_operation o op) operations

-- The inner workspace `W`: whether it has staged changes, and what a call does.
pub record Inner (W Reply : Type 0) : Type 0 where
  pub has_changes : W → Bool
  pub perform : Request → Exec W Reply
  pub nothing : Reply

pub record Guarded : Type 0 where
  pub operations : List DelegatedOperation
  pub actor : Text
  pub correlation_id : Text

-- `{ ...options.context, actor, correlationId }`
abbrev pub attributed_context : Guarded → Option CommitContext → CommitContext
attributed_context g none = record {
  actor = g.actor;
  cause = none;
  correlation_id = g.correlation_id;
  idempotency_key = none;
  metadata = none;
}
attributed_context g (some given) = record given {
  actor = g.actor;
  correlation_id = g.correlation_id;
}

module _ {W Reply : Type 0} (inner : Inner W Reply) (g : Guarded) where
  -- `assertOneOf`, then the work
  unfoldable pub allow : List DelegatedOperation → Request → Exec W Reply
  allow ops request =
      if any (λ op. allows g.operations op) ops then inner.perform request else throw denied

  abbrev pub discard_if : Bool → Exec W Reply
  discard_if true = allow (write ∷ []) discarding
  discard_if false = pure inner.nothing

  unfoldable pub request_of : Request → Exec W Reply
  request_of changes = allow (read ∷ write ∷ []) changes
  request_of checkpointing = allow (checkpoint ∷ []) checkpointing
  request_of checkpoints = allow (checkpoint ∷ []) checkpoints
  request_of (committing given) =
      allow (commit ∷ []) (committing (some (attributed_context g given)))
  request_of deleting = allow (checkpoint ∷ []) deleting
  request_of discarding = gets inner.has_changes >>= discard_if
  request_of diffing = allow (history ∷ []) diffing
  request_of listing = allow (history ∷ []) listing
  request_of purging = allow (purge ∷ []) purging
  request_of reading_revision = allow (history ∷ []) reading_revision
  request_of restoring = allow (restore ∷ []) restoring
  request_of redacting = allow (redact ∷ []) redacting
  request_of floor = allow ((if allows g.operations history then history else restore) ∷ []) floor

-- What a capability must hold for a request that changes the stored workspace.
abbrev pub needs : Request → List DelegatedOperation
needs changes = read ∷ write ∷ []
needs checkpointing = checkpoint ∷ []
needs checkpoints = checkpoint ∷ []
needs (committing given) = commit ∷ []
needs deleting = checkpoint ∷ []
needs discarding = write ∷ []
needs diffing = history ∷ []
needs listing = history ∷ []
needs purging = purge ∷ []
needs reading_revision = history ∷ []
needs restoring = restore ∷ []
needs redacting = redact ∷ []
needs floor = history ∷ restore ∷ []

module _ {W Reply : Type 0} (inner : Inner W Reply) (g : Guarded) where
  -- Without any of the operations of which a request needs one, the inner workspace is not touched: the
  -- request is refused with `AUTHORIZATION`, but for a discard with nothing to discard, which returns.
  pub request_denied :
      (request : Request) (w : W)
      → any (λ op. allows g.operations op) (needs request) ≡ false
      → ((request_of inner g request w).1 ≡ w)
        × (((request_of inner g request w).0 ≡ err denied)
            ⊎ ((request ≡ discarding) × (inner.has_changes w ≡ false)))
  unfolding request_of allow ◌>>=◌
  request_denied discarding w h = elim (Bool-cases (inner.has_changes w)) [
    | inl e ↦ rw (e, h) (refl, inl refl)
    | inr e ↦ rw e (refl, inr (refl, refl))
  ]
  request_denied floor w h = ground arith
  request_denied _ w h = rw h (refl, inl refl)

-- The cause, the idempotency key and the metadata are those that the caller gives.
abbrev pub SameRest : Option CommitContext → CommitContext → Type 0
SameRest none passed =
    (passed.cause ≡ none) × (passed.idempotency_key ≡ none) × (passed.metadata ≡ none)
SameRest (some given) passed =
    (passed.cause ≡ given.cause)
    × (passed.idempotency_key ≡ given.idempotency_key)
    × (passed.metadata ≡ given.metadata)

-- A request of the capability's own: a commit under its actor and correlation id, with the rest of the
-- caller's context, and any other request as it is.
pub data Attributed (g : Guarded) : Request → Request → Type 0 where
  commits :
      (given : Option CommitContext) (passed : CommitContext)
      → passed.actor ≡ g.actor
      → passed.correlation_id ≡ g.correlation_id
      → SameRest given passed
      → Attributed g (committing given) (committing (some passed))
  other :
      (request : Request)
      → ((given : Option CommitContext) → request ≢ committing given)
      → Attributed g request request

module _ {W Reply : Type 0} (inner : Inner W Reply) (g : Guarded) where
  -- The request touched nothing, or it was one attributed request to the inner workspace, for which the
  -- capability has an operation.
  pub data Served (request : Request) (w : W) : Type 0 where
    untouched : (request_of inner g request w).1 ≡ w → Served request w
    passed_on :
        (sent : Request)
        → any (λ op. allows g.operations op) (needs request) ≡ true
        → Attributed g request sent
        → request_of inner g request w ≡ inner.perform sent w
        → Served request w

  serve_if :
      (request sent : Request) (w : W) (b : Bool)
      → (b ≡ true → any (λ op. allows g.operations op) (needs request) ≡ true)
      → Attributed g request sent
      → request_of inner g request w ≡ (if b then inner.perform sent else throw denied) w
      → Served request w
  unfolding throw
  serve_if request sent w true needed a e = passed_on sent (needed refl) a e
  serve_if request sent w false needed a e = untouched (ap (λ out. out.1) e)

  attributed :
      (given : Option CommitContext)
      → Attributed g (committing given) (committing (some (attributed_context g given)))
  attributed none = commits none (attributed_context g none) refl refl (refl, refl, refl)
  attributed (some given) =
      commits (some given) (attributed_context g (some given)) refl refl (refl, refl, refl)

  serve_as :
      (request : Request) (w : W)
      → ((given : Option CommitContext) → request ≢ committing given)
      → request_of inner g request w ≡ allow inner g (needs request) request w
      → Served request w
  unfolding allow
  serve_as request w apart e =
      serve_if request request w (any (λ op. allows g.operations op) (needs request)) (λ h. h)
        (other request apart) e

  -- `discard`, from the answer to whether there are changes
  serve_discard : (w : W) (b : Bool) → inner.has_changes w ≡ b → Served discarding w
  unfolding request_of allow ◌>>=◌ throw gets
  serve_discard w true e =
      serve_if discarding discarding w (any (λ op. allows g.operations op) (write ∷ [])) (λ h. h)
        (other discarding (λ o q. cc)) (rw e refl)
  serve_discard w false e = untouched (rw e refl)

  -- Whatever is requested, the inner workspace is not touched, or what reaches it is the request itself,
  -- of which the capability holds an operation; a commit reaches it under the actor and the correlation
  -- id of the capability, whatever the caller's context names, and with the rest of that context.
  pub request_attributed : (request : Request) (w : W) → Served request w
  unfolding request_of allow
  request_attributed (committing given) w =
      serve_if (committing given) _ w (any (λ op. allows g.operations op) (commit ∷ [])) (λ h. h)
        (attributed given) refl
  request_attributed discarding w = serve_discard w (inner.has_changes w) refl
  request_attributed floor w =
      serve_if floor floor w
        (any (λ op. allows g.operations op)
          ((if allows g.operations history then history else restore) ∷ []))
        (λ h. ground (arith, h)) (other floor (λ o q. cc)) refl
  request_attributed _ w = serve_as _ w (λ o q. cc) refl

-- `filesystemAccess`
pub data FileSystemAccess : Type 0 where
  no_access read_access write_access : FileSystemAccess

unfoldable pub filesystem_access : List DelegatedOperation → FileSystemAccess
filesystem_access operations =
    if allows operations write
    then write_access
    else if allows operations read
    then read_access
    else no_access
