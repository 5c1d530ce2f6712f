-- ===== src/History/Lease.antt =====
-- src/history/publish.ts: a commit under the lease of a coordinator, which is outside the sources.
use supabash_fs.Prelude.{Bool, Option, Result, Text, false, none, ok, some}
use supabash_fs.Prelude.Exec.{Exec, lift, pure, ◌>>=◌, ◌>>◌}
use supabash_fs.History.Publish.{still_leased}

pub record CommitLease (S : Type 0) : Type 0 where
  pub lost : Exec S Bool
  pub release : Exec S (Unit {0})

-- `acquire` takes the scope and the transaction.
pub record CommitCoordinator (S : Type 0) : Type 0 where
  pub acquire : Text → Text → Exec S (CommitLease S)

module _ {S A : Type 0} where
  abbrev pub run_with_lease : Exec S Bool → (Exec S Bool → Exec S A) → Exec S A
  run_with_lease lost run = do gone ← lost; lift (still_leased (ok gone)); run lost

  -- The release follows the run, however that ends, and cannot undo it.
  abbrev pub release_after : CommitLease S → Result A × S → Result A × S
  release_after lease (outcome, s) = (outcome, (lease.release s).1)

  unfoldable pub with_lease :
      Option (CommitCoordinator S) → Text → Text → (Exec S Bool → Exec S A) → Exec S A
  with_lease none scope transaction_id run = run (pure false)
  with_lease (some coordinator) scope transaction_id run =
      coordinator.acquire scope transaction_id >>= λ lease s.
      release_after lease (run_with_lease lease.lost run s)
