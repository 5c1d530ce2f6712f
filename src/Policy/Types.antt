-- ===== src/Policy/Types.antt =====
-- src/policy/types.ts: decisions on a command and the options of the policy.
-- The reason of a decision, a text for people, is not kept.
use supabash_fs.Prelude.{
  Bool, Bool-cases, List, Option, Text, arith, false, if◌then◌else◌, inl, inr, none, refl, some,
  text, true, ℕ, ◌≡◌,
}

pub data PolicyReasonCode : Type 0 where
  ambiguous_path command_too_long compression_unsupported dangerous_command host_escape
        network_disabled path_out_of_root pipeline_too_deep recursive_root reserved_path
        too_many_segments unbounded_work unsupported_command unsupported_syntax :
      PolicyReasonCode

abbrev pub reason_text : PolicyReasonCode → Text
reason_text ambiguous_path = text "ambiguous-path"
reason_text command_too_long = text "command-too-long"
reason_text compression_unsupported = text "compression-unsupported"
reason_text dangerous_command = text "dangerous-command"
reason_text host_escape = text "host-escape"
reason_text network_disabled = text "network-disabled"
reason_text path_out_of_root = text "path-out-of-root"
reason_text pipeline_too_deep = text "pipeline-too-deep"
reason_text recursive_root = text "recursive-root"
reason_text reserved_path = text "reserved-path"
reason_text too_many_segments = text "too-many-segments"
reason_text unbounded_work = text "unbounded-work"
reason_text unsupported_command = text "unsupported-command"
reason_text unsupported_syntax = text "unsupported-syntax"

pub record CommandInspectDecision : Type 0 where
  pub allow : Bool
  pub code : Option Text

abbrev pub deny_policy : PolicyReasonCode → CommandInspectDecision
deny_policy reason = record { allow = false; code = some (reason_text reason) }

abbrev pub allow_policy : CommandInspectDecision
allow_policy = record { allow = true; code = none }

-- `if (!decision.allow) return decision`, and what follows it
abbrev pub and_then : CommandInspectDecision → CommandInspectDecision → CommandInspectDecision
and_then decision rest = if decision.allow then rest else decision

-- `{ ok: true, ... } | { ok: false, decision }`
pub data Checked {ℓ} (A : Type ℓ) : Type ℓ where
  refused : CommandInspectDecision → Checked A
  granted : A → Checked A

-- A file system outside the sources: `none` is a call that throws. `lstat` tells whether the path
-- is a symbolic link.
pub record CommandPolicyFileSystem : Type 0 where
  pub lstat : Text → Option Bool
  pub readlink : Text → Option Text

-- Flags that are absent are false, and lists that are absent are empty.
pub record CommandPolicyOptions : Type 0 where
  pub allow_network : Bool
  pub allow_recursive_root : Bool
  pub extra_allow_commands : List Text
  pub extra_deny_commands : List Text
  pub fs : Option CommandPolicyFileSystem
  pub inspectors : List (Text → CommandInspectDecision)
  pub max_command_length : Option ℕ
  pub max_pipeline_depth : Option ℕ
  pub max_segments : Option ℕ

abbrev pub default_max_command_length : ℕ
default_max_command_length = 32768

abbrev pub default_max_pipeline_depth : ℕ
default_max_pipeline_depth = 8

abbrev pub default_max_segments : ℕ
default_max_segments = 32

pub and_then-allows :
    (first rest : CommandInspectDecision)
    → (and_then first rest).allow ≡ true
    → (first.allow ≡ true) × (rest.allow ≡ true)
and_then-allows first rest h = elim (Bool-cases first.allow) [
  | inl e ↦ ground (arith)
  | inr e ↦ ground (arith)
]

-- `if (test) return denyPolicy(reason)`, and what follows it
abbrev pub unless_denied : Bool → PolicyReasonCode → CommandInspectDecision → CommandInspectDecision
unless_denied true reason rest = deny_policy reason
unless_denied false reason rest = rest

pub unless_denied-allows :
    (test : Bool) (reason : PolicyReasonCode) (rest : CommandInspectDecision)
    → (unless_denied test reason rest).allow ≡ true
    → (test ≡ false) × (rest.allow ≡ true)
unless_denied-allows true reason rest h = cc
unless_denied-allows false reason rest h = (refl, h)

pub granted_inj {ℓ} : {A : Type ℓ} {a b : A} → granted a ≡ granted b → a ≡ b
granted_inj e = cc

pub refused_not_granted {ℓ} :
    {A : Type ℓ} {d : CommandInspectDecision} {a : A} → refused d ≡ granted a → ⊥
refused_not_granted e = cc
