-- ===== src/Retained/Input.antt =====
-- src/retained.rs: `TurnInput`, `RuntimeEntry::validate_input` and `validate_auto_compaction_policy`.
-- The input holds what admission reads; a path that is not UTF-8 is none.
use agent_runtime_sdk.Prelude.{
  ℕ, ◌+◌, length, Text, List, [], ◌∷◌, Option, none, some, Bool, true, false, not, ◌&&◌, ◌||◌, ltb,
  leb, eqb, any, text_eq,
}
use agent_runtime_sdk.Prelude.Result.{Result, ◌>>◌, reject_if}
use agent_runtime_sdk.Retained.Types.{
  invalid_request, not_sent, never, RuntimeFailure, lifecycle_failure, RuntimeInvocationKind, turn,
  manual_compaction, continuation, AutoCompactionPolicy, provider_default, automatic,
  token_threshold,
}

abbrev pub max_attachments : ℕ
max_attachments = 64

abbrev pub max_attachment_metadata_bytes : ℕ
max_attachment_metadata_bytes = 4096

abbrev pub max_compaction_instructions_bytes : ℕ
max_compaction_instructions_bytes = 16384

pub record TurnAttachment : Type 0 where
  pub path : Option Text
  pub display_name : Option Text
  pub media_type : Option Text

pub data InteractionPolicy : Type 0 where
  deny require_handler : InteractionPolicy

abbrev pub requires_handler : InteractionPolicy → Bool
requires_handler deny = false
requires_handler require_handler = true

pub record TurnInput : Type 0 where
  pub invocation_id : Text
  pub invocation_kind : RuntimeInvocationKind
  pub prompt : Text
  pub attachments : List TurnAttachment
  pub auto_compaction : Option AutoCompactionPolicy
  pub interaction_policy : InteractionPolicy

abbrev pub is_empty : {A : Type 0} → List A → Bool
is_empty [] = true
is_empty (x ∷ xs) = false

unfoldable pub has_nul : Text → Bool
has_nul = any (λ b. eqb b 0)

-- NUL, a newline or a carriage return.
unfoldable pub has_breaks : Text → Bool
has_breaks = any (λ b. eqb b 0 || eqb b 10 || eqb b 13)

unfoldable pub validate_auto_compaction_policy : AutoCompactionPolicy → Bool
validate_auto_compaction_policy provider_default = true
validate_auto_compaction_policy automatic = true
validate_auto_compaction_policy (token_threshold tokens) = leb 100000 tokens && leb tokens 1000000

-- What the kind of the invocation allows.
unfoldable pub kind_invalid : TurnInput → Bool
kind_invalid input = elim input.invocation_kind [
  | turn ↦ false
  | continuation ↦ not (is_empty input.prompt) || not (is_empty input.attachments)
  | manual_compaction ↦
      not (is_empty input.attachments)
      || ltb (max_compaction_instructions_bytes + 9) (length input.prompt)
      || has_nul input.prompt
]

unfoldable pub auto_compaction_invalid : Bool → TurnInput → Bool
auto_compaction_invalid configurable input = elim input.auto_compaction [
  | none ↦ false
  | some policy ↦ not configurable || not (validate_auto_compaction_policy policy)
]

unfoldable pub metadata_invalid : Option Text → Bool
metadata_invalid none = false
metadata_invalid (some value) = ltb max_attachment_metadata_bytes (length value) || has_breaks value

unfoldable pub attachment_invalid : TurnAttachment → Bool
attachment_invalid attachment = elim attachment.path [
  | none ↦ true
  | some path ↦
      is_empty path
      || has_breaks path
      || metadata_invalid attachment.display_name
      || metadata_invalid attachment.media_type
]

module _ (runtime_id : Text) where
  unfoldable pub invalid_input : Text → RuntimeFailure
  unfolding lifecycle_failure
  invalid_input invocation_id =
      lifecycle_failure (some runtime_id) (some invocation_id) invalid_request never not_sent

  unfoldable pub validate_input :
      (configurable has_handler : Bool) → TurnInput → Result RuntimeFailure (Unit {0})
  validate_input configurable has_handler input = do
    let invalid = invalid_input input.invocation_id
    reject_if (kind_invalid input) invalid
    reject_if (auto_compaction_invalid configurable input) invalid
    reject_if (ltb max_attachments (length input.attachments)) invalid
    reject_if (requires_handler input.interaction_policy && not has_handler) invalid
    reject_if (any attachment_invalid input.attachments) invalid
