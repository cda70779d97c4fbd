-- ===== src/Relay/Message.antt =====
-- src/relay/mod.rs: identifiers, messages, envelopes and their validation.
-- An error keeps its fields; the prose of its message is left out. Metadata values are JSON of
-- serde_json, a parameter.
use Prim.Native.String.{String}
use agent_runtime_sdk.Prelude.{
  ℕ, Bool, List, [], ◌∷◌, Option, none, some, Text, ◌||◌, ltb, leb, eqb, not, length, any, text_eq,
}
use agent_runtime_sdk.Prelude.Map.{Map}
use agent_runtime_sdk.Prelude.Result.{Result, ok, err, ◌>>=◌, ◌>>◌, reject_if}
use agent_runtime_sdk.Prelude.Words.{saturating_add, saturating_mul, u64_max}

abbrev pub agent_message_schema_version : ℕ
agent_message_schema_version = 1

abbrev pub max_relay_identifier_bytes : ℕ
max_relay_identifier_bytes = 256

abbrev pub max_relay_metadata_entries : ℕ
max_relay_metadata_entries = 32

abbrev pub max_relay_metadata_bytes : ℕ
max_relay_metadata_bytes = 8192

abbrev pub max_agent_message_attachments : ℕ
max_agent_message_attachments = 16

abbrev pub max_agent_message_bytes : ℕ
max_agent_message_bytes = 262144

abbrev pub max_agent_message_ttl_seconds : ℕ
max_agent_message_ttl_seconds = 604800

pub data AgentRelayValidationError : Type 0 where
  empty_identifier : String → AgentRelayValidationError
  invalid_identifier_characters : String → AgentRelayValidationError
  -- kind, maximum and actual length
  identifier_too_long : String → ℕ → ℕ → AgentRelayValidationError
  too_many_metadata_entries : ℕ → ℕ → AgentRelayValidationError
  metadata_too_large : ℕ → ℕ → AgentRelayValidationError
  invalid_field : String → AgentRelayValidationError

-- `value.contains(['\0', '\n', '\r'])`.
unfoldable pub has_breaks : Text → Bool
has_breaks = any (λ b. eqb b 0 || eqb b 10 || eqb b 13)

abbrev pub is_empty : Text → Bool
is_empty value = eqb (length value) 0

unfoldable pub validate_identifier : String → Text → Result AgentRelayValidationError Text
validate_identifier kind value = do
  reject_if (is_empty value) (empty_identifier kind)
  reject_if (has_breaks value) (invalid_identifier_characters kind)
  reject_if (ltb max_relay_identifier_bytes (length value))
      (identifier_too_long kind max_relay_identifier_bytes (length value))
  ok value

-- `for item in items { check(item)?; }`.
abbrev pub for_each {ℓ} :
    {A : Type ℓ}
    → (A → Result AgentRelayValidationError (Unit {0}))
    → List A
    → Result AgentRelayValidationError (Unit {0})
for_each check [] = ok tt
for_each check (x ∷ xs) = check x >> for_each check xs

unfoldable pub validate_detail : String × Option Text → Result AgentRelayValidationError (Unit {0})
validate_detail (field, none) = ok tt
validate_detail (field, some value) =
    reject_if (ltb 512 (length value) || has_breaks value) (invalid_field field)

pub record AgentMessageAttachment (V : Type 0) : Type 0 where
  pub id : Text
  pub uri : Text
  pub name : Option Text
  pub media_type : Option Text
  pub digest : Option Text
  pub metadata : Map Text V

pub record AgentMessage (V : Type 0) : Type 0 where
  pub content : Text
  pub attachments : List (AgentMessageAttachment V)
  pub metadata : Map Text V

pub record AgentMessageEnvelope (V : Type 0) : Type 0 where
  pub schema_version : ℕ
  pub message_id : Text
  pub idempotency_key : Text
  pub thread_id : Text
  pub reply_to : Option Text
  pub sender : Text
  pub recipient : Text
  pub message : AgentMessage V
  pub created_at_unix_ms : ℕ  -- u64
  pub ttl_seconds : ℕ  -- u32
  pub hop_count : ℕ  -- u8
  pub hop_limit : ℕ  -- u8

pub record AgentMessageProvenance : Type 0 where
  pub message_id : Text
  pub thread_id : Text
  pub sender : Text
  pub recipient : Text
  pub reply_to : Option Text
  pub hop_count : ℕ  -- u8
  pub hop_limit : ℕ  -- u8

module _ {V : Type 0} where
  -- `AgentRelayMetadata::new`; `to_vec` is `serde_json::to_vec`.
  unfoldable pub metadata_new :
      (Map Text V → Option Text) → Map Text V → Result AgentRelayValidationError (Map Text V)
  metadata_new to_vec values = do
    reject_if (ltb max_relay_metadata_entries (length values))
        (too_many_metadata_entries max_relay_metadata_entries (length values))
    for_each (λ entry. validate_identifier "relay metadata key" entry.0 >>= λ _. ok tt) values
    let checked : Option Text → Result AgentRelayValidationError (Map Text V) = λ encoded.
          elim encoded [
            | none ↦ err (invalid_field "metadata")
            | some data_bytes ↦
                reject_if (ltb max_relay_metadata_bytes (length data_bytes))
                  (metadata_too_large max_relay_metadata_bytes (length data_bytes))
                >> ok values
          ] in
        checked (to_vec values)

  unfoldable pub validate_attachment :
      AgentMessageAttachment V → Result AgentRelayValidationError (Unit {0})
  validate_attachment a = do
    _ ← validate_identifier "attachment id" a.id
    reject_if (is_empty a.uri || ltb 4096 (length a.uri) || has_breaks a.uri)
        (invalid_field "message.attachments.uri")
    for_each validate_detail (
        ("message.attachments.name", a.name)
        ∷ ("message.attachments.media_type", a.media_type)
        ∷ ("message.attachments.digest", a.digest)
        ∷ [])

  unfoldable pub text_message : Text → AgentMessage V
  text_message content = record { content = content; attachments = []; metadata = [] }

  unfoldable pub validate_message : AgentMessage V → Result AgentRelayValidationError (Unit {0})
  validate_message m = do
    reject_if (is_empty m.content || ltb max_agent_message_bytes (length m.content))
        (invalid_field "message.content")
    reject_if (any (λ b. eqb b 0) m.content) (invalid_field "message.content")
    reject_if (ltb max_agent_message_attachments (length m.attachments))
        (invalid_field "message.attachments")
    for_each validate_attachment m.attachments

  unfoldable pub validate_envelope :
      AgentMessageEnvelope V → Result AgentRelayValidationError (Unit {0})
  validate_envelope e = do
    reject_if (not (eqb e.schema_version agent_message_schema_version))
        (invalid_field "schema_version")
    validate_message e.message
    reject_if (eqb e.ttl_seconds 0 || ltb max_agent_message_ttl_seconds e.ttl_seconds)
        (invalid_field "ttl_seconds")
    reject_if (eqb e.hop_limit 0 || ltb e.hop_limit e.hop_count) (invalid_field "hop_count")

  unfoldable pub is_expired_at : AgentMessageEnvelope V → ℕ → Bool
  is_expired_at e now =
      let ttl_ms = saturating_mul u64_max e.ttl_seconds 1000 in
      leb (saturating_add u64_max e.created_at_unix_ms ttl_ms) now

  unfoldable pub provenance : AgentMessageEnvelope V → AgentMessageProvenance
  provenance e = record {
    message_id = e.message_id;
    thread_id = e.thread_id;
    sender = e.sender;
    recipient = e.recipient;
    reply_to = e.reply_to;
    hop_count = e.hop_count;
    hop_limit = e.hop_limit;
  }
