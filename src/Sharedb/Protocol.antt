-- ===== src/Sharedb/Protocol.antt =====
-- sharedb/ws_protocol.go: the messages of a session. The pointers that the code tests for nil, the
-- server, the mailbox store, the session manager and the generator, are there in this model.
pub mod Handlers
pub mod Relay
pub mod Sending
pub mod Delivery
pub mod Submission
pub mod Source
pub mod Inbound
use jsonot.Base.{
  ℕ, ◌≡◌, Bool, true, false, not, ◌&&◌, ◌||◌, Option, none, some, List, [], ◌∷◌, ◌++◌, arith,
  if◌then◌else◌, is_nil, ℤ, pos, ltb_ℤ, Bytes, lit, str_eq,
}
use jsonot.Sharedb.{OpId, Event}
use jsonot.Sharedb.Results.{
  Reply, done, failed, crash, ◌>>=◌, ShareError, StaleSubmitError, stale_submit, invalid_version,
  duplicate_sequence_conflict, invalid_client_message, invalid_envelope,
}
use jsonot.Sharedb.Mailbox.{Envelope, Mailboxes, ack_kind}
use jsonot.Sharedb.Server.{ServerState, SubmitRequest, SubmitResult}
use jsonot.Sharedb.Transport.{Sockets}
use jsonot.Sharedb.Reconnect.{replay_session_mailbox}

-- `ConnectRequest`
pub record ConnectRequest : Type 0 where
  pub connect_type : Bytes
  pub connect_session : Bytes
  pub connect_document : Bytes
  pub last_envelope : Bytes

-- `AckEnvelopeRequest`
pub record AckEnvelopeRequest : Type 0 where
  pub ack_type : Bytes
  pub ack_session : Bytes
  pub ack_envelope : Bytes

-- `SubmitMessage`
pub record SubmitMessage : Type 0 where
  pub submit_type : Bytes
  pub submit_session : Bytes
  pub submit_document : Bytes
  pub request : SubmitRequest

-- `SubmitErrorCode`
pub data SubmitErrorCode : Type 0 where
  code_stale_resync_required code_invalid_version code_duplicate_sequence_conflict : SubmitErrorCode
  code_invalid_client_message code_unknown : SubmitErrorCode

-- `SubmitErrorMessage`, less its text
pub record SubmitErrorMessage : Type 0 where
  pub error_session : Bytes
  pub error_document : Bytes
  pub code : SubmitErrorCode
  pub error_reason : Bytes
  pub error_current : ℤ
  pub error_min_supported : ℤ
  pub error_max_gap : ℤ

-- What the server sends: `ConnectedMessage`, `ReplayMessage`, `ResyncRequiredMessage`,
-- `EventMessage`, `SubmitAckMessage` and `SubmitErrorMessage`, each with its session and document.
-- A resync has no version fields, which are never set.
pub data Message : Type 0 where
  connected_message : Bytes → Bytes → (last_acked : Bytes) → Message
  replay_message : Bytes → Bytes → List Envelope → Message
  resync_message : Bytes → Bytes → (last_acked : Bytes) → (reason : Bytes) → Message
  event_message : Bytes → Bytes → Envelope → Message
  submit_ack_message : Bytes → Bytes → SubmitResult → Option Envelope → Message
  submit_error_message : SubmitErrorMessage → Message

-- `validateConnectRequest`
unfoldable pub validate_connect_request : ConnectRequest → Reply (Unit {0})
validate_connect_request q =
    if not (str_eq q.connect_type (lit "connect"))
      || is_nil q.connect_session
      || is_nil q.connect_document
    then failed invalid_client_message
    else done tt

-- `validateAckEnvelopeRequest`
unfoldable pub validate_ack_envelope_request : AckEnvelopeRequest → Reply (Unit {0})
validate_ack_envelope_request q =
    if not (str_eq q.ack_type (lit "ack_envelope")) || is_nil q.ack_session || is_nil q.ack_envelope
    then failed invalid_client_message
    else done tt

-- The document of a request, or of its message.
abbrev request_document_of : SubmitMessage → Bytes
request_document_of m =
    if is_nil m.request.request_document then m.submit_document else m.request.request_document

-- `validateSubmitMessage`
unfoldable pub validate_submit_message : SubmitMessage → Reply (Unit {0})
validate_submit_message m =
    if not (str_eq m.submit_type (lit "submit"))
      || is_nil m.submit_session
      || is_nil m.submit_document
    then failed invalid_client_message
    else if not (str_eq (request_document_of m) m.submit_document)
    then failed invalid_client_message
    else done tt

-- `canonicalizeSubmitRequest`
unfoldable pub canonicalize_submit_request : SubmitMessage → SubmitRequest
canonicalize_submit_request m = record m.request {
  request_document = m.submit_document;
  request_source = m.submit_session;
  request_id =
      if not (is_nil m.request.request_id.id_source)
        || ltb_ℤ (pos 0) m.request.request_id.id_sequence
      then record m.request.request_id { id_source = m.submit_session }
      else m.request.request_id;
}

-- `submitAckEnvelope`, where the generator returns `new_id`
unfoldable pub submit_ack_envelope : Bytes → Bytes → ℤ → Bytes → Reply Envelope
submit_ack_envelope session d n new_id =
    if is_nil new_id
    then failed invalid_envelope
    else done (record {
      id = new_id;
      session_id = session;
      document_id = d;
      kind = ack_kind;
      version = n;
      event = none;
    })

abbrev error_with : Bytes → Bytes → SubmitErrorCode → SubmitErrorMessage
error_with session d c = record {
  error_session = session;
  error_document = d;
  code = c;
  error_reason = [];
  error_current = pos 0;
  error_min_supported = pos 0;
  error_max_gap = pos 0;
}

-- `submitErrorMessage`
unfoldable pub submit_error_message_of : Bytes → Bytes → ShareError → SubmitErrorMessage
submit_error_message_of session d (stale_submit x) = record {
  error_session = session;
  error_document = d;
  code = code_stale_resync_required;
  error_reason = x.stale_reason;
  error_current = x.stale_current;
  error_min_supported = x.min_supported;
  error_max_gap = x.max_gap;
}
submit_error_message_of session d invalid_version = error_with session d code_invalid_version
submit_error_message_of session d duplicate_sequence_conflict =
    error_with session d code_duplicate_sequence_conflict
submit_error_message_of session d invalid_client_message =
    error_with session d code_invalid_client_message
submit_error_message_of session d _ = error_with session d code_unknown

unfoldable pub max_version : List Envelope → ℤ → ℤ
max_version [] n = n
max_version (e ∷ es) n = max_version es (if ltb_ℤ n e.version then e.version else n)

abbrev pub default_replay_limit : ℤ
default_replay_limit = pos 256

-- `maxReplayEnvelopeVersion`
unfoldable pub max_replay_envelope_version : Mailboxes → Bytes → Bytes → Reply ℤ
unfolding replay_session_mailbox max_version
max_replay_envelope_version s session after = do
  replay ← replay_session_mailbox s session after default_replay_limit
  done (max_version replay.envelopes (pos 0))

-- The goroutine of `startLiveRelay`; `from` counts the events that were published when it
-- subscribed.
pub record LiveRelay : Type 0 where
  pub relay_conn : ℕ
  pub relay_session : Bytes
  pub relay_document : Bytes
  pub skip_through : ℤ
  pub from : ℕ

-- What the handlers share: the server, the mailbox store, the connections with the session manager,
-- the relays that run, and how many ids the generator has returned.
pub record Hub (V : Type 0) : Type 0 where
  pub server : ServerState V
  pub mailboxes : Mailboxes
  pub sockets : Sockets Message
  pub relays : List LiveRelay
  pub issued : ℕ
