-- ===== src/Sharedb/Protocol/Inbound.antt =====
-- sharedb/ws_protocol.go: `NewSessionInboundHandler`.
use jsonot.Base.{ℕ, Bool, false, not, Option, none, some, if◌then◌else◌, Bytes, lit, str_eq, ◌==◌}
use jsonot.Value.{Values}
use jsonot.SubType.Interface.{Clients}
use jsonot.Sharedb.Results.{Reply, done, failed, crash, invalid_client_message}
use jsonot.Sharedb.Act.{Act, stop}
use jsonot.Sharedb.Server.{Setup}
use jsonot.Sharedb.Transport.{close, active, has_live_attachment}
use jsonot.Sharedb.Protocol.{ConnectRequest, AckEnvelopeRequest, SubmitMessage, Message, Hub}
use jsonot.Sharedb.Protocol.Handlers.{handle_connect_and_attach_live, handle_ack_envelope}
use jsonot.Sharedb.Protocol.Submission.{handle_submit}

-- What `json.Unmarshal` reads from a payload, for each type that the dispatcher asks for.
pub record Payloads : Type 0 where
  pub message_type : Bytes → Option Bytes
  pub as_connect : Bytes → Option ConnectRequest
  pub as_submit : Bytes → Option SubmitMessage
  pub as_ack : Bytes → Option AckEnvelopeRequest

module _ (V : Values) (C : Clients V) (E : Setup V) (gen : ℕ → Bytes)
    (marshals : Message → Bool) where
  open V use {Value}

  abbrev is_active_conn : Option ℕ → ℕ → Bool
  is_active_conn none c = false
  is_active_conn (some d) c = d == c

  inbound_connect : ℕ → Option ConnectRequest → Act (Hub Value) (Unit {0})
  unfolding handle_connect_and_attach_live
  inbound_connect c none = stop invalid_client_message
  inbound_connect c (some q) = handle_connect_and_attach_live V C E gen marshals c q

  inbound_submit : ℕ → Option SubmitMessage → Act (Hub Value) (Unit {0})
  unfolding handle_submit has_live_attachment
  inbound_submit c none = stop invalid_client_message
  inbound_submit c (some m) = λ h.
      if not (is_active_conn (active h.sockets m.submit_session) c)
      then (h, failed invalid_client_message)
      else if not (has_live_attachment c m.submit_session m.submit_document h.sockets)
      then (h, failed invalid_client_message)
      else handle_submit V C E gen marshals c m h

  inbound_ack : ℕ → Option AckEnvelopeRequest → Act (Hub Value) (Unit {0})
  unfolding handle_ack_envelope
  inbound_ack c none = stop invalid_client_message
  inbound_ack c (some q) = λ h.
      if not (is_active_conn (active h.sockets q.ack_session) c)
      then (h, failed invalid_client_message)
      else handle_ack_envelope V C E gen marshals q h

  -- The handler of `NewSessionInboundHandler`, for a message of connection `c`.
  unfoldable pub session_inbound_handler : Payloads → ℕ → Bytes → Act (Hub Value) (Unit {0})
  unfolding inbound_connect inbound_submit inbound_ack
  session_inbound_handler P c payload = elim (P.message_type payload) [
    | none ↦ stop invalid_client_message
    | some type ↦
        if str_eq type (lit "connect")
        then inbound_connect c (P.as_connect payload)
        else if str_eq type (lit "submit")
        then inbound_submit c (P.as_submit payload)
        else if str_eq type (lit "ack_envelope")
        then inbound_ack c (P.as_ack payload)
        else stop invalid_client_message
  ]

  closed_unless_done : ℕ → Hub Value × Reply (Unit {0}) → Hub Value
  unfolding close
  closed_unless_done c (h, done u) = h
  closed_unless_done c (h, failed e) = record h { sockets = close c h.sockets }
  closed_unless_done c (h, crash) = h

  -- A round of `readLoop`: an error of the handler closes the connection.
  unfoldable pub read_message : Payloads → ℕ → Bytes → Hub Value → Hub Value
  unfolding session_inbound_handler closed_unless_done
  read_message P c payload h = closed_unless_done c (session_inbound_handler P c payload h)
