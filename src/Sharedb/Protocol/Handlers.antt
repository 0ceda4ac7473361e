-- ===== src/Sharedb/Protocol/Handlers.antt =====
-- sharedb/ws_protocol.go: what the messages of a session do, and its live relay. Each is one call of
-- the model; `gen n` is the id that the generator returns after `n` others, and `marshals` tells
-- which messages `json.Marshal` can write.
use jsonot.Base.{ℕ, Bool, not, ◌||◌, none, some, [], ◌∷◌, ◌++◌, if◌then◌else◌, is_nil, pos, Bytes}
use jsonot.Value.{Values}
use jsonot.SubType.Interface.{Clients}
use jsonot.Sharedb.Results.{done, failed, crash, invalid_client_message, other}
use jsonot.Sharedb.Act.{Act, ◌>>=◌, ◌>>◌, reply, return}
use jsonot.Sharedb.Mailbox.{ack_through}
use jsonot.Sharedb.Reconnect.{ReplayResult, replay_session_mailbox}
use jsonot.Sharedb.Server.Documents.{subscribe}
use jsonot.Sharedb.Server.{Setup}
use jsonot.Sharedb.Transport.{register, enqueue, claim_live_attachment}
use jsonot.Sharedb.Protocol.{
  ConnectRequest, AckEnvelopeRequest, Message, connected_message, replay_message, resync_message,
  validate_connect_request, validate_ack_envelope_request, default_replay_limit,
  max_replay_envelope_version, LiveRelay, Hub,
}

module _ (V : Values) (C : Clients V) (E : Setup V) (gen : ℕ → Bytes)
    (marshals : Message → Bool) where
  open V use {Value}

  -- `ClientConn.sendJSON`
  unfoldable pub send_json : ℕ → Message → Act (Hub Value) (Unit {0})
  unfolding enqueue
  send_json c m h = if not (marshals m) then (h, failed other) else elim (enqueue c m h.sockets) [
    | done t ↦ (record h { sockets = t }, done tt)
    | failed e ↦ (h, failed e)
    | crash ↦ (h, crash)
  ]

  abbrev replayed : ℕ → ConnectRequest → ReplayResult → Act (Hub Value) (Unit {0})
  replayed c q r =
      if r.requires_resync
      then send_json c
          (resync_message q.connect_session q.connect_document r.replay_last_acked r.reason)
      else if is_nil r.envelopes
      then return tt
      else send_json c (replay_message q.connect_session q.connect_document r.envelopes)

  -- `sendConnectHandshake`
  unfoldable pub send_connect_handshake : ℕ → ConnectRequest → Act (Hub Value) (Unit {0})
  unfolding validate_connect_request replay_session_mailbox send_json
  send_connect_handshake c q h =
      (do
        reply (validate_connect_request q)
        replay ← reply (
            replay_session_mailbox h.mailboxes q.connect_session q.last_envelope
              default_replay_limit)
        send_json c
            (connected_message q.connect_session q.connect_document replay.replay_last_acked)
        replayed c q replay)
        h

  register_session : Bytes → ℕ → Act (Hub Value) (Unit {0})
  unfolding register
  register_session s c h = elim (register s c h.sockets) [
    | done t ↦ (record h { sockets = t }, done tt)
    | failed e ↦ (h, failed e)
    | crash ↦ (h, crash)
  ]

  -- `HandleConnect`
  unfoldable pub handle_connect : ℕ → ConnectRequest → Act (Hub Value) (Unit {0})
  unfolding send_connect_handshake register_session
  handle_connect c q = do send_connect_handshake c q; register_session q.connect_session c

  claim : ℕ → Bytes → Bytes → Act (Hub Value) (Unit {0})
  unfolding claim_live_attachment
  claim c s d h = elim (claim_live_attachment c s d h.sockets) [
    | none ↦ (h, failed invalid_client_message)
    | some t ↦ (record h { sockets = t }, done tt)
  ]

  -- `startLiveRelay`, which does nothing on a closed connection
  unfoldable pub start_live_relay : LiveRelay → Act (Hub Value) (Unit {0})
  start_live_relay r h =
      if (h.sockets.conns r.relay_conn).is_closed
      then (h, done tt)
      else (record h { relays = h.relays ++ r ∷ [] }, done tt)

  open_or_stop : ℕ → Act (Hub Value) (Unit {0})
  open_or_stop c h =
      if (h.sockets.conns c).is_closed then (h, failed invalid_client_message) else (h, done tt)

  -- `HandleConnectAndAttachLive`
  unfoldable pub handle_connect_and_attach_live : ℕ → ConnectRequest → Act (Hub Value) (Unit {0})
  unfolding validate_connect_request open_or_stop claim subscribe send_connect_handshake
      max_replay_envelope_version register_session start_live_relay
  handle_connect_and_attach_live c q h =
      (do
        reply (validate_connect_request q)
        open_or_stop c
        claim c q.connect_session q.connect_document
        subscribed_at ← (λ g. (g, (subscribe V C E q.connect_document g.server).1))
        send_connect_handshake c q
        replayed_to ←
            reply (max_replay_envelope_version h.mailboxes q.connect_session q.last_envelope)
        register_session q.connect_session c
        start_live_relay (record {
          relay_conn = c;
          relay_session = q.connect_session;
          relay_document = q.connect_document;
          skip_through = replayed_to;
          from = subscribed_at;
        }))
        h

  -- `AttachLiveSession`
  unfoldable pub attach_live_session : ℕ → Bytes → Bytes → Act (Hub Value) (Unit {0})
  unfolding open_or_stop claim subscribe start_live_relay
  attach_live_session c s d h =
      (do
        reply (if is_nil s || is_nil d then failed invalid_client_message else done tt)
        open_or_stop c
        claim c s d
        subscribed_at ← (λ g. (g, (subscribe V C E d g.server).1))
        start_live_relay (record {
          relay_conn = c;
          relay_session = s;
          relay_document = d;
          skip_through = pos 0;
          from = subscribed_at;
        }))
        h

  -- `HandleAckEnvelope`
  unfoldable pub handle_ack_envelope : AckEnvelopeRequest → Act (Hub Value) (Unit {0})
  unfolding validate_ack_envelope_request ack_through
  handle_ack_envelope q h =
      (do
        reply (validate_ack_envelope_request q)
        acked ← reply (ack_through h.mailboxes q.ack_session q.ack_envelope)
        (λ g. (record g { mailboxes = acked }, done tt)))
        h
