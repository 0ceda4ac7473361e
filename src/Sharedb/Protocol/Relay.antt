-- ===== src/Sharedb/Protocol/Relay.antt =====
-- sharedb/ws_protocol.go: the loop of `startLiveRelay`, over the events that its channel brings.
use jsonot.Base.{
  ℕ, ◌+◌, Bool, true, false, not, ◌&&◌, some, List, [], ◌∷◌, if◌then◌else◌, leb_ℤ, Bytes, str_eq,
}
use jsonot.Value.{Values}
use jsonot.SubType.Interface.{Clients}
use jsonot.Sharedb.{Event}
use jsonot.Sharedb.Results.{Reply, done, failed, crash}
use jsonot.Sharedb.Act.{Act, ◌>>=◌, ◌>>◌}
use jsonot.Sharedb.Mailbox.{append, envelope_for_session, validate_dispatch_event}
use jsonot.Sharedb.Server.{Setup}
use jsonot.Sharedb.Transport.{close}
use jsonot.Sharedb.Protocol.{Message, event_message, LiveRelay, Hub}
use jsonot.Sharedb.Protocol.Handlers.{send_json}

-- Whether the loop passes an event on.
abbrev pub wanted : LiveRelay → Event → Bool
wanted r e =
    not (leb_ℤ e.event_version r.skip_through) && not (str_eq e.event_source r.relay_session)

-- An id is generated for an event that is valid.
abbrev pub ids_after : Reply (Unit {0}) → ℕ → ℕ
ids_after (done u) n = n + 1
ids_after _ n = n

module _ (V : Values) (C : Clients V) (E : Setup V) (gen : ℕ → Bytes)
    (marshals : Message → Bool) where
  open V use {Value}

  unfoldable pub stop_relay : ℕ → Hub Value → Hub Value × Bool
  unfolding close
  stop_relay c h = (record h { sockets = close c h.sockets }, false)

  -- The message of an event: the next id, the envelope, the mailbox, the connection.
  unfoldable pub relay_message : LiveRelay → Event → Act (Hub Value) (Unit {0})
  unfolding envelope_for_session validate_dispatch_event append send_json
  relay_message r e h =
      (do
        env ← (λ g. (
          record g { issued = ids_after (validate_dispatch_event e) g.issued },
          envelope_for_session r.relay_session e (some (gen g.issued)),
        ))
        stored ← (λ g. (g, append g.mailboxes env))
        (λ g. (record g { mailboxes = stored }, done tt))
        send_json V C E gen marshals r.relay_conn
            (event_message r.relay_session r.relay_document env))
        h

  -- What the loop does behind a message: it goes on, or closes the connection. A panic ends the
  -- program.
  unfoldable pub relay_next : LiveRelay → Hub Value × Reply (Unit {0}) → Hub Value × Bool
  unfolding stop_relay
  relay_next r (h, done u) = (h, true)
  relay_next r (h, failed e) = stop_relay r.relay_conn h
  relay_next r (h, crash) = (h, false)

  -- One round, and whether there is another.
  unfoldable pub relay_event : LiveRelay → Event → Hub Value → Hub Value × Bool
  unfolding relay_message relay_next
  relay_event r e h =
      if (h.sockets.conns r.relay_conn).is_closed
      then (h, false)
      else if leb_ℤ e.event_version r.skip_through
      then (h, true)
      else if str_eq e.event_source r.relay_session
      then (h, true)
      else relay_next r (relay_message r e h)

  -- The loop.
  unfoldable pub relay_events : LiveRelay → List Event → Hub Value → Hub Value
  unfolding relay_event
  relay_events r [] h = h
  relay_events r (e ∷ es) h =
      let (next, goes_on) = relay_event r e h in
      elim goes_on [ true ↦ relay_events r es next | false ↦ next ]
