-- ===== src/Sharedb/Protocol/Sending.antt =====
-- sharedb/ws_protocol.go: what a live relay sends for one event.
use jsonot.Base.{
  ℕ, ◌≡◌, refl, sym, ap, ◌∙◌, Bool, true, ◌||◌, Option, none, some, List, [], ◌∷◌, ◌++◌, arith,
  is_nil, pos, ltb_ℤ, Bytes, Bool-cases, inl, inr, ◌==◌, ◌⊎◌, is_present,
}
use jsonot.Value.{Values}
use jsonot.SubType.Interface.{Clients}
use jsonot.Sharedb.{put, Event}
use jsonot.Sharedb.Results.{
  Reply, done, failed, ShareError, invalid_envelope, duplicate_envelope_id,
}
use jsonot.Sharedb.Act.{on_done}
use jsonot.Sharedb.Mailbox.{Envelope, Mailboxes, append, envelope_for_session}
use jsonot.Sharedb.Server.{Setup}
use jsonot.Sharedb.Transport.{Sockets, close, enqueue}
use jsonot.Sharedb.Protocol.{Message, event_message, LiveRelay, Hub}
use jsonot.Sharedb.Mailbox.{
  event_kind, validate_dispatch_event, validate_envelope, is_valid, index_of,
}
use jsonot.Sharedb.Protocol.Handlers.{send_json}
use jsonot.Sharedb.Protocol.Relay.{relay_message}

abbrev pub event_of_message : Message → Option Event
event_of_message (event_message s d env) = env.event
event_of_message _ = none

abbrev pub sent_to : {V : Type 0} → ℕ → Hub V → List Message
sent_to c h = (h.sockets.conns c).outbox

abbrev pub is_shut : {V : Type 0} → ℕ → Hub V → Bool
is_shut c h = (h.sockets.conns c).is_closed

-- What a send does.
pub data Sending {V : Type 0} (c : ℕ) (m : Message) (h : Hub V)
    : Hub V × Reply (Unit {0}) → Type 0 where
  refused : (e : ShareError) → Sending c m h (h, failed e)
  accepted :
      (t : Hub V)
      → sent_to c t ≡ sent_to c h ++ m ∷ []
      → is_shut c t ≡ is_shut c h
      → Sending c m h (t, done tt)

-- What a message of the relay does.
pub data Messaging {V : Type 0} (c : ℕ) (e : Event) (h : Hub V)
    : Hub V × Reply (Unit {0}) → Type 0 where
  not_sent :
      (t : Hub V) (x : ShareError) → sent_to c t ≡ sent_to c h → Messaging c e h (t, failed x)
  was_sent :
      (t : Hub V) (m : Message)
      → event_of_message m ≡ some e
      → sent_to c t ≡ sent_to c h ++ m ∷ []
      → is_shut c t ≡ is_shut c h
      → Messaging c e h (t, done tt)

pub eq_self : (c : ℕ) → c == c ≡ true
eq_self c = ground arith

-- The envelope of an event.
abbrev event_envelope : Bytes → Event → Bytes → Envelope
event_envelope s e new_id = record {
  id = new_id;
  session_id = s;
  document_id = e.event_document;
  kind = event_kind;
  version = e.event_version;
  event = some e;
}

envelope-cases :
    (s : Bytes) (e : Event) (new_id : Bytes)
    → ((x : ShareError) × (envelope_for_session s e (some new_id) ≡ failed x))
      ⊎ ((env : Envelope) × (envelope_for_session s e (some new_id) ≡ done env)
          × (env.event ≡ some e))
unfolding envelope_for_session validate_dispatch_event validate_envelope
envelope-cases s e new_id =
    elim (Bool-cases
      (is_nil e.event_type || is_nil e.event_document || ltb_ℤ e.event_version (pos 0))) [
        | inl bad ↦
            inl (invalid_envelope, rw (envelope_for_session, validate_dispatch_event, bad) refl)
        | inr good ↦ elim (Bool-cases (is_valid (event_envelope s e new_id))) [
          | inr unfit ↦ inl (
            invalid_envelope,
            rw (envelope_for_session, validate_dispatch_event, good)
                (rw (validate_envelope, unfit) refl),
          )
          | inl fit ↦ inr (
            event_envelope s e new_id,
            rw (envelope_for_session, validate_dispatch_event, good)
                (rw (validate_envelope, fit) refl),
            refl,
          )
        ]
      ]

append-cases :
    (b : Mailboxes) (env : Envelope)
    → ((x : ShareError) × (append b env ≡ failed x)) ⊎ ((b' : Mailboxes) × (append b env ≡ done b'))
unfolding append validate_envelope
append-cases b env = elim (Bool-cases (is_valid env)) [
  | inr bad ↦ inl (invalid_envelope, rw (append, bad) refl)
  | inl good ↦ elim (Bool-cases (is_present (index_of (b.by_session env.session_id) env.id))) [
    | inl twice ↦ inl (duplicate_envelope_id, rw (append, good) (rw twice refl))
    | inr once ↦ inr (
      record b {
        by_session = put env.session_id (b.by_session env.session_id ++ env ∷ []) b.by_session;
      },
      rw (append, good) (rw once refl),
    )
  ]
]

-- A send behind a stored envelope.
sending :
    {V : Type 0} (c : ℕ) (e : Event) (m : Message) (h g : Hub V) (x : Hub V × Reply (Unit {0}))
    → event_of_message m ≡ some e
    → sent_to c g ≡ sent_to c h
    → is_shut c g ≡ is_shut c h
    → Sending c m g x
    → Messaging c e h x
sending c e m h g _ has same still (refused x) = not_sent g x same
sending c e m h g _ has same still (accepted t out shut) =
    was_sent t m has (out ∙ ap (◌++ m ∷ []) same) (shut ∙ still)

pub close-outbox :
    {M : Type 0} (c : ℕ) (t : Sockets M) → ((close c t).conns c).outbox ≡ (t.conns c).outbox
unfolding close
close-outbox c t = elim (Bool-cases (t.conns c).is_closed) [
  | inl shut ↦ rw (close, shut) refl
  | inr still ↦ rw (close, still) (rw (eq_self c) refl)
]

module _ (V : Values) (C : Clients V) (E : Setup V) (gen : ℕ → Bytes)
    (marshals : Message → Bool) where
  open V use {Value}

  send_json-Sending :
      (c : ℕ) (m : Message) (h : Hub Value) → Sending c m h (send_json V C E gen marshals c m h)
  unfolding send_json enqueue
  send_json-Sending c m h = elim (Bool-cases (marshals m)) [
    | inr bad ↦ rw (send_json, bad) (refused _)
    | inl good ↦ elim (Bool-cases (h.sockets.conns c).is_closed) [
      | inl shut ↦ rw (send_json, good) (rw (enqueue, shut) (refused _))
      | inr fine ↦
          rw (send_json, good)
            (rw (enqueue, fine)
              (accepted _ (rw (sent_to, eq_self c) refl) (rw (is_shut, eq_self c) (sym fine))))
    ]
  ]

  pub relay_message-Messaging :
      (r : LiveRelay) (e : Event) (h : Hub Value)
      → Messaging r.relay_conn e h (relay_message V C E gen marshals r e h)
  unfolding relay_message on_done
  relay_message-Messaging r e h = elim (envelope-cases r.relay_session e (gen h.issued)) [
    | inl (x, bad) ↦ rw (relay_message, bad) (not_sent _ x refl)
    | inr (env, good, has) ↦ elim (append-cases h.mailboxes env) [
      | inl (x, bad) ↦ rw (relay_message, good) (rw bad (not_sent _ x refl))
      | inr (stored, kept) ↦
          rw (relay_message, good)
            (rw kept (
              sending r.relay_conn e (event_message r.relay_session r.relay_document env) h _ _ has
                refl refl (send_json-Sending r.relay_conn _ _)))
    ]
  ]
