-- ===== src/Sharedb/Protocol/Delivery.antt =====
-- What a live relay sends: the events of others behind the replayed version, in order.
use jsonot.Base.{
  append_empty, append_assoc, ℕ, ◌≡◌, refl, ap, ◌∙◌, Bool, true, false, some, List, [], ◌∷◌, ◌++◌,
  map, if◌then◌else◌, length, take, suc, leb_ℤ, Bytes, str_eq, Bool-cases, inl, inr, ◌⊎◌,
}
use jsonot.Value.{Values}
use jsonot.SubType.Interface.{Clients}
use jsonot.Sharedb.{Event}
use jsonot.Sharedb.Results.{Reply}
use jsonot.Sharedb.Server.{Setup}
use jsonot.Sharedb.Transport.{close}
use jsonot.Sharedb.Protocol.{Message, LiveRelay, Hub}
use jsonot.Sharedb.Transport.Hooks.{close-closes}
use jsonot.Sharedb.Protocol.Relay.{stop_relay, relay_next, wanted, relay_event, relay_events}
use jsonot.Sharedb.Protocol.Sending.{
  event_of_message, sent_to, is_shut, Messaging, not_sent, was_sent, close-outbox,
  relay_message-Messaging,
}

-- The events of a list that a relay passes on.
abbrev pub all_wanted : LiveRelay → List Event → List Event
all_wanted r [] = []
all_wanted r (e ∷ es) = if wanted r e then e ∷ all_wanted r es else all_wanted r es

-- Between `h` and `t` the relay's connection is sent messages of its wanted events, in order: all of
-- them, or the first ones and the connection is closed.
abbrev pub Delivered : {V : Type 0} → LiveRelay → List Event → Hub V → Hub V → Type 0
Delivered r es h t =
    (k : ℕ) × (ms : List Message) × (sent_to r.relay_conn t ≡ sent_to r.relay_conn h ++ ms)
    × (map event_of_message ms ≡ map some (take k (all_wanted r es)))
    × ((is_shut r.relay_conn t ≡ true) ⊎ (k ≡ length (all_wanted r es)))

-- What a round of the loop does.
data Round {V : Type 0} (r : LiveRelay) (e : Event) (h : Hub V) : Hub V × Bool → Type 0 where
  over : is_shut r.relay_conn h ≡ true → Round r e h (h, false)
  passed : wanted r e ≡ false → Round r e h (h, true)
  sent :
      (t : Hub V) (m : Message)
      → wanted r e ≡ true
      → event_of_message m ≡ some e
      → sent_to r.relay_conn t ≡ sent_to r.relay_conn h ++ m ∷ []
      → Round r e h (t, true)
  broken :
      (t : Hub V)
      → sent_to r.relay_conn t ≡ sent_to r.relay_conn h
      → is_shut r.relay_conn t ≡ true
      → Round r e h (t, false)

-- No message, and the connection is closed.
Delivered-none :
    {V : Type 0} (r : LiveRelay) (es : List Event) (h t : Hub V)
    → sent_to r.relay_conn t ≡ sent_to r.relay_conn h
    → is_shut r.relay_conn t ≡ true
    → Delivered r es h t
Delivered-none r es h t same shut =
    (0, [], same ∙ append_empty (sent_to r.relay_conn h), refl, inl shut)

-- A message of the first event before those of the rest.
Delivered-cons :
    {V : Type 0} (r : LiveRelay) (e : Event) (es : List Event) (m : Message) (h g t : Hub V)
    → wanted r e ≡ true
    → event_of_message m ≡ some e
    → sent_to r.relay_conn g ≡ sent_to r.relay_conn h ++ m ∷ []
    → Delivered r es g t
    → Delivered r (e ∷ es) h t
Delivered-cons r e es m h g t want has out (k, ms, more, events, end) = rw want (
  suc k,
  m ∷ ms,
  more ∙ ap (◌++ ms) out ∙ append_assoc (sent_to r.relay_conn h) (m ∷ []) ms,
  rw (has, events) refl,
  elim end [ inl shut ↦ inl shut | inr all ↦ inr (ap suc all) ],
)

module _ (V : Values) (C : Clients V) (E : Setup V) (gen : ℕ → Bytes)
    (marshals : Message → Bool) where
  open V use {Value}

  Messaging-Round :
      (r : LiveRelay) (e : Event) (h : Hub Value) (x : Hub Value × Reply (Unit {0}))
      → wanted r e ≡ true
      → Messaging r.relay_conn e h x
      → Round r e h (relay_next V C E gen marshals r x)
  unfolding relay_next stop_relay
  Messaging-Round r e h _ want (not_sent t x same) =
      broken (record t { sockets = close r.relay_conn t.sockets })
        (close-outbox r.relay_conn t.sockets ∙ same) (close-closes r.relay_conn t.sockets)
  Messaging-Round r e h _ want (was_sent t m has out shut) = sent t m want has out

  relay_event-Round :
      (r : LiveRelay) (e : Event) (h : Hub Value)
      → Round r e h (relay_event V C E gen marshals r e h)
  unfolding relay_event
  relay_event-Round r e h = elim (Bool-cases (h.sockets.conns r.relay_conn).is_closed) [
    | inl shut ↦ rw (relay_event, shut) (over shut)
    | inr fine ↦ elim (Bool-cases (leb_ℤ e.event_version r.skip_through)) [
      | inl old ↦ rw (relay_event, fine) (rw old (passed (rw old refl)))
      | inr fresh_event ↦ elim (Bool-cases (str_eq e.event_source r.relay_session)) [
        | inl own ↦
            rw (relay_event, fine) (rw fresh_event (rw own (passed (rw (fresh_event, own) refl))))
        | inr others ↦
            rw (relay_event, fine)
              (rw fresh_event (
                rw others (
                  Messaging-Round r e h _ (rw (fresh_event, others) refl)
                    (relay_message-Messaging V C E gen marshals r e h))))
      ]
    ]
  ]

  Round-Delivered :
      (r : LiveRelay) (e : Event) (es : List Event) (h : Hub Value) (x : Hub Value × Bool)
      → Round r e h x
      → Delivered r es x.0 (relay_events V C E gen marshals r es x.0)
      → Delivered r
          (e ∷ es)
          h
          (elim x.1 [ true ↦ relay_events V C E gen marshals r es x.0 | false ↦ x.0 ])
  Round-Delivered r e es h _ (over shut) rest = Delivered-none r (e ∷ es) h h refl shut
  Round-Delivered r e es h _ (passed unwanted) rest = rw unwanted rest
  Round-Delivered r e es h _ (sent t m want has out) rest =
      Delivered-cons r e es m h t (relay_events V C E gen marshals r es t) want has out rest
  Round-Delivered r e es h _ (broken t same shut) rest = Delivered-none r (e ∷ es) h t same shut

  -- Whatever events its channel brings, a live relay sends its connection messages of the events
  -- that are behind the replayed version and not of its own session, in their order: of all of
  -- them, or of the first ones, and then the connection is closed.
  pub relay_events-Delivered :
      (r : LiveRelay) (es : List Event) (h : Hub Value)
      → Delivered r es h (relay_events V C E gen marshals r es h)
  unfolding relay_events
  relay_events-Delivered r [] h = (0, [], append_empty (sent_to r.relay_conn h), refl, inr refl)
  relay_events-Delivered r (e ∷ es) h =
      let x : Hub Value × Bool = relay_event V C E gen marshals r e h in
      Round-Delivered r e es h x (relay_event-Round r e h) (relay_events-Delivered r es x.0)
