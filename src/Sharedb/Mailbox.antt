-- ===== src/Sharedb/Mailbox.antt =====
-- sharedb/mailbox.go, memory_mailbox.go and mailbox_dispatch.go: the mailbox of a session, with the
-- envelopes to replay and the last one that the client has acknowledged.
pub mod Wellformed
pub mod Cursor
pub mod Replay
use mathlib.Core.Option
use jsonot.Base.{
  ℕ, ◌+◌, ◌-◌, suc, zero, ◌≤◌, ◌<◌, ◌≡◌, refl, ap, sym, ◌∙◌, Bool, true, false, not, ◌&&◌, ◌||◌,
  Option, none, some, List, [], ◌∷◌, ◌++◌, map, arith, ltb, leb, ◌==◌, if◌then◌else◌, is_present,
  is_absent, length, get_elem?, take, drop, is_nil, ℤ, pos, negsuc, ltb_ℤ, leb_ℤ, eq_ℤ, add_int,
  sub_int, int_bound, Bytes, lit, str_eq, str_eq_iff, str_eq_refl, Bool-cases, Option-cases, inl,
  inr, ◌≢◌, ◌↔◌, ◌⊎◌,
}
use jsonot.Sharedb.{Event, put}
use jsonot.Sharedb.Results.{
  Reply, done, failed, crash, ◌>>=◌, ◌>>◌, invalid_envelope, invalid_event, envelope_not_found,
  duplicate_envelope_id, slice,
}

-- `EnvelopeKind`, a string with four constants
pub data EnvelopeKind : Type 0 where
  event_kind ack_kind resync_kind error_kind : EnvelopeKind
  other_kind : Bytes → EnvelopeKind

-- `Envelope`
pub record Envelope : Type 0 where
  pub id : Bytes
  pub session_id : Bytes
  pub document_id : Bytes
  pub kind : EnvelopeKind
  pub version : ℤ
  pub event : Option Event

kind_fits : EnvelopeKind → Option Event → Bool
kind_fits event_kind e = is_present e
kind_fits ack_kind e = is_absent e
kind_fits resync_kind e = is_absent e
kind_fits error_kind e = is_absent e
kind_fits (other_kind k) e = false

-- The test of `validateEnvelope`.
unfoldable pub is_valid : Envelope → Bool
unfolding kind_fits
is_valid env =
    not (is_nil env.id || is_nil env.session_id || is_nil env.document_id)
    && kind_fits env.kind env.event

-- `validateEnvelope`
unfoldable pub validate_envelope : Envelope → Reply (Unit {0})
unfolding is_valid
validate_envelope env = if is_valid env then done tt else failed invalid_envelope

-- `validateDispatchEvent`
unfoldable pub validate_dispatch_event : Event → Reply (Unit {0})
validate_dispatch_event e =
    if is_nil e.event_type || is_nil e.event_document || ltb_ℤ e.event_version (pos 0)
    then failed invalid_event
    else done tt

-- `EnvelopeForSession`; `gen` is the next result of the generator, `none` for a nil one.
unfoldable pub envelope_for_session : Bytes → Event → Option Bytes → Reply Envelope
unfolding validate_dispatch_event validate_envelope
envelope_for_session session e none = failed invalid_envelope
envelope_for_session session e (some new_id) = elim (validate_dispatch_event e) [
  | failed x ↦ failed invalid_envelope
  | crash ↦ crash
  | done t ↦
      let env : Envelope = record {
        id = new_id;
        session_id = session;
        document_id = e.event_document;
        kind = event_kind;
        version = e.event_version;
        event = some e;
      } in
      validate_envelope env >> done env
]

-- `MemoryMailboxStore`
pub record Mailboxes : Type 0 where
  pub by_session : Bytes → List Envelope
  pub acked : Bytes → Bytes

-- `NewMemoryMailboxStore`
abbrev pub new_mailboxes : Mailboxes
new_mailboxes = record { by_session = λ s. []; acked = λ s. [] }

-- The place of the first envelope with an id.
unfoldable pub index_of : List Envelope → Bytes → Option ℕ
index_of [] k = none
index_of (e ∷ es) k =
    let rest = index_of es k in if str_eq e.id k then some 0 else Option.map suc rest

-- `Append`
unfoldable pub append : Mailboxes → Envelope → Reply Mailboxes
unfolding validate_envelope index_of
append s env = do
  validate_envelope env
  if is_present (index_of (s.by_session env.session_id) env.id)
      then failed duplicate_envelope_id
      else done (record s {
        by_session = put env.session_id (s.by_session env.session_id ++ env ∷ []) s.by_session;
      })

-- Where `ReplayAfter` starts.
unfoldable pub start_after : List Envelope → Bytes → Reply ℕ
unfolding index_of
start_after es [] = done 0
start_after es (c ∷ after) = elim (index_of es (c ∷ after)) [
  | none ↦ failed envelope_not_found
  | some i ↦ done (i + 1)
]

-- The envelopes from `start` on, `limit` of them if it is positive.
unfoldable pub window : List Envelope → ℕ → ℤ → Reply (List Envelope)
unfolding slice
window es start limit =
    if leb (length es) start
    then done []
    else if ltb_ℤ (pos 0) limit && ltb_ℤ (add_int (pos start) limit) (pos (length es))
    then slice es start (add_int (pos start) limit)
    else slice es start (pos (length es))

-- `ReplayAfter`
unfoldable pub replay_after : Mailboxes → Bytes → Bytes → ℤ → Reply (List Envelope)
unfolding start_after window
replay_after s session after limit = do
  start ← start_after (s.by_session session) after
  window (s.by_session session) start limit

-- Whether a candidate at `i` takes the place of the cursor, which is at the other place.
unfoldable pub moves_on : ℕ → Option ℕ → Bool
moves_on i none = true
moves_on i (some j) = ltb j i

-- `AckThrough`
unfoldable pub ack_through : Mailboxes → Bytes → Bytes → Reply Mailboxes
unfolding index_of moves_on
ack_through s session [] = done s
ack_through s session (c ∷ through) = elim (index_of (s.by_session session) (c ∷ through)) [
  | none ↦ failed envelope_not_found
  | some i ↦
      if is_nil (s.acked session) || moves_on i (index_of (s.by_session session) (s.acked session))
      then done (record s { acked = put session (c ∷ through) s.acked })
      else done s
]

-- `LastAcked`
abbrev pub last_acked : Mailboxes → Bytes → Reply Bytes
last_acked s session = done (s.acked session)
