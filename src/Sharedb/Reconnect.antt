-- ===== src/Sharedb/Reconnect.antt =====
-- sharedb/reconnect.go: what a client that reconnects gets, over the memory store.
use jsonot.Base.{
  ℕ, ◌+◌, ◌-◌, ◌≡◌, Bool, true, false, not, none, some, List, [], ◌∷◌, arith, ltb, leb,
  if◌then◌else◌, is_present, length, take, drop, is_nil, ℤ, pos, Bytes, lit, Bool-cases,
  Option-cases, inl, inr,
}
use jsonot.Sharedb.Results.{Reply, done, failed, crash, ◌>>=◌, envelope_not_found, ShareError}
use jsonot.Sharedb.Mailbox.{
  Mailboxes, Envelope, replay_after, last_acked, index_of, window, start_after,
}
use jsonot.Sharedb.Mailbox.Replay.{take-all, drop-all}
use jsonot.Sharedb.Results.{slice}
use jsonot.Base.{length-drop}

-- `ReplayResult`, less the fields that are never set; the reason is set with the flag.
pub record ReplayResult : Type 0 where
  pub replay_session : Bytes
  pub envelopes : List Envelope
  pub replay_last_acked : Bytes
  pub requires_resync : Bool
  pub reason : Bytes

is_unknown_cursor : Bytes → ShareError → Bool
is_unknown_cursor after envelope_not_found = not (is_nil after)
is_unknown_cursor after e = false

-- `ReplaySessionMailbox`
unfoldable pub replay_session_mailbox : Mailboxes → Bytes → Bytes → ℤ → Reply ReplayResult
unfolding replay_after is_unknown_cursor
replay_session_mailbox s session after limit = do
  acked ← last_acked s session
  elim (replay_after s session after limit) [
    | done es ↦ done (record {
      replay_session = session;
      envelopes = es;
      replay_last_acked = acked;
      requires_resync = false;
      reason = [];
    })
    | failed e ↦
        if is_unknown_cursor after e
        then done (record {
          replay_session = session;
          envelopes = [];
          replay_last_acked = acked;
          requires_resync = true;
          reason = lit "replay_cursor_not_found";
        })
        else failed e
    | crash ↦ crash
  ]

-- What a client with this cursor has missed, and whether the mailbox knows the cursor.
abbrev pub missed : List Envelope → Bytes → List Envelope
missed es [] = es
missed es (c ∷ after) = elim (index_of es (c ∷ after)) [ none ↦ [] | some i ↦ drop (i + 1) es ]

abbrev pub is_known : List Envelope → Bytes → Bool
is_known es [] = true
is_known es (c ∷ after) = is_present (index_of es (c ∷ after))

window-all : (es : List Envelope) (start : ℕ) → window es start (pos 0) ≡ done (drop start es)
unfolding window slice
window-all es start = elim (Bool-cases (leb (length es) start)) [
  | inl past ↦ let e : drop start es ≡ [] = drop-all es start (ground arith) in rw (past, e)
  | inr before ↦
      let b : ltb (length es) start ≡ false = ground arith in
      let c : ltb (length es) (length es) ≡ false = ground arith in
      let all : take (length es - start) (drop start es) ≡ drop start es =
        take-all (drop start es) (length es - start) (omega (arith, length-drop start es)) in
      rw (before, b, c, all)
]

-- Without a limit, a session that reconnects is sent what it has missed, or is told to load the
-- document again exactly when its cursor is not in the mailbox.
pub replay_session_mailbox-missed :
    (s : Mailboxes) (k after : Bytes)
    → replay_session_mailbox s k after (pos 0)
      ≡ done (record {
        replay_session = k;
        envelopes = missed (s.by_session k) after;
        replay_last_acked = s.acked k;
        requires_resync = not (is_known (s.by_session k) after);
        reason = if is_known (s.by_session k) after then [] else lit "replay_cursor_not_found";
      })
unfolding replay_session_mailbox replay_after start_after is_unknown_cursor
replay_session_mailbox-missed s k [] = rw (window-all (s.by_session k) 0)
replay_session_mailbox-missed s k (c ∷ after) =
    elim (Option-cases (index_of (s.by_session k) (c ∷ after))) [
      | inl absent ↦ rw (start_after, missed, absent)
      | inr (i, found) ↦ rw (start_after, missed, found) (rw (window-all (s.by_session k) (i + 1)))
    ]
