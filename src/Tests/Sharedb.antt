-- ===== src/Tests/Sharedb.antt =====
-- The mailboxes and the store.
use jsonot.Base.{
  ◌+◌, ◌-◌, ◌≡◌, refl, true, none, some, List, [], ◌∷◌, ◌++◌, arith, length, pos, Bytes, lit,
  str_eq, add_int,
}
use jsonot.Sharedb.{OpId, put}
use jsonot.Sharedb.Results.{done}
use jsonot.Sharedb.Mailbox.{
  Mailboxes, Envelope, ack_kind, new_mailboxes, index_of, replay_after, is_valid, moves_on,
  start_after, window, validate_envelope, append, ack_through,
}
use jsonot.Sharedb.Mailbox.Wellformed.{
  MailboxCall, IsWellformed, appending, acking, run_calls, run_calls-IsWellformed, call,
}
use jsonot.Sharedb.Mailbox.Cursor.{HoldsFrom, run_calls-cursor}
use jsonot.Sharedb.Mailbox.Replay.{replay_after-pages}
use jsonot.Sharedb.Reconnect.{replay_session_mailbox, replay_session_mailbox-missed}
use jsonot.Sharedb.Results.{slice}
use jsonot.Sharedb.Store.{
  Backend, DocRecord, OpRecord, new_backend, create_doc, get_doc, commit_op, get_ops,
}
use jsonot.Sharedb.Store.Log.{
  AllLogged, NumberedFrom, Reachable, at_start, stepped, creating, committing, Reachable-AllLogged,
  get_ops-history,
}

abbrev ack_of : Bytes → Envelope
ack_of name = record {
  id = name;
  session_id = lit "s";
  document_id = lit "d";
  kind = ack_kind;
  version = pos 1;
  event = none;
}

-- A session gets three envelopes and acknowledges the first.
abbrev calls : List MailboxCall
calls =
    appending (ack_of (lit "a"))
    ∷ appending (ack_of (lit "b"))
    ∷ appending (ack_of (lit "c"))
    ∷ acking (lit "s") (lit "a")
    ∷ []

abbrev three : Mailboxes
three = run_calls new_mailboxes calls

new-IsWellformed : IsWellformed new_mailboxes
new-IsWellformed = record { distinct = λ k. tt; own = λ k. tt; cursor = λ k. refl }

run_calls-IsWellformed_example : IsWellformed three
run_calls-IsWellformed_example = run_calls-IsWellformed calls new_mailboxes new-IsWellformed

three-IsWellformed : IsWellformed three
three-IsWellformed = run_calls-IsWellformed calls new_mailboxes new-IsWellformed

run_calls-cursor_example :
    HoldsFrom 0
      (run_calls three (acking (lit "s") (lit "c") ∷ acking (lit "s") (lit "b") ∷ []))
      (lit "s")
unfolding run_calls call str_eq append ack_through index_of validate_envelope is_valid moves_on
run_calls-cursor_example =
    run_calls-cursor (acking (lit "s") (lit "c") ∷ acking (lit "s") (lit "b") ∷ []) three (lit "s")
      0 three-IsWellformed refl

replay_after-pages_example :
    (ys : List Envelope) × (replay_after three (lit "s") (lit "b") (pos 1) ≡ done ys)
    × (replay_after three (lit "s") (lit "a") (pos (1 + 1))
        ≡ done (([] ++ ack_of (lit "b") ∷ []) ++ ys))
unfolding run_calls call str_eq append ack_through index_of validate_envelope is_valid moves_on
    replay_after start_after window slice add_int
replay_after-pages_example =
    replay_after-pages three (lit "s") (lit "a") 1 1 [] (ack_of (lit "b")) three-IsWellformed
      (omega arith) (omega arith) (omega arith) refl

replay_session_mailbox-missed_example :
    replay_session_mailbox new_mailboxes (lit "s") (lit "a") (pos 0)
    ≡ done (record {
      replay_session = lit "s";
      envelopes = [];
      replay_last_acked = [];
      requires_resync = true;
      reason = lit "replay_cursor_not_found";
    })
unfolding index_of
replay_session_mailbox-missed_example =
    replay_session_mailbox-missed new_mailboxes (lit "s") (lit "a")

-- A document with one operation.
abbrev no_id : OpId
no_id = record { id_source = []; id_sequence = pos 0 }

abbrev created : Backend
created = put (lit "d") (some (record { mem_version = pos 0; doc = lit "1"; ops = [] })) new_backend

abbrev second_doc : DocRecord
second_doc = record { doc_id = lit "d"; doc_version = pos 1; content = lit "2" }

abbrev first_op : OpRecord
first_op = record {
  op_document = lit "d";
  op_version = pos 1;
  base_version = pos 0;
  op_id = no_id;
  source = [];
  sequence = pos 0;
  submitted_op = lit "x";
  op = lit "x";
}

abbrev committed : Backend
committed =
    put (lit "d") (some (record { mem_version = pos 1; doc = lit "2"; ops = first_op ∷ [] }))
      created

created-Reachable : Reachable created
unfolding create_doc
created-Reachable = stepped at_start (creating (lit "d") (lit "1") refl)

committed-Reachable : Reachable committed
unfolding get_doc commit_op add_int str_eq
committed-Reachable = stepped created-Reachable (
    committing (record { doc_id = lit "d"; doc_version = pos 0; content = lit "1" }) second_doc
      first_op refl refl refl refl refl)

Reachable-AllLogged_example : AllLogged committed
Reachable-AllLogged_example = Reachable-AllLogged committed committed-Reachable

get_ops-history_example :
    (rs : List OpRecord) × (get_ops committed (lit "d") (pos 0) (pos 1) ≡ done rs)
    × (length rs ≡ 1 - 0)
    × NumberedFrom 0 rs
unfolding get_doc str_eq
get_ops-history_example =
    get_ops-history committed (lit "d") second_doc 0 1 committed-Reachable refl (omega arith) refl
