-- ===== src/Sharedb/Server/History.antt =====
-- sharedb/server.go: going back to an earlier version by inverse operations.
use jsonot.Base.{
  false, ◌||◌, List, [], ◌∷◌, ◌++◌, if◌then◌else◌, ℤ, pos, ltb_ℤ, eq_ℤ, add_int, Bytes, lit, Result,
  ok, err, panic,
}
use jsonot.Value.{Values}
use jsonot.SubType.Interface.{Clients}
use jsonot.Component.{Component, invert}
use jsonot.Operation.{Operation, operation_validation, operation_to_value, append, compose}
use jsonot.Engine.{apply}
use jsonot.Sharedb.{Event, event_op}
use jsonot.Sharedb.Results.{of_result, or_other, invalid_version}
use jsonot.Sharedb.Store.{OpRecord, DocRecord, get_doc}
use jsonot.Sharedb.Act.{Act, ◌>>=◌, ◌>>◌, reply, return, stop}
use jsonot.Sharedb.Server.{Setup, ServerState, Snapshot, SubmitResult}
use jsonot.Sharedb.Server.Parse.{parse_operation, get_or_parse_committed_operation}
use jsonot.Sharedb.Server.Submit.{commit}
use jsonot.Sharedb.Server.Documents.{get_operations}

-- A list from its end, as a loop that counts down reads it.
abbrev pub from_end {ℓ} : {A : Type ℓ} → List A → List A
from_end [] = []
from_end (x ∷ xs) = from_end xs ++ x ∷ []

abbrev pub rollback_record : DocRecord → Bytes → Bytes → ℤ → Bytes → OpRecord
rollback_record doc d by n raw = record {
  op_document = d;
  op_version = n;
  base_version = doc.doc_version;
  op_id = record { id_source = []; id_sequence = pos 0 };
  source = by;
  sequence = pos 0;
  submitted_op = raw;
  op = raw;
}

abbrev pub rollback_event : Bytes → Bytes → ℤ → Bytes → Bytes → Event
rollback_event d by n raw back = record {
  event_type = event_op;
  event_document = d;
  event_version = n;
  event_id = record { id_source = []; id_sequence = pos 0 };
  event_source = by;
  event_sequence = pos 0;
  event_operation = raw;
  event_content = back;
}

module _ (V : Values) (C : Clients V) (E : Setup V) where
  open V use {Value}

  -- The loop of `inverseOperation`.
  unfoldable pub append_inverses :
      List (Component Value) → Operation Value → Result (Operation Value)
  unfolding invert append
  append_inverses [] o = ok o
  append_inverses (c ∷ cs) o = elim (invert V C c) [
    | err e ↦ err e
    | panic ↦ panic
    | ok (inverse, receiver) ↦ elim (append V C o inverse) [
      | err e ↦ err e
      | panic ↦ panic
      | ok inverted ↦ append_inverses cs inverted
    ]
  ]

  -- `Server.inverseOperation`
  unfoldable pub inverse_operation : OpRecord → Act (ServerState Value) (Operation Value)
  unfolding get_or_parse_committed_operation append_inverses parse_operation operation_to_value
  inverse_operation r = do
    o ← get_or_parse_committed_operation V C E r
    inverted ← reply (of_result (append_inverses (from_end o) []))
    parse_operation V C E (E.raw_message (operation_to_value V C inverted))

  -- The loop of `documentAtVersion`, over the records from the newest one on.
  unfoldable pub undo_all : List OpRecord → Value → Act (ServerState Value) Value
  unfolding inverse_operation apply
  undo_all [] v = return v
  undo_all (r ∷ rs) v = do
    inverse ← inverse_operation r
    w ← reply (of_result (apply V C v inverse))
    undo_all rs w

  -- `Server.documentAtVersion`
  unfoldable pub document_at_version : DocRecord → ℤ → Act (ServerState Value) Bytes
  unfolding undo_all get_operations
  document_at_version doc target = do
    rs ← get_operations V C E doc.doc_id target doc.doc_version
    value ← reply (or_other (E.unmarshal doc.content))
    back ← undo_all (from_end rs) value
    return (E.raw_message back)

  -- `Server.GetSnapshotAt`
  unfoldable pub get_snapshot_at : Bytes → ℤ → Act (ServerState Value) Snapshot
  unfolding get_doc document_at_version
  get_snapshot_at d n s =
      (do
        doc ← reply (get_doc s.backend d)
        if ltb_ℤ n (pos 0) || ltb_ℤ doc.doc_version n
            then stop invalid_version
            else if eq_ℤ n doc.doc_version
            then return (record {
              snapshot_id = d;
              snapshot_version = doc.doc_version;
              snapshot_content = doc.content;
            })
            else (do
              back ← document_at_version doc n
              return (record { snapshot_id = d; snapshot_version = n; snapshot_content = back })))
        s

  -- The loop of `rollbackToVersionOperation`: the composed operation and the document.
  unfoldable pub roll_back :
      List OpRecord → Operation Value → Value → Act (ServerState Value) (Operation Value × Value)
  unfolding inverse_operation apply compose
  roll_back [] o v = return (o, v)
  roll_back (r ∷ rs) o v = do
    inverse ← inverse_operation r
    rollback ← reply (of_result (compose V C o inverse))
    w ← reply (of_result (apply V C v inverse))
    roll_back rs rollback w

  -- `Server.rollbackToVersionOperation`
  unfoldable pub rollback_to_version_operation :
      DocRecord → ℤ → Act (ServerState Value) (Operation Value × Bytes)
  unfolding roll_back get_operations operation_validation
  rollback_to_version_operation doc target = do
    rs ← get_operations V C E doc.doc_id target doc.doc_version
    value ← reply (or_other (E.unmarshal doc.content))
    (rollback, back) ← roll_back (from_end rs) [] value
    reply (of_result (operation_validation rollback))
    return (rollback, E.raw_message back)

  -- `Server.RollbackToVersion`
  unfoldable pub rollback_to_version : Bytes → ℤ → Bytes → Act (ServerState Value) SubmitResult
  unfolding get_doc rollback_to_version_operation commit operation_to_value
  rollback_to_version d target by s =
      (do
        reply (E.lock d)
        doc ← reply (get_doc s.backend d)
        if ltb_ℤ target (pos 0) || ltb_ℤ doc.doc_version target
            then stop invalid_version
            else if eq_ℤ target doc.doc_version
            then return (record {
              result_version = doc.doc_version;
              rebased = false;
              duplicate = false;
              result_operation = lit "[]";
              result_content = doc.content;
            })
            else (do
              (rollback, back) ← rollback_to_version_operation doc target
              let raw = E.raw_message (operation_to_value V C rollback)
              let n = add_int doc.doc_version (pos 1)
              commit V C E (record { doc_id = d; doc_version = n; content = back })
                  (rollback_record doc d by n raw) rollback (rollback_event d by n raw back)
              return (record {
                result_version = n;
                rebased = false;
                duplicate = false;
                result_operation = raw;
                result_content = back;
              })))
        s
