-- ===== src/Sharedb/Server/Submit.antt =====
-- sharedb/server.go: `submitCore`.
use jsonot.Base.{
  Bool, true, false, not, ◌&&◌, ◌||◌, Option, none, some, List, [], ◌∷◌, ◌++◌, if◌then◌else◌,
  is_nil, ℤ, pos, ltb_ℤ, eq_ℤ, add_int, sub_int, Bytes, lit, str_eq,
}
use jsonot.Value.{Values}
use jsonot.SubType.Interface.{Clients}
use jsonot.Operation.{Operation, operation_to_value, is_empty}
use jsonot.Transform.Matrix.{transform}
use jsonot.Engine.{apply}
use jsonot.Sharedb.{OpId, Event, event_op}
use jsonot.Sharedb.Results.{
  Reply, done, failed, crash, of_result, or_other, stale_submit, StaleSubmitError, invalid_version,
  duplicate_sequence_conflict,
}
use jsonot.Sharedb.Store.{Backend, OpRecord, DocRecord, get_doc, commit_op, get_ops}
use jsonot.Sharedb.Act.{Act, ◌>>=◌, ◌>>◌, reply, return, stop}
use jsonot.Sharedb.Server.{
  Setup, ServerState, SubmitRequest, SubmitResult, request_op_id, record_op_id,
}
use jsonot.Sharedb.Server.Parse.{
  json_raw_equal, parse_operation, cache_committed_operation, get_or_parse_committed_operation,
}

-- The record of a client's sequence.
unfoldable pub find_record : OpId → List OpRecord → Option OpRecord
find_record k [] = none
find_record k (r ∷ rs) =
    if str_eq (record_op_id r).id_source k.id_source
      && eq_ℤ (record_op_id r).id_sequence k.id_sequence
    then some r
    else find_record k rs

-- Whether a submission has an identity.
abbrev pub is_identified : OpId → Bool
is_identified k = not (is_nil k.id_source) && ltb_ℤ (pos 0) k.id_sequence

-- The record that makes a submission a retry.
unfoldable pub earlier : Backend → DocRecord → SubmitRequest → Reply (Option OpRecord)
unfolding find_record get_ops
earlier b doc q =
    if is_identified (request_op_id q) && ltb_ℤ (pos 0) doc.doc_version
    then elim (get_ops b q.request_document (pos 0) doc.doc_version) [
      | done rs ↦ done (find_record (request_op_id q) rs)
      | failed e ↦ failed e
      | crash ↦ crash
    ]
    else done none

abbrev pub committed_record : SubmitRequest → ℤ → Bytes → OpRecord
committed_record q n raw = record {
  op_document = q.request_document;
  op_version = n;
  base_version = q.request_base;
  op_id = request_op_id q;
  source = (request_op_id q).id_source;
  sequence = (request_op_id q).id_sequence;
  submitted_op = q.operation;
  op = raw;
}

abbrev pub committed_event : SubmitRequest → ℤ → Bytes → Bytes → Event
committed_event q n raw content_after = record {
  event_type = event_op;
  event_document = q.request_document;
  event_version = n;
  event_id = request_op_id q;
  event_source = (request_op_id q).id_source;
  event_sequence = (request_op_id q).id_sequence;
  event_operation = raw;
  event_content = content_after;
}

module _ (V : Values) (C : Clients V) (E : Setup V) where
  open V use {Value}

  -- What a retry of a submission returns, where `r` is the submission's record.
  unfoldable pub duplicate_result : DocRecord → SubmitRequest → OpRecord → Reply SubmitResult
  unfolding json_raw_equal
  duplicate_result doc q r =
      if not (is_nil r.submitted_op) && not (json_raw_equal V C E q.operation r.submitted_op)
      then failed duplicate_sequence_conflict
      else done (record {
        result_version = doc.doc_version;
        rebased = false;
        duplicate = true;
        result_operation = r.op;
        result_content = doc.content;
      })

  -- The loop that transforms an operation over the concurrent ones.
  unfoldable pub rebase :
      List OpRecord → Operation Value → Act (ServerState Value) (Operation Value)
  unfolding get_or_parse_committed_operation transform
  rebase [] o = return o
  rebase (r ∷ rs) o = do
    concurrent ← get_or_parse_committed_operation V C E r
    transformed ← reply (of_result (transform V C o concurrent))
    rebase rs transformed.left_op

  abbrev stale_error : DocRecord → SubmitRequest → StaleSubmitError
  stale_error doc q = record {
    stale_reason = lit "version_behind_window";
    stale_document = q.request_document;
    stale_base = q.request_base;
    stale_current = doc.doc_version;
    min_supported = sub_int doc.doc_version E.max_rebase_gap;
    max_gap = E.max_rebase_gap;
  }

  -- The operation over all those since its base version, and whether there are any.
  unfoldable pub rebase_request :
      DocRecord → SubmitRequest → Operation Value → Act (ServerState Value) (Operation Value × Bool)
  unfolding rebase get_ops
  rebase_request doc q o =
      if ltb_ℤ q.request_base doc.doc_version
      then if ltb_ℤ (pos 0) E.max_rebase_gap
          && ltb_ℤ E.max_rebase_gap (sub_int doc.doc_version q.request_base)
        then stop (stale_submit (stale_error doc q))
        else (λ s.
            (do
              concurrent ←
                  reply (get_ops s.backend q.request_document q.request_base doc.doc_version)
              transformed ← rebase concurrent o
              return (transformed, true))
              s)
      else return (o, false)

  -- A commit: the backend, then the cache, then the subscribers.
  unfoldable pub commit :
      DocRecord → OpRecord → Operation Value → Event → Act (ServerState Value) (Unit {0})
  unfolding cache_committed_operation commit_op
  commit doc r o event s =
      (do
        stored ← reply (commit_op s.backend doc r)
        (λ t. (record t { backend = stored }, done tt))
        cache_committed_operation V C E doc.doc_id doc.doc_version o
        (λ t. (record t { published = t.published ++ event ∷ [] }, done tt)))
        s

  -- The rest of a submission, behind the transformation.
  unfoldable pub commit_request :
      DocRecord → SubmitRequest → Operation Value → Bool → Act (ServerState Value) SubmitResult
  unfolding commit apply operation_to_value
  commit_request doc q o was_rebased =
      if is_empty o
      then return (record {
        result_version = doc.doc_version;
        rebased = was_rebased;
        duplicate = false;
        result_operation = lit "[]";
        result_content = doc.content;
      })
      else (do
        value ← reply (or_other (E.unmarshal doc.content))
        applied ← reply (of_result (apply V C value o))
        let content_after = E.raw_message applied
        let raw = E.raw_message (operation_to_value V C o)
        let n = add_int doc.doc_version (pos 1)
        commit (record { doc_id = q.request_document; doc_version = n; content = content_after })
            (committed_record q n raw) o (committed_event q n raw content_after)
        return (record {
          result_version = n;
          rebased = was_rebased;
          duplicate = false;
          result_operation = raw;
          result_content = content_after;
        }))

  -- A submission that is not a retry.
  unfoldable pub submit_new : DocRecord → SubmitRequest → Act (ServerState Value) SubmitResult
  unfolding parse_operation rebase_request commit_request
  submit_new doc q = do
    o ← parse_operation V C E q.operation
    (transformed, was_rebased) ← rebase_request doc q o
    commit_request doc q transformed was_rebased

  unfoldable pub submit_unless :
      DocRecord → SubmitRequest → Option OpRecord → Act (ServerState Value) SubmitResult
  unfolding submit_new duplicate_result
  submit_unless doc q (some r) = reply (duplicate_result doc q r)
  submit_unless doc q none = submit_new doc q

  -- `Server.submitCore`
  unfoldable pub submit_core : SubmitRequest → Act (ServerState Value) SubmitResult
  unfolding submit_unless earlier get_doc
  submit_core q s =
      (do
        reply (E.lock q.request_document)
        doc ← reply (get_doc s.backend q.request_document)
        if ltb_ℤ q.request_base (pos 0) || ltb_ℤ doc.doc_version q.request_base
            then stop invalid_version
            else (do found ← reply (earlier s.backend doc q); submit_unless doc q found))
        s
