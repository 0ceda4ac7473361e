-- ===== src/Sharedb/Server/Once.antt =====
-- sharedb/server.go: however often clients send their submissions, each is committed once.
use jsonot.Base.{
  ℕ, ◌+◌, ◌<◌, ◌≡◌, refl, ap, ◌∙◌, true, Option, none, some, List, [], ◌∷◌, arith, length, ℤ, pos,
  int_bound, Bytes, Bool-cases, inl, inr,
}
use jsonot.Value.{Values}
use jsonot.SubType.Interface.{Clients}
use jsonot.Sharedb.{OpId, Event}
use jsonot.Sharedb.Results.{done}
use jsonot.Sharedb.Store.{Backend, OpRecord, DocRecord, MemDoc, get_doc}
use jsonot.Sharedb.Server.{
  Setup, ServerState, SubmitRequest, SubmitResult, request_op_id, record_op_id,
}
use jsonot.Sharedb.Server.Submit.{is_identified, find_record, earlier, committed_record}
use jsonot.Sharedb.Server.History.{rollback_record}
use jsonot.Sharedb.Server.Outcome.{Committed}
use jsonot.Sharedb.Server.Quiet.{get_snapshot_at-Kept}
use jsonot.Sharedb.Server.{new_server}
use jsonot.Sharedb.Store.Log.{Reachable, at_start, AllLogged, IsLogged, Reachable-AllLogged}
use jsonot.Sharedb.Store.Calls.{
  AtMost, put-holds, get_doc-done, commit_op-done, create_doc-done, delete_doc-done,
}
use jsonot.Sharedb.Server.Commit.{Submitted, retried, left_empty, committed, submit_core-Ends}
use jsonot.Sharedb.Server.Documents.{or_empty_object}
use jsonot.Sharedb.Server.Rollback.{
  RolledBack, already_there, moved_back, rollback_to_version-Ends, delete_document-Ends,
  create_document-Ends,
}
use jsonot.Sharedb.Server.Steps.{
  ServerCall, to_create, to_submit, to_delete, to_roll_back, to_read_at, run_call, run_calls,
  run_call-Moves, Moves-Reachable, Ends-elim,
}
use jsonot.Sharedb.Server.Retry.{earlier-log, record_op_id-committed}
use jsonot.Sharedb.Server.Identity.{is_new, is_once, is_new-unknown, is_new-absent, is_once-append}

abbrev HasOnce : Option MemDoc → Type 0
HasOnce none = Unit {0}
HasOnce (some m) = is_once m.ops ≡ true

abbrev AllOnce : Backend → Type 0
AllOnce b = (d : Bytes) → HasOnce (b d)

-- A commit of a new identity.
Committed-AllOnce :
    {V : Type 0} (s t : ServerState V) (doc : DocRecord) (o : OpRecord) (e : Event)
    → AllOnce s.backend
    → Committed s t doc o e
    → ((m : MemDoc) → s.backend doc.doc_id ≡ some m → is_new o m.ops ≡ true)
    → AllOnce t.backend
Committed-AllOnce s t doc o e w c new =
    let (m, held, written) = commit_op-done s.backend t.backend doc o c.is_stored in
    let once : HasOnce (some m) = rw held at (w doc.doc_id) in
    rw (← written)
      (put-holds HasOnce s.backend doc.doc_id _ w (is_once-append m.ops o once (new m held)))

module _ (V : Values) (C : Clients V) (E : Setup V) where
  open V use {Value}

  -- The record of a submission whose identity the server has not found is new.
  submission-is_new :
      (b : Backend) (doc : DocRecord) (q : SubmitRequest) (m : MemDoc) (n : ℤ) (raw : Bytes)
      → AllLogged b
      → get_doc b q.request_document ≡ done doc
      → earlier b doc q ≡ done none
      → b q.request_document ≡ some m
      → is_new (committed_record q n raw) m.ops ≡ true
  submission-is_new b doc q m n raw w got new held =
      let e : record_op_id (committed_record q n raw) ≡ request_op_id q =
        record_op_id-committed q n raw in
      elim (Bool-cases (is_identified (request_op_id q))) [
        | inr unknown ↦
            is_new-unknown (committed_record q n raw) m.ops
              (ap (λ (i : OpId). is_identified i) e ∙ unknown)
        | inl known ↦
            let (m2, held2, e2) = get_doc-done b q.request_document doc got in
            let same_mem : m2 ≡ m = cc in
            let logged : IsLogged (some m) = rw held at (w q.request_document) in
            let v : doc.doc_version ≡ pos (length m.ops) =
              ap (λ (x : DocRecord). x.doc_version) e2 ∙ rw same_mem logged.0 in
            let unseen : find_record (request_op_id q) m.ops ≡ none =
              cc (new, earlier-log b doc q m held v known) in
            is_new-absent (committed_record q n raw) m.ops
              (ap (λ (i : OpId). find_record i m.ops) e ∙ unseen)
      ]

  Submitted-AllOnce :
      (q : SubmitRequest) (s t : ServerState Value) (r : SubmitResult)
      → AllLogged s.backend
      → AllOnce s.backend
      → Submitted V C E q s s t r
      → AllOnce t.backend
  Submitted-AllOnce q s t r l w (retried doc o got found h d e) = rw (h.same_backend) w
  Submitted-AllOnce q s t r l w (left_empty doc got new moved h d v e o) = rw (h.same_backend) w
  Submitted-AllOnce q s t r l w (committed doc o got new moved some_change applied c d) =
      Committed-AllOnce s t _ _ _ w c (λ m held.
        submission-is_new s.backend doc q m r.result_version r.result_operation l got new held)

  RolledBack-AllOnce :
      (d by : Bytes) (target : ℤ) (s t : ServerState Value) (r : SubmitResult)
      → AllOnce s.backend
      → RolledBack V C E d by target s s t r
      → AllOnce t.backend
  RolledBack-AllOnce d by target s t r w (already_there doc got there h v e) = rw (h.same_backend) w
  RolledBack-AllOnce d by target s t r w (moved_back doc got away within back c) =
      Committed-AllOnce s t _ _ _ w c (λ m held.
        is_new-unknown (rollback_record doc d by r.result_version r.result_operation) m.ops
          (ground arith))

  run_call-AllOnce :
      (c : ServerCall) (s : ServerState Value)
      → AllLogged s.backend
      → AllOnce s.backend
      → AllOnce (run_call V C E c s).backend
  unfolding run_call is_once
  run_call-AllOnce (to_create d initial) s l w =
      Ends-elim _ (λ t. AllOnce t.backend) s _ (λ t h. rw (h.same_backend) w)
        (λ t u h.
          let (absent, e) =
            create_doc-done s.backend t.backend d (or_empty_object initial) h.is_created in
          rw (← e) (put-holds HasOnce s.backend d _ w refl))
        (create_document-Ends V C E d initial s)
  run_call-AllOnce (to_submit q) s l w =
      Ends-elim _ (λ t. AllOnce t.backend) s _ (λ t h. rw (h.same_backend) w)
        (λ t u h. Submitted-AllOnce q s t u l w h) (submit_core-Ends V C E q s)
  run_call-AllOnce (to_delete d base by) s l w =
      Ends-elim _ (λ t. AllOnce t.backend) s _ (λ t h. rw (h.same_backend) w)
        (λ t u h.
          rw (← delete_doc-done s.backend t.backend d h.is_removed)
            (put-holds HasOnce s.backend d none w tt))
        (delete_document-Ends V C E d by base s)
  run_call-AllOnce (to_roll_back d target by) s l w =
      Ends-elim _ (λ t. AllOnce t.backend) s _ (λ t h. rw (h.same_backend) w)
        (λ t u h. RolledBack-AllOnce d by target s t u w h)
        (rollback_to_version-Ends V C E d by target s)
  run_call-AllOnce (to_read_at d v) s l w = rw ((get_snapshot_at-Kept V C E d v s).same_backend) w

  run_calls-AllOnce :
      (cs : List ServerCall) (n : ℕ) (s : ServerState Value)
      → Reachable s.backend
      → AtMost n s.backend
      → AllOnce s.backend
      → n + length cs < int_bound
      → AllOnce (run_calls V C E cs s).backend
  unfolding run_calls
  run_calls-AllOnce [] n s reach k w bound = w
  run_calls-AllOnce (c ∷ cs) n s reach k w bound =
      let l : AllLogged s.backend = Reachable-AllLogged s.backend reach in
      let (reach', k') =
        Moves-Reachable V C E n s.backend (run_call V C E c s).backend reach k
          (run_call-Moves V C E n c s l k (omega arith)) in
      run_calls-AllOnce cs (n + 1) (run_call V C E c s) reach' k' (run_call-AllOnce c s l w)
        (omega arith)

  -- After any calls of a new server, fewer than 2 ^ 63, the log of a document has at most one
  -- record of each identity (a source and a sequence above 0), however often clients send a
  -- submission.
  pub run_calls-once :
      (cs : List ServerCall) (d : Bytes) (m : MemDoc)
      → length cs < int_bound
      → (run_calls V C E cs new_server).backend d ≡ some m
      → is_once m.ops ≡ true
  run_calls-once cs d m bound held =
      let w : AllOnce (run_calls V C E cs new_server).backend =
        run_calls-AllOnce cs 0 new_server at_start (λ j. tt) (λ j. tt) (omega arith) in
      let h : HasOnce (some m) = rw held at (w d) in h
