-- ===== src/Sharedb/Server/Commit.antt =====
-- sharedb/server.go: what a submission and a rollback do, on every branch.
use jsonot.Base.{
  ◌≡◌, refl, ap, Bytes, lit, Bool, true, false, not, ◌&&◌, ◌||◌, Option, none, some, [], ◌∷◌,
  is_nil, pos, ltb_ℤ, leb_ℤ, add_int, sub_int, Bool-cases, inl, inr,
}
use jsonot.Value.{Values}
use jsonot.SubType.Interface.{Clients}
use jsonot.Component.{Component}
use jsonot.Operation.{Operation, operation_to_value}
use jsonot.Sharedb.{Event}
use jsonot.Sharedb.Results.{Reply, Reply-cases, done, invalid_version, or_other, of_result}
use jsonot.Engine.{apply}
use jsonot.Sharedb.Store.{OpRecord, DocRecord, get_doc, commit_op}
use jsonot.Sharedb.Act.{on_done, reply}
use jsonot.Sharedb.Server.{Setup, ServerState, SubmitRequest, SubmitResult}
use jsonot.Sharedb.Server.Parse.{json_raw_equal, parse_operation, cache_committed_operation}
use jsonot.Sharedb.Server.Submit.{commit}
use jsonot.Sharedb.Server.Submit.{
  earlier, duplicate_result, rebase_request, commit_request, submit_new, submit_unless, submit_core,
  committed_record, committed_event,
}
use jsonot.Sharedb.Server.Outcome.{
  Kept, Kept-refl, Kept-trans, Kept-on_done, Ends, Ends-on_done, Ends-return, Ends-stop, Committed,
  Committed-Kept,
}
use jsonot.Sharedb.Server.Quiet.{parse_operation-Kept, rebase-Kept}

-- The operation of a submission as it is parsed, and what the concurrent ones make of it, for calls
-- from the state `start`.
abbrev pub Rebased :
    (V : Values) (C : Clients V) (E : Setup V)
    → ServerState V.Value
    → DocRecord
    → SubmitRequest
    → Operation V.Value × Bool
    → Type 0
Rebased V C E start doc q moved =
    (parsed : Operation V.Value) × (t : ServerState V.Value) × (u : ServerState V.Value)
    × (parse_operation V C E q.operation start ≡ (t, done parsed))
    × (rebase_request V C E doc q parsed t ≡ (u, done moved))

-- What the rebased operation makes of a document, and the texts of both.
abbrev pub Applied :
    (V : Values) (C : Clients V) (E : Setup V)
    → DocRecord
    → Operation V.Value
    → Bytes
    → Bytes
    → Type 0
Applied V C E doc o raw content_after =
    (v : V.Value) × (w : V.Value) × (or_other (E.unmarshal doc.content) ≡ done v)
    × (of_result (apply V C v o) ≡ done w)
    × (raw ≡ E.raw_message (operation_to_value V C o))
    × (content_after ≡ E.raw_message w)

-- What a submission that succeeds does: nothing for a retry, or for an operation that the
-- concurrent ones leave empty; else a commit of the rebased operation, and it returns what it
-- commits.
pub data Submitted (V : Values) (C : Clients V) (E : Setup V) (q : SubmitRequest)
    (start s t : ServerState V.Value) : SubmitResult → Type 0 where
  retried :
      {r : SubmitResult} (doc : DocRecord) (o : OpRecord)
      → get_doc s.backend q.request_document ≡ done doc
      → earlier s.backend doc q ≡ done (some o)
      → Kept s t
      → r.duplicate ≡ true
      → r.result_operation ≡ o.op
      → Submitted V C E q start s t r
  left_empty :
      {r : SubmitResult} (doc : DocRecord)
      → get_doc s.backend q.request_document ≡ done doc
      → earlier s.backend doc q ≡ done none
      → Rebased V C E start doc q ([], r.rebased)
      → Kept s t
      → r.duplicate ≡ false
      → r.result_version ≡ doc.doc_version
      → r.result_content ≡ doc.content
      → r.result_operation ≡ lit "[]"
      → Submitted V C E q start s t r
  committed :
      {r : SubmitResult} (doc : DocRecord) (o : Operation V.Value)
      → get_doc s.backend q.request_document ≡ done doc
      → earlier s.backend doc q ≡ done none
      → Rebased V C E start doc q (o, r.rebased)
      → is_nil o ≡ false
      → Applied V C E doc o r.result_operation r.result_content
      → Committed s t
          (record {
            doc_id = q.request_document;
            doc_version = r.result_version;
            content = r.result_content;
          })
          (committed_record q r.result_version r.result_operation)
          (committed_event q r.result_version r.result_operation r.result_content)
      → r.duplicate ≡ false
      → Submitted V C E q start s t r

module _ (V : Values) (C : Clients V) (E : Setup V) where
  open V use {Value}

  Submitted-Kept :
      (q : SubmitRequest) (start s t u : ServerState Value) (r : SubmitResult)
      → Kept s t
      → Submitted V C E q start t u r
      → Submitted V C E q start s u r
  Submitted-Kept q start s t u r h (retried doc o got found k d e) =
      retried doc o (rw (← h.same_backend) got) (rw (← h.same_backend) found) (Kept-trans s t u h k)
        d e
  Submitted-Kept q start s t u r h (left_empty doc got new moved k d n e o) =
      left_empty doc (rw (← h.same_backend) got) (rw (← h.same_backend) new) moved
        (Kept-trans s t u h k) d n e o
  Submitted-Kept q start s t u r h (committed doc o got new moved some_change applied c d) =
      committed doc o (rw (← h.same_backend) got) (rw (← h.same_backend) new) moved some_change
        applied (Committed-Kept s t u _ _ _ h c) d

  -- A commit of the next version of a document that there is.
  pub commit-Ends :
      (doc : DocRecord) (r : OpRecord) (o : Operation Value) (event : Event) (before : DocRecord)
      (s : ServerState Value)
      → get_doc s.backend doc.doc_id ≡ done before
      → doc.doc_version ≡ add_int before.doc_version (pos 1)
      → r.op_version ≡ doc.doc_version
      → r.op_document ≡ doc.doc_id
      → Ends (λ s t u. Committed s t doc r event) s (commit V C E doc r o event s)
  unfolding commit on_done Ends
  commit-Ends doc r o event before s got next same named =
      elim (Reply-cases (commit_op s.backend doc r)) [
        | inl (stored, h) ↦ elim (Bool-cases (is_nil doc.doc_id || leb_ℤ doc.doc_version (pos 0))) [
          | inl k ↦
              rw (commit, h)
                (rw (cache_committed_operation, k)
                  (record {
                    before = before;
                    was_read = got;
                    is_next = next;
                    has_version = same;
                    has_document = named;
                    is_stored = h;
                    is_published = refl;
                  }))
          | inr k ↦
              rw (commit, h)
                (rw (cache_committed_operation, k)
                  (record {
                    before = before;
                    was_read = got;
                    is_next = next;
                    has_version = same;
                    has_document = named;
                    is_stored = h;
                    is_published = refl;
                  }))
        ]
        | inr (inl (e, h)) ↦ rw (commit, h) (Kept-refl s)
        | inr (inr h) ↦ rw (commit, h) (Kept-refl s)
      ]

  empty-Ends :
      (doc : DocRecord) (q : SubmitRequest) (was_rebased : Bool) (start s : ServerState Value)
      → get_doc s.backend q.request_document ≡ done doc
      → earlier s.backend doc q ≡ done none
      → Rebased V C E start doc q ([], was_rebased)
      → Ends (Submitted V C E q start) s (commit_request V C E doc q [] was_rebased s)
  unfolding commit_request Ends
  empty-Ends doc q was_rebased start s got new moved =
      left_empty doc got new moved (Kept-refl s) refl refl refl refl

  nonempty-Ends :
      (doc : DocRecord) (q : SubmitRequest) (c : Component Value) (o : Operation Value)
      (was_rebased : Bool) (start s : ServerState Value)
      → get_doc s.backend q.request_document ≡ done doc
      → earlier s.backend doc q ≡ done none
      → Rebased V C E start doc q (c ∷ o, was_rebased)
      → Ends (Submitted V C E q start) s (commit_request V C E doc q (c ∷ o) was_rebased s)
  unfolding commit_request
  nonempty-Ends doc q c o was_rebased start s got new moved =
      Ends-on_done (Submitted V C E q start) s _ _ (Submitted-Kept q start s) (Kept-refl s)
        (λ value h.
          Ends-on_done (Submitted V C E q start) s _ _ (Submitted-Kept q start s) (Kept-refl s)
            (λ applied k.
              Ends-return _ (Submitted V C E q start) s _ _
                (λ t u w.
                  committed doc (c ∷ o) got new moved refl (value, applied, h, k, refl, refl) w
                    refl)
                (commit-Ends _ _ (c ∷ o) _ doc s got refl refl refl)))

  commit_request-Ends :
      (doc : DocRecord) (q : SubmitRequest) (o : Operation Value) (was_rebased : Bool)
      (start s : ServerState Value)
      → get_doc s.backend q.request_document ≡ done doc
      → earlier s.backend doc q ≡ done none
      → Rebased V C E start doc q (o, was_rebased)
      → Ends (Submitted V C E q start) s (commit_request V C E doc q o was_rebased s)
  commit_request-Ends doc q [] was_rebased start s got new moved =
      empty-Ends doc q was_rebased start s got new moved
  commit_request-Ends doc q (c ∷ o) was_rebased start s got new moved =
      nonempty-Ends doc q c o was_rebased start s got new moved

  rebase_request-Kept :
      (doc : DocRecord) (q : SubmitRequest) (o : Operation Value) (s : ServerState Value)
      → Kept s (rebase_request V C E doc q o s).0
  unfolding rebase_request
  rebase_request-Kept doc q o s = elim (Bool-cases (ltb_ℤ q.request_base doc.doc_version)) [
    | inr h ↦ rw (rebase_request, h) (Kept-refl s)
    | inl h ↦
        elim (Bool-cases (
          ltb_ℤ (pos 0) E.max_rebase_gap
          && ltb_ℤ E.max_rebase_gap (sub_int doc.doc_version q.request_base))) [
            | inl k ↦ rw (rebase_request, h) (rw k (Kept-refl s))
            | inr k ↦
                rw (rebase_request, h)
                  (rw k (
                    Kept-on_done s _ _ (Kept-refl s) (λ rs m.
                      Kept-on_done s _ _ (rebase-Kept V C E rs o s)
                        (λ transformed n. Kept-refl _))))
          ]
  ]

  submit_new-Ends :
      (doc : DocRecord) (q : SubmitRequest) (s : ServerState Value)
      → get_doc s.backend q.request_document ≡ done doc
      → earlier s.backend doc q ≡ done none
      → Ends (Submitted V C E q s) s (submit_new V C E doc q s)
  unfolding submit_new
  submit_new-Ends doc q s got new =
      let parsed : Kept s (parse_operation V C E q.operation s).0 =
        parse_operation-Kept V C E q.operation s in
      Ends-on_done (Submitted V C E q s) s _ _ (Submitted-Kept q s s) parsed (λ o h.
        let t : ServerState Value = (parse_operation V C E q.operation s).0 in
        let same : Kept t (rebase_request V C E doc q o t).0 = rebase_request-Kept doc q o t in
        Ends-on_done (Submitted V C E q s) t _ _ (Submitted-Kept q s t) same (λ moved k.
          commit_request-Ends doc q moved.0 moved.1 s _
            (rw (same.same_backend, parsed.same_backend) got)
            (rw (same.same_backend, parsed.same_backend) new)
            (
              o,
              t,
              (rebase_request V C E doc q o t).0,
              ap (λ (x : Reply (Operation Value)). (t, x)) h,
              ap (λ (x : Reply (Operation Value × Bool)). ((rebase_request V C E doc q o t).0, x))
                  k,
            )))

  retry-Ends :
      (doc : DocRecord) (q : SubmitRequest) (o : OpRecord) (s : ServerState Value)
      → get_doc s.backend q.request_document ≡ done doc
      → earlier s.backend doc q ≡ done (some o)
      → Ends (Submitted V C E q s) s (reply (duplicate_result V C E doc q o) s)
  unfolding duplicate_result Ends
  retry-Ends doc q o s got found =
      elim (Bool-cases
        (not (is_nil o.submitted_op) && not (json_raw_equal V C E q.operation o.submitted_op))) [
          | inl h ↦ rw (duplicate_result, h) (Kept-refl s)
          | inr h ↦ rw (duplicate_result, h) (retried doc o got found (Kept-refl s) refl refl)
        ]

  submit_unless-Ends :
      (doc : DocRecord) (q : SubmitRequest) (found : Option OpRecord) (s : ServerState Value)
      → get_doc s.backend q.request_document ≡ done doc
      → earlier s.backend doc q ≡ done found
      → Ends (Submitted V C E q s) s (submit_unless V C E doc q found s)
  unfolding submit_unless
  submit_unless-Ends doc q none s got m = submit_new-Ends doc q s got m
  submit_unless-Ends doc q (some o) s got m = retry-Ends doc q o s got m

  -- A submission that fails or panics leaves the documents and the published events as they were.
  -- One that succeeds is a retry of a record in the log; or no record has its identity, and it
  -- parses its operation and rebases it over the concurrent ones. A retry, and an operation that
  -- the concurrent ones leave empty, keep documents and events. Any other stores the next version
  -- of its document, which is what the rebased operation makes of the current one, with the
  -- record, publishes one event, and returns the version, operation and document of these.
  pub submit_core-Ends :
      (q : SubmitRequest) (s : ServerState Value)
      → Ends (Submitted V C E q s) s (submit_core V C E q s)
  unfolding submit_core
  submit_core-Ends q s =
      Ends-on_done (Submitted V C E q s) s _ _ (Submitted-Kept q s s) (Kept-refl s) (λ locked h.
        Ends-on_done (Submitted V C E q s) s _ _ (Submitted-Kept q s s) (Kept-refl s) (λ doc got.
          elim (Bool-cases (ltb_ℤ q.request_base (pos 0) || ltb_ℤ doc.doc_version q.request_base)) [
            | inl k ↦ rw k (Ends-stop (Submitted V C E q s) s invalid_version)
            | inr k ↦ rw k (
                Ends-on_done (Submitted V C E q s) s _ _ (Submitted-Kept q s s) (Kept-refl s)
                  (λ found m. submit_unless-Ends doc q found s got m))
          ]))
