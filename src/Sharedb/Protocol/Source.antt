-- ===== src/Sharedb/Protocol/Source.antt =====
-- sharedb/ws_protocol.go: a submission is its session's, and is not relayed back to it.
use jsonot.Base.{
  ℕ, ◌≡◌, refl, Bool, true, not, ◌||◌, [], ◌∷◌, ◌++◌, arith, is_nil, pos, ltb_ℤ, Bytes, Bool-cases,
  inl, inr, ◌⊎◌,
}
use jsonot.Value.{Values}
use jsonot.SubType.Interface.{Clients}
use jsonot.Sharedb.{Event}
use jsonot.Sharedb.Results.{Reply, Reply-cases, done, failed, crash}
use jsonot.Sharedb.Act.{after_on_done}
use jsonot.Sharedb.Server.{
  Setup, ServerState, SubmitRequest, SubmitResult, request_op_id, or_source,
}
use jsonot.Sharedb.Server.Submit.{submit_core}
use jsonot.Sharedb.Transport.{enqueue}
use jsonot.Sharedb.Protocol.{SubmitMessage, Message, canonicalize_submit_request, Hub}
use jsonot.Sharedb.Server.Steps.{Ends-elim}
use jsonot.Sharedb.Server.Commit.{Submitted, retried, left_empty, committed, submit_core-Ends}
use jsonot.Sharedb.Protocol.Handlers.{send_json}
use jsonot.Sharedb.Protocol.Submission.{acknowledge, answer, handle_submit}

or_source_same : (a : Bytes) → or_source a a ≡ a
or_source_same a = elim (Bool-cases (is_nil a)) [ inl h ↦ rw h refl | inr h ↦ rw h refl ]

or_source_nil : (a b : Bytes) → is_nil a ≡ true → or_source a b ≡ b
or_source_nil a b h = rw h refl

-- The identity of a canonical request has the session as its source.
canonical-source :
    (m : SubmitMessage)
    → (request_op_id (canonicalize_submit_request m)).id_source ≡ m.submit_session
unfolding canonicalize_submit_request
canonical-source m =
    elim (Bool-cases (
      not (is_nil m.request.request_id.id_source)
      || ltb_ℤ (pos 0) m.request.request_id.id_sequence)) [
        | inl named ↦ rw (canonicalize_submit_request, named) (or_source_same m.submit_session)
        | inr bare ↦
            rw (canonicalize_submit_request, bare)
              (or_source_nil m.request.request_id.id_source m.submit_session (ground arith))
      ]

-- From `s` to `t` one event is published, by this session and of this document, or none.
abbrev pub PublishedBy : {V : Type 0} → Bytes → Bytes → ServerState V → ServerState V → Type 0
PublishedBy session d s t =
    (t.published ≡ s.published)
    ⊎ ((e : Event) × (t.published ≡ s.published ++ e ∷ [])
        × (e.event_source ≡ session)
        × (e.event_document ≡ d))

module _ (V : Values) (C : Clients V) (E : Setup V) (gen : ℕ → Bytes)
    (marshals : Message → Bool) where
  open V use {Value}

  send_json-server :
      (c : ℕ) (m : Message) (h : Hub Value)
      → (send_json V C E gen marshals c m h).0.server ≡ h.server
  unfolding send_json
  send_json-server c m h = elim (Bool-cases (marshals m)) [
    | inr bad ↦ rw (send_json, bad) refl
    | inl good ↦ elim (Reply-cases (enqueue c m h.sockets)) [
      | inl (t, done_eq) ↦ rw (send_json, good) (rw done_eq refl)
      | inr (inl (e, failed_eq)) ↦ rw (send_json, good) (rw failed_eq refl)
      | inr (inr crash_eq) ↦ rw (send_json, good) (rw crash_eq refl)
    ]
  ]

  acknowledge-server :
      (c : ℕ) (m : SubmitMessage) (r : SubmitResult) (h : Hub Value)
      → (acknowledge V C E gen marshals c m r h).0.server ≡ h.server
  unfolding acknowledge
  acknowledge-server c m r h = elim (Bool-cases r.duplicate) [
    | inl again ↦ rw (acknowledge, again) (send_json-server c _ h)
    | inr first ↦
        rw (acknowledge, first)
          (after_on_done (λ (g : Hub Value). g.server ≡ h.server) _ _ refl
            (λ env e.
              after_on_done (λ (g : Hub Value). g.server ≡ h.server) _ _ refl
                (λ stored k.
                  after_on_done (λ (g : Hub Value). g.server ≡ h.server) _ _ refl
                    (λ u n. send_json-server c _ _))))
  ]

  answer-server :
      (c : ℕ) (m : SubmitMessage) (x : Reply SubmitResult) (h : Hub Value)
      → (answer V C E gen marshals c m x h).0.server ≡ h.server
  unfolding answer
  answer-server c m (done r) h = acknowledge-server c m r h
  answer-server c m (failed e) h = send_json-server c _ h
  answer-server c m crash h = refl

  Submitted-PublishedBy :
      (m : SubmitMessage) (s t : ServerState Value) (r : SubmitResult)
      → Submitted V C E (canonicalize_submit_request m) s s t r
      → PublishedBy m.submit_session m.submit_document s t
  unfolding canonicalize_submit_request
  Submitted-PublishedBy m s t r (retried doc o got found k d e) = inl k.same_published
  Submitted-PublishedBy m s t r (left_empty doc got new moved k d n e o) = inl k.same_published
  Submitted-PublishedBy m s t r (committed doc o got new moved some_change applied c d) =
      inr (_, c.is_published, canonical-source m, refl)

  -- Handling a submit message publishes no event or one, with the message's session as its source
  -- and the message's document, whatever source and document its request names.
  pub handle_submit-PublishedBy :
      (c : ℕ) (m : SubmitMessage) (h : Hub Value)
      → PublishedBy m.submit_session m.submit_document h.server
          (handle_submit V C E gen marshals c m h).0.server
  unfolding handle_submit
  handle_submit-PublishedBy c m h =
      after_on_done
        (λ (g : Hub Value). PublishedBy m.submit_session m.submit_document h.server g.server) _ _
        (inl refl)
        (λ u valid.
          let q : SubmitRequest = canonicalize_submit_request m in
          let x : ServerState Value × Reply SubmitResult = submit_core V C E q h.server in
          rw (answer-server c m x.1 (record h { server = x.0 })) (
            Ends-elim (Submitted V C E q h.server)
              (λ t. PublishedBy m.submit_session m.submit_document h.server t) h.server x
              (λ t k. inl k.same_published) (λ t r k. Submitted-PublishedBy m h.server t r k)
              (submit_core-Ends V C E q h.server)))
