-- ===== src/Sharedb/Protocol/Submission.antt =====
-- sharedb/ws_protocol.go: `HandleSubmit`.
use jsonot.Base.{ℕ, ◌+◌, Bool, none, some, if◌then◌else◌, Bytes}
use jsonot.Value.{Values}
use jsonot.SubType.Interface.{Clients}
use jsonot.Sharedb.Results.{Reply, done, failed, crash}
use jsonot.Sharedb.Act.{Act, ◌>>=◌, ◌>>◌, reply}
use jsonot.Sharedb.Mailbox.{append}
use jsonot.Sharedb.Server.{Setup, SubmitResult}
use jsonot.Sharedb.Server.Submit.{submit_core}
use jsonot.Sharedb.Protocol.{
  SubmitMessage, Message, submit_ack_message, submit_error_message, validate_submit_message,
  canonicalize_submit_request, submit_ack_envelope, submit_error_message_of, Hub,
}
use jsonot.Sharedb.Protocol.Handlers.{send_json}

module _ (V : Values) (C : Clients V) (E : Setup V) (gen : ℕ → Bytes)
    (marshals : Message → Bool) where
  open V use {Value}

  -- What is sent for the result of a submission.
  unfoldable pub acknowledge : ℕ → SubmitMessage → SubmitResult → Act (Hub Value) (Unit {0})
  unfolding send_json submit_ack_envelope append
  acknowledge c m r =
      if r.duplicate
      then send_json V C E gen marshals c
          (submit_ack_message m.submit_session m.submit_document r none)
      else (do
        env ← (λ g. (
          record g { issued = g.issued + 1 },
          submit_ack_envelope m.submit_session m.submit_document r.result_version (gen g.issued),
        ))
        stored ← (λ g. (g, append g.mailboxes env))
        (λ g. (record g { mailboxes = stored }, done tt))
        send_json V C E gen marshals c
            (submit_ack_message m.submit_session m.submit_document r (some env)))

  unfoldable pub answer : ℕ → SubmitMessage → Reply SubmitResult → Act (Hub Value) (Unit {0})
  unfolding acknowledge send_json submit_error_message_of
  answer c m (done r) = acknowledge c m r
  answer c m (failed e) =
      send_json V C E gen marshals c
        (submit_error_message (submit_error_message_of m.submit_session m.submit_document e))
  answer c m crash = reply crash

  -- `HandleSubmit`
  unfoldable pub handle_submit : ℕ → SubmitMessage → Act (Hub Value) (Unit {0})
  unfolding validate_submit_message canonicalize_submit_request submit_core answer
  handle_submit c m h =
      (do
        reply (validate_submit_message m)
        (λ g.
            let (submitted, result) = submit_core V C E (canonicalize_submit_request m) g.server in
            answer c m result (record g { server = submitted })))
        h
