-- ===== src/Sharedb/Server/Documents.antt =====
-- sharedb/server.go: creating, reading and deleting documents, and the middleware of submissions.
use jsonot.Base.{
  ℕ, not, ◌||◌, Option, none, some, List, [], ◌∷◌, ◌++◌, if◌then◌else◌, is_nil, length, ℤ, pos,
  ltb_ℤ, eq_ℤ, sub_int, Bytes, lit,
}
use jsonot.Value.{Values}
use jsonot.SubType.Interface.{Clients}
use jsonot.Sharedb.{Event, event_delete}
use jsonot.Sharedb.Results.{Reply, done, failed, crash, invalid_version, other}
use jsonot.Sharedb.Store.{OpRecord, DocRecord, create_doc, get_doc, delete_doc, get_ops}
use jsonot.Sharedb.Act.{Act, ◌>>=◌, ◌>>◌, reply, return, stop}
use jsonot.Sharedb.Server.{Setup, ServerState, Snapshot, SubmitRequest, SubmitResult, cache_delete}

-- A handler of submissions, and what wraps one; `none` is a nil handler.
abbrev pub Handler : Type 0 → Type 0
Handler Value = SubmitRequest → Act (ServerState Value) SubmitResult

abbrev pub Middleware : Type 0 → Type 0
Middleware Value = Handler Value → Option (Handler Value)

-- `Server.buildSubmitHandler`: the loop goes from the last middleware to the first.
unfoldable pub build_submit_handler :
    {Value : Type 0} → List (Middleware Value) → Handler Value → Reply (Handler Value)
build_submit_handler [] core = done core
build_submit_handler (m ∷ ms) core = elim (build_submit_handler ms core) [
  | done handler ↦ elim (m handler) [ none ↦ crash | some wrapped ↦ done wrapped ]
  | failed e ↦ failed e
  | crash ↦ crash
]

abbrev pub or_empty_object : Bytes → Bytes
or_empty_object initial = if is_nil initial then lit "{}" else initial

abbrev pub deleted_event : DocRecord → Bytes → Bytes → Event
deleted_event doc d by = record {
  event_type = event_delete;
  event_document = d;
  event_version = doc.doc_version;
  event_id = record { id_source = []; id_sequence = pos 0 };
  event_source = by;
  event_sequence = pos 0;
  event_operation = [];
  event_content = doc.content;
}

module _ (V : Values) (C : Clients V) (E : Setup V) where
  open V use {Value}

  -- `Server.CreateDocument`
  unfoldable pub create_document : Bytes → Bytes → Act (ServerState Value) Snapshot
  unfolding create_doc
  create_document d initial s =
      (do
        reply (E.lock d)
        created ← reply (create_doc s.backend d (or_empty_object initial))
        (λ t. (
          record t { backend = created },
          done (record {
            snapshot_id = d;
            snapshot_version = pos 0;
            snapshot_content = or_empty_object initial;
          }),
        )))
        s

  -- `Server.GetSnapshot`
  unfoldable pub get_snapshot : Bytes → Act (ServerState Value) Snapshot
  unfolding get_doc
  get_snapshot d s =
      (do
        doc ← reply (get_doc s.backend d)
        return (record {
          snapshot_id = d;
          snapshot_version = doc.doc_version;
          snapshot_content = doc.content;
        }))
        s

  -- `Server.Subscribe`: a subscriber gets the events of the document that are published from here on.
  unfoldable pub subscribe : Bytes → Act (ServerState Value) ℕ
  unfolding get_doc
  subscribe d s = (do doc ← reply (get_doc s.backend d); return (length s.published)) s

  -- `Server.DeleteDocument`
  unfoldable pub delete_document : Bytes → ℤ → Bytes → Act (ServerState Value) (Unit {0})
  unfolding get_doc delete_doc cache_delete
  delete_document d base by s =
      (do
        reply (E.lock d)
        doc ← reply (get_doc s.backend d)
        if not (eq_ℤ base doc.doc_version) then stop invalid_version else (do
          left ← reply (delete_doc s.backend d)
          (λ t. (
            record t {
              backend = left;
              parsed_ops = cache_delete t.parsed_ops d;
              published = t.published ++ deleted_event doc d by ∷ [];
            },
            done tt,
          ))))
        s

  -- `Server.GetOperations`
  unfoldable pub get_operations : Bytes → ℤ → ℤ → Act (ServerState Value) (List OpRecord)
  unfolding get_doc get_ops
  get_operations d from to s =
      (do
        doc ← reply (get_doc s.backend d)
        if ltb_ℤ from (pos 0) || ltb_ℤ to from || ltb_ℤ doc.doc_version to
            then stop invalid_version
            else (do
              rs ← reply (get_ops s.backend d from to)
              if eq_ℤ (pos (length rs)) (sub_int to from) then return rs else stop other))
        s

  -- `Server.Submit`
  unfoldable pub submit :
      Handler Value → Bytes → ℤ → Bytes → Bytes → Act (ServerState Value) SubmitResult
  submit handler d base raw by = handler (record {
    request_document = d;
    request_base = base;
    operation = raw;
    request_id = record { id_source = []; id_sequence = pos 0 };
    request_source = by;
    request_sequence = pos 0;
  })
