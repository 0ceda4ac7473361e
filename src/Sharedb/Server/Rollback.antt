-- ===== src/Sharedb/Server/Rollback.antt =====
-- sharedb/server.go: what a rollback, a creation and a deletion do, on every branch.
use jsonot.Base.{
  false, List, ◌≡◌, refl, ap, ◌∙◌, ◌||◌, [], ◌∷◌, ◌++◌, ℤ, pos, ltb_ℤ, eq_ℤ, Bytes, Bool-cases, inl,
  inr, eq_ℤ→eq,
}
use jsonot.Value.{Values}
use jsonot.SubType.Interface.{Clients}
use jsonot.Sharedb.Results.{done, invalid_version}
use jsonot.Sharedb.Store.{DocRecord, create_doc, get_doc, delete_doc}
use jsonot.Sharedb.Server.{Setup, ServerState, Snapshot, SubmitResult}
use jsonot.Sharedb.Server.History.{
  from_end, roll_back, undo_all, document_at_version, get_snapshot_at,
  rollback_to_version_operation,
}
use jsonot.Operation.{Operation}
use jsonot.Sharedb.Act.{on_done-eq, on_done-done, on_done_chain}
use jsonot.Sharedb.Results.{Reply}
use jsonot.Sharedb.Store.{OpRecord}
use jsonot.Sharedb.Server.History.{rollback_record, rollback_event, rollback_to_version}
use jsonot.Sharedb.Server.Documents.{create_document, delete_document}
use jsonot.Sharedb.Server.Outcome.{
  Kept, Kept-refl, Kept-trans, Ends, Ends-on_done, Ends-return, Ends-stop, Ends-give, Ends-change,
  Committed, Committed-Kept,
}
use jsonot.Sharedb.Server.Quiet.{rollback_to_version_operation-Kept}
use jsonot.Sharedb.Server.Documents.{or_empty_object, deleted_event, get_operations}
use jsonot.Sharedb.Server.Commit.{commit-Ends}

-- What `GetSnapshotAt` gives, called in the state `start`.
abbrev pub SnapshotAt :
    (V : Values) (C : Clients V) (E : Setup V) → ServerState V.Value → Bytes → ℤ → Bytes → Type 0
SnapshotAt V C E start d target back =
    (t : ServerState V.Value) × (get_snapshot_at V C E d target start
      ≡ (t, done (record { snapshot_id = d; snapshot_version = target; snapshot_content = back })))

-- What a rollback to version `target` that succeeds does: nothing at the current version, else a
-- commit of the document as it was at that version, and it returns what it commits.
pub data RolledBack (V : Values) (C : Clients V) (E : Setup V) (d by : Bytes) (target : ℤ)
    (start s t : ServerState V.Value) : SubmitResult → Type 0 where
  already_there :
      {r : SubmitResult} (doc : DocRecord)
      → get_doc s.backend d ≡ done doc
      → target ≡ doc.doc_version
      → Kept s t
      → r.result_version ≡ doc.doc_version
      → r.result_content ≡ doc.content
      → RolledBack V C E d by target start s t r
  moved_back :
      {r : SubmitResult} (doc : DocRecord)
      → get_doc s.backend d ≡ done doc
      → eq_ℤ target doc.doc_version ≡ false
      → ltb_ℤ target (pos 0) || ltb_ℤ doc.doc_version target ≡ false
      → SnapshotAt V C E start d target r.result_content
      → Committed s t
          (record { doc_id = d; doc_version = r.result_version; content = r.result_content })
          (rollback_record doc d by r.result_version r.result_operation)
          (rollback_event d by r.result_version r.result_operation r.result_content)
      → RolledBack V C E d by target start s t r

second_of :
    {S A B : Type 0} (s t : S) (a a' : A) (b b' : B)
    → ◌≡◌ {A = S × Reply (A × B)} (s, done (a, b)) (t, done (a', b'))
    → ◌≡◌ {A = S × Reply B} (s, done b) (t, done b')
second_of s t a a' b b' e = cc

-- What a deletion that succeeds does.
pub record Deleted {V : Type 0} (d by : Bytes) (s t : ServerState V) : Type 0 where
  pub deleted : DocRecord
  pub was_there : get_doc s.backend d ≡ done deleted
  pub is_removed : delete_doc s.backend d ≡ done t.backend
  pub is_told : t.published ≡ s.published ++ deleted_event deleted d by ∷ []

Deleted-Kept :
    {V : Type 0} (d by : Bytes) (s t u : ServerState V)
    → Kept s t
    → Deleted d by t u
    → Deleted d by s u
Deleted-Kept d by s t u h c = record {
  deleted = c.deleted;
  was_there = rw (← h.same_backend) c.was_there;
  is_removed = rw (← h.same_backend) c.is_removed;
  is_told = c.is_told ∙ ap (◌++ deleted_event c.deleted d by ∷ []) h.same_published;
}

-- What a creation that succeeds does.
pub record Created {V : Type 0} (d initial : Bytes) (s t : ServerState V) : Type 0 where
  pub is_created : create_doc s.backend d initial ≡ done t.backend
  pub is_untold : t.published ≡ s.published

Created-Kept :
    {V : Type 0} (d initial : Bytes) (s t u : ServerState V)
    → Kept s t
    → Created d initial t u
    → Created d initial s u
Created-Kept d initial s t u h c = record {
  is_created = rw (← h.same_backend) c.is_created;
  is_untold = c.is_untold ∙ h.same_published;
}

module _ (V : Values) (C : Clients V) (E : Setup V) where
  open V use {Value}

  RolledBack-Kept :
      (d by : Bytes) (target : ℤ) (start s t u : ServerState Value) (r : SubmitResult)
      → Kept s t
      → RolledBack V C E d by target start t u r
      → RolledBack V C E d by target start s u r
  RolledBack-Kept d by target start s t u r h (already_there doc got there k n e) =
      already_there doc (rw (← h.same_backend) got) there (Kept-trans s t u h k) n e
  RolledBack-Kept d by target start s t u r h (moved_back doc got away within back c) =
      moved_back doc (rw (← h.same_backend) got) away within back (Committed-Kept s t u _ _ _ h c)

  -- A rollback goes through the documents that undoing the records goes through.
  roll_back-undo_all :
      (rs : List OpRecord) (o o' : Operation Value) (v w : Value) (s t : ServerState Value)
      → roll_back V C E rs o v s ≡ (t, done (o', w))
      → undo_all V C E rs v s ≡ (t, done w)
  unfolding roll_back undo_all
  roll_back-undo_all [] o o' v w s t h = cc
  roll_back-undo_all (r ∷ rs) o o' v w s t h =
      let (inverse, e1, h1) = on_done-eq _ _ h in
      let (rollback, e2, h2) = on_done-eq _ _ h1 in
      let (x, e3, h3) = on_done-eq _ _ h2 in
      on_done-done _ _ inverse e1
      ∙ (on_done-done _ _ x e3 ∙ roll_back-undo_all rs rollback o' x w _ t h3)

  -- A rollback ends at the document that `documentAtVersion` gives.
  rollback-document :
      (doc : DocRecord) (target : ℤ) (o : Operation Value) (back : Bytes) (s t : ServerState Value)
      → rollback_to_version_operation V C E doc target s ≡ (t, done (o, back))
      → document_at_version V C E doc target s ≡ (t, done back)
  unfolding rollback_to_version_operation document_at_version
  rollback-document doc target o back s t h =
      let (rs, e1, h1) = on_done-eq _ _ h in
      let (value, e2, h2) = on_done-eq _ _ h1 in
      let (rolled, e3, h3) = on_done-eq _ _ h2 in
      let (valid, e4, h4) = on_done-eq _ _ h3 in
      let g : ServerState Value = (get_operations V C E doc.doc_id target doc.doc_version s).0 in
      let b : ServerState Value × Reply (Operation Value × Value) =
        roll_back V C E (from_end rs) [] value g in
      let undone : undo_all V C E (from_end rs) value g ≡ (b.0, done rolled.1) =
        roll_back-undo_all (from_end rs) [] rolled.0 value rolled.1 g b.0
          (ap (λ (x : Reply (Operation Value × Value)). (b.0, x)) e3) in
      on_done-done _ _ rs e1
      ∙ (on_done-done _ _ value e2
          ∙ (on_done_chain _ _ b.0 rolled.1 undone
              ∙ second_of b.0 t rolled.0 o (E.raw_message rolled.1) back h4))

  rollback-SnapshotAt :
      (d : Bytes) (doc : DocRecord) (target : ℤ) (o : Operation Value) (back : Bytes)
      (s t : ServerState Value)
      → get_doc s.backend d ≡ done doc
      → ltb_ℤ target (pos 0) || ltb_ℤ doc.doc_version target ≡ false
      → eq_ℤ target doc.doc_version ≡ false
      → rollback_to_version_operation V C E doc target s ≡ (t, done (o, back))
      → SnapshotAt V C E s d target back
  unfolding get_snapshot_at
  rollback-SnapshotAt d doc target o back s t got within away h = (
    t,
    on_done-done _ _ doc got
        ∙ (rw within
            (rw away (on_done_chain _ _ t back (rollback-document doc target o back s t h)))),
  )

  -- A rollback that fails or panics leaves the documents and the published events as they were.
  -- One that succeeds returns the current version and document when it is at the target, and keeps
  -- documents and events. Else the target is an earlier version, and it stores the document that
  -- `GetSnapshotAt` gives for the target as the next version, with its record, publishes one
  -- event, and returns what these have.
  pub rollback_to_version-Ends :
      (d by : Bytes) (target : ℤ) (s : ServerState Value)
      → Ends (RolledBack V C E d by target s) s (rollback_to_version V C E d target by s)
  unfolding rollback_to_version
  rollback_to_version-Ends d by target s =
      Ends-on_done (RolledBack V C E d by target s) s _ _ (RolledBack-Kept d by target s s)
        (Kept-refl s)
        (λ locked h.
          Ends-on_done (RolledBack V C E d by target s) s _ _ (RolledBack-Kept d by target s s)
            (Kept-refl s)
            (λ doc got. elim (Bool-cases (ltb_ℤ target (pos 0) || ltb_ℤ doc.doc_version target)) [
              | inl k ↦ rw k (Ends-stop (RolledBack V C E d by target s) s invalid_version)
              | inr k ↦ elim (Bool-cases (eq_ℤ target doc.doc_version)) [
                | inl m ↦ rw k (
                    rw m (
                      Ends-give (RolledBack V C E d by target s) s _ (
                        already_there doc got (eq_ℤ→eq target doc.doc_version m) (Kept-refl s) refl
                          refl)))
                | inr m ↦ rw k (
                    rw m (
                      let same : Kept s (rollback_to_version_operation V C E doc target s).0 =
                        rollback_to_version_operation-Kept V C E doc target s in
                      Ends-on_done (RolledBack V C E d by target s) s _ _
                        (RolledBack-Kept d by target s s) same
                        (λ rolled n.
                          let t : ServerState Value =
                            (rollback_to_version_operation V C E doc target s).0 in
                          let there : get_doc t.backend d ≡ done doc = rw (same.same_backend) got in
                          Ends-return _ (RolledBack V C E d by target s) t _ _
                            (λ u a w.
                              moved_back doc there m k
                                (rollback-SnapshotAt d doc target rolled.0 rolled.1 s t got k m
                                  (ap (λ (x : Reply (Operation Value × Bytes)). (t, x)) n))
                                w)
                            (commit-Ends V C E _ _ (rolled.0) _ doc t there refl refl refl))))
              ]
            ]))

  -- A deletion that fails leaves documents and events as they were.
  pub delete_document-Ends :
      (d by : Bytes) (base : ℤ) (s : ServerState Value)
      → Ends (λ s t u. Deleted d by s t) s (delete_document V C E d base by s)
  unfolding delete_document
  delete_document-Ends d by base s =
      Ends-on_done (λ s t u. Deleted d by s t) s _ _ (λ t u b. Deleted-Kept d by s t u)
        (Kept-refl s)
        (λ locked h.
          Ends-on_done (λ s t u. Deleted d by s t) s _ _ (λ t u b. Deleted-Kept d by s t u)
            (Kept-refl s)
            (λ doc got. elim (Bool-cases (eq_ℤ base doc.doc_version)) [
              | inr k ↦ rw k (Ends-stop (λ s t u. Deleted d by s t) s invalid_version)
              | inl k ↦ rw k (
                  Ends-on_done (λ s t u. Deleted d by s t) s _ _ (λ t u b. Deleted-Kept d by s t u)
                    (Kept-refl s)
                    (λ left m.
                      Ends-change (λ s t u. Deleted d by s t) s _ tt
                        (record {
                          deleted = doc;
                          was_there = got;
                          is_removed = m;
                          is_told = refl;
                        })))
            ]))

  -- A creation that fails leaves documents and events as they were.
  pub create_document-Ends :
      (d initial : Bytes) (s : ServerState Value)
      → Ends
          (λ s t u. Created d (or_empty_object initial) s t)
          s
          (create_document V C E d initial s)
  unfolding create_document
  create_document-Ends d initial s =
      let W : ServerState Value → ServerState Value → Snapshot → Type 0 =
        λ s t u. Created d (or_empty_object initial) s t in
      Ends-on_done W s _ _ (λ t u b. Created-Kept d (or_empty_object initial) s t u) (Kept-refl s)
        (λ locked h.
          Ends-on_done W s _ _ (λ t u b. Created-Kept d (or_empty_object initial) s t u)
            (Kept-refl s)
            (λ created m. Ends-change W s _ _ (record { is_created = m; is_untold = refl })))
