-- ===== src/Sharedb/Server/Quiet.antt =====
-- The calls of the server that keep documents and events: all but creations, commits and deletions.
use jsonot.Base.{
  ℕ, refl, ◌||◌, Option, none, some, List, [], ◌∷◌, is_nil, length, ℤ, pos, ltb_ℤ, leb_ℤ, eq_ℤ,
  sub_int, Bytes, Bool-cases, Option-cases, inl, inr, Result, ok, err, panic,
}
use jsonot.Value.{Values}
use jsonot.SubType.Interface.{Clients}
use jsonot.Component.{Component}
use jsonot.Operation.{Operation, operation_to_value}
use jsonot.Sharedb.Store.{OpRecord, DocRecord}
use jsonot.Sharedb.Server.{Setup, ServerState, cache_get}
use jsonot.Sharedb.Server.Parse.{
  decoded, parse_operation, cache_committed_operation, get_or_parse_committed_operation,
}
use jsonot.Sharedb.Server.Submit.{rebase}
use jsonot.Sharedb.Server.History.{
  inverse_operation, undo_all, roll_back, from_end, rollback_to_version_operation,
}
use jsonot.Sharedb.Server.Documents.{get_operations}
use jsonot.Sharedb.Server.History.{document_at_version, get_snapshot_at}
use jsonot.Sharedb.Server.Outcome.{Kept, Kept-refl, Kept-on_done}

module _ (V : Values) (C : Clients V) (E : Setup V) where
  open V use {Value}

  cache_committed_operation-Kept :
      (d : Bytes) (n : ℤ) (o : Operation Value) (s : ServerState Value)
      → Kept s (cache_committed_operation V C E d n o s).0
  unfolding cache_committed_operation
  cache_committed_operation-Kept d n o s = elim (Bool-cases (is_nil d || leb_ℤ n (pos 0))) [
    | inl h ↦ rw (cache_committed_operation, h) (Kept-refl s)
    | inr h ↦
        rw (cache_committed_operation, h) (record { same_backend = refl; same_published = refl })
  ]

  decoded-Kept :
      (s : ServerState Value) (r : Option (Result (ℕ × List (Component Value))))
      → Kept s (decoded V C E s r).0
  unfolding decoded
  decoded-Kept s none = Kept-refl s
  decoded-Kept s (some panic) = Kept-refl s
  decoded-Kept s (some (err e)) = Kept-refl s
  decoded-Kept s (some (ok (next, cs))) = record { same_backend = refl; same_published = refl }

  pub parse_operation-Kept :
      (raw : Bytes) (s : ServerState Value) → Kept s (parse_operation V C E raw s).0
  unfolding parse_operation
  parse_operation-Kept raw s = Kept-on_done s _ _ (Kept-refl s) (λ node h.
      Kept-on_done s _ _ (decoded-Kept s _)
        (λ components k. Kept-on_done _ _ _ (Kept-refl _) (λ u m. Kept-refl _)))

  get_or_parse-Kept :
      (r : OpRecord) (s : ServerState Value) → Kept s (get_or_parse_committed_operation V C E r s).0
  unfolding get_or_parse_committed_operation
  get_or_parse-Kept r s = elim (Option-cases (cache_get s.parsed_ops r.op_document r.op_version)) [
    | inl h ↦
        rw (get_or_parse_committed_operation, h)
          (Kept-on_done s _ _ (parse_operation-Kept r.op s) (λ o k.
            Kept-on_done _ _ _ (cache_committed_operation-Kept r.op_document r.op_version o _)
              (λ u m. Kept-refl _)))
    | inr (o, h) ↦ rw (get_or_parse_committed_operation, h) (Kept-refl s)
  ]

  pub rebase-Kept :
      (rs : List OpRecord) (o : Operation Value) (s : ServerState Value)
      → Kept s (rebase V C E rs o s).0
  unfolding rebase
  rebase-Kept [] o s = Kept-refl s
  rebase-Kept (r ∷ rs) o s = Kept-on_done s _ _ (get_or_parse-Kept r s) (λ concurrent h.
      Kept-on_done _ _ _ (Kept-refl _) (λ transformed k. rebase-Kept rs transformed.left_op _))

  inverse_operation-Kept :
      (r : OpRecord) (s : ServerState Value) → Kept s (inverse_operation V C E r s).0
  unfolding inverse_operation
  inverse_operation-Kept r s = Kept-on_done s _ _ (get_or_parse-Kept r s) (λ o h.
      Kept-on_done _ _ _ (Kept-refl _)
        (λ inverted k. parse_operation-Kept (E.raw_message (operation_to_value V C inverted)) _))

  undo_all-Kept :
      (rs : List OpRecord) (v : Value) (s : ServerState Value) → Kept s (undo_all V C E rs v s).0
  unfolding undo_all
  undo_all-Kept [] v s = Kept-refl s
  undo_all-Kept (r ∷ rs) v s =
      Kept-on_done s _ _ (inverse_operation-Kept r s)
        (λ inverse h. Kept-on_done _ _ _ (Kept-refl _) (λ w k. undo_all-Kept rs w _))

  roll_back-Kept :
      (rs : List OpRecord) (o : Operation Value) (v : Value) (s : ServerState Value)
      → Kept s (roll_back V C E rs o v s).0
  unfolding roll_back
  roll_back-Kept [] o v s = Kept-refl s
  roll_back-Kept (r ∷ rs) o v s = Kept-on_done s _ _ (inverse_operation-Kept r s) (λ inverse h.
      Kept-on_done _ _ _ (Kept-refl _)
        (λ rollback k. Kept-on_done _ _ _ (Kept-refl _) (λ w m. roll_back-Kept rs rollback w _)))

  get_operations-Kept :
      (d : Bytes) (from to : ℤ) (s : ServerState Value)
      → Kept s (get_operations V C E d from to s).0
  unfolding get_operations
  get_operations-Kept d from to s = Kept-on_done s _ _ (Kept-refl s) (λ doc h.
      elim (Bool-cases (ltb_ℤ from (pos 0) || ltb_ℤ to from || ltb_ℤ doc.doc_version to)) [
        | inl k ↦ rw k (Kept-refl s)
        | inr k ↦ rw k (
            Kept-on_done s _ _ (Kept-refl s) (λ rs m.
              elim (Bool-cases (eq_ℤ (pos (length rs)) (sub_int to from))) [
                | inl n ↦ rw n (Kept-refl s)
                | inr n ↦ rw n (Kept-refl s)
              ]))
      ])

  pub rollback_to_version_operation-Kept :
      (doc : DocRecord) (target : ℤ) (s : ServerState Value)
      → Kept s (rollback_to_version_operation V C E doc target s).0
  unfolding rollback_to_version_operation
  rollback_to_version_operation-Kept doc target s =
      Kept-on_done s _ _ (get_operations-Kept doc.doc_id target doc.doc_version s) (λ rs h.
        Kept-on_done _ _ _ (Kept-refl _) (λ value k.
          Kept-on_done _ _ _ (roll_back-Kept (from_end rs) [] value _)
            (λ rolled m. Kept-on_done _ _ _ (Kept-refl _) (λ valid n. Kept-refl _))))

  document_at_version-Kept :
      (doc : DocRecord) (target : ℤ) (s : ServerState Value)
      → Kept s (document_at_version V C E doc target s).0
  unfolding document_at_version
  document_at_version-Kept doc target s =
      Kept-on_done s _ _ (get_operations-Kept doc.doc_id target doc.doc_version s) (λ rs h.
        Kept-on_done _ _ _ (Kept-refl _) (λ value k.
          Kept-on_done _ _ _ (undo_all-Kept (from_end rs) value _) (λ back m. Kept-refl _)))

  pub get_snapshot_at-Kept :
      (d : Bytes) (n : ℤ) (s : ServerState Value) → Kept s (get_snapshot_at V C E d n s).0
  unfolding get_snapshot_at
  get_snapshot_at-Kept d n s = Kept-on_done s _ _ (Kept-refl s) (λ doc h.
      elim (Bool-cases (ltb_ℤ n (pos 0) || ltb_ℤ doc.doc_version n)) [
        | inl k ↦ rw k (Kept-refl s)
        | inr k ↦ elim (Bool-cases (eq_ℤ n doc.doc_version)) [
          | inl m ↦ rw (k, m) (Kept-refl s)
          | inr m ↦
              rw k (
                rw m
                  (Kept-on_done s _ _ (document_at_version-Kept doc n s) (λ back p. Kept-refl _)))
        ]
      ])
