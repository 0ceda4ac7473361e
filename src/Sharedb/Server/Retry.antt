-- ===== src/Sharedb/Server/Retry.antt =====
-- sharedb/server.go: a client that submits again gets what its first submission has committed.
use jsonot.Base.{
  ℕ, ◌+◌, ◌-◌, ◌≤◌, length-append, ◌≡◌, ◌≢◌, refl, ap, ◌∙◌, true, false, ◌&&◌, ◌||◌, Option, none,
  some, List, [], ◌∷◌, ◌++◌, arith, is_nil, length, ℤ, pos, ltb_ℤ, eq_ℤ, int_bound, Bytes, str_eq,
  str_eq_refl, Bool-cases, inl, inr, eq_ℤ_refl,
}
use jsonot.Value.{Values}
use jsonot.SubType.Interface.{Clients}
use jsonot.Sharedb.{OpId, Event}
use jsonot.Sharedb.Results.{done}
use jsonot.Sharedb.Store.{Backend, OpRecord, DocRecord, MemDoc, lookup, get_doc, get_ops}
use jsonot.Sharedb.Act.{on_done, on_done-eq}
use jsonot.Sharedb.Server.{
  Setup, ServerState, SubmitRequest, SubmitResult, request_op_id, record_op_id, or_source,
  or_sequence,
}
use jsonot.Sharedb.Server.Parse.{json_raw_equal}
use jsonot.Sharedb.Server.Submit.{
  is_identified, find_record, earlier, submit_unless, submit_core, committed_record,
  committed_event,
}
use jsonot.Sharedb.Server.Outcome.{Ends, Ends-done, Committed}
use jsonot.Sharedb.Store.Log.{AllLogged, IsLogged, get_ops-slice, length-snoc, commit-AllLogged}
use jsonot.Sharedb.Store.Calls.{get_doc-done, commit_op-done}
use jsonot.Sharedb.Server.Commit.{Submitted, retried, left_empty, committed, submit_core-Ends}
use jsonot.Sharedb.Mailbox.Replay.{take-all}

find_record-append :
    (k : OpId) (rs : List OpRecord) (r : OpRecord)
    → find_record k rs ≡ none
    → record_op_id r ≡ k
    → find_record k (rs ++ r ∷ []) ≡ some r
unfolding find_record
find_record-append k [] r h e =
    let by : (record_op_id r).id_source ≡ k.id_source = ap (λ (i : OpId). i.id_source) e in
    let nth : (record_op_id r).id_sequence ≡ k.id_sequence = ap (λ (i : OpId). i.id_sequence) e in
    rw (find_record, by, nth) (rw (str_eq_refl k.id_source, eq_ℤ_refl k.id_sequence))
find_record-append k (x ∷ rs) r h e =
    elim (Bool-cases (
      str_eq (record_op_id x).id_source k.id_source
      && eq_ℤ (record_op_id x).id_sequence k.id_sequence)) [
        | inl here ↦ absurd (cc (rw (find_record, here) at h))
        | inr there ↦ rw there (find_record-append k rs r (rw (find_record, there) at h) e)
      ]

find_record-found :
    (k : OpId) (rs later : List OpRecord) (o : OpRecord)
    → find_record k rs ≡ some o
    → find_record k (rs ++ later) ≡ some o
unfolding find_record
find_record-found k [] later o h = absurd cc
find_record-found k (x ∷ rs) later o h =
    elim (Bool-cases (
      str_eq (record_op_id x).id_source k.id_source
      && eq_ℤ (record_op_id x).id_sequence k.id_sequence)) [
        | inl here ↦ rw here (rw (find_record, here) at h)
        | inr there ↦ rw there (find_record-found k rs later o (rw (find_record, there) at h))
      ]

get_doc-held :
    (b : Backend) (d : Bytes) (m : MemDoc)
    → b d ≡ some m
    → get_doc b d ≡ done (record { doc_id = d; doc_version = m.mem_version; content = m.doc })
unfolding get_doc
get_doc-held b d m held = rw (get_doc, lookup, held) refl

or_source_again : (a old : Bytes) → or_source (or_source a old) (or_source a old) ≡ or_source a old
or_source_again a old = elim (Bool-cases (is_nil (or_source a old))) [ inl h ↦ rw h | inr h ↦ rw h ]

or_sequence_again :
    (a old : ℤ) → or_sequence (or_sequence a old) (or_sequence a old) ≡ or_sequence a old
or_sequence_again a old = elim (Bool-cases (eq_ℤ (or_sequence a old) (pos 0))) [
  | inl h ↦ rw h
  | inr h ↦ rw h
]

-- The identity of a record is that of the request.
pub record_op_id-committed :
    (q : SubmitRequest) (n : ℤ) (raw : Bytes)
    → record_op_id (committed_record q n raw) ≡ request_op_id q
record_op_id-committed q n raw =
    rw
      (
        or_source_again q.request_id.id_source q.request_source,
        or_sequence_again q.request_id.id_sequence q.request_sequence,
      )
      refl

none_logged : {A : Type 0} (xs : List A) → ltb_ℤ (pos 0) (pos (length xs)) ≡ false → xs ≡ []
none_logged [] h = refl
none_logged (x ∷ xs) h = absurd (ground arith)

get_ops-all :
    (b : Backend) (d : Bytes) (m : MemDoc)
    → b d ≡ some m
    → get_ops b d (pos 0) (pos (length m.ops)) ≡ done m.ops
get_ops-all b d m held =
    let z : length m.ops - 0 ≡ length m.ops = omega arith in
    get_ops-slice b d m 0 (length m.ops) held (omega arith) (omega arith)
    ∙ ap done (rw z (take-all m.ops (length m.ops) (omega arith)))

-- The server looks for an identity in the whole log.
pub earlier-log :
    (b : Backend) (doc : DocRecord) (q : SubmitRequest) (m : MemDoc)
    → b q.request_document ≡ some m
    → doc.doc_version ≡ pos (length m.ops)
    → is_identified (request_op_id q) ≡ true
    → earlier b doc q ≡ done (find_record (request_op_id q) m.ops)
unfolding earlier find_record
earlier-log b doc q m held v h = elim (Bool-cases (ltb_ℤ (pos 0) doc.doc_version)) [
  | inl k ↦
      let all : get_ops b q.request_document (pos 0) doc.doc_version ≡ done m.ops =
        rw v (get_ops-all b q.request_document m held) in
      rw (earlier, h) (rw (k, all))
  | inr k ↦ let e : m.ops ≡ [] = none_logged m.ops (rw v at k) in rw (earlier, h) (rw (k, e))
]

-- The document that a commit leaves.
abbrev pub mem_after : MemDoc → DocRecord → OpRecord → MemDoc
mem_after m doc o = record {
  mem_version = doc.doc_version;
  doc = doc.content;
  ops = m.ops ++ o ∷ [];
}

-- What a commit leaves can be read back.
pub Committed-read :
    {V : Type 0} (s t : ServerState V) (doc : DocRecord) (o : OpRecord) (e : Event)
    → Committed s t doc o e
    → (m : MemDoc) × (s.backend doc.doc_id ≡ some m)
      × (t.backend doc.doc_id ≡ some (mem_after m doc o))
      × (get_doc t.backend doc.doc_id ≡ done doc)
unfolding get_doc
Committed-read s t doc o e c =
    let (m, held, written) = commit_op-done s.backend t.backend doc o c.is_stored in
    let there : t.backend doc.doc_id ≡ some (mem_after m doc o) =
      rw (← written) (rw (str_eq_refl doc.doc_id) refl) in
    (m, held, there, rw (get_doc, lookup, there) refl)

-- A commit of a submission is of one whose identity is new.
Submitted-commit :
    (V : Values) (C : Clients V) (E : Setup V) (q : SubmitRequest) (s t : ServerState V.Value)
    (r : SubmitResult) (before : DocRecord)
    → Submitted V C E q s s t r
    → get_doc s.backend q.request_document ≡ done before
    → r.duplicate ≡ false
    → r.result_version ≢ before.doc_version
    → (earlier s.backend before q ≡ done none)
      × Committed s t
          (record {
            doc_id = q.request_document;
            doc_version = r.result_version;
            content = r.result_content;
          })
          (committed_record q r.result_version r.result_operation)
          (committed_event q r.result_version r.result_operation r.result_content)
Submitted-commit V C E q s t r before (retried doc o got' found k d e) got first moved = absurd cc
Submitted-commit V C E q s t r before (left_empty doc got' new moved' k d v e o) got first moved =
    let same : doc ≡ before = cc in absurd (moved (v ∙ ap (λ (x : DocRecord). x.doc_version) same))
Submitted-commit V C E q s t r before (committed doc o got' new moved' some_change applied c d) got
      first moved =
    let same : doc ≡ before = cc in (rw same at new, c)

in_range-suc :
    (base : ℤ) (n m : ℕ)
    → n ≤ m
    → ltb_ℤ base (pos 0) || ltb_ℤ (pos n) base ≡ false
    → ltb_ℤ base (pos 0) || ltb_ℤ (pos m) base ≡ false
in_range-suc base n m l h = ground arith

module _ (V : Values) (C : Clients V) (E : Setup V) where
  open V use {Value}

  -- What a submission that succeeds has passed.
  pub submit_core-passed :
      (q : SubmitRequest) (s t : ServerState Value) (r : SubmitResult)
      → submit_core V C E q s ≡ (t, done r)
      → (doc : DocRecord) × (E.lock q.request_document ≡ done tt)
        × (get_doc s.backend q.request_document ≡ done doc)
        × (ltb_ℤ q.request_base (pos 0) || ltb_ℤ doc.doc_version q.request_base ≡ false)
        × (found : Option OpRecord) × (submit_unless V C E doc q found s ≡ (t, done r))
  unfolding submit_core
  submit_core-passed q s t r h =
      let (u, locked, h2) = on_done-eq _ _ h in
      let (doc, got, h3) = on_done-eq _ _ h2 in
      elim (Bool-cases (ltb_ℤ q.request_base (pos 0) || ltb_ℤ doc.doc_version q.request_base)) [
        | inl k ↦ absurd (cc (rw k at h3))
        | inr k ↦
            let (found, m, h4) = on_done-eq _ _ (rw k at h3) in (doc, locked, got, k, found, h4)
      ]

  -- What a retry does.
  submit_core-retried :
      (q : SubmitRequest) (s : ServerState Value) (doc : DocRecord) (o : OpRecord)
      → E.lock q.request_document ≡ done tt
      → get_doc s.backend q.request_document ≡ done doc
      → ltb_ℤ q.request_base (pos 0) || ltb_ℤ doc.doc_version q.request_base ≡ false
      → earlier s.backend doc q ≡ done (some o)
      → json_raw_equal V C E q.operation o.submitted_op ≡ true
      → submit_core V C E q s ≡ (
        s,
        done (record {
          result_version = doc.doc_version;
          rebased = false;
          duplicate = true;
          result_operation = o.op;
          result_content = doc.content;
        }),
      )
  unfolding submit_core on_done
  submit_core-retried q s doc o locked got range found same =
      elim (Bool-cases (is_nil o.submitted_op)) [
        | inl empty ↦ rw (submit_core, locked, got) (rw (range, found) (rw (same, empty)))
        | inr some_bytes ↦ rw (submit_core, locked, got) (rw (range, found) (rw (same, some_bytes)))
      ]

  -- Once a submission with an identity has committed, on documents whose logs are in order and
  -- below the last version of an `int`, submitting it again at once changes nothing and returns
  -- what the first submission returned, as a duplicate that is not rebased. Submitting it again
  -- later, in any state whose logs are in order and where the log of the document goes on from the
  -- one that the first submission left, changes nothing either, and returns the operation that was
  -- committed first, with the document and version of that later state. The raw operation equals
  -- itself, as `reflect.DeepEqual` has it.
  pub submit_core-retry :
      (q : SubmitRequest) (s t : ServerState Value) (r : SubmitResult) (before : DocRecord)
      (u : ServerState Value) (mt mu : MemDoc) (later : List OpRecord)
      → AllLogged s.backend
      → get_doc s.backend q.request_document ≡ done before
      → ltb_ℤ before.doc_version (pos (int_bound - 1)) ≡ true
      → is_identified (request_op_id q) ≡ true
      → json_raw_equal V C E q.operation q.operation ≡ true
      → submit_core V C E q s ≡ (t, done r)
      → r.duplicate ≡ false
      → r.result_version ≢ before.doc_version
      → t.backend q.request_document ≡ some mt
      → AllLogged u.backend
      → u.backend q.request_document ≡ some mu
      → mu.ops ≡ mt.ops ++ later
      → (submit_core V C E q t ≡ (t, done (record r { rebased = false; duplicate = true })))
        × (submit_core V C E q u ≡ (
          u,
          done (record {
            result_version = mu.mem_version;
            rebased = false;
            duplicate = true;
            result_operation = r.result_operation;
            result_content = mu.doc;
          }),
        ))
  submit_core-retry q s t r before u mt mu later w got bound known same h first moved at_t wu at_u
        longer =
      let (doc, locked, read, range, found, passed) = submit_core-passed q s t r h in
      let e : doc ≡ before = cc in
      let ends : Ends (Submitted V C E q s) s (t, done r) = rw h at (submit_core-Ends V C E q s) in
      let (new, c) =
        Submitted-commit V C E q s t r before (Ends-done (Submitted V C E q s) s t r ends) got first
          moved in
      let after : DocRecord = record {
        doc_id = q.request_document;
        doc_version = r.result_version;
        content = r.result_content;
      } in
      let o : OpRecord = committed_record q r.result_version r.result_operation in
      let (m, held, there, got') = Committed-read s t after o _ c in
      let same_before : c.before ≡ before = cc in
      let w' : AllLogged t.backend =
        commit-AllLogged s.backend t.backend c.before after o w c.was_read c.is_next c.has_version
          (rw same_before bound) c.is_stored in
      let logged : IsLogged (some m) = rw held at (w q.request_document) in
      let logged' : IsLogged (some (mem_after m after o)) = rw there at (w' q.request_document) in
      let (m2, held2, e2) = get_doc-done s.backend q.request_document before got in
      let v : before.doc_version ≡ pos (length m.ops) =
        let same_mem : m2 ≡ m = cc in
        ap (λ (x : DocRecord). x.doc_version) e2 ∙ (rw same_mem logged.0) in
      let unseen : find_record (request_op_id q) m.ops ≡ none =
        cc (new, earlier-log s.backend before q m held v known) in
      let found : earlier t.backend after q ≡ done (some o) =
        earlier-log t.backend after q (mem_after m after o) there logged'.0 known
        ∙ ap done (
            find_record-append (request_op_id q) m.ops o unseen
              (record_op_id-committed q r.result_version r.result_operation)) in
      let range' : ltb_ℤ q.request_base (pos 0) || ltb_ℤ r.result_version q.request_base ≡ false =
        rw (logged'.0) (
          in_range-suc q.request_base (length m.ops) (length (m.ops ++ o ∷ []))
            (omega (arith, length-snoc m.ops o)) (rw (e, v) at range)) in
      let left : mt ≡ mem_after m after o = cc in
      let logged_u : IsLogged (some mu) = rw at_u at (wu q.request_document) in
      let log : mu.ops ≡ (m.ops ++ o ∷ []) ++ later =
        longer ∙ ap (λ (x : MemDoc). x.ops ++ later) left in
      let far : length mu.ops ≡ length (m.ops ++ o ∷ []) + length later =
        ap length log ∙ length-append (m.ops ++ o ∷ []) later in
      let found_u : find_record (request_op_id q) mu.ops ≡ some o = rw log (
        find_record-found (request_op_id q) (m.ops ++ o ∷ []) later o (
          find_record-append (request_op_id q) m.ops o unseen
            (record_op_id-committed q r.result_version r.result_operation))) in
      let at_end : DocRecord = record {
        doc_id = q.request_document;
        doc_version = mu.mem_version;
        content = mu.doc;
      } in
      let range_u : ltb_ℤ q.request_base (pos 0) || ltb_ℤ mu.mem_version q.request_base ≡ false =
        rw (logged_u.0) (
          in_range-suc q.request_base (length m.ops) (length mu.ops)
            (omega (arith, length-snoc m.ops o)) (rw (e, v) at range)) in
      (
        submit_core-retried q t after o locked got' range' found same,
        submit_core-retried q u at_end o locked (get_doc-held u.backend q.request_document mu at_u)
            range_u (earlier-log u.backend at_end q mu at_u logged_u.0 known ∙ ap done found_u)
            same,
      )
