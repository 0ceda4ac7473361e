-- ===== src/Sharedb/Server/Window.antt =====
-- sharedb/server.go: the window of versions over which a submission may be rebased.
use jsonot.Base.{
  ◌≡◌, Bool, true, false, not, ◌&&◌, ◌||◌, Option, none, some, arith, is_nil, ℤ, pos, ltb_ℤ, leb_ℤ,
  sub_int, Bool-cases, inl, inr,
}
use jsonot.Value.{Values}
use jsonot.SubType.Interface.{Clients}
use jsonot.Operation.{Operation}
use jsonot.Sharedb.Results.{done}
use jsonot.Sharedb.Store.{OpRecord, DocRecord, get_doc}
use jsonot.Sharedb.Act.{on_done-eq}
use jsonot.Sharedb.Server.{Setup, ServerState, SubmitRequest, SubmitResult}
use jsonot.Sharedb.Server.Parse.{json_raw_equal, parse_operation}
use jsonot.Sharedb.Server.Submit.{
  duplicate_result, rebase_request, submit_new, submit_unless, submit_core,
}
use jsonot.Sharedb.Server.Retry.{submit_core-passed}

-- Within the window: no limit, or a base version at most so many versions back.
abbrev pub in_window : ℤ → ℤ → ℤ → Bool
in_window limit current base = leb_ℤ limit (pos 0) || leb_ℤ (sub_int current base) limit

in_window_lem :
    (limit gap : ℤ)
    → ltb_ℤ (pos 0) limit && ltb_ℤ limit gap ≡ false
    → leb_ℤ limit (pos 0) || leb_ℤ gap limit ≡ true
in_window_lem limit gap h = ground arith

in_range_lem :
    (base v : ℤ)
    → ltb_ℤ base (pos 0) || ltb_ℤ v base ≡ false
    → leb_ℤ (pos 0) base && leb_ℤ base v ≡ true
in_range_lem base v h = ground arith

not_behind : (base v : ℤ) (w : Bool) → ltb_ℤ base v ≡ false → leb_ℤ v base || w ≡ true
not_behind base v w h = ground arith

or_right : (a b : Bool) → b ≡ true → a || b ≡ true
or_right a b h = ground arith

module _ (V : Values) (C : Clients V) (E : Setup V) where
  open V use {Value}

  rebase_request-window :
      (doc : DocRecord) (q : SubmitRequest) (o : Operation Value) (s : ServerState Value)
      (moved : Operation Value × Bool)
      → (rebase_request V C E doc q o s).1 ≡ done moved
      → ltb_ℤ q.request_base doc.doc_version ≡ true
      → in_window E.max_rebase_gap doc.doc_version q.request_base ≡ true
  unfolding rebase_request
  rebase_request-window doc q o s moved h behind =
      elim (Bool-cases (
        ltb_ℤ (pos 0) E.max_rebase_gap
        && ltb_ℤ E.max_rebase_gap (sub_int doc.doc_version q.request_base))) [
          | inl far ↦ absurd (cc (rw far at (rw (rebase_request, behind) at h)))
          | inr near ↦ in_window_lem E.max_rebase_gap (sub_int doc.doc_version q.request_base) near
        ]

  submit_new-window :
      (doc : DocRecord) (q : SubmitRequest) (s t : ServerState Value) (r : SubmitResult)
      → submit_new V C E doc q s ≡ (t, done r)
      → ltb_ℤ q.request_base doc.doc_version ≡ true
      → in_window E.max_rebase_gap doc.doc_version q.request_base ≡ true
  unfolding submit_new
  submit_new-window doc q s t r h behind =
      let (o, parsed, h2) = on_done-eq _ _ h in
      let (moved, rebased_eq, h3) = on_done-eq _ _ h2 in
      rebase_request-window doc q o (parse_operation V C E q.operation s).0 moved rebased_eq behind

  submit_unless-window :
      (doc : DocRecord) (q : SubmitRequest) (found : Option OpRecord) (s t : ServerState Value)
      (r : SubmitResult)
      → submit_unless V C E doc q found s ≡ (t, done r)
      → r.duplicate ≡ false
      → ltb_ℤ q.request_base doc.doc_version ≡ true
      → in_window E.max_rebase_gap doc.doc_version q.request_base ≡ true
  unfolding submit_unless duplicate_result
  submit_unless-window doc q none s t r h first behind = submit_new-window doc q s t r h behind
  submit_unless-window doc q (some o) s t r h first behind =
      elim (Bool-cases
        (not (is_nil o.submitted_op) && not (json_raw_equal V C E q.operation o.submitted_op))) [
          | inl k ↦ absurd (cc (rw (duplicate_result, k) at h))
          | inr k ↦ absurd (cc (rw (duplicate_result, k) at h))
        ]

  passed-window :
      (q : SubmitRequest) (s t : ServerState Value) (r : SubmitResult) (doc : DocRecord)
      (found : Option OpRecord)
      → ltb_ℤ q.request_base (pos 0) || ltb_ℤ doc.doc_version q.request_base ≡ false
      → submit_unless V C E doc q found s ≡ (t, done r)
      → r.duplicate ≡ false
      → (leb_ℤ (pos 0) q.request_base && leb_ℤ q.request_base doc.doc_version ≡ true)
        × (leb_ℤ doc.doc_version q.request_base
              || in_window E.max_rebase_gap doc.doc_version q.request_base
            ≡ true)
  passed-window q s t r doc found range h first = (
    in_range_lem q.request_base doc.doc_version range,
    elim (Bool-cases (ltb_ℤ q.request_base doc.doc_version)) [
      | inr n ↦ not_behind q.request_base doc.doc_version _ n
      | inl n ↦
          or_right (leb_ℤ doc.doc_version q.request_base) _
            (submit_unless-window doc q found s t r h first n)
    ],
  )

  -- A submission that succeeds and is no duplicate has a base version from 0 up to the document's,
  -- and when that is behind the document's and the server has a limit, it is behind by the limit
  -- at most.
  pub submit_core-window :
      (q : SubmitRequest) (s t : ServerState Value) (r : SubmitResult) (doc : DocRecord)
      → get_doc s.backend q.request_document ≡ done doc
      → submit_core V C E q s ≡ (t, done r)
      → r.duplicate ≡ false
      → (leb_ℤ (pos 0) q.request_base && leb_ℤ q.request_base doc.doc_version ≡ true)
        × (leb_ℤ doc.doc_version q.request_base
              || in_window E.max_rebase_gap doc.doc_version q.request_base
            ≡ true)
  submit_core-window q s t r doc got h first =
      let (read, locked, got', range, found, passed) = submit_core-passed V C E q s t r h in
      let same : read ≡ doc = cc in
      rw (← same) (passed-window q s t r read found range passed first)
