-- ===== src/Sharedb/Store/Log.antt =====
-- The log of a document whose commits each count the version up by one, as the server's do.
use jsonot.Base.{
  length-take, length-drop, add_int-pos, ℕ, ◌+◌, ◌-◌, suc, zero, ◌≤◌, ◌<◌, ◌≡◌, refl, ap, sym, ◌∙◌,
  true, false, Option, none, some, List, [], ◌∷◌, ◌++◌, arith, ltb, is_present, length, take, drop,
  ℤ, pos, ltb_ℤ, leb_ℤ, eq_ℤ, add_int, int_bound, Bytes, str_eq, Bool-cases, Option-cases, inl, inr,
}
use jsonot.Sharedb.{put}
use jsonot.Sharedb.Results.{Reply, done, failed, crash, slice}
use jsonot.Sharedb.Store.{
  lookup, DocRecord, OpRecord, MemDoc, Backend, new_backend, create_doc, get_doc, delete_doc,
  commit_op, get_ops,
}

-- The records from version `n + 1` on, in the order of their versions.
abbrev pub NumberedFrom : ℕ → List OpRecord → Type 0
NumberedFrom n [] = Unit {0}
NumberedFrom n (r ∷ rs) = (r.op_version ≡ pos (n + 1)) × NumberedFrom (n + 1) rs

-- The version of a document is the number of its operations, which have the versions 1, 2, ….
abbrev pub IsLogged : Option MemDoc → Type 0
IsLogged none = Unit {0}
IsLogged (some m) = (m.mem_version ≡ pos (length m.ops)) × NumberedFrom 0 m.ops

abbrev pub AllLogged : Backend → Type 0
AllLogged b = (d : Bytes) → IsLogged (b d)

-- The steps that the server makes, each in the document's lock: a document is created, deleted, or
-- gets an operation that produces the next version.
pub data Step : Backend → Backend → Type 0 where
  creating : {b b' : Backend} (d initial : Bytes) → create_doc b d initial ≡ done b' → Step b b'
  deleting : {b b' : Backend} (d : Bytes) → delete_doc b d ≡ done b' → Step b b'
  committing :
      {b b' : Backend} (r : DocRecord) (d : DocRecord) (o : OpRecord)
      → get_doc b d.doc_id ≡ done r
      → d.doc_version ≡ add_int r.doc_version (pos 1)
      → o.op_version ≡ d.doc_version
      → ltb_ℤ (r.doc_version) (pos (int_bound - 1)) ≡ true
      → commit_op b d o ≡ done b'
      → Step b b'

-- What the steps lead to from no documents.
pub data Reachable : Backend → Type 0 where
  at_start : Reachable new_backend
  stepped : {b b' : Backend} → Reachable b → Step b b' → Reachable b'

NumberedFrom-append :
    (n : ℕ) (rs : List OpRecord) (r : OpRecord)
    → NumberedFrom n rs
    → r.op_version ≡ pos (n + length rs + 1)
    → NumberedFrom n (rs ++ r ∷ [])
NumberedFrom-append n [] r h e = (e ∙ ap pos (omega arith), tt)
NumberedFrom-append n (x ∷ rs) r h e =
    (h.0, NumberedFrom-append (n + 1) rs r h.1 (e ∙ ap pos (omega arith)))

-- Writing a logged document, or none, keeps the others.
put-AllLogged :
    (b : Backend) (d : Bytes) (m : Option MemDoc) → AllLogged b → IsLogged m → AllLogged (put d m b)
put-AllLogged b d m w h j = elim (Bool-cases (str_eq d j)) [
  | inl here ↦ rw here h
  | inr there ↦ rw there (w j)
]

create-AllLogged :
    (b b' : Backend) (d initial : Bytes)
    → AllLogged b
    → create_doc b d initial ≡ done b'
    → AllLogged b'
unfolding create_doc
create-AllLogged b b' d initial w h = elim (Bool-cases (is_present (b d))) [
  | inl held ↦ absurd (cc (rw (create_doc, held) at h))
  | inr absent ↦
      let e : put d (some (record { mem_version = pos 0; doc = initial; ops = [] })) b ≡ b' =
        cc (rw (create_doc, absent) at h) in
      rw (← e) (put-AllLogged b d _ w (refl, tt))
]

delete-AllLogged :
    (b b' : Backend) (d : Bytes) → AllLogged b → delete_doc b d ≡ done b' → AllLogged b'
unfolding delete_doc
delete-AllLogged b b' d w h = elim (Option-cases (b d)) [
  | inl absent ↦ absurd (cc (rw (delete_doc, lookup, absent) at h))
  | inr (m, held) ↦
      let e : put d none b ≡ b' = cc (rw (delete_doc, lookup, held) at h) in
      rw (← e) (put-AllLogged b d none w tt)
]

pub length-snoc : {A : Type 0} (xs : List A) (x : A) → length (xs ++ x ∷ []) ≡ length xs + 1
length-snoc [] x = omega arith
length-snoc (y ∷ xs) x = omega (arith, length-snoc xs x)

abbrev version_of : Reply DocRecord → ℤ
version_of (done x) = x.doc_version
version_of (failed x) = pos 0
version_of crash = pos 0

-- A commit of the next version keeps the logs.
pub commit-AllLogged :
    (b b' : Backend) (r d : DocRecord) (o : OpRecord)
    → AllLogged b
    → get_doc b d.doc_id ≡ done r
    → d.doc_version ≡ add_int r.doc_version (pos 1)
    → o.op_version ≡ d.doc_version
    → ltb_ℤ r.doc_version (pos (int_bound - 1)) ≡ true
    → commit_op b d o ≡ done b'
    → AllLogged b'
unfolding get_doc commit_op
commit-AllLogged b b' r d o w got next same bound h = elim (Option-cases (b d.doc_id)) [
  | inl absent ↦ absurd (cc (rw (commit_op, lookup, absent) at h))
  | inr (m, held) ↦
      let logged : IsLogged (some m) = rw held at (w d.doc_id) in
      let read : m.mem_version ≡ r.doc_version =
        ap (λ (x : Reply DocRecord). version_of x) (rw (get_doc, lookup, held) at got) in
      let counted : r.doc_version ≡ pos (length m.ops) = sym read ∙ logged.0 in
      let small : length m.ops + 1 < int_bound = ground (arith, rw counted at bound) in
      let version : d.doc_version ≡ pos (length m.ops + 1) =
        next ∙ rw counted (add_int-pos (length m.ops) 1 small) in
      let e : put d.doc_id
            (some (record { mem_version = d.doc_version; doc = d.content; ops = m.ops ++ o ∷ [] }))
            b
          ≡ b' =
        cc (rw (commit_op, lookup, held) at h) in
      rw (← e) (
        put-AllLogged b d.doc_id _ w (
          version ∙ ap pos (sym (length-snoc m.ops o)),
          NumberedFrom-append 0 m.ops o logged.1 (same ∙ version ∙ ap pos (omega arith)),
        ))
]

-- In every state that creations, deletions and version-by-version commits reach, a document's
-- version is the length of its log, which holds the versions from 1 up, in order.
pub Reachable-AllLogged : (b : Backend) → Reachable b → AllLogged b
Reachable-AllLogged _ at_start = λ d. tt
Reachable-AllLogged _ (stepped {b = b} {b' = b'} before (creating d initial h)) =
    create-AllLogged b b' d initial (Reachable-AllLogged b before) h
Reachable-AllLogged _ (stepped {b = b} {b' = b'} before (deleting d h)) =
    delete-AllLogged b b' d (Reachable-AllLogged b before) h
Reachable-AllLogged _ (stepped {b = b} {b' = b'} before (committing r d o got next same bound h)) =
    commit-AllLogged b b' r d o (Reachable-AllLogged b before) got next same bound h

NumberedFrom-drop :
    (n i : ℕ) (rs : List OpRecord) → NumberedFrom n rs → NumberedFrom (n + i) (drop i rs)
NumberedFrom-drop n zero rs h = let e : n + 0 ≡ n = omega arith in rw e h
NumberedFrom-drop n (suc i) [] h = tt
NumberedFrom-drop n (suc i) (r ∷ rs) h =
    let e : n + suc i ≡ n + 1 + i = omega arith in rw e (NumberedFrom-drop (n + 1) i rs h.1)

NumberedFrom-take : (n i : ℕ) (rs : List OpRecord) → NumberedFrom n rs → NumberedFrom n (take i rs)
NumberedFrom-take n zero rs h = tt
NumberedFrom-take n (suc i) [] h = tt
NumberedFrom-take n (suc i) (r ∷ rs) h = (h.0, NumberedFrom-take (n + 1) i rs h.1)

-- `GetOps` inside the log.
pub get_ops-slice :
    (b : Backend) (d : Bytes) (m : MemDoc) (i j : ℕ)
    → b d ≡ some m
    → i ≤ j
    → j ≤ length m.ops
    → get_ops b d (pos i) (pos j) ≡ done (take (j - i) (drop i m.ops))
unfolding get_ops slice
get_ops-slice b d m i j held h k = elim (Bool-cases (eq_ℤ (pos i) (pos j))) [
  | inl same ↦ let e : j - i ≡ 0 = ground arith in rw (get_ops, lookup, held) (rw (same, e))
  | inr differ ↦
      let x : ltb_ℤ (pos i) (pos 0) ≡ false = ground arith in
      let y : ltb_ℤ (pos (length m.ops)) (pos j) ≡ false = ground arith in
      let p : ltb j i ≡ false = ground arith in
      let q : ltb (length m.ops) j ≡ false = ground arith in
      rw (get_ops, lookup, held) (rw (differ, x, y) (rw (p, q)))
]

-- In every state that creations, deletions and version-by-version commits reach, `GetOps` from `i`
-- up to `j`, at most the document's version, returns `j - i` records with the versions from `i +
-- 1` up, in order.
pub get_ops-history :
    (b : Backend) (d : Bytes) (r : DocRecord) (i j : ℕ)
    → Reachable b
    → get_doc b d ≡ done r
    → i ≤ j
    → leb_ℤ (pos j) r.doc_version ≡ true
    → (rs : List OpRecord) × (get_ops b d (pos i) (pos j) ≡ done rs)
      × (length rs ≡ j - i)
      × NumberedFrom i rs
unfolding get_doc
get_ops-history b d r i j reach got h k = elim (Option-cases (b d)) [
  | inl absent ↦ absurd (cc (rw (get_doc, lookup, absent) at got))
  | inr (m, held) ↦
      let logged : IsLogged (some m) = rw held at (Reachable-AllLogged b reach d) in
      let read : m.mem_version ≡ r.doc_version =
        ap (λ (x : Reply DocRecord). version_of x) (rw (get_doc, lookup, held) at got) in
      let counted : r.doc_version ≡ pos (length m.ops) = sym read ∙ logged.0 in
      let inside : j ≤ length m.ops = ground (arith, rw counted at k) in
      let e : 0 + i ≡ i = omega arith in
      (
        take (j - i) (drop i m.ops),
        get_ops-slice b d m i j held h inside,
        omega (arith, length-take (j - i) (drop i m.ops), length-drop i m.ops),
        NumberedFrom-take i (j - i) (drop i m.ops) (rw e at (NumberedFrom-drop 0 i m.ops logged.1)),
      )
]
