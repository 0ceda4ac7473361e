-- ===== src/Sharedb/Store/Calls.antt =====
-- What a creation, a deletion and a commit that succeed do to the documents.
use jsonot.Base.{
  ℕ, ◌+◌, ◌≤◌, ◌≡◌, Option, none, some, [], ◌∷◌, ◌++◌, arith, length, pos, Bytes, str_eq,
  Bool-cases, Option-cases, inl, inr,
}
use jsonot.Sharedb.{put}
use jsonot.Sharedb.Results.{done}
use jsonot.Sharedb.Store.{
  lookup, DocRecord, OpRecord, MemDoc, Backend, create_doc, get_doc, delete_doc, commit_op,
}
use jsonot.Sharedb.Store.Log.{length-snoc, Step, creating, deleting, committing}

pub create_doc-done :
    (b b' : Backend) (d initial : Bytes)
    → create_doc b d initial ≡ done b'
    → (b d ≡ none) × (put d (some (record { mem_version = pos 0; doc = initial; ops = [] })) b ≡ b')
unfolding create_doc
create_doc-done b b' d initial h = elim (Option-cases (b d)) [
  | inr (m, held) ↦ absurd (cc (rw (create_doc, held) at h))
  | inl absent ↦ (absent, cc (rw (create_doc, absent) at h))
]

pub delete_doc-done : (b b' : Backend) (d : Bytes) → delete_doc b d ≡ done b' → put d none b ≡ b'
unfolding delete_doc
delete_doc-done b b' d h = elim (Option-cases (b d)) [
  | inl absent ↦ absurd (cc (rw (delete_doc, lookup, absent) at h))
  | inr (m, held) ↦ cc (rw (delete_doc, lookup, held) at h)
]

pub commit_op-done :
    (b b' : Backend) (d : DocRecord) (o : OpRecord)
    → commit_op b d o ≡ done b'
    → (m : MemDoc) × (b d.doc_id ≡ some m)
      × (put d.doc_id
            (some (record { mem_version = d.doc_version; doc = d.content; ops = m.ops ++ o ∷ [] }))
            b
          ≡ b')
unfolding commit_op
commit_op-done b b' d o h = elim (Option-cases (b d.doc_id)) [
  | inl absent ↦ absurd (cc (rw (commit_op, lookup, absent) at h))
  | inr (m, held) ↦ (m, held, cc (rw (commit_op, lookup, held) at h))
]

pub get_doc-done :
    (b : Backend) (d : Bytes) (r : DocRecord)
    → get_doc b d ≡ done r
    → (m : MemDoc) × (b d ≡ some m)
      × (r ≡ record { doc_id = d; doc_version = m.mem_version; content = m.doc })
unfolding get_doc
get_doc-done b d r h = elim (Option-cases (b d)) [
  | inl absent ↦ absurd (cc (rw (get_doc, lookup, absent) at h))
  | inr (m, held) ↦ (m, held, cc (rw (get_doc, lookup, held) at h))
]

-- What holds of each document, or none, holds after a write of one for which it holds.
pub put-holds :
    (P : Option MemDoc → Type 0) (b : Backend) (d : Bytes) (m : Option MemDoc)
    → ((j : Bytes) → P (b j))
    → P m
    → (j : Bytes) → P (put d m b j)
put-holds P b d m w h j = elim (Bool-cases (str_eq d j)) [
  | inl here ↦ rw here h
  | inr there ↦ rw there (w j)
]

abbrev pub HasAtMost : ℕ → Option MemDoc → Type 0
HasAtMost n none = Unit {0}
HasAtMost n (some m) = length m.ops ≤ n

-- No log is longer than `n`.
abbrev pub AtMost : ℕ → Backend → Type 0
AtMost n b = (d : Bytes) → HasAtMost n (b d)

pub HasAtMost-suc : (n : ℕ) (m : Option MemDoc) → HasAtMost n m → HasAtMost (n + 1) m
HasAtMost-suc n none h = tt
HasAtMost-suc n (some m) h = omega arith

-- A step makes a log longer by one at most.
pub Step-AtMost : (n : ℕ) (b b' : Backend) → Step b b' → AtMost n b → AtMost (n + 1) b'
Step-AtMost n b b' (creating d initial h) w =
    let (absent, e) = create_doc-done b b' d initial h in
    rw (← e) (put-holds (HasAtMost (n + 1)) b d _ (λ j. HasAtMost-suc n (b j) (w j)) (omega arith))
Step-AtMost n b b' (deleting d h) w =
    rw (← delete_doc-done b b' d h)
      (put-holds (HasAtMost (n + 1)) b d none (λ j. HasAtMost-suc n (b j) (w j)) tt)
Step-AtMost n b b' (committing r d o got next same bound h) w =
    let (m, held, e) = commit_op-done b b' d o h in
    let small : length m.ops ≤ n = rw held at (w d.doc_id) in
    rw (← e) (
      put-holds (HasAtMost (n + 1)) b d.doc_id _ (λ j. HasAtMost-suc n (b j) (w j))
        (omega (arith, length-snoc m.ops o)))
