-- ===== src/Sharedb/Store.antt =====
-- sharedb/backend.go and memory.go: the documents and their operation logs, kept in memory. A lock
-- per method makes each one step; a method that fails leaves the documents alone.
pub mod Log
pub mod Calls
use jsonot.Base.{
  ℕ, ◌+◌, ◌-◌, suc, zero, ◌≤◌, ◌<◌, ◌≡◌, refl, ap, sym, ◌∙◌, Bool, true, false, not, ◌&&◌, ◌||◌,
  Option, none, some, List, [], ◌∷◌, ◌++◌, map, arith, ltb, leb, ◌==◌, if◌then◌else◌, is_present,
  is_absent, length, get_elem?, take, drop, is_nil, ℤ, pos, negsuc, ltb_ℤ, leb_ℤ, eq_ℤ, add_int,
  sub_int, int_bound, Bytes, lit, str_eq, str_eq_iff, str_eq_refl, Bool-cases, Option-cases, inl,
  inr, ◌≢◌, ◌↔◌, ◌⊎◌,
}
use jsonot.Sharedb.{OpId, put}
use jsonot.Sharedb.Results.{
  Reply, done, failed, crash, ◌>>=◌, document_exists, document_not_found, other, slice,
}

-- `DocRecord`
pub record DocRecord : Type 0 where
  pub doc_id : Bytes
  pub doc_version : ℤ
  pub content : Bytes

-- `OpRecord`
pub record OpRecord : Type 0 where
  pub op_document : Bytes
  pub op_version : ℤ
  pub base_version : ℤ
  pub op_id : OpId
  pub source : Bytes
  pub sequence : ℤ
  pub submitted_op : Bytes
  pub op : Bytes

-- `memDoc`
pub record MemDoc : Type 0 where
  pub mem_version : ℤ
  pub doc : Bytes
  pub ops : List OpRecord

-- `MemoryBackend`
abbrev pub Backend : Type 0
Backend = Bytes → Option MemDoc

-- `NewMemoryBackend`
abbrev pub new_backend : Backend
new_backend d = none

-- The document that a method works on.
abbrev pub lookup : Backend → Bytes → Reply MemDoc
lookup b d = elim (b d) [ none ↦ failed document_not_found | some m ↦ done m ]

-- `CreateDoc`
unfoldable pub create_doc : Backend → Bytes → Bytes → Reply Backend
create_doc b d initial =
    if is_present (b d)
    then failed document_exists
    else done (put d (some (record { mem_version = pos 0; doc = initial; ops = [] })) b)

-- `GetDoc`
unfoldable pub get_doc : Backend → Bytes → Reply DocRecord
get_doc b d = do
  m ← lookup b d
  done (record { doc_id = d; doc_version = m.mem_version; content = m.doc })

-- `DeleteDoc`
unfoldable pub delete_doc : Backend → Bytes → Reply Backend
delete_doc b d = do m ← lookup b d; done (put d none b)

-- `SaveDoc`
unfoldable pub save_doc : Backend → DocRecord → Reply Backend
save_doc b r = do
  m ← lookup b r.doc_id
  done (put r.doc_id (some (record m { mem_version = r.doc_version; doc = r.content })) b)

-- `AppendOp`
unfoldable pub append_op : Backend → OpRecord → Reply Backend
append_op b r = do
  m ← lookup b r.op_document
  done (put r.op_document (some (record m { ops = m.ops ++ r ∷ [] })) b)

-- `CommitOp`
unfoldable pub commit_op : Backend → DocRecord → OpRecord → Reply Backend
commit_op b d r = do
  m ← lookup b d.doc_id
  done (
      put d.doc_id
        (some (record { mem_version = d.doc_version; doc = d.content; ops = m.ops ++ r ∷ [] })) b)

slice_from : List OpRecord → ℤ → ℤ → Reply (List OpRecord)
unfolding slice
slice_from xs (pos i) j = slice xs i j
slice_from xs (negsuc i) j = crash

-- `GetOps`
unfoldable pub get_ops : Backend → Bytes → ℤ → ℤ → Reply (List OpRecord)
unfolding slice_from
get_ops b d from to = do
  m ← lookup b d
  if eq_ℤ from to
      then done []
      else if ltb_ℤ from (pos 0) || ltb_ℤ (pos (length m.ops)) to
      then failed other
      else slice_from m.ops from to
