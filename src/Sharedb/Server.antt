-- ===== src/Sharedb/Server.antt =====
-- sharedb/server.go: what the server keeps, and what it is built from.
pub mod Parse
pub mod Submit
pub mod Documents
pub mod History
pub mod Outcome
pub mod Quiet
pub mod Commit
pub mod Rollback
pub mod Steps
pub mod Retry
pub mod Identity
pub mod Once
pub mod Window
use jsonot.Base.{
  ℕ, ◌+◌, ◌≡◌, Bool, true, false, not, ◌&&◌, ◌||◌, Option, none, some, List, [], ◌∷◌, ◌++◌, map,
  arith, ltb, leb, ◌==◌, if◌then◌else◌, is_nil, ℤ, pos, ltb_ℤ, leb_ℤ, eq_ℤ, Bytes, lit, str_eq,
}
use jsonot.Value.{Values}
use jsonot.SubType.Holder.{Holder}
use jsonot.Operation.{Operation}
use jsonot.Component.{clone_component}
use jsonot.Sharedb.{OpId, Event, put}
use jsonot.Sharedb.Results.{Reply, done, failed, crash}
use jsonot.Sharedb.Store.{Backend, OpRecord, new_backend}

-- `Snapshot`
pub record Snapshot : Type 0 where
  pub snapshot_id : Bytes
  pub snapshot_version : ℤ
  pub snapshot_content : Bytes

-- `SubmitRequest`
pub record SubmitRequest : Type 0 where
  pub request_document : Bytes
  pub request_base : ℤ
  pub operation : Bytes
  pub request_id : OpId
  pub request_source : Bytes
  pub request_sequence : ℤ

-- `SubmitResult`
pub record SubmitResult : Type 0 where
  pub result_version : ℤ
  pub rebased : Bool
  pub duplicate : Bool
  pub result_operation : Bytes
  pub result_content : Bytes

-- What a server is built from: the locker, the sub types of its transformer, `maxRebaseGap`; and
-- what the code calls of JSON libraries: `UnmarshalValue`, `RawMessage`, `json.Unmarshal` into an
-- `any` and `reflect.DeepEqual` of two of those. `nesting` counts how deep a value nests arrays.
pub record Setup (V : Values) : Type 1 where
  pub lock : Bytes → Reply (Unit {0})
  pub holder : Holder
  pub max_rebase_gap : ℤ
  pub unmarshal : Bytes → Option V.Value
  pub raw_message : V.Value → Bytes
  pub GoValue : Type 0
  pub json_unmarshal : Bytes → Option GoValue
  pub deep_equal : GoValue → GoValue → Bool
  pub nesting : V.Value → ℕ

-- `Server` over a memory backend: the documents, the cache of parsed operations, and the events
-- given to the publisher, the first one first. `fresh` is the next address that `NewCustom` returns.
pub record ServerState (V : Type 0) : Type 0 where
  pub backend : Backend
  pub parsed_ops : Bytes → ℤ → Option (Operation V)
  pub published : List Event
  pub fresh : ℕ

-- `NewServer`
abbrev pub new_server : {V : Type 0} → ServerState V
new_server = record { backend = new_backend; parsed_ops = λ d n. none; published = []; fresh = 0 }

-- What `SubmitRequest.opID` and `OpRecord.opID` do with the old fields.
abbrev pub or_source : Bytes → Bytes → Bytes
or_source id_field old = if is_nil id_field then old else id_field

abbrev pub or_sequence : ℤ → ℤ → ℤ
or_sequence id_field old = if eq_ℤ id_field (pos 0) then old else id_field

-- `SubmitRequest.opID`
abbrev pub request_op_id : SubmitRequest → OpId
request_op_id q = record {
  id_source = or_source q.request_id.id_source q.request_source;
  id_sequence = or_sequence q.request_id.id_sequence q.request_sequence;
}

-- `OpRecord.opID`
abbrev pub record_op_id : OpRecord → OpId
record_op_id r = record {
  id_source = or_source r.op_id.id_source r.source;
  id_sequence = or_sequence r.op_id.id_sequence r.sequence;
}

-- `cloneOperation`
unfoldable pub clone_operation : {V : Type 0} → Operation V → Operation V
unfolding clone_component
clone_operation o = map clone_component o

-- `parsedOpCache`
abbrev pub Cache : Type 0 → Type 0
Cache V = Bytes → ℤ → Option (Operation V)

-- `parsedOpCache.Get`
unfoldable pub cache_get : {V : Type 0} → Cache V → Bytes → ℤ → Option (Operation V)
unfolding clone_operation
cache_get c d n = elim (c d n) [ none ↦ none | some o ↦ some (clone_operation o) ]

-- `parsedOpCache.Store`
unfoldable pub cache_store : {V : Type 0} → Cache V → Bytes → ℤ → Operation V → Cache V
unfolding clone_operation
cache_store c d n o = put d (λ j. if eq_ℤ n j then some (clone_operation o) else c d j) c

-- `parsedOpCache.DeleteDocument`
unfoldable pub cache_delete : {V : Type 0} → Cache V → Bytes → Cache V
cache_delete c d = put d (λ j. none) c
