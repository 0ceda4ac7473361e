-- ===== src/Sharedb/Server/Parse.antt =====
-- sharedb/server.go: parsed operations, and their cache.
use jsonot.Base.{
  ℕ, suc, Bool, false, ◌||◌, Option, none, some, List, if◌then◌else◌, is_nil, ℤ, pos, leb_ℤ, Bytes,
  lit, Result, ok, err, panic,
}
use jsonot.Value.{Values}
use jsonot.SubType.Interface.{Clients}
use jsonot.Component.{Component}
use jsonot.Operation.{Operation, operation_validation}
use jsonot.Operation.Decode.{components_from_value}
use jsonot.Sharedb.Results.{Reply, done, failed, crash, of_result, or_other, other}
use jsonot.Sharedb.Store.{OpRecord}
use jsonot.Sharedb.Act.{Act, ◌>>=◌, ◌>>◌, reply, return}
use jsonot.Sharedb.Server.{Setup, ServerState, cache_get, cache_store, clone_operation}

module _ (V : Values) (C : Clients V) (E : Setup V) where
  open V use {Value}

  -- `jsonRawEqual`
  unfoldable pub json_raw_equal : Bytes → Bytes → Bool
  json_raw_equal a b = elim (E.json_unmarshal a) [
    | none ↦ false
    | some av ↦ elim (E.json_unmarshal b) [ none ↦ false | some bv ↦ E.deep_equal av bv ]
  ]

  -- The components that a node decodes to; a decoded custom sub type has a new address.
  unfoldable pub decoded :
      ServerState Value
      → Option (Result (ℕ × List (Component Value)))
      → ServerState Value × Reply (Operation Value)
  decoded s none = (s, crash)
  decoded s (some panic) = (s, crash)
  decoded s (some (err e)) = (s, failed other)
  decoded s (some (ok (next, cs))) = (record s { fresh = next }, done cs)

  abbrev or_empty_array : Bytes → Bytes
  or_empty_array raw = if is_nil raw then lit "[]" else raw

  -- `Server.parseOperation`
  unfoldable pub parse_operation : Bytes → Act (ServerState Value) (Operation Value)
  unfolding decoded components_from_value operation_validation
  parse_operation raw = do
    node ← reply (or_other (E.unmarshal (or_empty_array raw)))
    components ←
        (λ s. decoded s (components_from_value V E.holder (suc (E.nesting node)) s.fresh node))
    reply (of_result (operation_validation components))
    return components

  -- `Server.cacheCommittedOperation`
  unfoldable pub cache_committed_operation :
      Bytes → ℤ → Operation Value → Act (ServerState Value) (Unit {0})
  unfolding cache_store
  cache_committed_operation d n o s =
      if is_nil d || leb_ℤ n (pos 0)
      then (s, done tt)
      else (record s { parsed_ops = cache_store s.parsed_ops d n o }, done tt)

  -- `Server.getOrParseCommittedOperation`
  unfoldable pub get_or_parse_committed_operation :
      OpRecord → Act (ServerState Value) (Operation Value)
  unfolding cache_get parse_operation cache_committed_operation clone_operation
  get_or_parse_committed_operation r s = elim (cache_get s.parsed_ops r.op_document r.op_version) [
    | some o ↦ (s, done o)
    | none ↦
        (do
          o ← parse_operation r.op
          cache_committed_operation r.op_document r.op_version o
          return (clone_operation o))
          s
  ]
