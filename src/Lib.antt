-- ===== src/Lib.antt =====
-- Verification of jsonot: operational transformation of JSON documents, and the package sharedb that
-- serves documents to several clients.
--
-- The program. A document is a JSON value. An operation (`operation.go`) is a list of components, each
-- an operator (`operator.go`) at a path (`path.go`). `apply.go` and `jsonot.go` apply an operation to a
-- document, `transform.go` rebases an operation over a concurrent one, `subtype.go` has the operators
-- inside a value (adding to a number, editing a text) and the table in which a client registers more.
-- The package `sharedb` stores documents with a log of their operations, and keeps for each session a
-- mailbox of envelopes that a client replays when it reconnects.
--
-- The modules.
-- - `Base`: shared names. Go's `int` is an integer that wraps at 64 bits (`Base.Int`), a Go string is
--   the list of its bytes (`Base.Strings`), a call returns a value, an error or a panic
--   (`Base.Results`, error.go); messages are left out.
-- - `Value`: the interface of value.go. Both of its implementations wrap a third-party JSON library, so
--   it is a parameter `V : Values` of everything else; `Value.Laws` and `Value.Codec` state the
--   documented behaviour that the proofs rely on, and `Value.Tree` is an implementation with these laws.
-- - `Operator` (operator.go, action.go), `Path` (path.go).
-- - `SubType`: subtype.go. `SubType.Number` and `SubType.Text` are the two built-in sub types,
--   `SubType.Holder` the table; the functions that a client registers are a parameter `C : Clients V`.
--   A `SubType` is a pointer that the code compares, so it carries an address; all `&NumberAdd{}`
--   share one, as do all `&Text{}`, since they have size 0.
-- - `Component`, `Operation`: operation.go. `Noop{}` and `&Noop{}` are two operators, `noop_value` and
--   `noop`, because the type switches of the code tell them apart. `Operation.Decode` reads components
--   from values (the factory, and jsonot.go), `Operation.Builders` has the builders.
-- - `Apply` (apply.go; `Apply.Arrays` for the list operators, `Apply.Route` for the walk along a path)
--   and `Engine` (jsonot.go).
-- - `Diff` (diff.go): the operation that turns one value into another.
-- - `Transform`: transform.go. `Transform.Moves`, `Lists` and `Objects` have one function for each
--   `TransformComponentFor…`, `Transform.Matrix` whole operations.
-- - `Sharedb`: `Sharedb.Mailbox` (sharedb/mailbox.go, memory_mailbox.go, mailbox_dispatch.go),
--   `Sharedb.Reconnect` (sharedb/reconnect.go), `Sharedb.Store` (sharedb/memory.go, backend.go),
--   `Sharedb.Publisher` (the publisher of memory.go, with Go's channels; the server's state has the
--   events that it is given);
--   `Sharedb.Server` (sharedb/server.go): `Parse` for parsed operations and their cache, `Submit`,
--   `Documents` and `History` for the methods, the other children for theorems;
--   `Sharedb.Transport` (sharedb/ws_transport.go), with `Register` and `Close` step by step in
--   `Interleaved`, and `Sharedb.Protocol` (sharedb/ws_protocol.go), whose handlers are one step each.
--   A call that changes a state is an `Act` (`Sharedb.Act`): it gives the state that it leaves with
--   its reply, an error's too. `ServerState` holds the memory backend, the cache of parsed operations
--   and the list of published events; a `Hub` holds what the message handlers share.
-- - `Tests`: the theorems at concrete inputs.
--
-- Correspondence. A function has the name of the Go function or method in snake case; a method takes
-- its receiver as an argument and returns what it changes. The code shifts indexes in the path of a
-- component in place, so the functions of `Transform` return the new component as the call leaves it,
-- and `invert` returns its receiver. What a failing call has written before it fails is dropped. A type
-- switch is a function by clauses, an `if` a Boolean test. Loops are recursions on the list that the
-- loop runs over; `components_from_value` has fuel, the depth to which a value nests arrays, of
-- which an operation needs two (`Operation.Fuel`), and so has `diff_into`, above the height of its first
-- value (`Diff.Fuel`); nothing else has. `ApplyToValue` calls itself once, with a path of one element:
-- `apply_here` is that call. Go maps are association lists or functions. The mutexes of the stores make
-- each method one step.
--
-- A call of the server holds the lock of its document, so concurrent calls are a sequence; the locker
-- is a parameter that may refuse. What the server and the handlers call of JSON libraries is in the
-- record `Setup`, or a parameter: `gen` for the ids that a client of the package generates, `marshals`
-- for the messages that can be written. The decoder in `parse_operation` has one unit of fuel more than
-- the value nests arrays.
--
-- Not modelled: the Redis backend of sharedb, a client of a service; the locker of memory.go; the
-- goroutines that read and write a socket, and waiting on its send queue; the wrappers of JSON
-- libraries (value_ajson.go, value_sonic.go, value_factory.go), printing and logging (log.go), the
-- examples.
pub mod Base
pub mod Value
pub mod Operator
pub mod Path
pub mod SubType
pub mod Component
pub mod Operation
pub mod Apply
pub mod Engine
pub mod Diff
pub mod Transform
pub mod Sharedb
pub mod Tests
