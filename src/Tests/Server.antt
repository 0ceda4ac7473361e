-- ===== src/Tests/Server.antt =====
-- The server on the texts of `Tests.Wire`.
use jsonot.Base.{
  ℕ, suc, ◌++◌, drop, ◌≡◌, ◌≢◌, refl, true, false, none, some, List, [], ◌∷◌, arith, length, pos,
  Bytes, lit,
}
use jsonot.Value.Tree.{tree, Json, Items, arr, nil, cons, to_list}
use jsonot.Tests.Fixtures.{no_clients}
use jsonot.Tests.Wire.{setup}
use jsonot.Sharedb.Results.{done}
use jsonot.Sharedb.Server.{ServerState, SubmitRequest, SubmitResult, new_server}
use jsonot.Sharedb.Server.Parse.{json_raw_equal}
use jsonot.Sharedb.Server.Submit.{submit_core}
use jsonot.Sharedb.Server.Steps.{
  ServerCall, to_create, to_submit, to_roll_back, to_read_at, run_calls, run_calls-Reachable,
}
use jsonot.Base.{◌<◌, leb_ℤ, ◌&&◌, ◌||◌, add_int, str_eq, Option}
use jsonot.Base.{sub_int}
use jsonot.Transform.{transform_component}
use jsonot.Path.{equal}
use jsonot.Component.{validation}
use jsonot.SubType.Holder.{new_holder}
use jsonot.Operation.Decode.{components_from_value}
use jsonot.Operation.Fuel.{NestBelow, NestingLaw, components_from_value-fuel}
use jsonot.Tests.Wire.{nesting, nesting_items, insert_value}
use jsonot.Sharedb.Act.{on_done}
use jsonot.Sharedb.Store.{DocRecord, MemDoc, get_doc}
use jsonot.Sharedb.Store.Log.{Reachable, Reachable-AllLogged, AllLogged}
use jsonot.Sharedb.Server.Outcome.{Ends}
use jsonot.Sharedb.Server.Commit.{Submitted, submit_core-Ends}
use jsonot.Sharedb.Server.History.{rollback_to_version}
use jsonot.Sharedb.Server.Rollback.{RolledBack, rollback_to_version-Ends}
use jsonot.Sharedb.Server.Retry.{submit_core-retry}
use jsonot.Sharedb.Server.Identity.{is_once}
use jsonot.Sharedb.Server.Once.{run_calls-once}
use jsonot.Sharedb.Server.Window.{in_window, submit_core-window}

abbrev request : ℕ → ℕ → Bytes → SubmitRequest
request base n raw = record {
  request_document = lit "d";
  request_base = pos base;
  operation = raw;
  request_id = record { id_source = lit "s"; id_sequence = pos n };
  request_source = [];
  request_sequence = pos 0;
}

abbrev pub created : ServerState Json
created = run_calls tree no_clients setup (to_create (lit "d") [] ∷ []) new_server

abbrev pub first : SubmitRequest
first = request 0 1 (lit "[{p:[a],oi:1}]")

-- A client submits, and submits again; another one submits concurrently; a third goes back.
abbrev session_calls : List ServerCall
session_calls =
    to_create (lit "d") []
    ∷ to_submit first
    ∷ to_submit first
    ∷ to_submit (record (request 0 1 (lit "[{p:[b],oi:2}]")) {
      request_id = record { id_source = lit "t"; id_sequence = pos 1 };
    })
    ∷ to_roll_back (lit "d") (pos 0) (lit "u")
    ∷ to_read_at (lit "d") (pos 1)
    ∷ []

abbrev behind_calls : ServerState Json
behind_calls = run_calls tree no_clients setup session_calls new_server

abbrev held_or_empty : Option MemDoc → MemDoc
held_or_empty none = record { mem_version = pos 0; doc = []; ops = [] }
held_or_empty (some m) = m

abbrev held : MemDoc
held = held_or_empty (behind_calls.backend (lit "d"))

-- Two submissions and a rollback are in the log.
three_records :
    (held.mem_version ≡ pos 3) × (held.doc ≡ lit "{}") × (length behind_calls.published ≡ 3)
unfolding run_calls setup on_done str_eq validation add_int sub_int transform_component equal
three_records = (refl, refl, refl)

run_calls-Reachable_example : Reachable behind_calls.backend
run_calls-Reachable_example = run_calls-Reachable tree no_clients setup session_calls (omega arith)

held-eq : behind_calls.backend (lit "d") ≡ some held
unfolding run_calls setup on_done str_eq validation add_int sub_int transform_component equal
held-eq = refl

run_calls-once_example : is_once held.ops ≡ true
run_calls-once_example =
    run_calls-once tree no_clients setup session_calls (lit "d") held (omega arith) held-eq

submit_core-Ends_example :
    Ends
      (Submitted tree no_clients setup first created)
      created
      (submit_core tree no_clients setup first created)
submit_core-Ends_example = submit_core-Ends tree no_clients setup first created

rollback_to_version-Ends_example :
    Ends
      (RolledBack tree no_clients setup (lit "d") (lit "u") (pos 1) behind_calls)
      behind_calls
      (rollback_to_version tree no_clients setup (lit "d") (pos 1) (lit "u") behind_calls)
rollback_to_version-Ends_example =
    rollback_to_version-Ends tree no_clients setup (lit "d") (lit "u") (pos 1) behind_calls

abbrev pub committed_first : ServerState Json
committed_first = (submit_core tree no_clients setup first created).0

abbrev first_result : SubmitResult
first_result = record {
  result_version = pos 1;
  rebased = false;
  duplicate = false;
  result_operation = lit "[{p:[a],oi:1}]";
  result_content = lit "{a:1}";
}

abbrev empty_doc : DocRecord
empty_doc = record { doc_id = lit "d"; doc_version = pos 0; content = lit "{}" }

first-eq : submit_core tree no_clients setup first created ≡ (committed_first, done first_result)
unfolding submit_core run_calls setup on_done str_eq validation add_int
first-eq = refl

empty-eq : get_doc created.backend (lit "d") ≡ done empty_doc
unfolding get_doc run_calls setup on_done str_eq
empty-eq = refl

first-moves : pos 1 ≢ pos 0
first-moves = λ e. cc

created-AllLogged : AllLogged created.backend
created-AllLogged =
    Reachable-AllLogged created.backend
      (run_calls-Reachable tree no_clients setup (to_create (lit "d") [] ∷ []) (omega arith))

same_text : json_raw_equal tree no_clients setup first.operation first.operation ≡ true
unfolding json_raw_equal setup str_eq
same_text = refl

-- Another client commits before the first one submits again.
abbrev other_request : SubmitRequest
other_request = record (request 0 1 (lit "[{p:[b],oi:2}]")) {
  request_id = record { id_source = lit "t"; id_sequence = pos 1 };
}

abbrev later_state : ServerState Json
later_state = (submit_core tree no_clients setup other_request committed_first).0

abbrev held_at : ServerState Json → MemDoc
held_at s = held_or_empty (s.backend (lit "d"))

first-held : committed_first.backend (lit "d") ≡ some (held_at committed_first)
unfolding submit_core run_calls setup on_done str_eq validation add_int
first-held = refl

later-held : later_state.backend (lit "d") ≡ some (held_at later_state)
unfolding submit_core run_calls setup on_done str_eq validation add_int sub_int transform_component
    equal
later-held = refl

later-log :
    (held_at later_state).ops ≡ (held_at committed_first).ops ++ drop 1 (held_at later_state).ops
unfolding submit_core run_calls setup on_done str_eq validation add_int sub_int transform_component
    equal
later-log = refl

abbrev later_calls : List ServerCall
later_calls = to_create (lit "d") [] ∷ to_submit first ∷ to_submit other_request ∷ []

later_state-run_calls : later_state ≡ run_calls tree no_clients setup later_calls new_server
unfolding run_calls
later_state-run_calls = refl

later-AllLogged : AllLogged later_state.backend
later-AllLogged = rw later_state-run_calls (
    Reachable-AllLogged (run_calls tree no_clients setup later_calls new_server).backend
      (run_calls-Reachable tree no_clients setup later_calls (omega arith)))

submit_core-retry_example :
    (submit_core tree no_clients setup first committed_first
      ≡ (committed_first, done (record first_result { rebased = false; duplicate = true })))
    × (submit_core tree no_clients setup first later_state ≡ (
      later_state,
      done (record {
        result_version = (held_at later_state).mem_version;
        rebased = false;
        duplicate = true;
        result_operation = first_result.result_operation;
        result_content = (held_at later_state).doc;
      }),
    ))
submit_core-retry_example =
    submit_core-retry tree no_clients setup first created committed_first first_result empty_doc
      later_state (held_at committed_first) (held_at later_state) (drop 1 (held_at later_state).ops)
      created-AllLogged empty-eq (ground arith) refl same_text first-eq refl first-moves first-held
      later-AllLogged later-held later-log

submit_core-window_example :
    (leb_ℤ (pos 0) (pos 0) && leb_ℤ (pos 0) (pos 0) ≡ true)
    × (leb_ℤ (pos 0) (pos 0) || in_window (pos 2) (pos 0) (pos 0) ≡ true)
unfolding setup
submit_core-window_example =
    submit_core-window tree no_clients setup first created committed_first first_result empty_doc
      empty-eq first-eq refl

nest-below : (xs : Items) (n : ℕ) → nesting_items xs < n → NestBelow nesting n (to_list xs)
nest-below nil n h = tt
nest-below (cons x xs) n h = (omega arith, nest-below xs n (omega arith))

nesting-law : NestingLaw tree nesting
nesting-law (arr xs) vs e =
    let same : to_list xs ≡ vs = cc in
    rw (← same) (nest-below xs (suc (nesting_items xs)) (omega arith))
nesting-law _ vs e = absurd cc

components_from_value-fuel_example :
    (components_from_value tree new_holder 5 0 (insert_value (lit "a") 1) ≢ none)
    × (components_from_value tree new_holder 5 0 (insert_value (lit "a") 1)
        ≡ components_from_value tree new_holder
            (suc (nesting (insert_value (lit "a") 1)))
            0
            (insert_value (lit "a") 1))
components_from_value-fuel_example =
    components_from_value-fuel tree new_holder nesting nesting-law 5 0 (insert_value (lit "a") 1)
      (omega arith)
