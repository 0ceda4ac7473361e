-- ===== src/Sharedb/Server/Steps.antt =====
-- sharedb/server.go: what any calls of the server lead to. Each call holds its document's lock, so
-- concurrent calls are a sequence.
use jsonot.Base.{
  ℕ, ◌+◌, ◌-◌, ◌≤◌, ◌<◌, ◌≡◌, ap, ◌∙◌, true, some, List, [], ◌∷◌, arith, length, ℤ, pos, ltb_ℤ,
  int_bound, Bytes,
}
use jsonot.Value.{Values}
use jsonot.SubType.Interface.{Clients}
use jsonot.Sharedb.{Event}
use jsonot.Sharedb.Results.{Reply, done, failed, crash}
use jsonot.Sharedb.Store.{Backend, OpRecord, DocRecord, get_doc}
use jsonot.Sharedb.Server.{Setup, ServerState, SubmitRequest, SubmitResult}
use jsonot.Sharedb.Server.Submit.{submit_core}
use jsonot.Sharedb.Server.History.{rollback_to_version, get_snapshot_at}
use jsonot.Sharedb.Server.Documents.{create_document, delete_document}
use jsonot.Sharedb.Server.Outcome.{Kept, Ends, Committed}
use jsonot.Sharedb.Server.Quiet.{get_snapshot_at-Kept}
use jsonot.Sharedb.Server.{new_server}
use jsonot.Sharedb.Store.Log.{
  Step, creating, deleting, committing, Reachable, at_start, stepped, AllLogged, IsLogged,
  Reachable-AllLogged,
}
use jsonot.Sharedb.Store.Calls.{AtMost, HasAtMost-suc, Step-AtMost, get_doc-done}
use jsonot.Sharedb.Server.Commit.{Submitted, retried, left_empty, committed, submit_core-Ends}
use jsonot.Sharedb.Server.Documents.{or_empty_object}
use jsonot.Sharedb.Server.Rollback.{
  RolledBack, already_there, moved_back, rollback_to_version-Ends, delete_document-Ends,
  create_document-Ends,
}

-- A call of the server that may change its state.
pub data ServerCall : Type 0 where
  to_create : (d initial : Bytes) → ServerCall
  to_submit : SubmitRequest → ServerCall
  to_delete : (d : Bytes) → ℤ → (by : Bytes) → ServerCall
  to_roll_back : (d : Bytes) → ℤ → (by : Bytes) → ServerCall
  to_read_at : (d : Bytes) → ℤ → ServerCall

-- How a call's documents come from those before it.
pub data Moves (b b' : Backend) : Type 0 where
  stays : b' ≡ b → Moves b b'
  steps : Step b b' → Moves b b'

-- What holds of the state that a call leaves, however it ends.
pub Ends-elim :
    {V B : Type 0} (W : ServerState V → ServerState V → B → Type 0) (P : ServerState V → Type 0)
    (s : ServerState V) (x : ServerState V × Reply B)
    → ((t : ServerState V) → Kept s t → P t)
    → ((t : ServerState V) (b : B) → W s t b → P t)
    → Ends W s x
    → P x.0
unfolding Ends
Ends-elim W P s (t, done b) k w h = w t b h
Ends-elim W P s (t, failed e) k w h = k t h
Ends-elim W P s (t, crash) k w h = k t h

Kept-Moves : {V : Type 0} (s t : ServerState V) → Kept s t → Moves s.backend t.backend
Kept-Moves s t h = stays h.same_backend

-- A document's version is one that an `int` can count up.
version-small :
    (b : Backend) (d : Bytes) (r : DocRecord) (n : ℕ)
    → AllLogged b
    → AtMost n b
    → n + 1 < int_bound
    → get_doc b d ≡ done r
    → ltb_ℤ r.doc_version (pos (int_bound - 1)) ≡ true
version-small b d r n w k bound got =
    let (m, held, e) = get_doc-done b d r got in
    let logged : IsLogged (some m) = rw held at (w d) in
    let short : length m.ops ≤ n = rw held at (k d) in
    let v : r.doc_version ≡ pos (length m.ops) =
      ap (λ (x : DocRecord). x.doc_version) e ∙ logged.0 in
    rw v (ground arith)

Committed-Moves :
    {V : Type 0} (n : ℕ) (s t : ServerState V) (doc : DocRecord) (o : OpRecord) (e : Event)
    → AllLogged s.backend
    → AtMost n s.backend
    → n + 1 < int_bound
    → Committed s t doc o e
    → Moves s.backend t.backend
Committed-Moves n s t doc o e w k bound c = steps (
    committing c.before doc o c.was_read c.is_next c.has_version
      (version-small s.backend doc.doc_id c.before n w k bound c.was_read) c.is_stored)

module _ (V : Values) (C : Clients V) (E : Setup V) where
  open V use {Value}

  unfoldable pub run_call : ServerCall → ServerState Value → ServerState Value
  unfolding create_document submit_core delete_document rollback_to_version get_snapshot_at
  run_call (to_create d initial) s = (create_document V C E d initial s).0
  run_call (to_submit q) s = (submit_core V C E q s).0
  run_call (to_delete d base by) s = (delete_document V C E d base by s).0
  run_call (to_roll_back d target by) s = (rollback_to_version V C E d target by s).0
  run_call (to_read_at d n) s = (get_snapshot_at V C E d n s).0

  unfoldable pub run_calls : List ServerCall → ServerState Value → ServerState Value
  unfolding run_call
  run_calls [] s = s
  run_calls (c ∷ cs) s = run_calls cs (run_call c s)

  Submitted-Moves :
      (n : ℕ) (q : SubmitRequest) (s t : ServerState Value) (r : SubmitResult)
      → AllLogged s.backend
      → AtMost n s.backend
      → n + 1 < int_bound
      → Submitted V C E q s s t r
      → Moves s.backend t.backend
  Submitted-Moves n q s t r w k bound (retried doc o got found h d e) = Kept-Moves s t h
  Submitted-Moves n q s t r w k bound (left_empty doc got new moved h d v e o) = Kept-Moves s t h
  Submitted-Moves n q s t r w k bound (committed doc o got new moved some_change applied c d) =
      Committed-Moves n s t _ _ _ w k bound c

  RolledBack-Moves :
      (n : ℕ) (d by : Bytes) (target : ℤ) (s t : ServerState Value) (r : SubmitResult)
      → AllLogged s.backend
      → AtMost n s.backend
      → n + 1 < int_bound
      → RolledBack V C E d by target s s t r
      → Moves s.backend t.backend
  RolledBack-Moves n d by target s t r w k bound (already_there doc got there h v e) =
      Kept-Moves s t h
  RolledBack-Moves n d by target s t r w k bound (moved_back doc got away within back c) =
      Committed-Moves n s t _ _ _ w k bound c

  -- A call moves the documents by a step, or not at all.
  pub run_call-Moves :
      (n : ℕ) (c : ServerCall) (s : ServerState Value)
      → AllLogged s.backend
      → AtMost n s.backend
      → n + 1 < int_bound
      → Moves s.backend (run_call c s).backend
  unfolding run_call
  run_call-Moves n (to_create d initial) s w k bound =
      Ends-elim _ (λ t. Moves s.backend t.backend) s _ (Kept-Moves s)
        (λ t u h. steps (creating d (or_empty_object initial) h.is_created))
        (create_document-Ends V C E d initial s)
  run_call-Moves n (to_submit q) s w k bound =
      Ends-elim _ (λ t. Moves s.backend t.backend) s _ (Kept-Moves s)
        (λ t u h. Submitted-Moves n q s t u w k bound h) (submit_core-Ends V C E q s)
  run_call-Moves n (to_delete d base by) s w k bound =
      Ends-elim _ (λ t. Moves s.backend t.backend) s _ (Kept-Moves s)
        (λ t u h. steps (deleting d h.is_removed)) (delete_document-Ends V C E d by base s)
  run_call-Moves n (to_roll_back d target by) s w k bound =
      Ends-elim _ (λ t. Moves s.backend t.backend) s _ (Kept-Moves s)
        (λ t u h. RolledBack-Moves n d by target s t u w k bound h)
        (rollback_to_version-Ends V C E d by target s)
  run_call-Moves n (to_read_at d v) s w k bound = Kept-Moves s _ (get_snapshot_at-Kept V C E d v s)

  -- Steps keep documents reachable, and make logs longer by one at most.
  pub Moves-Reachable :
      (n : ℕ) (b b' : Backend)
      → Reachable b
      → AtMost n b
      → Moves b b'
      → Reachable b' × AtMost (n + 1) b'
  Moves-Reachable n b b' reach k (stays e) = (rw e reach, rw e (λ d. HasAtMost-suc n (b d) (k d)))
  Moves-Reachable n b b' reach k (steps step) = (stepped reach step, Step-AtMost n b b' step k)

  run_calls-Reachable_from :
      (cs : List ServerCall) (n : ℕ) (s : ServerState Value)
      → Reachable s.backend
      → AtMost n s.backend
      → n + length cs < int_bound
      → Reachable (run_calls cs s).backend
  unfolding run_calls
  run_calls-Reachable_from [] n s reach k bound = reach
  run_calls-Reachable_from (c ∷ cs) n s reach k bound =
      let moved : Moves s.backend (run_call c s).backend =
        run_call-Moves n c s (Reachable-AllLogged s.backend reach) k (omega arith) in
      let next : Reachable (run_call c s).backend × AtMost (n + 1) (run_call c s).backend =
        Moves-Reachable n s.backend (run_call c s).backend reach k moved in
      run_calls-Reachable_from cs (n + 1) (run_call c s) next.0 next.1 (omega arith)

  -- Any calls of a new server, fewer than 2 ^ 63, make only the steps of `Sharedb.Store.Log`:
  -- creations, deletions, and commits of the next version; so what holds of the reachable states
  -- there holds of the server.
  pub run_calls-Reachable :
      (cs : List ServerCall) → length cs < int_bound → Reachable (run_calls cs new_server).backend
  run_calls-Reachable cs bound =
      run_calls-Reachable_from cs 0 new_server at_start (λ d. tt) (omega arith)
