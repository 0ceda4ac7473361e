-- ===== src/Sharedb/Transport.antt =====
-- sharedb/ws_transport.go: connections, and the active connection of each session. A connection is
-- its pointer, a number; `M` is what it sends. The context of a connection is done when it is
-- closed, and the goroutines that read and write the socket are outside.
pub mod Interleaved
pub mod Hooks
pub mod Order
pub mod Active
use jsonot.Base.{
  ℕ, ◌+◌, ◌≡◌, Bool, true, false, not, ◌&&◌, ◌||◌, Option, none, some, List, [], ◌∷◌, ◌++◌, arith,
  leb, ◌==◌, if◌then◌else◌, is_nil, ℤ, pos, Bytes, str_eq,
}
use jsonot.Sharedb.{put}
use jsonot.Sharedb.Results.{Reply, done, failed, crash, invalid_session, other}

-- `ClientConn`. A hook is one that `Register` adds: it unregisters the connection from a session.
-- `outbox` is all that the channel `send` has accepted; a full channel makes the sender wait.
pub record Conn (M : Type 0) : Type 0 where
  pub is_closed : Bool
  pub close_hooks : List Bytes
  pub live_keys : List Bytes
  pub outbox : List M

-- `NewClientConn`
abbrev pub new_client_conn : {M : Type 0} → Conn M
new_client_conn = record { is_closed = false; close_hooks = []; live_keys = []; outbox = [] }

-- `SessionManager`
abbrev pub Sessions : Type 0
Sessions = Bytes → Option ℕ

-- The connections that there are, the next pointer, and the session manager.
pub record Sockets (M : Type 0) : Type 0 where
  pub conns : ℕ → Conn M
  pub next_conn : ℕ
  pub sessions : Sessions

abbrev pub no_sockets : {M : Type 0} → Sockets M
no_sockets = record { conns = λ c. new_client_conn; next_conn = 0; sessions = λ s. none }

-- Writing to a connection.
abbrev pub set_conn : {M : Type 0} → ℕ → Conn M → (ℕ → Conn M) → ℕ → Conn M
set_conn c x m = λ j. if c == j then x else m j

abbrev pub has_key : Bytes → List Bytes → Bool
has_key k [] = false
has_key k (j ∷ js) = str_eq j k || has_key k js

-- `NewClientConn` for a socket that a client opens.
unfoldable pub open_conn : {M : Type 0} → Sockets M → Sockets M
open_conn t = record t {
  conns = set_conn t.next_conn new_client_conn t.conns;
  next_conn = t.next_conn + 1;
}

abbrev pub is_active : Option ℕ → ℕ → Bool
is_active none c = false
is_active (some d) c = d == c

-- `SessionManager.Unregister`
unfoldable pub unregister : Bytes → ℕ → Sessions → Sessions
unregister s c m = if is_active (m s) c then put s none m else m

-- The hooks of a connection that is closed.
unfoldable pub run_hooks : List Bytes → ℕ → Sessions → Sessions
unfolding unregister
run_hooks [] c m = m
run_hooks (s ∷ hooks) c m = run_hooks hooks c (unregister s c m)

-- `ClientConn.Close`
unfoldable pub close : {M : Type 0} → ℕ → Sockets M → Sockets M
unfolding run_hooks
close c t = if (t.conns c).is_closed then t else record t {
  conns = set_conn c (record (t.conns c) { is_closed = true; close_hooks = [] }) t.conns;
  sessions = run_hooks (t.conns c).close_hooks c t.sessions;
}

-- `ClientConn.AddCloseHook`: on a connection that is closed, the hook runs at once.
unfoldable pub add_close_hook : {M : Type 0} → ℕ → Bytes → Sockets M → Sockets M
unfolding unregister
add_close_hook c s t =
    if (t.conns c).is_closed then record t { sessions = unregister s c t.sessions } else record t {
      conns =
          set_conn c (record (t.conns c) { close_hooks = (t.conns c).close_hooks ++ s ∷ [] })
            t.conns;
    }

-- What `Register` does while it holds the manager's lock.
abbrev pub install : {M : Type 0} → Bytes → ℕ → Sockets M → Sockets M
install s c t = record t { sessions = put s (some c) t.sessions }

abbrev pub close_old : {M : Type 0} → Option ℕ → ℕ → Sockets M → Sockets M
close_old none c t = t
close_old (some old) c t = if old == c then t else close old t

-- A number that no connection has stands for a nil pointer.
abbrev pub is_nil_conn : {M : Type 0} → ℕ → Sockets M → Bool
is_nil_conn c t = leb t.next_conn c

-- What `Register` refuses.
abbrev pub is_refused : {M : Type 0} → Bytes → ℕ → Sockets M → Bool
is_refused s c t = is_nil s || (is_nil_conn c t || (t.conns c).is_closed)

-- `SessionManager.Register` where no other goroutine comes between its steps; `Interleaved` has the
-- steps one by one.
unfoldable pub register : {M : Type 0} → Bytes → ℕ → Sockets M → Reply (Sockets M)
unfolding close add_close_hook
register s c t =
    if is_refused s c t
    then failed invalid_session
    else let hooked = add_close_hook c s t in
      done (close_old (hooked.sessions s) c (install s c hooked))

-- `SessionManager.Active`
abbrev pub active : {M : Type 0} → Sockets M → Bytes → Option ℕ
active t s = t.sessions s

-- The key of a session and a document.
abbrev pub live_key : Bytes → Bytes → Bytes
live_key s d = s ++ 0 ∷ d

abbrev pub claimed : {M : Type 0} → ℕ → Bytes → Bytes → Sockets M → Sockets M
claimed c s d t = record t {
  conns =
      set_conn c (record (t.conns c) { live_keys = live_key s d ∷ (t.conns c).live_keys }) t.conns;
}

-- `ClientConn.claimLiveAttachment`
unfoldable pub claim_live_attachment :
    {M : Type 0} → ℕ → Bytes → Bytes → Sockets M → Option (Sockets M)
claim_live_attachment c s d t =
    if has_key (live_key s d) (t.conns c).live_keys then none else some (claimed c s d t)

-- `ClientConn.hasLiveAttachment`
unfoldable pub has_live_attachment : {M : Type 0} → ℕ → Bytes → Bytes → Sockets M → Bool
has_live_attachment c s d t = has_key (live_key s d) (t.conns c).live_keys

-- `ClientConn.Enqueue`
unfoldable pub enqueue : {M : Type 0} → ℕ → M → Sockets M → Reply (Sockets M)
enqueue c x t =
    if (t.conns c).is_closed
    then failed other
    else done (record t {
      conns = set_conn c (record (t.conns c) { outbox = (t.conns c).outbox ++ x ∷ [] }) t.conns;
    })
