-- ===== src/Sharedb/Transport/Interleaved.antt =====
-- sharedb/ws_transport.go: `Register` and `Close` step by step, between which other goroutines run.
-- `Close` takes the hooks when it marks the connection as closed, and runs each by itself; that it
-- cancels the context just before is no step of its own.
use jsonot.Base.{
  ℕ, Bool, true, false, ◌&&◌, ◌||◌, Option, none, some, List, [], ◌∷◌, ◌++◌, ◌==◌, if◌then◌else◌,
  Bytes, str_eq,
}
use jsonot.Sharedb.Transport.{
  Sockets, no_sockets, set_conn, open_conn, unregister, add_close_hook, install, is_refused,
}

-- Where a call of `Register` stands: in front of `AddCloseHook`, in front of the installation, in
-- front of closing the connection that it has replaced.
pub data Stage : Type 0 where
  hooking : Stage
  installing : Stage
  replacing : Option ℕ → Stage

pub record Flight : Type 0 where
  pub flight_session : Bytes
  pub flight_conn : ℕ
  pub stage : Stage

-- The calls of `Register` that are under way, each in its goroutine, and the hooks that connections
-- have still to run.
pub record Traffic (M : Type 0) : Type 0 where
  pub sockets : Sockets M
  pub flights : ℕ → Option Flight
  pub leaving : ℕ → List Bytes

abbrev pub no_traffic : {M : Type 0} → Traffic M
no_traffic = record { sockets = no_sockets; flights = λ g. none; leaving = λ c. [] }

abbrev pub put_at : {A : Type 0} → ℕ → A → (ℕ → A) → ℕ → A
put_at k a m = λ j. if k == j then a else m j

-- The entry of `Register`, in a goroutine that has no call under way.
abbrev pub enter : {M : Type 0} → ℕ → Bytes → ℕ → Option Flight → Traffic M → Traffic M
enter g s c (some f) t = t
enter g s c none t = if is_refused s c t.sockets then t else record t {
  flights =
      put_at g (some (record { flight_session = s; flight_conn = c; stage = hooking })) t.flights;
}

-- `Close` up to its loop.
unfoldable pub begin_close : {M : Type 0} → ℕ → Traffic M → Traffic M
begin_close c t = if (t.sockets.conns c).is_closed then t else record t {
  sockets = record t.sockets {
    conns =
        set_conn c (record (t.sockets.conns c) { is_closed = true; close_hooks = [] })
          t.sockets.conns;
  };
  leaving = put_at c (t.leaving c ++ (t.sockets.conns c).close_hooks) t.leaving;
}

-- A round of the loop of `Close`.
abbrev pub next_hook : {M : Type 0} → ℕ → List Bytes → Traffic M → Traffic M
next_hook c [] t = t
next_hook c (s ∷ rest) t = record t {
  sockets = record t.sockets { sessions = unregister s c t.sockets.sessions };
  leaving = put_at c rest t.leaving;
}

abbrev pub close_replaced : {M : Type 0} → Option ℕ → ℕ → Traffic M → Traffic M
close_replaced none c t = t
close_replaced (some old) c t = if old == c then t else begin_close old t

abbrev pub next_stage : {M : Type 0} → Bytes → ℕ → Stage → Traffic M → Traffic M
next_stage s c hooking t = record t { sockets = add_close_hook c s t.sockets }
next_stage s c installing t = record t { sockets = install s c t.sockets }
next_stage s c (replacing old) t = close_replaced old c t

abbrev pub stage_after : Stage → Option ℕ → Option Stage
stage_after hooking old = some installing
stage_after installing old = some (replacing old)
stage_after (replacing old) x = none

abbrev pub flight_at : Bytes → ℕ → Option Stage → Option Flight
flight_at s c none = none
flight_at s c (some k) = some (record { flight_session = s; flight_conn = c; stage = k })

-- The next step of the call in a goroutine.
abbrev pub advance : {M : Type 0} → ℕ → Option Flight → Traffic M → Traffic M
advance g none t = t
advance g (some f) t =
    let u = next_stage f.flight_session f.flight_conn f.stage t in
    let old = t.sockets.sessions f.flight_session in
    record u {
      flights =
          put_at g (flight_at f.flight_session f.flight_conn (stage_after f.stage old)) u.flights;
    }

pub data TrafficStep : Type 0 where
  opening : TrafficStep
  entering : ℕ → Bytes → ℕ → TrafficStep
  advancing : ℕ → TrafficStep
  closing : ℕ → TrafficStep
  running_hook : ℕ → TrafficStep
  unregistering : Bytes → ℕ → TrafficStep

unfoldable pub run_step : {M : Type 0} → TrafficStep → Traffic M → Traffic M
unfolding open_conn add_close_hook unregister begin_close
run_step opening t = record t { sockets = open_conn t.sockets }
run_step (entering g s c) t = enter g s c (t.flights g) t
run_step (advancing g) t = advance g (t.flights g) t
run_step (closing c) t = begin_close c t
run_step (running_hook c) t = next_hook c (t.leaving c) t
run_step (unregistering s c) t = record t {
  sockets = record t.sockets { sessions = unregister s c t.sockets.sessions };
}

unfoldable pub run_steps : {M : Type 0} → List TrafficStep → Traffic M → Traffic M
unfolding run_step
run_steps [] t = t
run_steps (k ∷ ks) t = run_steps ks (run_step k t)

abbrev pub is_installing : Stage → Bool
is_installing installing = true
is_installing k = false

-- The call is about to install the connection for the session, and it is closed already.
abbrev pub is_late : {M : Type 0} → Option Flight → Sockets M → Bytes → ℕ → Bool
is_late none t s c = false
is_late (some f) t s c =
    is_installing f.stage
    && ((str_eq f.flight_session s && (f.flight_conn == c)) && (t.conns c).is_closed)

abbrev pub is_late_step : {M : Type 0} → TrafficStep → Traffic M → Bytes → ℕ → Bool
is_late_step (advancing g) t s c = is_late (t.flights g) t.sockets s c
is_late_step k t s c = false

-- One of the steps installs the connection for the session after it has closed.
unfoldable pub is_raced : {M : Type 0} → List TrafficStep → Traffic M → Bytes → ℕ → Bool
unfolding run_step
is_raced [] t s c = false
is_raced (k ∷ ks) t s c = is_late_step k t s c || is_raced ks (run_step k t) s c
