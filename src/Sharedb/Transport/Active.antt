-- ===== src/Sharedb/Transport/Active.antt =====
-- sharedb/ws_transport.go: the active connection of each session, over any interleaving of the steps
-- of `Register` and `Close`.
use jsonot.Base.{
  ℕ, ◌∙◌, ◌≡◌, ◌<◌, refl, sym, Bool, true, false, not, ◌&&◌, ◌||◌, Option, none, some, List, [],
  ◌∷◌, arith, ◌==◌, Bytes, str_eq, str_eq→eq, Bool-cases, inl, inr,
}
use jsonot.Sharedb.Transport.{has_key, add_close_hook, install, active}
use jsonot.Sharedb.Transport.Hooks.{eq_self}
use jsonot.Sharedb.Transport.Interleaved.{
  Stage, hooking, installing, replacing, Flight, Traffic, no_traffic, put_at, close_replaced,
  next_stage, stage_after, flight_at, advance, TrafficStep, opening, entering, advancing, closing,
  running_hook, unregistering, run_step, run_steps, is_installing, is_late, is_late_step, is_raced,
}
use jsonot.Sharedb.Transport.Order.{
  is_held, Late, AllHeld, AllHooked, InOrder, is_hooked, opening-InOrder, unregister-InOrder,
  enter-InOrder, begin_close-InOrder, next_hook-InOrder, add_close_hook-InOrder,
  add_close_hook-hooked, add_close_hook-next,
}

-- The calls that are under way when that in goroutine `g` has moved on.
moved-AllHooked :
    {M : Type 0} (g : ℕ) (x : Option Flight) (t : Traffic M)
    → AllHooked t
    → ((f : Flight) → x ≡ some f → (f.flight_conn < t.sockets.next_conn) × (is_hooked t f ≡ true))
    → AllHooked (record t { flights = put_at g x t.flights })
moved-AllHooked g x t w h k f e = elim (Bool-cases (g == k)) [
  | inr other ↦ w k f (rw other at e)
  | inl same ↦ h f (rw same at e)
]

more_late :
    (a b late another : Bool) → a || (b || late) ≡ true → a || (b || (late || another)) ≡ true
more_late a b late another h = ground arith

later-AllHeld :
    {M : Type 0} (late another : Late) (t : Traffic M)
    → AllHeld late t
    → AllHeld (λ s c. late s c || another s c) t
later-AllHeld late another t w s c e =
    let (below, ok) = w s c e in (below, more_late _ _ (late s c) (another s c) ok)

flight_some :
    (s : Bytes) (c : ℕ) (k : Stage) (f : Flight)
    → flight_at s c (some k) ≡ some f
    → record { flight_session = s; flight_conn = c; stage = k } ≡ f
flight_some s c k f e = cc

replaced-InOrder :
    {M : Type 0} (late : Late) (old : Option ℕ) (c : ℕ) (t : Traffic M)
    → InOrder late t
    → InOrder late (close_replaced old c t)
replaced-InOrder late none c t w = w
replaced-InOrder late (some old) c t w = elim (Bool-cases (old == c)) [
  | inl same ↦ rw same w
  | inr differ ↦ rw differ (begin_close-InOrder late old t w)
]

late_install :
    (shut hook waits late : Bool)
    → shut || hook ≡ true
    → (not shut && hook) || (waits || (late || shut)) ≡ true
late_install shut hook waits late h = ground arith

-- An installation of a connection that is hooked, or late.
install-AllHeld :
    {M : Type 0} (late : Late) (j : Bytes) (d : ℕ) (t : Traffic M)
    → AllHeld late t
    → d < t.sockets.next_conn
    → (t.sockets.conns d).is_closed || has_key j (t.sockets.conns d).close_hooks ≡ true
    → AllHeld
        (λ s c. late s c || ((str_eq j s && (d == c)) && (t.sockets.conns c).is_closed))
        (record t { sockets = install j d t.sockets })
install-AllHeld late j d t w below hooked s c e = elim (Bool-cases (str_eq j s)) [
  | inr other ↦ let (under, ok) = w s c (rw other at e) in (under, more_late _ _ (late s c) _ ok)
  | inl same ↦
      let j_eq : j ≡ s = str_eq→eq j s same in
      let there : some d ≡ some c = rw same at e in
      let c_eq : d ≡ c = cc in
      let c_same : d == c ≡ true = rw c_eq (eq_self c) in
      let shut_or_hooked : (t.sockets.conns c).is_closed
            || has_key s (t.sockets.conns c).close_hooks
          ≡ true =
        rw (j_eq, c_eq) at hooked in
      (
        rw (← c_eq) below,
        rw (same, c_same)
            (late_install (t.sockets.conns c).is_closed (has_key s (t.sockets.conns c).close_hooks)
              (has_key s (t.leaving c)) (late s c) shut_or_hooked),
      )
]

-- The late connections behind a step.
abbrev late_after : {M : Type 0} → Late → TrafficStep → Traffic M → Late
late_after late k t = λ s c. late s c || is_late_step k t s c

stage-InOrder :
    {M : Type 0} (late : Late) (g : ℕ) (s : Bytes) (c : ℕ) (k : Stage) (old : Option ℕ)
    (t : Traffic M)
    → InOrder late t
    → c < t.sockets.next_conn
    → is_hooked t (record { flight_session = s; flight_conn = c; stage = k }) ≡ true
    → InOrder
        (λ j d.
          late j d
          || (is_installing k && ((str_eq s j && (c == d)) && (t.sockets.conns d).is_closed)))
        (record (next_stage s c k t) {
          flights = put_at g (flight_at s c (stage_after k old)) (next_stage s c k t).flights;
        })
stage-InOrder late g s c hooking old t w below hooked =
    let u : Traffic _ = record t { sockets = add_close_hook c s t.sockets } in
    let next = add_close_hook-InOrder late s c t w in
    (
      later-AllHeld late (λ j d. false) u next.0,
      moved-AllHooked g _ u next.1 (λ f e.
          rw (← flight_some s c installing f e)
            (rw (add_close_hook-next s c t.sockets) below, add_close_hook-hooked s c t.sockets)),
    )
stage-InOrder late g s c installing old t w below hooked = (
  install-AllHeld late s c t w.0 below hooked,
  moved-AllHooked g _ (record t { sockets = install s c t.sockets }) w.1
      (λ f e. rw (← flight_some s c (replacing old) f e) (below, refl)),
)
stage-InOrder late g s c (replacing x) old t w below hooked =
    let next = replaced-InOrder late x c t w in
    (
      later-AllHeld late (λ j d. false) (close_replaced x c t) next.0,
      moved-AllHooked g none (close_replaced x c t) next.1 (λ f e. absurd cc),
    )

-- A step of a call that is under way.
advance-InOrder :
    {M : Type 0} (late : Late) (g : ℕ) (x : Option Flight) (t : Traffic M)
    → t.flights g ≡ x
    → InOrder late t
    → InOrder (λ s c. late s c || is_late x t.sockets s c) (advance g x t)
advance-InOrder late g none t e w = (later-AllHeld late (λ s c. false) t w.0, w.1)
advance-InOrder late g (some f) t e w =
    let (below, hooked) = w.1 g f e in
    stage-InOrder late g f.flight_session f.flight_conn f.stage
      (t.sockets.sessions f.flight_session) t w below hooked

quiet-InOrder :
    {M : Type 0} (late : Late) (t : Traffic M)
    → InOrder late t
    → InOrder (λ s c. late s c || false) t
quiet-InOrder late t w = (later-AllHeld late (λ s c. false) t w.0, w.1)

run_step-InOrder :
    {M : Type 0} (late : Late) (k : TrafficStep) (t : Traffic M)
    → InOrder late t
    → InOrder (late_after late k t) (run_step k t)
unfolding run_step
run_step-InOrder late opening t w =
    quiet-InOrder late (run_step opening t) (opening-InOrder late t w)
run_step-InOrder late (entering g s c) t w =
    quiet-InOrder late (run_step (entering g s c) t) (enter-InOrder late g s c (t.flights g) t w)
run_step-InOrder late (advancing g) t w = advance-InOrder late g (t.flights g) t refl w
run_step-InOrder late (closing c) t w =
    quiet-InOrder late (run_step (closing c) t) (begin_close-InOrder late c t w)
run_step-InOrder late (running_hook c) t w =
    quiet-InOrder late (run_step (running_hook c) t)
      (next_hook-InOrder late c (t.leaving c) t refl w)
run_step-InOrder late (unregistering s c) t w =
    quiet-InOrder late (run_step (unregistering s c) t) (unregister-InOrder late s c t w)

or_assoc : (a b c d e : Bool) → a || (b || ((c || d) || e)) ≡ a || (b || (c || (d || e)))
or_assoc a b c d e = ground arith

run_steps-AllHeld :
    {M : Type 0} (late : Late) (ks : List TrafficStep) (t : Traffic M)
    → InOrder late t
    → AllHeld (λ s c. late s c || is_raced ks t s c) (run_steps ks t)
unfolding run_steps is_raced
run_steps-AllHeld late [] t w s c e = (quiet-InOrder late t w).0 s c e
run_steps-AllHeld late (k ∷ ks) t w s c e =
    let (below, ok) =
      run_steps-AllHeld (late_after late k t) ks (run_step k t) (run_step-InOrder late k t w) s c
        e in
    (
      below,
      sym (or_assoc _ _ (late s c) (is_late_step k t s c) (is_raced ks (run_step k t) s c)) ∙ ok,
    )

-- Whatever steps of `Register`, `Unregister` and `Close` are made, in whatever order goroutines
-- make them: the active connection of a session is open, with a hook that takes it out of the
-- manager when it closes; or that hook is still to run; or a `Register` of it for this session has
-- installed it after it had closed.
pub run_steps-active :
    (M : Type 0) (ks : List TrafficStep) (s : Bytes) (c : ℕ)
    → active (run_steps {M = M} ks no_traffic).sockets s ≡ some c
    → is_held (is_raced {M = M} ks no_traffic s c) (run_steps {M = M} ks no_traffic) s c ≡ true
run_steps-active M ks s c e =
    (run_steps-AllHeld {M = M} (λ j d. false) ks no_traffic
      ((λ j d k. absurd cc), (λ g f k. absurd cc)) s c e).1
