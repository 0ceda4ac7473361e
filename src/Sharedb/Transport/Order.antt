-- ===== src/Sharedb/Transport/Order.antt =====
-- sharedb/ws_transport.go: what the steps of `Register` and `Close` keep in order.
use jsonot.Base.{
  ℕ, ◌≡◌, ◌<◌, refl, Bool, true, false, not, ◌&&◌, ◌||◌, Option, none, some, List, [], ◌∷◌, ◌++◌,
  arith, ◌==◌, Bytes, str_eq, str_eq→eq, Bool-cases, inl, inr,
}
use jsonot.Sharedb.Transport.{Sockets, has_key, open_conn, unregister, add_close_hook, is_refused}
use jsonot.Sharedb.Transport.Hooks.{
  or_true, unregister-back, unregister-gone, has_key_self, eq_self,
}
use jsonot.Sharedb.Transport.Interleaved.{
  hooking, Flight, Traffic, enter, begin_close, next_hook, is_installing,
}

-- The connection of a session is open and has a hook that takes it out of the manager, or that hook
-- is still to run, or the session is among `late`.
abbrev pub is_held : {M : Type 0} → Bool → Traffic M → Bytes → ℕ → Bool
is_held late t s c =
    (not (t.sockets.conns c).is_closed && has_key s (t.sockets.conns c).close_hooks)
    || (has_key s (t.leaving c) || late)

abbrev pub Late : Type 0
Late = Bytes → ℕ → Bool

abbrev pub AllHeld : {M : Type 0} → Late → Traffic M → Type 0
AllHeld late t =
    (s : Bytes) (c : ℕ)
    → t.sockets.sessions s ≡ some c
    → (c < t.sockets.next_conn) × (is_held (late s c) t s c ≡ true)

-- A call that is about to install its connection has added its hook, or found it closed.
abbrev pub is_hooked : {M : Type 0} → Traffic M → Flight → Bool
is_hooked t f =
    not (is_installing f.stage)
    || ((t.sockets.conns f.flight_conn).is_closed
        || has_key f.flight_session (t.sockets.conns f.flight_conn).close_hooks)

abbrev pub AllHooked : {M : Type 0} → Traffic M → Type 0
AllHooked t =
    (g : ℕ) (f : Flight)
    → t.flights g ≡ some f
    → (f.flight_conn < t.sockets.next_conn) × (is_hooked t f ≡ true)

abbrev pub InOrder : {M : Type 0} → Late → Traffic M → Type 0
InOrder late t = AllHeld late t × AllHooked t

has_key_append :
    (k : Bytes) (xs ys : List Bytes) → has_key k (xs ++ ys) ≡ has_key k xs || has_key k ys
has_key_append k [] ys = refl
has_key_append k (x ∷ xs) ys = elim (Bool-cases (str_eq x k)) [
  | inl here ↦ rw here refl
  | inr there ↦ rw there (has_key_append k xs ys)
]

late_or :
    (open_hook hook waits late : Bool)
    → (open_hook && hook) || (waits || late) ≡ true
    → (waits || hook) || late ≡ true
late_or open_hook hook waits late h = ground arith

more_held :
    (is_open hook another rest : Bool)
    → (is_open && hook) || rest ≡ true
    → (is_open && (hook || another)) || rest ≡ true
more_held is_open hook another rest h = ground arith

more_hooked :
    (elsewhere shut hook another : Bool)
    → elsewhere || (shut || hook) ≡ true
    → elsewhere || (shut || (hook || another)) ≡ true
more_hooked elsewhere shut hook another h = ground arith

pub opening-InOrder :
    {M : Type 0} (late : Late) (t : Traffic M)
    → InOrder late t
    → InOrder late (record t { sockets = open_conn t.sockets })
unfolding open_conn
opening-InOrder late t (held, hooked) = (
  λ s c e.
      let (below, ok) = held s c e in
      let apart : t.sockets.next_conn == c ≡ false = ground arith in rw apart (omega arith, ok),
  λ g f e.
      let (below, ok) = hooked g f e in
      let apart : t.sockets.next_conn == f.flight_conn ≡ false = ground arith in
      rw apart (omega arith, ok),
)

pub unregister-InOrder :
    {M : Type 0} (late : Late) (j : Bytes) (d : ℕ) (t : Traffic M)
    → InOrder late t
    → InOrder late
        (record t { sockets = record t.sockets { sessions = unregister j d t.sockets.sessions } })
unregister-InOrder late j d t (held, hooked) =
    ((λ s c e. held s c (unregister-back j s d c t.sockets.sessions e)), hooked)

pub enter-InOrder :
    {M : Type 0} (late : Late) (g : ℕ) (s : Bytes) (c : ℕ) (x : Option Flight) (t : Traffic M)
    → InOrder late t
    → InOrder late (enter g s c x t)
enter-InOrder late g s c (some f) t w = w
enter-InOrder late g s c none t w = elim (Bool-cases (is_refused s c t.sockets)) [
  | inl bad ↦ rw bad w
  | inr fine ↦ rw fine (
    w.0,
    λ k f e. elim (Bool-cases (g == k)) [
      | inr other ↦ w.1 k f (rw other at e)
      | inl same ↦
          let e' : some (record { flight_session = s; flight_conn = c; stage = hooking }) ≡ some f =
            rw same at e in
          let f_eq : record { flight_session = s; flight_conn = c; stage = hooking } ≡ f = cc in
          rw (← f_eq) (ground arith, refl)
    ],
  )
]

pub begin_close-InOrder :
    {M : Type 0} (late : Late) (d : ℕ) (t : Traffic M)
    → InOrder late t
    → InOrder late (begin_close d t)
unfolding begin_close
begin_close-InOrder late d t (held, hooked) = elim (Bool-cases (t.sockets.conns d).is_closed) [
  | inl shut ↦ rw (begin_close, shut) (held, hooked)
  | inr still ↦
      rw (begin_close, still)
        (
          (λ s c e.
              let (below, ok) = held s c e in
              elim (Bool-cases (d == c)) [
                | inr other ↦ rw other (below, ok)
                | inl same ↦
                    let here : c ≡ d = ground arith in
                    rw same (
                      below,
                      rw (has_key_append s (t.leaving d) (t.sockets.conns d).close_hooks) (
                          rw here (
                            late_or (not (t.sockets.conns d).is_closed) _ _ (late s d)
                              (rw here at ok))),
                    )
              ]),
          (λ g f e.
              let (below, ok) = hooked g f e in
              elim (Bool-cases (d == f.flight_conn)) [
                | inr other ↦ rw other (below, ok)
                | inl same ↦ rw same (below, or_true (not (is_installing f.stage)))
              ]),
        )
]

pub next_hook-InOrder :
    {M : Type 0} (late : Late) (d : ℕ) (hooks : List Bytes) (t : Traffic M)
    → t.leaving d ≡ hooks
    → InOrder late t
    → InOrder late (next_hook d hooks t)
next_hook-InOrder late d [] t e w = w
next_hook-InOrder late d (j ∷ rest) t e (held, hooked) = (
  (λ s c k.
      let (below, ok) = held s c (unregister-back j s d c t.sockets.sessions k) in
      elim (Bool-cases (d == c)) [
        | inr other ↦ rw other (below, ok)
        | inl same ↦
            let here : c ≡ d = ground arith in
            elim (Bool-cases (str_eq j s)) [
              | inl named ↦
                  let e' : j ≡ s = str_eq→eq j s named in
                  absurd (unregister-gone s d t.sockets.sessions (rw (e', here) at k))
              | inr unnamed ↦
                  let left : has_key s (t.leaving c) ≡ has_key s rest =
                    rw (here, e) (rw unnamed refl) in
                  rw same (below, (rw left at ok))
            ]
      ]),
  hooked,
)

-- `AddCloseHook` keeps the sessions in order, and leaves its own call hooked.
pub add_close_hook-InOrder :
    {M : Type 0} (late : Late) (j : Bytes) (d : ℕ) (t : Traffic M)
    → InOrder late t
    → InOrder late (record t { sockets = add_close_hook d j t.sockets })
unfolding add_close_hook
add_close_hook-InOrder late j d t (held, hooked) = elim (Bool-cases (t.sockets.conns d).is_closed) [
  | inl shut ↦ rw (add_close_hook, shut) (unregister-InOrder late j d t (held, hooked))
  | inr still ↦
      rw (add_close_hook, still)
        (
          (λ s c e.
              let (below, ok) = held s c e in
              elim (Bool-cases (d == c)) [
                | inr other ↦ rw other (below, ok)
                | inl same ↦
                    let here : c ≡ d = ground arith in
                    rw same (
                      below,
                      (rw (has_key_append s (t.sockets.conns d).close_hooks (j ∷ [])) (
                          rw here (
                            more_held true (has_key s (t.sockets.conns d).close_hooks)
                              (has_key s (j ∷ [])) (has_key s (t.leaving d) || late s d)
                              (rw still at (rw here at ok))))),
                    )
              ]),
          (λ g f e.
              let (below, ok) = hooked g f e in
              elim (Bool-cases (d == f.flight_conn)) [
                | inr other ↦ rw other (below, ok)
                | inl same ↦
                    let here : f.flight_conn ≡ d = ground arith in
                    rw same (
                      below,
                      (rw (has_key_append f.flight_session (t.sockets.conns d).close_hooks (j ∷ []))
                          (more_hooked (not (is_installing f.stage)) false
                            (has_key f.flight_session (t.sockets.conns d).close_hooks)
                            (has_key f.flight_session (j ∷ [])) (rw still at (rw here at ok)))),
                    )
              ]),
        )
]

pub add_close_hook-hooked :
    {M : Type 0} (j : Bytes) (d : ℕ) (t : Sockets M)
    → ((add_close_hook d j t).conns d).is_closed
        || has_key j ((add_close_hook d j t).conns d).close_hooks
      ≡ true
unfolding add_close_hook
add_close_hook-hooked j d t = elim (Bool-cases (t.conns d).is_closed) [
  | inl shut ↦ rw (add_close_hook, shut) (rw shut refl)
  | inr still ↦
      rw (add_close_hook, still) (rw (eq_self d) (rw (has_key_self j (t.conns d).close_hooks) refl))
]

pub add_close_hook-next :
    {M : Type 0} (j : Bytes) (d : ℕ) (t : Sockets M)
    → (add_close_hook d j t).next_conn ≡ t.next_conn
unfolding add_close_hook
add_close_hook-next j d t = elim (Bool-cases (t.conns d).is_closed) [
  | inl shut ↦ rw (add_close_hook, shut) refl
  | inr still ↦ rw (add_close_hook, still) refl
]
