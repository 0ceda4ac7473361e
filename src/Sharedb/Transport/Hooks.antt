-- ===== src/Sharedb/Transport/Hooks.antt =====
-- sharedb/ws_transport.go: hooks and the sessions that they take a connection out of.
use jsonot.Base.{
  Bool, ◌||◌, ◌++◌, ℕ, ◌≡◌, ◌≢◌, refl, true, false, Option, none, some, List, [], ◌∷◌, arith, ◌==◌,
  Bytes, str_eq, str_eq_refl, Bool-cases, inl, inr,
}
use jsonot.Sharedb.Transport.{Sessions, Sockets, has_key, is_active, unregister, close}

pub unregister-back :
    (s j : Bytes) (c d : ℕ) (m : Sessions) → unregister s c m j ≡ some d → m j ≡ some d
unfolding unregister
unregister-back s j c d m held = elim (Bool-cases (is_active (m s) c)) [
  | inr h ↦ rw (unregister, h) at held
  | inl h ↦ elim (Bool-cases (str_eq s j)) [
    | inr k ↦ rw k at (rw (unregister, h) at held)
    | inl k ↦ absurd (cc (rw k at (rw (unregister, h) at held)))
  ]
]

not_active : (x : Option ℕ) (c : ℕ) → is_active x c ≡ false → x ≢ some c
not_active none c h = λ e. cc
not_active (some b) c h = λ e. let same : b ≡ c = cc in absurd (ground (arith, rw same at h))

pub unregister-gone : (s : Bytes) (c : ℕ) (m : Sessions) → unregister s c m s ≢ some c
unfolding unregister
unregister-gone s c m = λ held. elim (Bool-cases (is_active (m s) c)) [
  | inl h ↦ cc (rw (str_eq_refl s) at (rw (unregister, h) at held))
  | inr h ↦ not_active (m s) c h (rw (unregister, h) at held)
]

pub eq-false : (c d : ℕ) → d ≢ c → c == d ≡ false
eq-false c d h = ground arith

pub or_true : (a : Bool) → a || true ≡ true
or_true a = ground arith

pub eq_self : (c : ℕ) → c == c ≡ true
eq_self c = ground arith

pub has_key-append :
    (k j : Bytes) (js : List Bytes) → has_key k js ≡ true → has_key k (js ++ j ∷ []) ≡ true
has_key-append k j [] h = cc
has_key-append k j (x ∷ js) h = elim (Bool-cases (str_eq x k)) [
  | inl here ↦ rw here refl
  | inr there ↦ rw there (has_key-append k j js (rw there at h))
]

pub has_key_self : (k : Bytes) (js : List Bytes) → has_key k (js ++ k ∷ []) ≡ true
has_key_self k [] = rw (str_eq_refl k) refl
has_key_self k (x ∷ js) = rw (has_key_self k js) (or_true (str_eq x k))

-- A connection that is closed stays so.
pub close-closes : {M : Type 0} (c : ℕ) (t : Sockets M) → ((close c t).conns c).is_closed ≡ true
unfolding close
close-closes c t = elim (Bool-cases (t.conns c).is_closed) [
  | inl shut ↦ rw (close, shut) shut
  | inr still ↦ rw (close, still) (rw (eq_self c) refl)
]
