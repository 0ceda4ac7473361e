-- ===== src/Sharedb/Mailbox/Cursor.antt =====
-- The acknowledged cursor of a session only moves on.
use jsonot.Base.{
  ℕ, ◌≤◌, ◌≡◌, refl, sym, ◌∙◌, Bool, true, false, ◌||◌, none, some, List, [], ◌∷◌, arith, is_nil,
  Bytes, str_eq, str_eq_iff, Bool-cases, inl, inr,
}
use jsonot.Sharedb.Results.{done}
use jsonot.Sharedb.Mailbox.{Mailboxes, Envelope, index_of, is_valid, moves_on, append, ack_through}
use jsonot.Sharedb.Mailbox.Wellformed.{
  AllFor, IsWellformed, MailboxCall, appending, acking, call, run_calls, append-eq-done,
  ack_through-eq-done, appended-index, Reply-cases, call-IsWellformed,
}

-- No valid envelope has the empty id.
pub index_of-nil : (k : Bytes) (es : List Envelope) → AllFor k es → index_of es [] ≡ none
unfolding index_of is_valid
index_of-nil k [] h = refl
index_of-nil k (e ∷ es) h = ground (arith, index_of-nil k es h.2, h.0, str_eq_iff e.id [])

-- A cursor that is placed stays placed, at the same place or further on.
abbrev pub HoldsFrom : ℕ → Mailboxes → Bytes → Type 0
HoldsFrom i s k = (j : ℕ) × (index_of (s.by_session k) (s.acked k) ≡ some j) × (i ≤ j)

is_nil→nil : (b : Bytes) → is_nil b ≡ true → b ≡ []
is_nil→nil [] h = refl
is_nil→nil (x ∷ b) h = absurd (cc)

append-cursor :
    (s t : Mailboxes) (e : Envelope) (k : Bytes) (i : ℕ)
    → index_of (s.by_session k) (s.acked k) ≡ some i
    → append s e ≡ done t
    → HoldsFrom i t k
append-cursor s t e k i held h =
    let (v, fresh, t_eq) = append-eq-done s t e h in
    rw t_eq (i, appended-index s e k (s.acked k) i held, omega arith)

further_on : (b : Bool) (i j : ℕ) → b ≡ false → (b || moves_on j (some i)) ≡ true → i ≤ j
unfolding moves_on
further_on b i j h e = ground arith

ack_through-cursor :
    (s t : Mailboxes) (k j through : Bytes) (i : ℕ)
    → IsWellformed s
    → index_of (s.by_session k) (s.acked k) ≡ some i
    → ack_through s j through ≡ done t
    → HoldsFrom i t k
ack_through-cursor s t k j through i w held h = elim (ack_through-eq-done s t j through h) [
  | inl same ↦ rw same (i, held, omega arith)
  | inr (n, found, t_eq, further) ↦ elim (Bool-cases (str_eq j k)) [
    | inl here ↦
        let k_eq : j ≡ k = (str_eq_iff j k).0 here in
        let named : is_nil (s.acked k) ≡ false = elim (Bool-cases (is_nil (s.acked k))) [
          | inl empty ↦
              let e : s.acked k ≡ [] = is_nil→nil (s.acked k) empty in
              let f : none ≡ some i =
                sym (index_of-nil k (s.by_session k) (w.own k)) ∙ rw (← e) held in
              absurd (cc)
          | inr full ↦ full
        ] in
        rw t_eq (
          rw here (
            n,
            rw k_eq at found,
            further_on (is_nil (s.acked k)) i n named (rw (k_eq, held) at further),
          ))
    | inr there ↦ rw t_eq (rw there (i, held, omega arith))
  ]
]

call-cursor :
    (s : Mailboxes) (c : MailboxCall) (k : Bytes) (i : ℕ)
    → IsWellformed s
    → index_of (s.by_session k) (s.acked k) ≡ some i
    → HoldsFrom i (call s c) k
unfolding call
call-cursor s (appending e) k i w held = elim (Reply-cases s (append s e)) [
  | inl same ↦ rw same (i, held, omega arith)
  | inr (t, h, eq) ↦ rw eq (append-cursor s t e k i held h)
]
call-cursor s (acking j through) k i w held = elim (Reply-cases s (ack_through s j through)) [
  | inl same ↦ rw same (i, held, omega arith)
  | inr (t, h, eq) ↦ rw eq (ack_through-cursor s t k j through i w held h)
]

-- From well-formed mailboxes, no calls of `Append` and `AckThrough` move the acknowledged cursor
-- of a session to an earlier envelope, or lose it.
pub run_calls-cursor :
    (cs : List MailboxCall) (s : Mailboxes) (k : Bytes) (i : ℕ)
    → IsWellformed s
    → index_of (s.by_session k) (s.acked k) ≡ some i
    → HoldsFrom i (run_calls s cs) k
unfolding run_calls
run_calls-cursor [] s k i w held = (i, held, omega arith)
run_calls-cursor (c ∷ cs) s k i w held =
    let (j, there, up) = call-cursor s c k i w held in
    let (n, here, up') = run_calls-cursor cs (call s c) k j (call-IsWellformed s c w) there in
    (n, here, omega arith)
