-- ===== src/Sharedb/Mailbox/Wellformed.antt =====
-- The invariant of the mailboxes: which envelopes a session holds, and where its cursor is.
use jsonot.Base.{
  ℕ, ◌≡◌, refl, true, ◌||◌, none, some, List, [], ◌∷◌, ◌++◌, arith, if◌then◌else◌, is_present,
  length, is_nil, Bytes, str_eq, str_eq_iff, Bool-cases, Option-cases, inl, inr, ◌⊎◌,
}
use jsonot.Sharedb.{put}
use jsonot.Sharedb.Results.{Reply, done, failed, crash}
use jsonot.Sharedb.Mailbox.{Mailboxes, Envelope, index_of, append, ack_through, is_valid, moves_on}

-- No two envelopes have one id.
abbrev pub IdsDistinct : List Envelope → Type 0
IdsDistinct [] = Unit {0}
IdsDistinct (e ∷ es) = (index_of es e.id ≡ none) × IdsDistinct es

-- The envelopes are valid and of the session.
abbrev pub AllFor : Bytes → List Envelope → Type 0
AllFor k [] = Unit {0}
AllFor k (e ∷ es) = (is_valid e ≡ true) × (e.session_id ≡ k) × AllFor k es

-- Each session has distinct, valid envelopes of its own, and its cursor is empty or one of them.
pub record IsWellformed (s : Mailboxes) : Type 0 where
  pub distinct : (k : Bytes) → IdsDistinct (s.by_session k)
  pub own : (k : Bytes) → AllFor k (s.by_session k)
  pub cursor :
      (k : Bytes)
      → (is_nil (s.acked k) || is_present (index_of (s.by_session k) (s.acked k))) ≡ true

pub index_of-append :
    (es : List Envelope) (e : Envelope) (k : Bytes)
    → index_of (es ++ e ∷ []) k ≡ (elim (index_of es k) [
      | none ↦ if str_eq e.id k then some (length es) else none
      | some i ↦ some i
    ])
unfolding index_of
index_of-append [] e k = ground arith
index_of-append (x ∷ es) e k = ground (arith, index_of-append es e k)

IdsDistinct-append :
    (es : List Envelope) (e : Envelope)
    → IdsDistinct es
    → index_of es e.id ≡ none
    → IdsDistinct (es ++ e ∷ [])
unfolding index_of
IdsDistinct-append [] e h k = (refl, tt)
IdsDistinct-append (x ∷ es) e h k = (
  ground (arith, index_of-append es e x.id, str_eq_iff x.id e.id, str_eq_iff e.id x.id),
  IdsDistinct-append es e h.1 (ground arith),
)

AllFor-append :
    (es : List Envelope) (e : Envelope)
    → AllFor e.session_id es
    → is_valid e ≡ true
    → AllFor e.session_id (es ++ e ∷ [])
AllFor-append [] e h v = (v, refl, tt)
AllFor-append (x ∷ es) e h v = (h.0, h.1, AllFor-append es e h.2 v)

-- What a successful `append` has tested and done.
pub append-eq-done :
    (s t : Mailboxes) (e : Envelope)
    → append s e ≡ done t
    → (is_valid e ≡ true)
      × (index_of (s.by_session e.session_id) e.id ≡ none)
      × (t ≡ record s {
        by_session = put e.session_id (s.by_session e.session_id ++ e ∷ []) s.by_session;
      })
unfolding append
append-eq-done s t e h = ground arith

appended-distinct :
    (s : Mailboxes) (e : Envelope) (k : Bytes)
    → IsWellformed s
    → index_of (s.by_session e.session_id) e.id ≡ none
    → IdsDistinct (put e.session_id (s.by_session e.session_id ++ e ∷ []) s.by_session k)
appended-distinct s e k w h = elim (Bool-cases (str_eq e.session_id k)) [
  | inl same ↦
      rw same (IdsDistinct-append (s.by_session e.session_id) e (w.distinct e.session_id) h)
  | inr other ↦ rw other (w.distinct k)
]

appended-own :
    (s : Mailboxes) (e : Envelope) (k : Bytes)
    → IsWellformed s
    → is_valid e ≡ true
    → AllFor k (put e.session_id (s.by_session e.session_id ++ e ∷ []) s.by_session k)
appended-own s e k w v = elim (Bool-cases (str_eq e.session_id k)) [
  | inl same ↦
      let e_eq : e.session_id ≡ k = (str_eq_iff e.session_id k).0 same in
      rw (same, ← e_eq) (AllFor-append (s.by_session e.session_id) e (w.own e.session_id) v)
  | inr other ↦ rw other (w.own k)
]

-- An appended envelope leaves the places of the others.
pub appended-index :
    (s : Mailboxes) (e : Envelope) (k c : Bytes) (i : ℕ)
    → index_of (s.by_session k) c ≡ some i
    → index_of (put e.session_id (s.by_session e.session_id ++ e ∷ []) s.by_session k) c ≡ some i
appended-index s e k c i h = elim (Bool-cases (str_eq e.session_id k)) [
  | inl same ↦
      let e_eq : e.session_id ≡ k = (str_eq_iff e.session_id k).0 same in
      let there : index_of (s.by_session e.session_id) c ≡ some i = rw e_eq h in
      rw same (rw (index_of-append (s.by_session e.session_id) e c, there))
  | inr other ↦ rw other h
]

append-IsWellformed :
    (s t : Mailboxes) (e : Envelope) → IsWellformed s → append s e ≡ done t → IsWellformed t
append-IsWellformed s t e w h =
    let (v, fresh, t_eq) = append-eq-done s t e h in
    rw t_eq (record {
      distinct = λ k. appended-distinct s e k w fresh;
      own = λ k. appended-own s e k w v;
      cursor = λ k. elim (Option-cases (index_of (s.by_session k) (s.acked k))) [
        | inl absent ↦ ground (arith, w.cursor k)
        | inr (i, found) ↦ rw (appended-index s e k (s.acked k) i found) (ground arith)
      ];
    })

-- What a successful `ack_through` leaves: the state, or a cursor that is further on.
pub ack_through-eq-done :
    (s t : Mailboxes) (k through : Bytes)
    → ack_through s k through ≡ done t
    → (t ≡ s)
      ⊎ ((i : ℕ) × (index_of (s.by_session k) through ≡ some i)
          × (t ≡ record s { acked = put k through s.acked })
          × ((is_nil (s.acked k) || moves_on i (index_of (s.by_session k) (s.acked k))) ≡ true))
unfolding ack_through
ack_through-eq-done s t k [] h = inl (cc)
ack_through-eq-done s t k (c ∷ through) h =
    elim (Option-cases (index_of (s.by_session k) (c ∷ through))) [
      | inl absent ↦ absurd (cc (rw (ack_through, absent) at h))
      | inr (i, found) ↦
          elim (Bool-cases
            (is_nil (s.acked k) || moves_on i (index_of (s.by_session k) (s.acked k)))) [
              | inl further ↦ inr (i, found, cc (rw (ack_through, found, further) at h), further)
              | inr back ↦ inl (cc (rw (ack_through, found, back) at h))
            ]
    ]

ack_through-IsWellformed :
    (s t : Mailboxes) (k through : Bytes)
    → IsWellformed s
    → ack_through s k through ≡ done t
    → IsWellformed t
ack_through-IsWellformed s t k through w h = elim (ack_through-eq-done s t k through h) [
  | inl same ↦ rw same w
  | inr (i, found, t_eq, further) ↦ rw t_eq (record {
    distinct = w.distinct;
    own = w.own;
    cursor = λ j. elim (Bool-cases (str_eq k j)) [
      | inl here ↦
          let k_eq : k ≡ j = (str_eq_iff k j).0 here in rw (here, ← k_eq) (rw found (ground arith))
      | inr there ↦ rw there (w.cursor j)
    ];
  })
]

-- The calls that change the mailboxes. One that fails changes nothing.
pub data MailboxCall : Type 0 where
  appending : Envelope → MailboxCall
  acking : Bytes → Bytes → MailboxCall

abbrev kept_or : Mailboxes → Reply Mailboxes → Mailboxes
kept_or s (done t) = t
kept_or s (failed e) = s
kept_or s crash = s

unfoldable pub call : Mailboxes → MailboxCall → Mailboxes
unfolding append ack_through
call s (appending e) = kept_or s (append s e)
call s (acking k through) = kept_or s (ack_through s k through)

unfoldable pub run_calls : Mailboxes → List MailboxCall → Mailboxes
unfolding call
run_calls s [] = s
run_calls s (c ∷ cs) = run_calls (call s c) cs

pub Reply-cases :
    (s : Mailboxes) (r : Reply Mailboxes)
    → (kept_or s r ≡ s) ⊎ ((t : Mailboxes) × (r ≡ done t) × (kept_or s r ≡ t))
Reply-cases s (done t) = inr (t, refl, refl)
Reply-cases s (failed e) = inl refl
Reply-cases s crash = inl refl

pub call-IsWellformed : (s : Mailboxes) (c : MailboxCall) → IsWellformed s → IsWellformed (call s c)
unfolding call
call-IsWellformed s (appending e) w = elim (Reply-cases s (append s e)) [
  | inl same ↦ rw same w
  | inr (t, h, e) ↦ rw e (append-IsWellformed s t _ w h)
]
call-IsWellformed s (acking k through) w = elim (Reply-cases s (ack_through s k through)) [
  | inl same ↦ rw same w
  | inr (t, h, e) ↦ rw e (ack_through-IsWellformed s t k through w h)
]

-- Any calls of `Append` and `AckThrough` keep the mailboxes well formed: a session has valid
-- envelopes of its own with distinct ids, and its cursor is empty or one of them.
pub run_calls-IsWellformed :
    (cs : List MailboxCall) (s : Mailboxes) → IsWellformed s → IsWellformed (run_calls s cs)
unfolding run_calls
run_calls-IsWellformed [] s w = w
run_calls-IsWellformed (c ∷ cs) s w = run_calls-IsWellformed cs (call s c) (call-IsWellformed s c w)
