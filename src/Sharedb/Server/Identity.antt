-- ===== src/Sharedb/Server/Identity.antt =====
-- The identities of the records of a log.
use jsonot.Base.{
  ◌≡◌, refl, ap, ◌∙◌, Bool, true, false, not, ◌&&◌, ◌||◌, none, List, [], ◌∷◌, ◌++◌, arith, eq_ℤ,
  str_eq, str_eq→eq, str_eq_refl, Bool-cases, Option-cases, inl, inr, eq_ℤ→eq, eq_ℤ_refl,
}
use jsonot.Sharedb.{OpId}
use jsonot.Sharedb.Store.{OpRecord}
use jsonot.Sharedb.Server.{record_op_id}
use jsonot.Sharedb.Server.Submit.{is_identified, find_record}
use jsonot.Base.{is_absent}

-- No two records of a log have one identity.
abbrev pub is_new : OpRecord → List OpRecord → Bool
is_new r rs = not (is_identified (record_op_id r)) || is_absent (find_record (record_op_id r) rs)

unfoldable pub is_once : List OpRecord → Bool
unfolding find_record
is_once [] = true
is_once (r ∷ rs) = is_new r rs && is_once rs

abbrev matches : OpId → OpRecord → Bool
matches k r =
    str_eq (record_op_id r).id_source k.id_source && eq_ℤ (record_op_id r).id_sequence k.id_sequence

op_id_eq : (a b : OpId) → a.id_source ≡ b.id_source → a.id_sequence ≡ b.id_sequence → a ≡ b
op_id_eq a b e f = λ i. record { id_source = e i; id_sequence = f i }

matches→eq : (k : OpId) (r : OpRecord) → matches k r ≡ true → record_op_id r ≡ k
matches→eq k r h =
    let by : str_eq (record_op_id r).id_source k.id_source ≡ true = ground arith in
    let nth : eq_ℤ (record_op_id r).id_sequence k.id_sequence ≡ true = ground arith in
    op_id_eq (record_op_id r) k (str_eq→eq (record_op_id r).id_source k.id_source by)
      (eq_ℤ→eq (record_op_id r).id_sequence k.id_sequence nth)

matches_self : (r : OpRecord) → matches (record_op_id r) r ≡ true
matches_self r = rw (str_eq_refl (record_op_id r).id_source, eq_ℤ_refl (record_op_id r).id_sequence)

find_record-none :
    (k : OpId) (rs : List OpRecord) (o : OpRecord)
    → find_record k rs ≡ none
    → matches k o ≡ false
    → find_record k (rs ++ o ∷ []) ≡ none
unfolding find_record
find_record-none k [] o h e = rw (find_record, e) refl
find_record-none k (x ∷ rs) o h e = elim (Bool-cases (matches k x)) [
  | inl here ↦ absurd (cc (rw (find_record, here) at h))
  | inr there ↦ rw there (find_record-none k rs o (rw (find_record, there) at h) e)
]

find_record-cons :
    (k : OpId) (x : OpRecord) (rs : List OpRecord)
    → find_record k (x ∷ rs) ≡ none
    → (matches k x ≡ false) × (find_record k rs ≡ none)
unfolding find_record
find_record-cons k x rs h = elim (Bool-cases (matches k x)) [
  | inl here ↦ absurd (cc (rw (find_record, here) at h))
  | inr there ↦ (there, rw (find_record, there) at h)
]

is_new-none :
    (r : OpRecord) (rs : List OpRecord)
    → is_identified (record_op_id r) ≡ true
    → is_new r rs ≡ true
    → find_record (record_op_id r) rs ≡ none
is_new-none r rs known h = elim (Option-cases (find_record (record_op_id r) rs)) [
  | inl e ↦ e
  | inr (x, e) ↦ absurd (cc (rw (known, e) at h))
]

-- `is_new` of a record with no identity.
pub is_new-unknown :
    (r : OpRecord) (rs : List OpRecord)
    → is_identified (record_op_id r) ≡ false
    → is_new r rs ≡ true
is_new-unknown r rs h = rw h refl

-- `is_new` of a record whose identity is in no record.
pub is_new-absent :
    (r : OpRecord) (rs : List OpRecord)
    → find_record (record_op_id r) rs ≡ none
    → is_new r rs ≡ true
is_new-absent r rs h = elim (Bool-cases (is_identified (record_op_id r))) [
  | inl k ↦ rw (k, h) refl
  | inr k ↦ is_new-unknown r rs k
]

-- A record is still new when one with another identity is behind the log.
is_new-append :
    (x o : OpRecord) (rs : List OpRecord)
    → is_new x rs ≡ true
    → is_new o (x ∷ rs) ≡ true
    → is_new x (rs ++ o ∷ []) ≡ true
is_new-append x o rs h k = elim (Bool-cases (is_identified (record_op_id x))) [
  | inr unknown ↦ is_new-unknown x (rs ++ o ∷ []) unknown
  | inl known ↦ elim (Bool-cases (matches (record_op_id x) o)) [
    | inr differ ↦
        is_new-absent x (rs ++ o ∷ [])
          (find_record-none (record_op_id x) rs o (is_new-none x rs known h) differ)
    | inl agree ↦
        let e : record_op_id o ≡ record_op_id x = matches→eq (record_op_id x) o agree in
        let known' : is_identified (record_op_id o) ≡ true =
          ap (λ (i : OpId). is_identified i) e ∙ known in
        let apart : matches (record_op_id o) x ≡ false =
          (find_record-cons (record_op_id o) x rs (is_new-none o (x ∷ rs) known' k)).0 in
        let self : matches (record_op_id o) x ≡ true =
          ap (λ (i : OpId). matches i x) e ∙ matches_self x in
        absurd (cc (apart, self))
  ]
]

is_new-tail : (o x : OpRecord) (rs : List OpRecord) → is_new o (x ∷ rs) ≡ true → is_new o rs ≡ true
is_new-tail o x rs h = elim (Bool-cases (is_identified (record_op_id o))) [
  | inr unknown ↦ is_new-unknown o rs unknown
  | inl known ↦
      is_new-absent o rs (find_record-cons (record_op_id o) x rs (is_new-none o (x ∷ rs) known h)).1
]

-- A log with a new record.
pub is_once-append :
    (rs : List OpRecord) (o : OpRecord)
    → is_once rs ≡ true
    → is_new o rs ≡ true
    → is_once (rs ++ o ∷ []) ≡ true
unfolding is_once
is_once-append [] o h k = ground arith
is_once-append (x ∷ rs) o h k =
    let first : is_new x rs ≡ true = ground arith in
    let rest : is_once rs ≡ true = ground arith in
    rw (is_new-append x o rs first k, is_once-append rs o rest (is_new-tail o x rs k)) refl
