-- ===== src/Sharedb/Mailbox/Replay.antt =====
-- `ReplayAfter` in pages.
use jsonot.Base.{
  ℕ, ◌+◌, ◌-◌, suc, zero, ◌≤◌, ◌<◌, ◌≡◌, refl, ap, sym, ◌∙◌, true, false, some, List, [], ◌∷◌, ◌++◌,
  arith, ltb, leb, length, get_elem?, take, drop, is_nil, pos, ltb_ℤ, add_int, int_bound, Bytes,
  str_eq_iff, str_eq_refl, Bool-cases, Option-cases, inl, inr, length-drop, add_int-pos,
}
use jsonot.Sharedb.Results.{done, >>=-eq-done, slice}
use jsonot.Sharedb.Mailbox.{
  Mailboxes, Envelope, index_of, is_valid, replay_after, start_after, window,
}
use jsonot.Sharedb.Mailbox.Wellformed.{IdsDistinct, AllFor, IsWellformed}

pub take-all : {A : Type 0} (xs : List A) (n : ℕ) → length xs ≤ n → take n xs ≡ xs
take-all [] zero h = refl
take-all [] (suc n) h = refl
take-all (x ∷ xs) zero h = absurd (omega arith)
take-all (x ∷ xs) (suc n) h = ap (x ∷◌) (take-all xs n (omega arith))

pub drop-all : {A : Type 0} (xs : List A) (n : ℕ) → length xs ≤ n → drop n xs ≡ []
drop-all [] zero h = refl
drop-all [] (suc n) h = refl
drop-all (x ∷ xs) zero h = absurd (omega arith)
drop-all (x ∷ xs) (suc n) h = drop-all xs n (omega arith)

drop-drop : {A : Type 0} (xs : List A) (i n : ℕ) → drop n (drop i xs) ≡ drop (i + n) xs
drop-drop xs zero n = let e : 0 + n ≡ n = omega arith in rw e
drop-drop [] (suc i) zero = let e : suc i + 0 ≡ suc i = omega arith in rw e
drop-drop [] (suc i) (suc n) = let e : suc i + suc n ≡ suc (i + suc n) = omega arith in rw e
drop-drop (x ∷ xs) (suc i) n =
    let e : suc i + n ≡ suc (i + n) = omega arith in rw e (drop-drop xs i n)

-- A page and the next one.
take-pages :
    {A : Type 0} (xs : List A) (n m : ℕ)
    → take (n + m) xs ≡ take n xs ++ take m (drop (length (take n xs)) xs)
take-pages xs zero m = let e : 0 + m ≡ m = omega arith in rw e
take-pages [] (suc n) zero = let e : suc n + 0 ≡ suc n = omega arith in rw e
take-pages [] (suc n) (suc m) = let e : suc n + suc m ≡ suc (n + suc m) = omega arith in rw e
take-pages (x ∷ xs) (suc n) m =
    let e : suc n + m ≡ suc (n + m) = omega arith in rw e (ap (x ∷◌) (take-pages xs n m))

window-take :
    (es : List Envelope) (start n : ℕ)
    → 0 < n
    → start + n < int_bound
    → window es start (pos n) ≡ done (take n (drop start es))
unfolding window slice
window-take es start n h bound = elim (Bool-cases (leb (length es) start)) [
  | inl past ↦
      let e : drop start es ≡ [] = drop-all es start (ground arith) in
      let f : take n (drop start es) ≡ [] = rw e (take-all [] n (omega arith)) in rw (past, f)
  | inr before ↦ elim (Bool-cases (ltb (start + n) (length es))) [
    | inl inside ↦
        let m : add_int (pos start) (pos n) ≡ pos (start + n) = add_int-pos start n bound in
        let k : start + n - start ≡ n = omega arith in
        let a : ltb_ℤ (pos 0) (pos n) ≡ true = ground arith in
        let b : ltb (start + n) start ≡ false = ground arith in
        let c : ltb (length es) (start + n) ≡ false = ground arith in
        let d : ltb_ℤ (pos (start + n)) (pos (length es)) ≡ true = ground arith in
        rw (before, a, m, d) (rw (b, c, k))
    | inr outside ↦
        let m : add_int (pos start) (pos n) ≡ pos (start + n) = add_int-pos start n bound in
        let a : ltb_ℤ (pos 0) (pos n) ≡ true = ground arith in
        let b : ltb (length es) start ≡ false = ground arith in
        let c : ltb (length es) (length es) ≡ false = ground arith in
        let all : take (length es - start) (drop start es) ≡ drop start es =
          take-all (drop start es) (length es - start) (omega (arith, length-drop start es)) in
        let all' : take n (drop start es) ≡ drop start es =
          take-all (drop start es) n (ground (arith, length-drop start es)) in
        let d : ltb_ℤ (pos (start + n)) (pos (length es)) ≡ false = ground arith in
        rw (before, a, m, d) (rw (b, c, all, all'))
  ]
]

-- Distinct ids: an envelope is found at its own place.
index_of-get_elem? :
    (es : List Envelope) (i : ℕ) (e : Envelope)
    → IdsDistinct es
    → get_elem? es i ≡ some e
    → index_of es e.id ≡ some i
unfolding index_of
index_of-get_elem? [] i e d h = absurd (cc)
index_of-get_elem? (x ∷ es) zero e d h = ground (arith, str_eq_refl e.id)
index_of-get_elem? (x ∷ es) (suc i) e d h =
    let there : index_of es e.id ≡ some i = index_of-get_elem? es i e d.1 h in
    ground (arith, there, d.0, str_eq_iff x.id e.id)

get_elem?-append :
    {A : Type 0} (xs ys : List A) (e : A) → get_elem? (xs ++ e ∷ ys) (length xs) ≡ some e
get_elem?-append [] ys e = refl
get_elem?-append (x ∷ xs) ys e = get_elem?-append xs ys e

get_elem?-take :
    {A : Type 0} (zs : List A) (n j : ℕ) (e : A)
    → get_elem? (take n zs) j ≡ some e
    → get_elem? zs j ≡ some e
get_elem?-take zs zero j e h = absurd (cc)
get_elem?-take [] (suc n) j e h = absurd (cc)
get_elem?-take (x ∷ zs) (suc n) zero e h = h
get_elem?-take (x ∷ zs) (suc n) (suc j) e h = get_elem?-take zs n j e h

get_elem?-drop :
    {A : Type 0} (es : List A) (i j : ℕ) → get_elem? (drop i es) j ≡ get_elem? es (i + j)
get_elem?-drop es zero j = let e : 0 + j ≡ j = omega arith in rw e
get_elem?-drop [] (suc i) j = refl
get_elem?-drop (x ∷ es) (suc i) j =
    let e : suc i + j ≡ suc (i + j) = omega arith in rw e (get_elem?-drop es i j)

-- The last envelope of a page stands in the mailbox behind the others of the page.
get_elem?-page :
    {A : Type 0} (es : List A) (i n : ℕ) (xs : List A) (e : A)
    → take n (drop i es) ≡ xs ++ e ∷ []
    → get_elem? es (i + length xs) ≡ some e
get_elem?-page es i n xs e h =
    let there : get_elem? (take n (drop i es)) (length xs) ≡ some e =
      rw h (get_elem?-append xs [] e) in
    sym (get_elem?-drop es i (length xs)) ∙ get_elem?-take (drop i es) n (length xs) e there

-- `ReplayAfter` with a positive limit, from where it starts.
replay_after-take :
    (s : Mailboxes) (k after : Bytes) (start n : ℕ)
    → start_after (s.by_session k) after ≡ done start
    → 0 < n
    → start + n < int_bound
    → replay_after s k after (pos n) ≡ done (take n (drop start (s.by_session k)))
unfolding replay_after
replay_after-take s k after start n e h bound = rw e (window-take (s.by_session k) start n h bound)

index_of-lt : (es : List Envelope) (c : Bytes) (i : ℕ) → index_of es c ≡ some i → i < length es
unfolding index_of
index_of-lt [] c i h = absurd (cc)
index_of-lt (e ∷ es) c i h = elim (Option-cases (index_of es c)) [
  | inl absent ↦ ground arith
  | inr (j, found) ↦ ground (arith, index_of-lt es c j found)
]

start_after-bound :
    (es : List Envelope) (after : Bytes) (start : ℕ)
    → start_after es after ≡ done start
    → start ≤ length es
unfolding start_after
start_after-bound es [] start h = ground arith
start_after-bound es (c ∷ after) start h = elim (Option-cases (index_of es (c ∷ after))) [
  | inl absent ↦ absurd (cc (rw (start_after, absent) at h))
  | inr (i, found) ↦
      let e : done (i + 1) ≡ done start = rw (start_after, found) at h in
      ground (arith, index_of-lt es (c ∷ after) i found)
]

start_after-found :
    (es : List Envelope) (c : Bytes) (i : ℕ)
    → is_nil c ≡ false
    → index_of es c ≡ some i
    → start_after es c ≡ done (i + 1)
unfolding start_after
start_after-found es [] i v h = absurd (cc)
start_after-found es (x ∷ c) i v h = rw (start_after, h)

own-named :
    (k : Bytes) (es : List Envelope) (i : ℕ) (e : Envelope)
    → AllFor k es
    → get_elem? es i ≡ some e
    → is_nil e.id ≡ false
unfolding is_valid
own-named k [] i e h g = absurd (cc)
own-named k (x ∷ es) zero e h g = ground (arith, h.0)
own-named k (x ∷ es) (suc i) e h g = own-named k es i e h.2 g

length-page : {A : Type 0} (xs : List A) (e : A) → length (xs ++ e ∷ []) ≡ length xs + 1
length-page [] e = omega arith
length-page (x ∷ xs) e = omega (arith, length-page xs e)

-- In well-formed mailboxes, `n` envelopes behind a cursor and then `m` behind the last one of them
-- are together what `ReplayAfter` returns for `n + m`, if both are positive and the sum of them
-- and the mailbox's length fits an `int`.
pub replay_after-pages :
    (s : Mailboxes) (k after : Bytes) (n m : ℕ) (xs : List Envelope) (e : Envelope)
    → IsWellformed s
    → 0 < n
    → 0 < m
    → length (s.by_session k) + n + m < int_bound
    → replay_after s k after (pos n) ≡ done (xs ++ e ∷ [])
    → (ys : List Envelope) × (replay_after s k e.id (pos m) ≡ done ys)
      × (replay_after s k after (pos (n + m)) ≡ done ((xs ++ e ∷ []) ++ ys))
unfolding replay_after
replay_after-pages s k after n m xs e w hn hm bound h =
    let es = s.by_session k in
    let (start, begun, rest) =
      >>=-eq-done (start_after es after) (λ (i : ℕ). window es i (pos n)) {b = xs ++ e ∷ []} h in
    let inside = start_after-bound es after start begun in
    let page : take n (drop start es) ≡ xs ++ e ∷ [] =
      done_inj (sym (window-take es start n hn (omega arith)) ∙ rest) in
    let last_at = get_elem?-page es start n xs e page in
    let next =
      start_after-found es e.id (start + length xs)
        (own-named k es (start + length xs) e (w.own k) last_at)
        (index_of-get_elem? es (start + length xs) e (w.distinct k) last_at) in
    let next_bound = start_after-bound es e.id (start + length xs + 1) next in
    let len : start + length (xs ++ e ∷ []) ≡ start + length xs + 1 =
      omega (arith, length-page xs e) in
    (
      take m (drop (start + length xs + 1) es),
      replay_after-take s k e.id (start + length xs + 1) m next hm (omega arith),
      replay_after-take s k after start (n + m) begun (omega arith) (omega arith)
          ∙ ap done (
              take-pages (drop start es) n m
              ∙ rw (page, drop-drop es start (length (xs ++ e ∷ [])), len)),
    )
  where
    done_inj : {A : Type 0} {a b : A} → done a ≡ done b → a ≡ b
    done_inj e = cc
