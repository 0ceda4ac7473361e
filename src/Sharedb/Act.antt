-- ===== src/Sharedb/Act.antt =====
-- Calls that change a state: a call takes the state, and gives the state it leaves with its reply.
-- An error or a panic keeps what has been done before it.
use jsonot.Base.{◌≡◌, refl, ap}
use jsonot.Sharedb.Results.{Reply, done, failed, crash, ShareError}

abbrev pub Act {ℓ} : Type 0 → Type ℓ → Type ℓ
Act S A = S → S × Reply A

unfoldable pub on_done {ℓ κ} :
    {S : Type 0} {A : Type ℓ} {B : Type κ} → S × Reply A → (A → Act S B) → S × Reply B
on_done (t, crash) rest = (t, crash)
on_done (t, failed e) rest = (t, failed e)
on_done (t, done a) rest = rest a t

infixl 5 ◌>>=◌ ◌>>◌
abbrev pub ◌>>=◌ {ℓ κ} : {S : Type 0} {A : Type ℓ} {B : Type κ} → Act S A → (A → Act S B) → Act S B
act >>= rest = λ s. on_done (act s) rest

abbrev pub ◌>>◌ {ℓ} : {S : Type 0} {B : Type ℓ} → Act S (Unit {0}) → Act S B → Act S B
act >> rest = act >>= λ unit. rest

-- A call that only reads, with this reply.
abbrev pub reply {ℓ} : {S : Type 0} {A : Type ℓ} → Reply A → Act S A
reply r = λ s. (s, r)

abbrev pub return {ℓ} : {S : Type 0} {A : Type ℓ} → A → Act S A
return a = λ s. (s, done a)

abbrev pub stop {ℓ} : {S : Type 0} {A : Type ℓ} → ShareError → Act S A
stop e = λ s. (s, failed e)

-- A chain that is done: its first call is done, and the rest goes on from what that leaves.
pub on_done-eq {ℓ κ} :
    {S : Type 0} {A : Type ℓ} {B : Type κ} (r : S × Reply A) (rest : A → Act S B) {t : S} {b : B}
    → on_done r rest ≡ (t, done b)
    → (a : A) × (r.1 ≡ done a) × (rest a r.0 ≡ (t, done b))
unfolding on_done
on_done-eq (s, crash) rest e = cc
on_done-eq (s, failed x) rest e = cc
on_done-eq (s, done a) rest e = (a, refl, e)

-- A chain whose first call is done goes on from what that leaves.
pub on_done-done {ℓ κ} :
    {S : Type 0} {A : Type ℓ} {B : Type κ} (r : S × Reply A) (rest : A → Act S B) (a : A)
    → r.1 ≡ done a
    → on_done r rest ≡ rest a r.0
unfolding on_done
on_done-done (s, crash) rest a e = absurd cc
on_done-done (s, failed x) rest a e = absurd cc
on_done-done {A = A} (s, done b) rest a e = let same : b ≡ a = cc in ap (λ (x : A). rest x s) same

pub on_done_chain {ℓ κ} :
    {S : Type 0} {A : Type ℓ} {B : Type κ} (r : S × Reply A) (rest : A → Act S B) (t : S) (a : A)
    → r ≡ (t, done a)
    → on_done r rest ≡ rest a t
unfolding on_done
on_done_chain {S = S} {A = A} r rest t a e = ap (λ (x : S × Reply A). on_done x rest) e

-- What holds of the state behind a chain: it holds behind the first call that stops, and behind the
-- rest.
pub after_on_done {ℓ κ} :
    {S : Type 0} {A : Type ℓ} {B : Type κ} (P : S → Type 0) (r : S × Reply A) (rest : A → Act S B)
    → P r.0
    → ((a : A) → r.1 ≡ done a → P (rest a r.0).0)
    → P (on_done r rest).0
unfolding on_done
after_on_done P (s, crash) rest h k = h
after_on_done P (s, failed x) rest h k = h
after_on_done P (s, done a) rest h k = k a refl
