-- ===== src/Sharedb/Server/Outcome.antt =====
-- What a call of the server leaves: a failed call the documents and the events as they were, a
-- commit one more version and one more event.
use jsonot.Base.{◌≡◌, refl, ap, ◌∙◌, [], ◌∷◌, ◌++◌, pos, add_int}
use jsonot.Sharedb.{Event}
use jsonot.Sharedb.Results.{Reply, done, failed, crash, ShareError}
use jsonot.Sharedb.Store.{OpRecord, DocRecord, get_doc, commit_op}
use jsonot.Sharedb.Act.{Act, on_done, return, stop, after_on_done}
use jsonot.Sharedb.Server.{ServerState}

-- The same documents and events.
pub record Kept {V : Type 0} (s t : ServerState V) : Type 0 where
  pub same_backend : t.backend ≡ s.backend
  pub same_published : t.published ≡ s.published

pub Kept-refl : {V : Type 0} (s : ServerState V) → Kept s s
Kept-refl s = record { same_backend = refl; same_published = refl }

-- A call that succeeds leaves what `W` says; any other keeps documents and events.
unfoldable pub Ends :
    {V B : Type 0}
    → (ServerState V → ServerState V → B → Type 0)
    → ServerState V
    → ServerState V × Reply B
    → Type 0
Ends W s (t, done b) = W s t b
Ends W s (t, failed e) = Kept s t
Ends W s (t, crash) = Kept s t

-- The document has become `doc`, its next version; `o` is the last record of its log, and `e` the
-- last event.
pub record Committed {V : Type 0} (s t : ServerState V) (doc : DocRecord) (o : OpRecord) (e : Event)
    : Type 0 where
  pub before : DocRecord
  pub was_read : get_doc s.backend doc.doc_id ≡ done before
  pub is_next : doc.doc_version ≡ add_int before.doc_version (pos 1)
  pub has_version : o.op_version ≡ doc.doc_version
  pub has_document : o.op_document ≡ doc.doc_id
  pub is_stored : commit_op s.backend doc o ≡ done t.backend
  pub is_published : t.published ≡ s.published ++ e ∷ []

pub Kept-trans : {V : Type 0} (s t u : ServerState V) → Kept s t → Kept t u → Kept s u
Kept-trans s t u h k = record {
  same_backend = k.same_backend ∙ h.same_backend;
  same_published = k.same_published ∙ h.same_published;
}

pub Committed-Kept :
    {V : Type 0} (s t u : ServerState V) (doc : DocRecord) (o : OpRecord) (e : Event)
    → Kept s t
    → Committed t u doc o e
    → Committed s u doc o e
Committed-Kept s t u doc o e h c = record {
  before = c.before;
  was_read = rw (← h.same_backend) c.was_read;
  is_next = c.is_next;
  has_version = c.has_version;
  has_document = c.has_document;
  is_stored = rw (← h.same_backend) c.is_stored;
  is_published = c.is_published ∙ ap (◌++ e ∷ []) h.same_published;
}

-- How a call ends is not changed by calls before it that keep documents and events.
Ends-from :
    {V B : Type 0} (W : ServerState V → ServerState V → B → Type 0) (s t : ServerState V)
    (x : ServerState V × Reply B)
    → ((t u : ServerState V) (b : B) → Kept s t → W t u b → W s u b)
    → Kept s t
    → Ends W t x
    → Ends W s x
unfolding Ends
Ends-from W s t (u, done b) stable h w = stable t u b h w
Ends-from W s t (u, failed e) stable h w = Kept-trans s t u h w
Ends-from W s t (u, crash) stable h w = Kept-trans s t u h w

-- A chain whose first call keeps documents and events ends as its rest does.
pub Ends-on_done :
    {V A B : Type 0} (W : ServerState V → ServerState V → B → Type 0) (s : ServerState V)
    (r : ServerState V × Reply A) (rest : A → Act (ServerState V) B)
    → ((t u : ServerState V) (b : B) → Kept s t → W t u b → W s u b)
    → Kept s r.0
    → ((a : A) → r.1 ≡ done a → Ends W r.0 (rest a r.0))
    → Ends W s (on_done r rest)
unfolding Ends on_done
Ends-on_done W s (t, crash) rest stable h k = h
Ends-on_done W s (t, failed e) rest stable h k = h
Ends-on_done W s (t, done a) rest stable h k = Ends-from W s t (rest a t) stable h (k a refl)

pub Ends-done :
    {V B : Type 0} (W : ServerState V → ServerState V → B → Type 0) (s t : ServerState V) (b : B)
    → Ends W s (t, done b)
    → W s t b
unfolding Ends
Ends-done W s t b h = h

pub Ends-stop :
    {V B : Type 0} (W : ServerState V → ServerState V → B → Type 0) (s : ServerState V)
    (e : ShareError)
    → Ends W s (stop e s)
unfolding Ends
Ends-stop W s e = Kept-refl s

pub Ends-give :
    {V B : Type 0} (W : ServerState V → ServerState V → B → Type 0) (s : ServerState V) (b : B)
    → W s s b
    → Ends W s (return b s)
unfolding Ends
Ends-give W s b h = h

pub Ends-change :
    {V B : Type 0} (W : ServerState V → ServerState V → B → Type 0) (s t : ServerState V) (b : B)
    → W s t b
    → Ends W s (t, done b)
unfolding Ends
Ends-change W s t b h = h

-- A chain that ends with the return of a value.
pub Ends-return :
    {V A B : Type 0} (W : ServerState V → ServerState V → A → Type 0)
    (W' : ServerState V → ServerState V → B → Type 0) (s : ServerState V)
    (r : ServerState V × Reply A) (b : B)
    → ((t : ServerState V) (a : A) → W s t a → W' s t b)
    → Ends W s r
    → Ends W' s (on_done r (λ a. return b))
unfolding Ends on_done
Ends-return W W' s (t, crash) b k h = h
Ends-return W W' s (t, failed e) b k h = h
Ends-return W W' s (t, done a) b k h = k t a h

-- A chain keeps documents and events when its calls do.
pub Kept-on_done :
    {V A B : Type 0} (s : ServerState V) (r : ServerState V × Reply A)
    (rest : A → Act (ServerState V) B)
    → Kept s r.0
    → ((a : A) → r.1 ≡ done a → Kept r.0 (rest a r.0).0)
    → Kept s (on_done r rest).0
Kept-on_done s r rest h k =
    after_on_done (λ u. Kept s u) r rest h (λ a e. Kept-trans s r.0 (rest a r.0).0 h (k a e))
