-- ===== src/Sharedb/Publisher.antt =====
-- sharedb/memory.go: `MemoryPublisher`. A Go channel is its queue, and what its receiver has got: a
-- receiver that finds the queue empty waits, and the next event is handed to it.
pub mod Channels
pub mod Order
use jsonot.Base.{
  ℕ, ◌+◌, ◌-◌, ◌%◌, ◌^◌, suc, zero, ◌≡◌, Bool, true, false, Option, none, some, List, [], ◌∷◌, ◌++◌,
  arith, ltb, ◌==◌, if◌then◌else◌, length, ℤ, pos, negsuc, Bytes, str_eq,
}
use jsonot.Sharedb.{Event}

-- `chan Event`
pub record Channel : Type 0 where
  pub capacity : ℕ
  pub queue : List Event
  pub waiting : ℕ
  pub received : List Event

-- `memSubscriber`
pub record Subscriber : Type 0 where
  pub subscriber_document : Bytes
  pub channel : Channel

-- `MemoryPublisher`: the subscribers, and the channels that are closed. `next` is the bits of an
-- `int`.
pub record Publisher : Type 0 where
  pub subscribers : ℕ → Option Subscriber
  pub next : ℕ
  pub closed : ℕ → Option Channel

-- `NewMemoryPublisher`
abbrev pub new_publisher : Publisher
new_publisher = record { subscribers = λ i. none; next = 0; closed = λ i. none }

abbrev pub put_at : {A : Type 0} → (ℕ → A) → ℕ → A → ℕ → A
put_at f i a j = if i == j then a else f j

-- The `select` of `Publish`: a full channel, without a receiver that waits, drops the event.
unfoldable pub offer : Event → Channel → Channel
offer e c =
    if ltb 0 c.waiting
    then record c { waiting = c.waiting - 1; received = c.received ++ e ∷ [] }
    else if ltb (length c.queue) c.capacity
    then record c { queue = c.queue ++ e ∷ [] }
    else c

abbrev pub notify : Event → Option Subscriber → Option Subscriber
notify e none = none
notify e (some s) =
    if str_eq s.subscriber_document e.event_document
    then some (record s { channel = offer e s.channel })
    else some s

-- `MemoryPublisher.Publish`: the loop runs over all subscribers, each with its own channel.
unfoldable pub publish : Event → Publisher → Publisher
publish e p = record p { subscribers = λ i. notify e (p.subscribers i) }

-- A negative buffer is an empty one.
abbrev pub buffer_size : ℤ → ℕ
buffer_size (pos n) = n
buffer_size (negsuc n) = 0

abbrev pub new_channel : ℤ → Channel
new_channel buffer = record {
  capacity = buffer_size buffer;
  queue = [];
  waiting = 0;
  received = [];
}

-- `MemoryPublisher.Subscribe`; `cancel` is the function that it returns, for the id it has taken.
unfoldable pub subscribe : Bytes → ℤ → Publisher → Publisher
subscribe d buffer p =
    let s : Subscriber = record { subscriber_document = d; channel = new_channel buffer } in
    record p { subscribers = put_at p.subscribers p.next (some s); next = (p.next + 1) % 2 ^ 64 }

unfoldable pub cancel : ℕ → Publisher → Publisher
cancel i p = elim (p.subscribers i) [
  | none ↦ p
  | some s ↦ record p {
    subscribers = put_at p.subscribers i none;
    closed = put_at p.closed i (some s.channel);
  }
]

-- A receive from an open channel: the first event of the queue, or the receiver waits.
abbrev pub taken : Channel → List Event → Channel
taken c [] = record c { waiting = suc c.waiting }
taken c (e ∷ es) = record c { queue = es; received = c.received ++ e ∷ [] }

-- A receive from a closed channel does not wait.
abbrev pub drained : Channel → List Event → Channel
drained c [] = c
drained c (e ∷ es) = record c { queue = es; received = c.received ++ e ∷ [] }

unfoldable pub receive : ℕ → Publisher → Publisher
receive i p = elim (p.subscribers i) [
  | some s ↦ record p {
    subscribers =
        put_at p.subscribers i (some (record s { channel = taken s.channel s.channel.queue }));
  }
  | none ↦ elim (p.closed i) [
    | none ↦ p
    | some c ↦ record p { closed = put_at p.closed i (some (drained c c.queue)) }
  ]
]

pub data PublisherCall : Type 0 where
  publish_call : Event → PublisherCall
  subscribe_call : Bytes → ℤ → PublisherCall
  cancel_call : ℕ → PublisherCall
  receive_call : ℕ → PublisherCall

unfoldable pub run_publisher_call : PublisherCall → Publisher → Publisher
unfolding publish subscribe cancel receive
run_publisher_call (publish_call e) p = publish e p
run_publisher_call (subscribe_call d buffer) p = subscribe d buffer p
run_publisher_call (cancel_call i) p = cancel i p
run_publisher_call (receive_call i) p = receive i p

unfoldable pub run_publisher_calls : List PublisherCall → Publisher → Publisher
unfolding run_publisher_call
run_publisher_calls [] p = p
run_publisher_calls (c ∷ cs) p = run_publisher_calls cs (run_publisher_call c p)
