-- ===== src/Tests/Subscribers.antt =====
-- A subscriber with a buffer of one, which reads one event of its document before the next two.
use jsonot.Base.{
  ◌≡◌, ◌≤◌, ◌<◌, ◌⊎◌, refl, some, List, [], ◌∷◌, ◌++◌, arith, length, pos, Bytes, lit, str_eq, ℤ,
}
use jsonot.Sharedb.{event_op}
use jsonot.Sharedb.Publisher.{
  Subscriber, PublisherCall, publish_call, subscribe_call, cancel_call, receive_call, new_publisher,
  subscribe, buffer_size, run_publisher_calls, offer,
}
use jsonot.Sharedb.Publisher.Channels.{Kept}
use jsonot.Sharedb.Publisher.Order.{events_of, run_publisher_calls-subscribe}

abbrev told : Bytes → ℤ → PublisherCall
told d n = publish_call (record {
  event_type = event_op;
  event_document = d;
  event_version = n;
  event_id = record { id_source = lit "s"; id_sequence = n };
  event_source = lit "s";
  event_sequence = n;
  event_operation = lit "[]";
  event_content = lit "{}";
})

abbrev busy : List PublisherCall
busy =
    told (lit "d") (pos 1)
    ∷ told (lit "e") (pos 1)
    ∷ receive_call 0
    ∷ told (lit "d") (pos 2)
    ∷ subscribe_call (lit "d") (pos 0)
    ∷ cancel_call 1
    ∷ told (lit "d") (pos 3)
    ∷ []

run_publisher_calls-subscribe_example :
    (u : Subscriber) × ((run_publisher_calls busy
          (subscribe (lit "d") (pos 1) new_publisher)).subscribers
        0
      ≡ some u)
    × (length u.channel.queue ≤ buffer_size (pos 1))
    × Kept (u.channel.received ++ u.channel.queue) (events_of (lit "d") busy)
    × ((buffer_size (pos 1) < length (events_of (lit "d") busy))
        ⊎ (u.channel.received ++ u.channel.queue ≡ events_of (lit "d") busy))
run_publisher_calls-subscribe_example =
    run_publisher_calls-subscribe (lit "d") (pos 1) busy new_publisher (omega arith) refl

-- The third event finds the queue full.
busy_drops :
    (u : Subscriber) × ((run_publisher_calls busy
          (subscribe (lit "d") (pos 1) new_publisher)).subscribers
        0
      ≡ some u)
    × (length (u.channel.received ++ u.channel.queue) ≡ 2)
unfolding run_publisher_calls subscribe str_eq offer
busy_drops = (_, refl, refl)
