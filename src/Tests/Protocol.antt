-- ===== src/Tests/Protocol.antt =====
-- Connections, sessions and relays.
use jsonot.Base.{
  ℕ, ◌++◌, Bool, ◌≡◌, refl, true, some, List, [], ◌∷◌, length, pos, Bytes, lit, str_eq, add_int,
}
use jsonot.Component.{validation}
use jsonot.Sharedb.Act.{on_done}
use jsonot.Value.Tree.{tree, Json}
use jsonot.Tests.Fixtures.{no_clients}
use jsonot.Tests.Wire.{setup}
use jsonot.Tests.Server.{created, first, committed_first}
use jsonot.Sharedb.Mailbox.{new_mailboxes}
use jsonot.Sharedb.Server.{ServerState}
use jsonot.Sharedb.Server.Submit.{submit_core}
use jsonot.Sharedb.Server.Steps.{run_calls}
use jsonot.Sharedb.Results.{Reply, done}
use jsonot.Sharedb.Transport.{Sockets, no_sockets, active, register, add_close_hook, unregister}
use jsonot.Sharedb.Transport.Interleaved.{
  Traffic, no_traffic, TrafficStep, opening, entering, advancing, closing, running_hook,
  begin_close, run_steps, is_raced,
}
use jsonot.Sharedb.Transport.Order.{is_held}
use jsonot.Sharedb.Transport.Active.{run_steps-active}
use jsonot.Sharedb.Protocol.{Message, SubmitMessage, LiveRelay, Hub}
use jsonot.Sharedb.Protocol.Relay.{relay_events}
use jsonot.Sharedb.Protocol.Delivery.{Delivered, relay_events-Delivered}
use jsonot.Sharedb.Protocol.Sending.{sent_to}
use jsonot.Sharedb.Protocol.Submission.{handle_submit}
use jsonot.Sharedb.Protocol.Source.{PublishedBy, handle_submit-PublishedBy}

-- A session connects twice; the first connection has still to run its hook.
abbrev traffic_steps : List TrafficStep
traffic_steps =
    opening
    ∷ opening
    ∷ entering 0 (lit "s") 0
    ∷ entering 1 (lit "s") 1
    ∷ advancing 0
    ∷ advancing 1
    ∷ advancing 0
    ∷ advancing 1
    ∷ advancing 1
    ∷ []

abbrev traffic : Traffic Message
traffic = run_steps traffic_steps no_traffic

first_closed : ((traffic.sockets.conns 0).is_closed ≡ true) × (traffic.leaving 0 ≡ lit "s" ∷ [])
unfolding run_steps str_eq add_close_hook begin_close
first_closed = (refl, refl)

second_active : active traffic.sockets (lit "s") ≡ some 1
unfolding run_steps str_eq add_close_hook begin_close
second_active = refl

run_steps-active_example :
    is_held (is_raced {M = Message} traffic_steps no_traffic (lit "s") 1) traffic (lit "s") 1 ≡ true
run_steps-active_example = run_steps-active Message traffic_steps (lit "s") 1 second_active

-- A connection that closes while it is registered stays the active one of its session.
abbrev racing : Traffic Message
racing =
    run_steps
      (opening
        ∷ entering 0 (lit "s") 0
        ∷ advancing 0
        ∷ closing 0
        ∷ running_hook 0
        ∷ advancing 0
        ∷ [])
      no_traffic

closed_active :
    (active racing.sockets (lit "s") ≡ some 0)
    × ((racing.sockets.conns 0).is_closed ≡ true)
    × (racing.leaving 0 ≡ [])
unfolding run_steps str_eq add_close_hook begin_close unregister
closed_active = (refl, refl, refl)

abbrev registered : Reply (Sockets Message) → Sockets Message
registered (done t) = t
registered _ = no_sockets

-- Two registrations of a session, one after the other.
abbrev two_conns : Sockets Message
two_conns =
    registered (
      register (lit "s") 1
        (registered (register (lit "s") 0 (record no_sockets { next_conn = 2 }))))

-- The generator's ids, none of them empty.
abbrev gen : ℕ → Bytes
gen n = lit "e" ++ n ∷ []

abbrev marshals : Message → Bool
marshals m = true

abbrev hub : ServerState Json → Hub Json
hub s = record {
  server = s;
  mailboxes = new_mailboxes;
  sockets = two_conns;
  relays = [];
  issued = 0;
}

abbrev relay_of : Bytes → LiveRelay
relay_of session = record {
  relay_conn = 1;
  relay_session = session;
  relay_document = lit "d";
  skip_through = pos 0;
  from = 0;
}

abbrev behind_relay : Bytes → Hub Json
behind_relay session =
    relay_events tree no_clients setup gen marshals (relay_of session) committed_first.published
      (hub committed_first)

relay_events-Delivered_example :
    Delivered
      (relay_of (lit "t"))
      committed_first.published
      (hub committed_first)
      (behind_relay (lit "t"))
relay_events-Delivered_example =
    relay_events-Delivered tree no_clients setup gen marshals (relay_of (lit "t"))
      committed_first.published (hub committed_first)

-- Another session is sent the event, the one that submitted is not.
relayed :
    (length (sent_to 1 (behind_relay (lit "t"))) ≡ 1)
    × (length (sent_to 1 (behind_relay (lit "s"))) ≡ 0)
unfolding relay_events submit_core run_calls setup on_done str_eq validation add_int register
    add_close_hook
relayed = (refl, refl)

abbrev forged : SubmitMessage
forged = record {
  submit_type = lit "submit";
  submit_session = lit "t";
  submit_document = lit "d";
  request = first;
}

handle_submit-PublishedBy_example :
    PublishedBy
      (lit "t")
      (lit "d")
      created
      (handle_submit tree no_clients setup gen marshals 1 forged (hub created)).0.server
handle_submit-PublishedBy_example =
    handle_submit-PublishedBy tree no_clients setup gen marshals 1 forged (hub created)

-- The request names another source, and is committed.
forged-published :
    length
      (handle_submit tree no_clients setup gen marshals 1 forged (hub created)).0.server.published
    ≡ 1
unfolding handle_submit submit_core run_calls setup on_done str_eq validation add_int register
    add_close_hook
forged-published = refl
