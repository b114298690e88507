-- ===== src/Lib.antt =====
-- little_stomper: a model of the STOMP server library in src/, with its sample server.
--
-- A client's connection is a session (src/asynchronous/client.rs): it reads the client's bytes,
-- and events that destinations and timers post to its channel, and it writes frames. Destinations
-- (src/asynchronous/inmemory.rs) are tasks that keep subscriptions and send messages on; a
-- registry (src/asynchronous/destinations.rs) makes them on the first subscription. A session
-- calls the registry; a destination calls back through the proxy AsyncStompClient, which posts an
-- event to the session. Timers (src/asynchronous/delayable_stream.rs) give the heartbeats.
--
-- How code is modelled. All tasks share a world W, which is any type. Code that acts is a function
-- W → Outcome A × W: it returns or it panics (unwrap, expect, todo!), and what it did to the world
-- stays. `?` and Result are the type Result. A trait object is the record of its methods. A task
-- is the function over the list of what it receives, each item with what other tasks do to the
-- world before it, so that a theorem about the function holds for every interleaving between two
-- items. Logging is left out.
--
--   Prelude             shared names, effects, the HashMap as a list of entries (any order)
--   Ids                 src/macros/mod.rs, and its uses in src/destinations.rs
--   Error               src/error/mod.rs
--   Client              src/client.rs
--   Destinations        src/destinations.rs: messages, Subscriber, Sender, Destination, Destinations
--   InMemory.Backend    InMemDestinationBackend: add_subscription, remove_subscription, send (here
--                       send_message), the loop of listen_on (handle_action for its body, serve)
--   InMemory.Handle     InMemDestination: subscribe, send, unsubscribe, close, create
--   Session.Events      ClientEvent and AsyncStompClient
--   Session.Handler     ClientSession: handle_event and all that it calls
--   Session.Connect     is_heartbeat, parse_client_message, validate_and_connect, the set-up of timers
--   Session.Stream      handle_connection_validation_result, process_response_stream, process_stream
--   Timer.Resetter      ResettableTimerResetter, ResettableTimer::create and default
--   Timer.Task          create_task_with_receiver and create_task_no_receiver, and the tasks
--                       that they spawn
--   Timer.Polling       poll_next, poll_existing_task, initialise and drop of ResettableTimer
--   AsyncDestinations   AsyncDestinations
--   NonLockingMap.Map   src/asynchronous/nonlockingmap.rs
--   NonLockingMap.Pointer  the memory behind its raw pointer
--   SampleServer        src/bin/sample_server.rs: the message handler, the streams of the socket, the
--                       response task, handle_websocket, accept_connection and main
--   System              sessions, in-memory destinations, the registry and the tasks that SUBSCRIBE
--                       spawns, together: Shared (the channels), Moves (one move, and runs)
--   System.Broker       a destination as first-order data
--
-- The other modules hold theorems: InMemory.Validity, Totality, Delivery, Actions and Reports,
-- Session.Behaviour, Unsubscribe, Ending, Admission, Heartbeats and Greeting, Timer.Pace, Polls
-- and Ticks, AsyncDestinations.Reuse, NonLockingMap.Agreement, SampleServer.Replies and Utf8, and
-- Exchange, about one session and one destination. In System, Policy states what a system holds;
-- Safe, Sessions, Callbacks, Backends, Ends, Leaving, Tasks and Steps show that each part of a
-- move keeps it, and Invariant that each move does. What the system holds names, by a ledger, the
-- session that each id was given to; Ownership takes as its ledger the requests that were served
-- (Growth, Giving), and says who can remove a subscription (Proxies, Removal) and how long it
-- stays (Listing, Untouched, Keeping). Subscribing and Unsubscribing follow a SUBSCRIBE and an
-- UNSUBSCRIBE frame step by step, and Subscribed and Unsubscribed say what they lead to when a
-- destination and a session have nothing else to do. Draining has moves that bring them there:
-- the destination serves the actions in front, and the session takes its events. With these,
-- Joining, Parting, Delivering, Reaching and Publishing start from any state that a run can reach;
-- Emptying and Resting are about a system that is left to itself, Ending about the destinations whose
-- tasks have ended, and Panics about the panics of a session. Written is about the output of
-- the clients, Registered and Known about the registry, and Backing about the map of a session and
-- those of its destinations. Broker.Sending and Broker.Refinement compare a backend with the
-- first-order data, Broker.Untouched is about the world beside it, and Broker.Orders and
-- Broker.Iteration about the order of its map. Mail and Order follow messages to the clients, and
-- Service says what they can count on. Samples has concrete worlds, with the theorems applied
-- to them.
--
-- The system runs the handlers above, unchanged, over a world of channels. A move is an event from
-- outside at a session, the next event of the channel of a session, one of the spawned tasks, or
-- the next action at a destination; a run is any list of moves, so that it covers every
-- interleaving of whole handlers. At the start every session is connected and has done nothing. When the
-- task of a destination returns or panics, its channel is closed and its map is gone. An
-- action in the channel of a destination is first-order: the number of the session stands for the
-- closures, and they are made again when the action is served. A timer takes every reset, and its
-- ticks are events from outside. What a session answers is written at once, to a sink that takes
-- everything. New ids come from a counter through any function; where a theorem needs it, the ids
-- are distinct, as those of Uuid::new_v4 are.
--
-- What stands outside the repository is a parameter. Stomp has what is used of the stomp-parser
-- crate: frames, accessors, builders and parser. Tokio has what is used of tokio and uuid:
-- unbounded senders, spawn, the executor and new ids, with laws (an open channel queues what is
-- sent at the end, a closed one hands it back). The registry's map is that of the async-map crate,
-- with the laws of get and get_if_present. The theorems name the laws that they rely on. Which
-- event select_all takes next is a parameter, too.
--
-- Bounds. No definition takes fuel: every loop runs over the list of what it receives. Lengths
-- that become a u32, and the buffered heartbeat period, are taken modulo 2 ^ 32, as in a release
-- build.
--
-- Not modelled: the mocks, the logging and its set-up, and the module declarations.
pub mod Prelude
pub mod Ids
pub mod Error
pub mod Client
pub mod Tokio
pub mod Stomp
pub mod Destinations
pub mod InMemory
pub mod Timer
pub mod Session
pub mod AsyncDestinations
pub mod NonLockingMap
pub mod SampleServer
pub mod Exchange
pub mod System
pub mod Samples
