-- ===== src/Lib.antt =====
-- WhiteNoise: the node of an anonymous peer-to-peer network, and what its tasks do.
--
-- The program. A node runs four kinds of task beside the swarm of libp2p: one for each relay stream
-- (src/network/relay_event_handler.rs), one for requests of other peers and of its clients
-- (src/network/proxy_event_handler.rs), one for commands (src/network/cmd_event_handler.rs) and one for
-- gossip messages (src/network/publish_event_handler.rs). They share the maps of a Node
-- (src/network/node.rs) behind locks, send their requests to the swarm through a channel, and wait for
-- acks through the event bus. A circuit leads from the caller through an entry, a sink, a relay and an
-- access node to the answer; in each node a session (src/network/session.rs) joins the stream from the
-- one side with the stream to the other.
--
-- The model. A task is a function from a World to a result and a World (Task): the shared maps, what the
-- clone of the Node has for itself, the effects so far, and the inputs to come. A task runs alone from
-- one `.await` that can suspend to the next; there it takes an input, which is the answer that it waits
-- for together with whatever the other tasks have made of the shared maps in the meantime. So every
-- interleaving is a list of inputs. `seen` records the shared maps at every suspension point, which is
-- all that the other tasks can see. A result is `done`, a panic (an `unwrap` or `expect` of nothing, a
-- slice out of bounds), `waiting` when no input is left or the next one answers something else, or
-- `spent` when the fuel of a loop is gone. The delay before each write is an input like any other;
-- random numbers come from `entropy`.
--
-- The files.
--   Prelude            numbers, lists, texts as bytes, Boolean equality; HashMap: std's map with its laws
--   Proto              the messages of src/*.proto, with an i32 as its bit pattern, a number below 2 ^ 32
--   Host               the libraries as one parameter: prost's codecs, sha2, bs58, libp2p's peer ids and
--                      keys, the two ECIES crates. A PeerId is its bytes
--   State              Node (as Shared and Local), Session, Probe, CircuitConn, ClientInfo, and the
--                      requests of src/network/whitenoise_behaviour.rs
--   Task               the tasks; Task/Keeps, Task/Consumes and Task/Ends have a rule for each way to
--                      build one: invariants, progress, and enough fuel
--   Utils              src/network/utils.rs: Limit (the 4096 bytes of a read), Ids, Confusion (padding
--                      and delay), Write, Payload (the length prefix, also of handle_read_shake),
--                      Forward, Reading, and Substream (the functions on a substream of libp2p);
--                      Sending, Framing and ReadBack prove what they do
--   Node               src/network/node.rs: Streams, Sessions, Requests; Waiting, Opening, Closing
--                      and Waiters prove what they do
--   RelayEvents        relay_event_handler, by kind of message: Probing, Circuits, Joining; Sink, Roles
--                      and Delivery prove what they do
--   Proxy              process_proxy_request, by kind of request: Registry, Gossip, Circuit (with
--                      handle_new_circuit); Clients and Refusals prove what they do
--   Peers              the search for the next node, which handle_new_circuit and
--                      process_publish_request have in the same words; Peers/Picking proves what it does
--   Cmd, Publish       process_cmd_request and process_publish_request
--   Account            src/account/account_service.rs and src/account/key_types.rs; Database: the keypair that
--                      a node keeps
--   Client             the calls of a client in src/network/node.rs: get_main_nets, register_proxy, dial
--                      and new_circuit; Client/Calls proves what they do
--   Handshake          process_handshake, with the payloads of src/network/utils.rs; Steps, Meeting and
--                      Unverified prove what it does
--   Connection         src/network/connection.rs and send_message: the encrypted circuit, the noise state
--                      being a parameter; Connection/Roundtrip proves what it does
--   Swarm              src/network/whitenoise_behaviour.rs: the events that come from the swarm, a round of
--                      each event loop, and get_kad_peers; Acks and Peers prove what they do.
--                      Swarm/Relays and Swarm/Polling are
--                      src/network/protocols/relay_behaviour.rs
--                      Swarm/Events has the events of gossip and identify and both event loops, and
--                      Swarm/Handler is src/network/protocols/relay_protocol.rs
--   Codecs             src/network/protocols/ack_protocol.rs, cmd_protocol.rs and proxy_protocol.rs: the codecs
--                      of acks, commands and requests; Codecs/Messages proves what arrives
--   Sdk                src/sdk/client.rs and src/sdk/host.rs: the loops for new streams and new circuits, the
--                      methods of a client, the bootstrap address (Bootstrap) and the start of a node (Start);
--                      Streams, Sessions, Rounds and Starting prove what they do
--   Chat               whitenoise-client/src/main.rs: the start of a chat client, and its two roles; Lines,
--                      Travel, Ending and Refused prove what it does
--   CommandLine        the subcommands of src/main.rs and whitenoise-client/src/main.rs
--   Interleaving       the tasks of a node and the events of the swarm in any order: a step relation on the
--                      shared maps and the running tasks, and what it reaches
--   Invariant          the invariant Fits of the shared maps: a session stands under its own id and has
--                      its early stream, a circuit stands under its own id and its channel has
--                      been made, a probe stands under its own id, and every listed peer has its client; and
--                      the channels below a floor have been made, which a task that holds one relies on
--   Termination        the fuel of the four tasks
--   Opening            two nodes that open a session between them
--   Registration       a client and a node through one registration
--   Discovery          a client that asks a node for the nodes of the network
--   Delivery           a data message on its way through the nodes of a circuit
--   Witnesses          a small host, and the theorems at concrete runs
--
-- Fuel. The loop of a task has a round more than there are inputs, and each round takes one, so that
-- the fuel never runs out. The wait for an outbound stream has 101 rounds: one for each 50 ms up to 5 s,
-- and the last, which gives up. All other recursion is structural.
--
-- Reads. Both kinds of stream are read with upgrade::read_one and its limit of 4096 bytes. For a relay stream
-- the stream's own task reads (Swarm/Polling), and `delivered` is what it hands to the reader of the bytes
-- that the other end has written; the inputs of the tasks are what is handed to them.
--
-- Details. `send` on a channel is taken to succeed, its receiver living as long as its task. A spawned task
-- is an effect; the new stream request that is spawned only to be sent at once is an effect of its own
-- kind. A `usize` is of 64 bits and wraps around, as in a release build. A stream is its handle: the peer
-- and the id, the channels being shared by all clones. The length that write_payload is given is that of
-- its buffer, as its callers have it.
--
-- A task that is running is kept in Interleaving as the world in which it began with the inputs that it has
-- taken since, and its next stretch is its program run on one input more. The loops for new streams and
-- for the wait on them never end; their fuel bounds the streams, or the waits, that are looked at. The chat
-- loops never end either: a round of their `select!` takes the line that is typed or the message that arrives,
-- whichever is the next input. The order in which std walks over a map is a parameter. In client mode the address that `start` adds goes to
-- a routing table that is not used.
--
-- Not modelled: the transport and the behaviours of libp2p that src/sdk/host.rs builds, the events of Kademlia,
-- which are only logged, the upgrades of src/network/protocols/relay_protocol.rs, which hand the substream
-- on, the parsers of the command lines, the log and the tests. Threads that run at once between two suspension points
-- are not modelled either: each such stretch of a task is one step.
mod Prelude
pub mod HashMap
pub mod Proto
pub mod Host
pub mod State
pub mod Task
pub mod Utils
pub mod Node
pub mod RelayEvents
pub mod Account
pub mod Peers
pub mod Proxy
pub mod Cmd
pub mod Publish
pub mod Invariant
pub mod Client
pub mod Handshake
pub mod Connection
pub mod Swarm
pub mod Sdk
pub mod Chat
pub mod CommandLine
pub mod Registration
pub mod Opening
pub mod Discovery
pub mod Interleaving
pub mod Codecs
pub mod Termination
pub mod Witnesses
pub mod Delivery
