-- ===== src/Invariant/Updates.antt =====
-- The invariant, and that each write to the shared maps of network/node.rs keeps it.
use white_noise_rs.Prelude.{
  ℕ, String, true, Option, none, some, ◌≡◌, ◌<◌, refl, List, string_eq, arith, is_some, suc, ◌≤◌,
}
use white_noise_rs.HashMap.{HashMap, get, insert, remove, get-insert, get-remove, get-empty}
use white_noise_rs.Host.{Host, to_base58}
use white_noise_rs.State.{
  WrappedStream, Session, ClientInfo, CircuitConn, Probe, Shared, new_shared,
}
use white_noise_rs.RelayEvents.Circuits.{insert_circuit}
use white_noise_rs.Client.{dial_circuit}
use white_noise_rs.Node.Sessions.{joined, join_session, take_session}

-- A session stands under its own id, and its early stream is there.
abbrev pub SessionsFit : HashMap String Session → Type 0
SessionsFit m =
    (k : String) (session : Session)
    → get m k ≡ some session
    → (session.id ≡ k) × (is_some session.early_stream ≡ true)

-- A circuit stands under its own id, and its channel has been made.
abbrev pub CircuitsFit : ℕ → HashMap String CircuitConn → Type 0
CircuitsFit next m =
    (k : String) (c : CircuitConn) → get m k ≡ some c → (c.id ≡ k) × (c.channel < next)

abbrev pub ProbesFit : HashMap String Probe → Type 0
ProbesFit m = (k : String) (p : Probe) → get m k ≡ some p → p.session_id ≡ k

-- Every peer that is listed is the peer of the client that it is listed with.
abbrev pub ClientsFit : Host → HashMap String String → HashMap String ClientInfo → Type 0
ClientsFit host peers clients =
    (peer hash : String)
    → get peers peer ≡ some hash
    → (c : ClientInfo) × (get clients hash ≡ some c) × (to_base58 host c.peer_id ≡ peer)

-- All of these, and the channels below `floor` have been made.
pub record Fits (host : Host) (floor : ℕ) (s : Shared) : Type 0 where
  pub sessions : SessionsFit s.session_map
  pub circuits : CircuitsFit s.next_channel s.circuit_map
  pub probes : ProbesFit s.probe_map
  pub clients : ClientsFit host s.client_peer_map s.client_wn_map
  pub channels : floor ≤ s.next_channel

joined-Fits :
    (o : Option Session) (k : String) (role : ℕ) (stream : WrappedStream)
    → ((session : Session)
        → o ≡ some session
        → (session.id ≡ k) × (is_some session.early_stream ≡ true))
    → ((joined o k role stream).id ≡ k) × (is_some (joined o k role stream).early_stream ≡ true)
joined-Fits none k role stream h = (refl, refl)
joined-Fits (some session) k role stream h = h session refl

insert-SessionsFit :
    (m : HashMap String Session) (id : String) (session : Session)
    → SessionsFit m
    → (session.id ≡ id) × (is_some session.early_stream ≡ true)
    → SessionsFit (insert m id session)
insert-SessionsFit m id session h e k ses p =
    ground (arith, get-insert m id k session, string_eq.agrees id k, h k ses)

remove-SessionsFit :
    (m : HashMap String Session) (id : String) → SessionsFit m → SessionsFit (remove m id)
remove-SessionsFit m id h k ses p = ground (arith, get-remove m id k, h k ses)

module _ {host : Host} {floor : ℕ} {s : Shared} (h : Fits host floor s) where
  pub join_session-Fits :
      (id : String) (role : ℕ) (stream : WrappedStream)
      → Fits host floor (join_session id role stream s)
  unfolding join_session
  join_session-Fits id role stream = record {
    sessions =
        insert-SessionsFit s.session_map id (joined (get s.session_map id) id role stream)
          h.sessions (joined-Fits (get s.session_map id) id role stream (h.sessions id));
    circuits = h.circuits;
    probes = h.probes;
    clients = h.clients;
    channels = omega (arith, h.channels);
  }

  pub take_session-Fits : (id : String) → Fits host floor (take_session id s).1
  take_session-Fits id = record {
    sessions = remove-SessionsFit s.session_map id h.sessions;
    circuits = h.circuits;
    probes = h.probes;
    clients = h.clients;
    channels = omega (arith, h.channels);
  }

  pub remove_circuit-Fits :
      (id : String) → Fits host floor (record s { circuit_map = remove s.circuit_map id })
  remove_circuit-Fits id = record {
    sessions = h.sessions;
    circuits = λ k c p. ground (arith, get-remove s.circuit_map id k, h.circuits k c);
    probes = h.probes;
    clients = h.clients;
    channels = omega (arith, h.channels);
  }

  pub remove_probe-Fits :
      (id : String) → Fits host floor (record s { probe_map = remove s.probe_map id })
  remove_probe-Fits id = record {
    sessions = h.sessions;
    circuits = h.circuits;
    probes = λ k c p. ground (arith, get-remove s.probe_map id k, h.probes k c);
    clients = h.clients;
    channels = omega (arith, h.channels);
  }

  pub insert_probe-Fits :
      (id : String) (rand : List ℕ)
      → Fits host floor
          (record s { probe_map = insert s.probe_map id (record { session_id = id; rand = rand }) })
  insert_probe-Fits id rand = record {
    sessions = h.sessions;
    circuits = h.circuits;
    probes = λ k c p. ground (
      arith,
      get-insert s.probe_map id k (record { session_id = id; rand = rand }),
      string_eq.agrees id k,
      h.probes k c,
    );
    clients = h.clients;
    channels = omega (arith, h.channels);
  }

  pub next_channel-Fits : Fits host floor (record s { next_channel = suc s.next_channel })
  next_channel-Fits = record {
    sessions = h.sessions;
    circuits = λ k c p. ground (arith, h.circuits k c p);
    probes = h.probes;
    clients = h.clients;
    channels = omega (arith, h.channels);
  }

  pub event_bus-Fits : (m : HashMap String ℕ) → Fits host floor (record s { event_bus = m })
  event_bus-Fits m = record {
    sessions = h.sessions;
    circuits = h.circuits;
    probes = h.probes;
    clients = h.clients;
    channels = omega (arith, h.channels);
  }

  pub circuit_task-Fits :
      (m : HashMap String (List ℕ)) → Fits host floor (record s { circuit_task = m })
  circuit_task-Fits m = record {
    sessions = h.sessions;
    circuits = h.circuits;
    probes = h.probes;
    clients = h.clients;
    channels = omega (arith, h.channels);
  }

  pub dial_circuit-Fits :
      (id : String) (stream : WrappedStream) → Fits host floor (dial_circuit id stream s)
  dial_circuit-Fits id stream = record {
    sessions = h.sessions;
    circuits = λ k c p. ground (
      arith,
      get-insert s.circuit_map id k (record {
        id = id;
        out_stream = stream;
        channel = s.next_channel;
        transport_state = none;
      }),
      string_eq.agrees id k,
      h.circuits k c,
    );
    probes = h.probes;
    clients = h.clients;
    channels = omega (arith, h.channels);
  }

  pub in_streams-Fits :
      (q : List WrappedStream) → Fits host floor (record s { relay_in_streams = q })
  in_streams-Fits m = record {
    sessions = h.sessions;
    circuits = h.circuits;
    probes = h.probes;
    clients = h.clients;
    channels = omega (arith, h.channels);
  }

  pub out_streams-Fits :
      (q : List WrappedStream) → Fits host floor (record s { relay_out_streams = q })
  out_streams-Fits m = record {
    sessions = h.sessions;
    circuits = h.circuits;
    probes = h.probes;
    clients = h.clients;
    channels = omega (arith, h.channels);
  }

  pub insert_circuit-Fits :
      (o : Option CircuitConn) (id : String) (stream : WrappedStream)
      → Fits host floor (insert_circuit o id stream s)
  insert_circuit-Fits (some c) id stream = h
  insert_circuit-Fits none id stream = record {
    sessions = h.sessions;
    circuits = λ k c p. ground (
      arith,
      get-insert s.circuit_map id k (record {
        id = id;
        out_stream = stream;
        channel = s.next_channel;
        transport_state = none;
      }),
      string_eq.agrees id k,
      h.circuits k c,
    );
    probes = h.probes;
    clients = h.clients;
    channels = omega (arith, h.channels);
  }

  pub replace_later-Fits :
      (id : String) (session : Session) (stream : WrappedStream)
      → get s.session_map id ≡ some session
      → Fits host floor (record s {
        session_map =
            insert s.session_map id (joined (some session) id session.session_role stream);
      })
  replace_later-Fits id session stream e = record {
    sessions =
        insert-SessionsFit s.session_map id (joined (some session) id session.session_role stream)
          h.sessions (h.sessions id session e);
    circuits = h.circuits;
    probes = h.probes;
    clients = h.clients;
    channels = omega (arith, h.channels);
  }

-- A node that has just started, with no entry in any map, satisfies the invariant.
pub new_shared-Fits : (host : Host) → Fits host 0 new_shared
unfolding new_shared
new_shared-Fits host = record {
  sessions = λ k x p. cc (p, get-empty {V = Session} k);
  circuits = λ k x p. ground (arith, get-empty {V = CircuitConn} k);
  probes = λ k x p. cc (p, get-empty {V = Probe} k);
  clients = λ k x p. absurd (cc (p, get-empty {V = String} k));
  channels = omega arith;
}
