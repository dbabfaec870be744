-- ===== src/Tests/Lifecycle.antt =====
-- The sockets, the read loops and the flags at a concrete input: a beacon with two sockets.
use beacon.Base.{
  Bool, ℕ, zero, ◌≡◌, ◌⊎◌, refl, true, false, Option, none, some, List, [], ◌∷◌, length, get_or,
}
use beacon.Net.{UdpAddr, ip_equal, codes, ip_string, to4, dotted, decimal, digits_onto}
use beacon.Server.Punch.{punch_gate}
use beacon.Server.Config.{trim_space, trim_left, set_strict_gossip, set_punch_whitelist}
use beacon.Server.Listen.{
  Socket, bound, listen_failed, listen_and_serve, reader_count, worker_port, batch, read_failure,
  ReadResult, read_loop,
}
use beacon.Server.Listen.Laws.{Are, ports_of, listen_and_serve_lem}
use beacon.Server.Listen.Reading.{read_loop-after_steps, all_packets}
use beacon.Server.Life.{Step, call, after_steps}
use beacon.Server.Calls.{setting, healthy, touches_peers}
use beacon.Command.{Flags, apply_flags, split, whitelist_source}
use beacon.Command.Strict.{strict_start}
use beacon.Server.Gossip.{any_equal}
use beacon.Command.{
  start, with_strict_gossip, with_punch_token, with_whitelist, with_registry, configured,
  trimmed_parts, peer_list,
}
use beacon.Server.{Server, new_with_peers, resolve_peers}
use beacon.Command.Laws.{whitelist_passes}
use beacon.Tests.Data.{
  steps, other_beacon, protocol, sockets, verify, start_time, alice, bob, running, fresh,
}

-- the second socket fails
abbrev one_port : ℕ → Option ℕ
one_port zero = some 9001
one_port _ = none

listen_and_serve_lem_example :
    let r = listen_and_serve one_port 1 0 fresh in
    ((conns : List Socket) × (r.0 ≡ bound conns)
      × (length conns ≡ reader_count 1 0)
      × Are one_port true conns
      × (r.1 ≡ record fresh { listening = true })
      × ((i : ℕ) → worker_port (ports_of conns) i ≡ get_or (ports_of conns) 0 0))
    ⊎ ((k : ℕ) × (conns : List Socket) × (r.0 ≡ listen_failed k conns)
        × (length conns ≡ k)
        × (one_port k ≡ none)
        × Are one_port false conns
        × (r.1 ≡ fresh))
listen_and_serve_lem_example = listen_and_serve_lem one_port 1 0 fresh

-- an empty message, one of alice's, an error that passes, and the end
abbrev results : List ReadResult
results =
    batch (([], some bob) ∷ (1 ∷ 0 ∷ 0 ∷ 0 ∷ 1 ∷ [], some alice) ∷ []) start_time
    ∷ read_failure false false
    ∷ read_failure true false
    ∷ []

-- a run that a panic ends, and one that reads on
abbrev runs : List (List ReadResult × Bool)
runs =
    (batch ((1 ∷ 0 ∷ 0 ∷ 0 ∷ 2 ∷ [], some bob) ∷ []) start_time ∷ [], false) ∷ (results, false) ∷ []

read_loop-after_steps_example :
    (read_loop protocol verify running runs).0
    ≡ after_steps protocol sockets verify running (all_packets runs)
read_loop-after_steps_example = read_loop-after_steps protocol sockets verify running runs

abbrev flags : Flags
flags = record {
  config_path = [];
  addr = codes ":9001";
  advertise_addr = [];
  beacon_id = 7;
  peers = codes "a:1,b:2";
  health_addr = [];
  registry_addr = [];
  registry_admin_token = [];
  punch_whitelist = codes "10.0.0.1, 198.51.100.1";
  require_punch_token = false;
  strict_gossip = true;
}

-- the environment, in which nothing is set
abbrev no_env : List ℕ → List ℕ
no_env name = []

-- the definitions that a run computes with
unfoldable program : Unit {0}
unfolding split whitelist_source trim_space trim_left ip_string to4 dotted decimal digits_onto start
    configured peer_list trimmed_parts new_with_peers resolve_peers any_equal apply_flags
    with_strict_gossip set_strict_gossip with_punch_token with_whitelist set_punch_whitelist
    with_registry ip_equal
program = tt

whitelist_passes_example :
    let t = apply_flags flags no_env running in punch_gate t alice start_time ≡ (t, true)
unfolding program
whitelist_passes_example = whitelist_passes flags no_env running alice start_time refl

-- no configuration file is read; both peers are the other beacon
abbrev no_file : List ℕ → Flags → Option Flags
no_file path f = none

abbrev resolved : List ℕ → Option UdpAddr
resolved name = some other_beacon

abbrev strict_server : Server
strict_server = apply_flags flags no_env (new_with_peers resolved 1 7 (peer_list flags))

-- the server's health changes before the datagrams
abbrev steered : List Step
steered = call (setting (healthy false)) ∷ steps

strict_start_example : (after_steps protocol sockets verify strict_server steered).peer_nodes ≡ []
unfolding program touches_peers
strict_start_example =
    strict_start protocol sockets verify no_file resolved 1 no_env flags flags strict_server steered
      refl refl refl (refl, (refl, (refl, tt)))
