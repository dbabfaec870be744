-- ===== src/Server/Registry.antt =====
-- server.go, registryDiscover: the exchange with the registry over TCP. JSON is a parameter, and what
-- the registry does is an input.
pub mod Laws
use beacon.Base.{
  ℕ, ◌*◌, ◌+◌, Bool, true, false, not, ◌&&◌, ◌||◌, Option, none, some, List, [], ◌∷◌, ◌++◌, take,
  drop, length, ltb, ◌==◌, if◌then◌else◌, same_bytes,
}
use beacon.Net.{UdpAddr, codes, ip_string, with_zone, decimal, join_host_port}
use beacon.Wire.{uint32, put_uint32}
use beacon.Server.{Server}
use beacon.Server.Config.{BeaconEntry, registry_discovered}

-- An element of a response's `beacons`. Of an object: the uint32 of `id`, where that is a number, and
-- `addr`, where that is a string.
pub data Listed : Type 0 where
  other_value : Listed
  object : Option ℕ → Option (List ℕ) → Listed

-- json.Marshal of the two requests (id, address, and admin token if there is one), and json.Unmarshal
-- of a response: `none` is an error; else the elements of `beacons`, where that is an array.
pub record RegistryCodec : Type 0 where
  pub register_body : ℕ → List ℕ → Option (List ℕ) → List ℕ
  pub list_body : List ℕ
  pub beacons : List ℕ → Option (List Listed)

-- What the registry does: whether it is reached, the local IP of the TCP connection, whether each of
-- the two requests is written, and all that it sends before the connection or the deadline ends.
pub record Registry : Type 0 where
  pub reached : Bool
  pub tcp_ip : Option (List ℕ)
  pub register_written : Bool
  pub list_written : Bool
  pub stream : List ℕ

abbrev pub max_response : ℕ
max_response = 1_048_576

-- sendMsg
unfoldable pub framed : List ℕ → List ℕ
framed body = put_uint32 (length body) ++ body

-- recvMsg up to json.Unmarshal: the body, and what is left of the stream
unfoldable pub read_frame : List ℕ → Option (List ℕ × List ℕ)
read_frame stream =
    if ltb (length stream) 4
    then none
    else let n = uint32 stream in
      let rest = drop 4 stream in
      if ltb max_response n || ltb (length rest) n then none else some (take n rest, drop n rest)

abbrev is_unspecified : List ℕ → Bool
is_unspecified host =
    same_bytes host (codes "::") || (same_bytes host (codes "0.0.0.0") || (length host == 0))

abbrev listen_host : UdpAddr → List ℕ
listen_host a = with_zone (if length a.ip == 0 then [] else ip_string a.ip) a.zone

-- the address to register; `listen` is s.conn.LocalAddr()
unfoldable pub my_addr : Server → UdpAddr → Option (List ℕ) → List ℕ
my_addr s listen tcp_ip =
    if not (length s.advertise_addr == 0)
    then s.advertise_addr
    else let host = listen_host listen in
      let host' =
        if is_unspecified host
        then elim tcp_ip [ some ip ↦ ip_string ip | none ↦ host ]
        else host in
      join_host_port host' (decimal listen.port)

abbrev admin_token : Server → Option (List ℕ)
admin_token s = if length s.registry_admin_token == 0 then none else some s.registry_admin_token

abbrev or_zero : Option ℕ → ℕ
or_zero none = 0
or_zero (some id) = id

abbrev or_empty : Option (List ℕ) → List ℕ
or_empty none = []
or_empty (some addr) = addr

-- bid and baddr of each object
unfoldable pub entries_of : List Listed → List BeaconEntry
entries_of [] = []
entries_of (other_value ∷ ls) = entries_of ls
entries_of (object id addr ∷ ls) = record { id = or_zero id; addr = or_empty addr } ∷ entries_of ls

module _ (c : RegistryCodec) where
  -- one recvMsg: what it parses to, and what is left of the stream
  unfoldable pub recv_msg : List ℕ → Option (List Listed × List ℕ)
  recv_msg stream = elim (read_frame stream) [
    | none ↦ none
    | some (body, rest) ↦ elim (c.beacons body) [ none ↦ none | some es ↦ some (es, rest) ]
  ]

  unfoldable pub register_request : Server → UdpAddr → Registry → List ℕ
  register_request s listen r =
      framed (c.register_body s.beacon_id (my_addr s listen r.tcp_ip) (admin_token s))

  -- The beacons that the registry lists, if the exchange comes to that.
  unfoldable pub listed_beacons : Registry → Option (List Listed)
  listed_beacons r =
      if not (r.reached && r.register_written) then none else elim (recv_msg r.stream) [
        | none ↦ none
        | some (answer, rest) ↦
            if r.list_written
            then elim (recv_msg rest) [ none ↦ none | some (es, left) ↦ some es ]
            else none
      ]

  -- `resolve` stands for net.ResolveUDPAddr.
  unfoldable pub registry_discover : (List ℕ → Option UdpAddr) → Server → Registry → Server
  registry_discover resolve s r =
      if (length s.registry_addr == 0) || (s.beacon_id == 0) then s else elim (listed_beacons r) [
        | none ↦ s
        | some ls ↦ registry_discovered resolve s (entries_of ls)
      ]
