-- ===== src/Tests/Registries.antt =====
-- The exchange with the registry at a concrete input: it lists this beacon and another.
use beacon.Base.{ℕ, ◌≡◌, refl, true, Option, none, some, List, [], ◌∷◌, ◌++◌, arith}
use beacon.Net.{UdpAddr, codes}
use beacon.Server.{Server, new_with_peers}
use beacon.Server.Registry.{
  Listed, object, other_value, RegistryCodec, Registry, framed, registry_discover,
}
use beacon.Server.Registry.Laws.{registry_discover_answered}
use beacon.Tests.Data.{other_beacon, fresh}

-- itself, another, one without an address, and no object
abbrev listed : List Listed
listed =
    object (some 7) (some (codes "here:1"))
    ∷ object (some 8) (some (codes "there:1"))
    ∷ object (some 9) none
    ∷ other_value
    ∷ []

-- an empty body has no beacons, every other lists these
abbrev parsed : List ℕ → Option (List Listed)
parsed [] = some []
parsed (b ∷ bs) = some listed

abbrev codec : RegistryCodec
codec = record { register_body = λ id addr token. addr; list_body = codes "list"; beacons = parsed }

abbrev resolve : List ℕ → Option UdpAddr
resolve text = some other_beacon

abbrev registered : Server
registered = record fresh { registry_addr = codes "registry:9000" }

registry_discover_answered_example :
    registry_discover codec resolve registered (record {
      reached = true;
      tcp_ip = none;
      register_written = true;
      list_written = true;
      stream = framed [] ++ (framed (1 ∷ []) ++ []);
    })
    ≡ record registered { peers = other_beacon ∷ [] }
unfolding new_with_peers
registry_discover_answered_example =
    registry_discover_answered codec resolve registered none [] (1 ∷ []) [] [] listed (omega arith)
      (λ e. omega (arith, e)) (omega arith) (omega arith) refl refl

-- a registry that closes the connection in the middle of its answer
abbrev cut_off : Registry
cut_off = record {
  reached = true;
  tcp_ip = none;
  register_written = true;
  list_written = true;
  stream = 0 ∷ 0 ∷ 0 ∷ [];
}
