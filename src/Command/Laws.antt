-- ===== src/Command/Laws.antt =====
-- cmd/beacon/main.go with server.go: what the flags of a beacon come to.
use beacon.Base.{
  ℕ, ◌≡◌, refl, ap, ◌∙◌, Bool, true, false, not, ◌&&◌, ◌||◌, List, [], ◌∷◌, ◌++◌, ◌==◌,
  if◌then◌else◌, length, same_bytes, All, Assoc, has, insert, lookup, lookup-insert, bytes_key,
  Bool-cases, if_keep, if_keep_by, arith,
}
use beacon.Net.{codes, UdpAddr, ip_string}
use beacon.Server.{Server}
use beacon.Server.Config.{
  trim_space, trim_left, is_wildcard, read_whitelist, set_punch_whitelist, set_require_punch_token,
  set_strict_gossip,
}
use beacon.Server.Punch.{punch_gate}
use beacon.Command.{
  Flags, comma, split, is_empty, trimmed_parts, peer_list, whitelist_source, apply_flags,
  with_registry, with_whitelist, with_punch_token, with_strict_gossip, switched_on,
}

-- whether a list of entries lets an address through: by name, or by a wildcard
abbrev names : List ℕ → List ℕ → Bool
names ip key = let t = trim_space ip in is_wildcard t || (not (is_empty t) && same_bytes t key)

abbrev pub listed : List (List ℕ) → List ℕ → Bool
listed [] key = false
listed (ip ∷ ips) key = names ip key || listed ips key

abbrev lets_through : List ℕ → Assoc (List ℕ) (Unit {0}) × Bool → Bool
lets_through key r = r.1 || has key r.0

entry_lem :
    (t key : List ℕ) (m : Assoc (List ℕ) (Unit {0})) (all wild : Bool)
    → lets_through key ((if (length t == 0) || wild then m else insert t tt m), wild || all)
      ≡ (lets_through key (m, all) || (wild || (not (is_empty t) && same_bytes t key)))
entry_lem t key m all true = ground (arith, Bool-cases (lets_through key (m, all)))
entry_lem t key m all false = ground (arith, lookup-insert t key tt m)

or_assoc : (a b c : Bool) → ((a || b) || c) ≡ (a || (b || c))
or_assoc true b c = refl
or_assoc false b c = refl

read_whitelist_lem :
    (ips : List (List ℕ)) (key : List ℕ) (m : Assoc (List ℕ) (Unit {0})) (all : Bool)
    → lets_through key (read_whitelist ips m all) ≡ (lets_through key (m, all) || listed ips key)
unfolding read_whitelist
read_whitelist_lem [] key m all = ground (arith, Bool-cases (lets_through key (m, all)))
read_whitelist_lem (ip ∷ ips) key m all =
    let t = trim_space ip in
    let skip = (length t == 0) || is_wildcard t in
    read_whitelist_lem ips key (if skip then m else insert t tt m) (is_wildcard t || all)
    ∙ (ap (λ b. b || listed ips key) (entry_lem t key m all (is_wildcard t))
        ∙ or_assoc (lets_through key (m, all)) (names ip key) (listed ips key))

abbrev pub no_commas : List ℕ → Bool
no_commas [] = true
no_commas (c ∷ cs) = not (c == comma) && no_commas cs

abbrev pub join : List (List ℕ) → List ℕ
join [] = []
join (p ∷ []) = p
join (p ∷ q ∷ ps) = p ++ comma ∷ join (q ∷ ps)

split-append :
    (p rest : List ℕ) → no_commas p ≡ true → split (p ++ comma ∷ rest) comma ≡ p ∷ split rest comma
unfolding split
split-append [] rest h = refl
split-append (c ∷ cs) rest h = ground (arith, h, split-append cs rest)

split-last : (p : List ℕ) → no_commas p ≡ true → split p comma ≡ p ∷ []
unfolding split
split-last [] h = refl
split-last (c ∷ cs) h = ground (arith, h, split-last cs)

split-join :
    (p : List ℕ) (ps : List (List ℕ))
    → All (λ q. no_commas q ≡ true) (p ∷ ps)
    → split (join (p ∷ ps)) comma ≡ p ∷ ps
split-join p [] h = split-last p h.0
split-join p (q ∷ ps) h = split-append p (join (q ∷ ps)) h.0 ∙ ap (λ r. p ∷ r) (split-join q ps h.1)

abbrev pub IsPlainPart : List ℕ → Type 0
IsPlainPart p = (no_commas p ≡ true) × (is_empty p ≡ false) × (trim_space p ≡ p)

trimmed_parts_plain : (ps : List (List ℕ)) → All IsPlainPart ps → trimmed_parts ps ≡ ps
unfolding trimmed_parts
trimmed_parts_plain [] h = refl
trimmed_parts_plain (p ∷ ps) h = rw (h.0.2, h.0.1) (ap (λ r. p ∷ r) (trimmed_parts_plain ps h.1))

join_some :
    (p : List ℕ) (ps : List (List ℕ)) → is_empty p ≡ false → is_empty (join (p ∷ ps)) ≡ false
join_some [] ps h = absurd (ground (arith, h))
join_some (c ∷ cs) [] h = ground arith
join_some (c ∷ cs) (q ∷ ps) h = ground arith

no_commas_of : (ps : List (List ℕ)) → All IsPlainPart ps → All (λ q. no_commas q ≡ true) ps
no_commas_of [] h = tt
no_commas_of (p ∷ ps) h = (h.0.0, no_commas_of ps h.1)

-- A -peers flag that joins addresses by commas gives these addresses, if each is nonempty, has no
-- comma and no space at its ends.
pub peer_list-join :
    (f : Flags) (ps : List (List ℕ)) → f.peers ≡ join ps → All IsPlainPart ps → peer_list f ≡ ps
unfolding peer_list
peer_list-join f [] e h = rw e refl
peer_list-join f (p ∷ ps) e h =
    rw (e, join_some p ps h.0.1)
      (ap trimmed_parts (split-join p ps (no_commas_of (p ∷ ps) h))
        ∙ trimmed_parts_plain (p ∷ ps) h)

source_some : (src key : List ℕ) → listed (split src comma) key ≡ true → is_empty src ≡ false
unfolding split trim_space trim_left
source_some [] key h = absurd (ground (arith, h))
source_some (c ∷ cs) key h = ground arith

abbrev LetsThrough : List ℕ → Bool → Server → Type 0
LetsThrough key b s = lets_through key (s.punch_whitelist, s.punch_whitelist_all) ≡ b

set_punch_whitelist_lem :
    (s : Server) (ips : List (List ℕ)) (key : List ℕ)
    → LetsThrough key (listed ips key) (set_punch_whitelist s ips)
unfolding set_punch_whitelist lookup
set_punch_whitelist_lem s ips key = read_whitelist_lem ips key [] false

with_whitelist_lem :
    (src : List ℕ) (s : Server) (key : List ℕ)
    → is_empty src ≡ false
    → LetsThrough key (listed (split src comma) key) (with_whitelist src s)
unfolding with_whitelist
with_whitelist_lem src s key some_source =
    if_keep_by (LetsThrough key (listed (split src comma) key)) (is_empty src) s
      (set_punch_whitelist s (split src comma)) (λ e. absurd (ground (arith, e, some_source)))
      (λ _. set_punch_whitelist_lem s (split src comma) key)

switches-LetsThrough :
    (f : Flags) (getenv : List ℕ → List ℕ) (s : Server) (key : List ℕ) (b : Bool)
    → LetsThrough key b s
    → LetsThrough key b (with_strict_gossip f getenv (with_punch_token f getenv s))
unfolding with_strict_gossip with_punch_token set_strict_gossip set_require_punch_token
switches-LetsThrough f getenv s key b h =
    let token =
      if_keep (LetsThrough key b)
        (switched_on f.require_punch_token (getenv (codes "BEACON_REQUIRE_PUNCH_TOKEN")))
        (set_require_punch_token s true) s h h in
    if_keep (LetsThrough key b)
      (switched_on f.strict_gossip (getenv (codes "BEACON_STRICT_GOSSIP")))
      (set_strict_gossip (with_punch_token f getenv s) true) (with_punch_token f getenv s) token
      token

apply_flags-whitelist :
    (f : Flags) (getenv : List ℕ → List ℕ) (s : Server) (key : List ℕ)
    → is_empty (whitelist_source f getenv) ≡ false
    → LetsThrough key
        (listed (split (whitelist_source f getenv) comma) key)
        (apply_flags f getenv s)
unfolding apply_flags
apply_flags-whitelist f getenv s key some_source =
    switches-LetsThrough f getenv (with_whitelist (whitelist_source f getenv) (with_registry f s))
      key _ (with_whitelist_lem (whitelist_source f getenv) (with_registry f s) key some_source)

listed_passes :
    (s : Server) (remote : UdpAddr) (now : ℕ)
    → LetsThrough (ip_string remote.ip) true s
    → punch_gate s remote now ≡ (s, true)
unfolding punch_gate
listed_passes s remote now h = rw h refl

-- If the list in -punch-whitelist, or in the environment where that flag is empty, names an
-- address or has a wildcard, then on the server with the flags applied, a punch request from that
-- address passes the rate limits, and they record nothing.
pub whitelist_passes :
    (f : Flags) (getenv : List ℕ → List ℕ) (s : Server) (remote : UdpAddr) (now : ℕ)
    → listed (split (whitelist_source f getenv) comma) (ip_string remote.ip) ≡ true
    → let t = apply_flags f getenv s in punch_gate t remote now ≡ (t, true)
whitelist_passes f getenv s remote now h = listed_passes (apply_flags f getenv s) remote now (
    apply_flags-whitelist f getenv s (ip_string remote.ip)
      (source_some (whitelist_source f getenv) (ip_string remote.ip) h)
    ∙ h)
