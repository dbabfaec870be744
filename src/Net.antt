-- ===== src/Net.antt =====
-- The parts of Go's `net` that the beacon uses: IP addresses as byte strings (net.IP), their
-- forms, equality and text, and UDP endpoints (net.UDPAddr).
pub mod Decimal
use Prim.Native.Char.{code}
use Prim.Native.String.{String}
use beacon.Base.{
  ℕ, zero, suc, ◌+◌, ◌-◌, ◌*◌, ◌/◌, ◌%◌, Bool, true, false, ◌&&◌, not, Option, none, some, List, [],
  ◌∷◌, ◌++◌, ltb, leb, ◌==◌, if◌then◌else◌, length, take, drop, replicate, same_bytes,
}

-- The bytes of an ASCII text.
abbrev pub codes : String → List ℕ
codes String.[] = []
codes (String.◌∷◌ c s) = code c ∷ codes s

pub record UdpAddr : Type 0 where
  pub ip : List ℕ
  pub port : ℕ
  pub zone : List ℕ

abbrev v4_in_v6_prefix : List ℕ
v4_in_v6_prefix = replicate 10 0 ++ 0xff ∷ 0xff ∷ []

-- IP.To4: the 4-byte form, if there is one
unfoldable pub to4 : List ℕ → Option (List ℕ)
to4 ip =
    if length ip == 4
    then some ip
    else if (length ip == 16) && same_bytes (take 12 ip) v4_in_v6_prefix
    then some (drop 12 ip)
    else none

-- IP.To16
unfoldable pub to16 : List ℕ → Option (List ℕ)
to16 ip =
    if length ip == 4
    then some (v4_in_v6_prefix ++ ip)
    else if length ip == 16
    then some ip
    else none

-- IP.Equal: an IPv4 address and its IPv6-mapped form are equal.
unfoldable pub ip_equal : List ℕ → List ℕ → Bool
ip_equal a b =
    if length a == length b
    then same_bytes a b
    else if (length a == 4) && (length b == 16)
    then same_bytes (take 12 b) v4_in_v6_prefix && same_bytes a (drop 12 b)
    else if (length a == 16) && (length b == 4)
    then same_bytes (take 12 a) v4_in_v6_prefix && same_bytes (drop 12 a) b
    else false

abbrev digit : ℕ → ℕ
digit d = if ltb d 10 then b'0' + d else b'a' + (d - 10)

-- the digits of a number in front of `acc`, least significant first
unfoldable pub digits_onto : ℕ → ℕ → ℕ → List ℕ → List ℕ
digits_onto zero base n acc = acc
digits_onto (suc f) base n acc =
    let rest = digits_onto f base (n / base) (digit (n % base) ∷ acc) in
    if n / base == 0 then digit (n % base) ∷ acc else rest

-- strconv.Itoa and %d of a number below 10 ^ 20; %x of one below 16 ^ 20
unfoldable pub decimal : ℕ → List ℕ
decimal n = digits_onto 20 10 n []

unfoldable pub hexadecimal : ℕ → List ℕ
hexadecimal n = digits_onto 20 16 n []

-- bytes as text in base 10 with dots between
unfoldable pub dotted : List ℕ → List ℕ
dotted [] = []
dotted (b ∷ []) = decimal b
dotted (b ∷ c ∷ bs) = decimal b ++ (b'.' ∷ dotted (c ∷ bs))

unfoldable pub groups : List ℕ → List ℕ
groups (a ∷ b ∷ bs) = (a * 256 + b) ∷ groups bs
groups _ = []

-- how many groups from here on are zero
unfoldable pub zero_run : List ℕ → ℕ
zero_run [] = 0
zero_run (g ∷ gs) = let rest = zero_run gs in if g == 0 then rest + 1 else 0

-- the start and length of the first longest run of at least two zero groups
unfoldable pub best_run : ℕ → List ℕ → ℕ × ℕ → ℕ × ℕ
best_run i [] best = best
best_run i (g ∷ gs) best =
    let l = zero_run (g ∷ gs) in
    best_run (i + 1) gs (if leb 2 l && ltb best.1 l then (i, l) else best)

unfoldable pub colons : List ℕ → List ℕ
colons [] = []
colons (g ∷ []) = hexadecimal g
colons (g ∷ h ∷ gs) = hexadecimal g ++ (b':' ∷ colons (h ∷ gs))

-- RFC 5952: the run is written as two colons
unfoldable pub v6_text : List ℕ → List ℕ
v6_text ip =
    let gs = groups ip in
    let run = best_run 0 gs (0, 0) in
    if run.1 == 0
    then colons gs
    else colons (take run.0 gs) ++ (b':' ∷ b':' ∷ colons (drop (run.0 + run.1) gs))

unfoldable pub hex_bytes : List ℕ → List ℕ
hex_bytes [] = []
hex_bytes (b ∷ bs) = digit (b / 16) ∷ digit (b % 16) ∷ hex_bytes bs

-- IP.String
unfoldable pub ip_string : List ℕ → List ℕ
ip_string ip =
    if length ip == 0
    then b'<' ∷ b'n' ∷ b'i' ∷ b'l' ∷ b'>' ∷ []
    else if not (length ip == 4) && not (length ip == 16)
    then b'?' ∷ hex_bytes ip
    else elim (to4 ip) [ some v4 ↦ dotted v4 | none ↦ v6_text ip ]

unfoldable pub contains_byte : ℕ → List ℕ → Bool
contains_byte c [] = false
contains_byte c (b ∷ bs) = if b == c then true else contains_byte c bs

-- net.JoinHostPort
unfoldable pub join_host_port : List ℕ → List ℕ → List ℕ
join_host_port host port =
    if contains_byte b':' host then b'[' ∷ (host ++ (b']' ∷ b':' ∷ port)) else host ++ (b':' ∷ port)

unfoldable pub with_zone : List ℕ → List ℕ → List ℕ
with_zone host [] = host
with_zone host (z ∷ zs) = host ++ (b'%' ∷ z ∷ zs)

-- UDPAddr.String
unfoldable pub addr_string : UdpAddr → List ℕ
addr_string a =
    let host = if length a.ip == 0 then [] else ip_string a.ip in
    join_host_port (with_zone host a.zone) (decimal a.port)
