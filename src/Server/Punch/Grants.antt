-- ===== src/Server/Punch/Grants.antt =====
-- server.go: the text that a punch grant signs.
use beacon.Base.{ℕ, ◌<◌, ◌^◌, ◌≡◌, refl, sym, ap, ◌∙◌, List, ◌∷◌, ◌++◌, drop, arith}
use beacon.Net.{decimal}
use beacon.Net.Decimal.{scan, scan-decimal, scan-decimal_end}
use beacon.Server.Punch.{grant_preimage}

-- the three numbers of a preimage, read from its text
abbrev grant_parts : List ℕ → ℕ × ℕ × ℕ
grant_parts text =
    let requester = scan 0 (drop 12 text) in
    let target = scan 0 (drop 1 requester.1) in
    let expiry = scan 0 (drop 1 target.1) in (requester.0, target.0, expiry.0)

grant_parts-grant_preimage :
    (requester target expiry : ℕ)
    → requester < 2 ^ 32
    → target < 2 ^ 32
    → expiry < 2 ^ 64
    → grant_parts (grant_preimage requester target expiry) ≡ (requester, target, expiry)
unfolding grant_preimage
grant_parts-grant_preimage requester target expiry hr ht he = rw (
  scan-decimal requester b':' (decimal target ++ (b':' ∷ decimal expiry)) (omega arith) refl,
  scan-decimal target b':' (decimal expiry) (omega arith) refl,
  scan-decimal_end expiry (omega arith),
)

-- A grant signs its own request only: two requests whose grants are signatures of one text have the
-- same 32-bit requester and target and the same 64-bit expiry.
pub grant_preimage_injective :
    (requester target expiry requester' target' expiry' : ℕ)
    → (requester < 2 ^ 32) × (target < 2 ^ 32) × (expiry < 2 ^ 64)
    → (requester' < 2 ^ 32) × (target' < 2 ^ 32) × (expiry' < 2 ^ 64)
    → grant_preimage requester target expiry ≡ grant_preimage requester' target' expiry'
    → (requester ≡ requester') × (target ≡ target') × (expiry ≡ expiry')
grant_preimage_injective requester target expiry requester' target' expiry' h h' same =
    let read = grant_parts-grant_preimage requester target expiry h.0 h.1 h.2 in
    let read' = grant_parts-grant_preimage requester' target' expiry' h'.0 h'.1 h'.2 in
    let parts = sym read ∙ (ap grant_parts same ∙ read') in (cc parts, cc parts, cc parts)
