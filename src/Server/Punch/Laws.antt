-- ===== src/Server/Punch/Laws.antt =====
-- server.go: what a punch request needs and what it sends.
use beacon.Base.{
  ℕ, ◌+◌, ◌/◌, ◌%◌, ◌^◌, ◌≡◌, ◌≤◌, inl, inr, refl, sym, ap, ◌∙◌, Bool, true, not, ◌||◌, some, List,
  [], ◌∷◌, ◌++◌, ltb, length, take, drop, has, nat_key, bytes_key, arith, Bool-cases, Option-cases,
  length-drop, zero, suc, if_keep, ◌⊎◌,
}
use mathlib.Core.List.{append_assoc}
use beacon.Net.{UdpAddr, ip_string}
use beacon.Wire.{uint32, uint64}
use beacon.NodeMap.{snapshot}
use beacon.RateLimit.{second, punch_allow}
use beacon.Server.{
  Server, Protocol, beacon_punch, breaker_open, write_to_udp, public_key_size, signature_size,
  max_punch_per_second, punch_per_source_interval,
}
use beacon.Server.Discover.{wire_ip, endpoint_message}
use beacon.Server.Punch.{
  target_pub_key, grant_preimage, punch_grant_trailer_size, verify_punch_grant, punch_gate,
  send_punch_command, coordinate, handle_punch_request, latest,
}

-- The grant of a request: signed by the target's key over the requester, the target and the
-- expiry, and not expired.
pub record HasGrant (verify : List ℕ → List ℕ → List ℕ → Bool) (s : Server) (d : List ℕ) (now : ℕ)
    : Type 0 where
  pub pub_key : List ℕ
  pub is_target_key : target_pub_key s (uint32 (drop 4 d)) ≡ some pub_key
  pub key_size : length pub_key ≡ public_key_size
  pub whole : 8 + punch_grant_trailer_size ≤ length d
  pub in_time : now / second ≤ uint64 (drop 8 d)
  pub signed :
      verify pub_key
        (grant_preimage (uint32 d) (uint32 (drop 4 d)) (uint64 (drop 8 d)))
        (take signature_size (drop 16 d))
      ≡ true

drop-nil : (n : ℕ) → drop {A = ℕ} n [] ≡ []
drop-nil zero = refl
drop-nil (suc n) = refl

drop-drop : (m n : ℕ) (xs : List ℕ) → drop n (drop m xs) ≡ drop (m + n) xs
drop-drop zero n xs = ap (λ (i : ℕ). drop i xs) (omega arith)
drop-drop (suc m) n [] = rw (drop-nil n) (sym (drop-nil (suc m + n)))
drop-drop (suc m) n (x ∷ xs) =
    drop-drop m n xs ∙ ap (λ (i : ℕ). drop i (x ∷ xs)) {x = suc (m + n)} (omega arith)

module _ (verify : List ℕ → List ℕ → List ℕ → Bool) where
  verify_punch_grant-HasGrant :
      (s : Server) (d : List ℕ) (now : ℕ)
      → verify_punch_grant verify s (drop 8 d) (uint32 d) (uint32 (drop 4 d)) now ≡ true
      → HasGrant verify s d now
  unfolding verify_punch_grant
  verify_punch_grant-HasGrant s d now h =
      elim (Option-cases (target_pub_key s (uint32 (drop 4 d)))) [
        | inl e ↦ absurd (ground (arith, e))
        | inr (k, e) ↦ record {
          pub_key = k;
          is_target_key = e;
          key_size = ground (arith, e);
          whole = ground (arith, e, length-drop 8 d);
          in_time = ground (arith, e);
          signed = ground (arith, e, drop-drop 8 8 d);
        }
      ]

command_lem :
    (p : Protocol) (s : Server) (id : ℕ) (ip : List ℕ) (port : ℕ) (addr : UdpAddr) (w : List ℕ)
    → s.listening ≡ true
    → snapshot s.nodes id ≡ some addr
    → wire_ip ip ≡ some w
    → (send_punch_command p s id ip port).0
      ≡ write_to_udp s (endpoint_message p.punch_command w port) addr
unfolding send_punch_command
command_lem p s id ip port addr w up known form = ground arith

latest_lem :
    (p : Protocol) (s : Server) (id : ℕ) (at_hand addr : UdpAddr)
    → snapshot s.nodes id ≡ some addr
    → latest p s id at_hand ≡ addr
latest_lem p s id at_hand addr known = rw (known, latest)

-- the gate changes neither the table, nor what was sent, nor what a grant is checked against
pub gate-keeps :
    (s : Server) (remote : UdpAddr) (now : ℕ)
    → let t = (punch_gate s remote now).0 in
      (t.sent ≡ s.sent) × (t.nodes ≡ s.nodes) × (t.require_punch_token ≡ s.require_punch_token)
unfolding punch_gate
gate-keeps s remote now = ground arith

pub gate-grant :
    (verify : List ℕ → List ℕ → List ℕ → Bool) (s : Server) (remote : UdpAddr) (now : ℕ)
    (trailer : List ℕ) (requester target : ℕ)
    → verify_punch_grant verify (punch_gate s remote now).0 trailer requester target now
      ≡ verify_punch_grant verify s trailer requester target now
unfolding punch_gate verify_punch_grant target_pub_key
gate-grant verify s remote now trailer requester target =
    let P = λ (u : Server × Bool).
      verify_punch_grant verify u.0 trailer requester target now
      ≡ verify_punch_grant verify s trailer requester target now in
    if_keep P (s.punch_whitelist_all || has (ip_string remote.ip) s.punch_whitelist) _ _ refl (
      if_keep P (ltb now (s.last_punch_time + second / max_punch_per_second)) _ _ refl (
        if_keep P (punch_allow s.punch_rl (ip_string remote.ip) punch_per_source_interval now).1 _ _
          refl refl))

module _ (p : Protocol) where
  -- If the server listens, the table has both nodes and both addresses have a wire form, then both
  -- nodes are told the other's endpoint, the requester first, and nothing else is sent.
  pub coordinate_sent :
      (s : Server) (requester target : ℕ) (r t : UdpAddr) (r_ip t_ip : List ℕ)
      → s.listening ≡ true
      → snapshot s.nodes requester ≡ some r
      → snapshot s.nodes target ≡ some t
      → wire_ip r.ip ≡ some r_ip
      → wire_ip t.ip ≡ some t_ip
      → (coordinate p s requester target).sent
        ≡ s.sent
          ++ (r, endpoint_message p.punch_command t_ip (t.port % 2 ^ 16))
            ∷ (t, endpoint_message p.punch_command r_ip (r.port % 2 ^ 16))
            ∷ []
  unfolding coordinate write_to_udp
  coordinate_sent s requester target r t r_ip t_ip up hr ht wr wt =
      let s₁ = write_to_udp s (endpoint_message p.punch_command t_ip (t.port % 2 ^ 16)) r in
      rw
        (
          ht,
          hr,
          coordinate,
          latest_lem p s target t t ht,
          command_lem p s requester t.ip (t.port % 2 ^ 16) r t_ip up hr wt,
        )
        (rw
          (
            latest_lem p s₁ requester r r hr,
            command_lem p s₁ target r.ip (r.port % 2 ^ 16) t r_ip up ht wr,
          )
          (append_assoc s.sent _ _))

  module _ (verify : List ℕ → List ℕ → List ℕ → Bool) where
    -- Where tokens are required, a request has a grant of its target, or else nothing is sent and
    -- the table stays as it is.
    pub handle_punch_request-HasGrant :
        (s : Server) (d : List ℕ) (remote : UdpAddr) (now : ℕ)
        → s.require_punch_token ≡ true
        → let t = handle_punch_request p verify s d remote now in
          HasGrant verify s d now ⊎ ((t.sent ≡ s.sent) × (t.nodes ≡ s.nodes))
    unfolding handle_punch_request
    handle_punch_request-HasGrant s d remote now on =
        let P =
          λ (u : Server). HasGrant verify s d now ⊎ ((u.sent ≡ s.sent) × (u.nodes ≡ s.nodes)) in
        let g = punch_gate s remote now in
        let keeps = gate-keeps s remote now in
        let still : P g.0 = inr (keeps.0, keeps.1) in
        let required : g.0.require_punch_token ≡ true = keeps.2 ∙ on in
        let b = verify_punch_grant verify g.0 (drop 8 d) (uint32 d) (uint32 (drop 4 d)) now in
        if_keep P (ltb (length d) 8) _ _ (inr (refl, refl)) (
          if_keep P (breaker_open s beacon_punch) _ _ (inr (refl, refl)) (
            if_keep P (not g.1) _ _ still elim (Bool-cases b) [
              | inl ok ↦ inl (
                  verify_punch_grant-HasGrant verify s d now (
                    rw⁻¹ (gate-grant verify s remote now (drop 8 d) (uint32 d) (uint32 (drop 4 d)))
                      ok))
              | inr bad ↦ rw (required, bad) still
            ]))
