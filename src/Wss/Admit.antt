-- ===== src/Wss/Admit.antt =====
-- wss/server.go: handleUpgrade with runAuth: whom the map of peers takes in.
use beacon.Base.{
  ℕ, ◌≡◌, ◌⊎◌, inl, inr, refl, ap, subst, Bool, false, Option, none, some, List, lookup,
  lookup-insert, nat_key, ◌==◌, ==_iff, Bool-cases, if_keep, option_keep, arith,
}
use beacon.Wss.{WssServer, bump, shut_peer, replaced, install, handle_upgrade}
use beacon.Wss.Auth.{Codec, AuthRead, Result, ok, err, run_auth}
use beacon.Wss.Auth.Laws.{Proof, run_auth-Proof}

abbrev pub authenticated : Result ℕ → Option ℕ
authenticated (ok id) = some id
authenticated (err e) = none

module _ (c : Codec) (verify : List ℕ → List ℕ → List ℕ → Bool)
    (look_up : ℕ → Option (List ℕ)) where
  -- The whole of handleUpgrade before its read loop.
  unfoldable pub upgrade_request :
      WssServer → Bool → Option (List ℕ) → ℕ → Bool → AuthRead → ℕ → Bool → WssServer × Option ℕ
  upgrade_request s accepted random ts challenge_written reply now ok_written =
      handle_upgrade s accepted
        (authenticated (run_auth c verify look_up random ts challenge_written reply now ok_written))

replaced-peers : (s : WssServer) (id : ℕ) → (replaced s id).peers ≡ s.peers
unfolding replaced shut_peer
replaced-peers s id =
    option_keep (λ (t : WssServer). t.peers ≡ s.peers) (lookup id s.peers) _ _ refl (λ h. refl)

lookup-install :
    (s : WssServer) (id j : ℕ)
    → (id == j) ≡ false
    → lookup j (install s id).0.peers ≡ lookup j s.peers
unfolding install
lookup-install s id j other =
    if_keep (λ (r : WssServer × Option ℕ). lookup j r.0.peers ≡ lookup j s.peers) s.closed _ _ refl
      (rw (replaced-peers s id, lookup-insert) (rw other refl))

handle_upgrade-none :
    (s : WssServer) (accepted : Bool) → (handle_upgrade s accepted none).0.peers ≡ s.peers
unfolding handle_upgrade
handle_upgrade-none s accepted = ground arith

handle_upgrade_other :
    (s : WssServer) (accepted : Bool) (id j : ℕ)
    → (id == j) ≡ false
    → lookup j (handle_upgrade s accepted (some id)).0.peers ≡ lookup j s.peers
unfolding handle_upgrade
handle_upgrade_other s accepted id j other = ground (
  arith,
  lookup-install (record s { upgrade_ok = bump s.upgrade_ok; auth_ok = bump s.auth_ok }) id j other,
)

-- An upgrade changes at most the entry of a node whose key on record signed this upgrade's
-- challenge, at most 30 seconds after it was made. Every other entry of the map of peers stays.
pub upgrade_request-Proof :
    (c : Codec) (verify : List ℕ → List ℕ → List ℕ → Bool) (look_up : ℕ → Option (List ℕ))
    (s : WssServer) (accepted : Bool) (random : List ℕ) (ts : ℕ) (written : Bool) (reply : AuthRead)
    (now : ℕ) (ok_written : Bool) (j : ℕ)
    → (lookup j
          (upgrade_request c verify look_up s accepted
            (some random)
            ts
            written
            reply
            now
            ok_written).0.peers
        ≡ lookup j s.peers)
      ⊎ Proof c verify look_up (c.hex random) ts now j
unfolding upgrade_request
upgrade_request-Proof c verify look_up s accepted random ts written reply now ok_written j =
    of_result (run_auth c verify look_up (some random) ts written reply now ok_written)
      (λ id e. run_auth-Proof c verify look_up random ts written reply now ok_written id e)
  where
    of_result :
        (r : Result ℕ)
        → ((id : ℕ) → r ≡ ok id → Proof c verify look_up (c.hex random) ts now id)
        → (lookup j (handle_upgrade s accepted (authenticated r)).0.peers ≡ lookup j s.peers)
          ⊎ Proof c verify look_up (c.hex random) ts now j
    of_result (err e) p = inl (ap (lookup j) (handle_upgrade-none s accepted))
    of_result (ok id) p = elim (Bool-cases (id == j)) [
      | inl e ↦ inr (
          subst (λ k. Proof c verify look_up (c.hex random) ts now k) ((==_iff id j).0 e)
            (p id refl))
      | inr e ↦ inl (handle_upgrade_other s accepted id j e)
    ]
