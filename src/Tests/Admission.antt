-- ===== src/Tests/Admission.antt =====
-- The handshake of the bridge at a concrete input: node 4, whose key begins with 9.
use beacon.Base.{
  take-append, drop-append, ℕ, ◌≡◌, ◌⊎◌, refl, Bool, true, false, Option, none, some, List, ◌∷◌,
  ◌++◌, replicate, length, length-append, take, drop, lookup, nat_key, arith, ◌==◌, ◌&&◌,
  same_bytes, same_bytes_refl, if◌then◌else◌,
}
use beacon.Net.{codes}
use beacon.Server.Punch.Grants.{grant_preimage_injective}
use beacon.Wss.{new_wss}
use beacon.Wss.Auth.{
  AuthChallenge, AuthReply, Codec, text, ok, run_auth, client_run_auth, challenge_of, auth_message,
}
use beacon.Wss.Auth.Laws.{IsCodec, Proof, run_auth-client_run_auth}
use beacon.Wss.Admit.{upgrade_request, upgrade_request-Proof}

abbrev read_challenge : List ℕ → Option AuthChallenge
read_challenge (ts ∷ n ∷ r) =
    some (record { type_name = take n r; nonce = drop n r; timestamp = ts })
read_challenge _ = none

abbrev read_reply : List ℕ → Option AuthReply
read_reply (id ∷ n ∷ m ∷ r) = some (record {
  type_name = take n r;
  node_id = id;
  public_key = take m (drop n r);
  sig = drop m (drop n r);
})
read_reply _ = none

-- messages as their fields one after the other, behind the lengths
abbrev plain : Codec
plain = record {
  put_challenge = λ m. m.timestamp ∷ length m.type_name ∷ (m.type_name ++ m.nonce);
  get_challenge = read_challenge;
  put_reply = λ m.
      m.node_id
      ∷ length m.type_name
      ∷ length m.public_key
      ∷ (m.type_name ++ (m.public_key ++ m.sig));
  get_reply = read_reply;
  put_ok = λ m. m.type_name;
  get_ok = λ body. some (record { type_name = body });
  hex = λ bytes. bytes ++ bytes;
  encode = λ bytes. bytes;
  decode = some;
}

plain-IsCodec : IsCodec plain
plain-IsCodec = record {
  challenge_back = λ m. cc (take-append m.type_name m.nonce, drop-append m.type_name m.nonce);
  reply_back = λ m. cc (
    take-append m.type_name (m.public_key ++ m.sig),
    drop-append m.type_name (m.public_key ++ m.sig),
    take-append m.public_key m.sig,
    drop-append m.public_key m.sig,
  );
  ok_back = λ m. refl;
  decode-encode = λ bytes. refl;
  length-hex = λ bytes. omega (arith, length-append bytes bytes);
}

abbrev key : List ℕ
key = replicate 32 9

-- a signature is the key's first byte and the text, and is checked by both
abbrev sign : List ℕ → List ℕ
sign message = 9 ∷ message

abbrev check : List ℕ → List ℕ → List ℕ → Bool
check (k ∷ ks) message (s ∷ sig) = (k == s) && same_bytes message sig
check _ message sig = false

abbrev keys : ℕ → Option (List ℕ)
keys id = if id == 4 then some key else none

abbrev nonce : List ℕ
nonce = replicate 32 7

run_auth-client_run_auth_example :
    (reply : List ℕ) × (client_run_auth plain sign key 4
        (text (plain.put_challenge (challenge_of (plain.hex nonce) 100)))
        true
        (text (plain.put_ok (record { type_name = codes "auth_ok" })))
      ≡ ok reply)
    × (run_auth plain check keys (some nonce) 100 true (text reply) 102 true ≡ ok 4)
run_auth-client_run_auth_example =
    run_auth-client_run_auth plain check keys sign key 4 nonce 100 102 plain-IsCodec
      (λ m. same_bytes_refl m) refl refl (λ e. absurd (omega (arith, e))) refl (omega arith)
      (omega arith)

-- the reply of node 4 to that challenge
abbrev reply : List ℕ
reply = plain.put_reply (record {
  type_name = codes "auth_reply";
  node_id = 4;
  public_key = key;
  sig = sign (auth_message 4 100 (plain.hex nonce));
})

upgrade_request-Proof_example :
    (lookup 4
        (upgrade_request plain check keys
          (new_wss 2)
          true
          (some nonce)
          100
          true
          (text reply)
          102
          true).0.peers
      ≡ lookup 4 (new_wss 2).peers)
    ⊎ Proof plain check keys (plain.hex nonce) 100 102 4
upgrade_request-Proof_example =
    upgrade_request-Proof plain check keys (new_wss 2) true nonce 100 true (text reply) 102 true 4

abbrev expiry : ℕ
expiry = 900

grant_preimage_injective_example : (expiry ≡ expiry) × (expiry ≡ expiry) × (expiry ≡ expiry)
grant_preimage_injective_example =
    grant_preimage_injective expiry expiry expiry expiry expiry expiry
      (omega arith, omega arith, omega arith) (omega arith, omega arith, omega arith) refl
