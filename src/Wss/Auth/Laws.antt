-- ===== src/Wss/Auth/Laws.antt =====
-- wss/server.go and wss/internal/daemonwss/wss.go: whom the handshake lets in.
use beacon.Base.{
  ℕ, ◌+◌, ◌*◌, ◌<◌, ◌≤◌, ◌^◌, ◌≡◌, ◌⊎◌, ◌≢◌, refl, sym, ap, ◌∙◌, Bool, true, Option, some, List,
  ◌∷◌, ◌++◌, drop, length, arith, Option-cases, inl, inr,
}
use beacon.Net.{codes, decimal}
use beacon.Net.Decimal.{scan, scan-decimal}
use beacon.Wss.Auth.{
  AuthChallenge, AuthReply, AuthOk, Codec, AuthRead, failed, text, no_text, ok, max_auth_age,
  public_key_size, auth_message, challenge_of, check_reply, run_auth, answer, client_run_auth,
}

-- the id, the second and the nonce of a signed text
abbrev message_parts : List ℕ → ℕ × ℕ × List ℕ
message_parts message =
    let id = scan 0 (drop 12 message) in let ts = scan 0 (drop 1 id.1) in (id.0, ts.0, drop 1 ts.1)

message_parts-auth_message :
    (id ts : ℕ) (nonce : List ℕ)
    → id < 2 ^ 32
    → ts < 2 ^ 63
    → message_parts (auth_message id ts nonce) ≡ (id, ts, nonce)
unfolding auth_message
message_parts-auth_message id ts nonce hi ht = rw (
  scan-decimal id b':' (decimal ts ++ (b':' ∷ nonce)) (omega arith) refl,
  scan-decimal ts b':' nonce (omega arith) refl,
)

-- A signature answers one challenge of one node: the signed texts of two handshakes agree only if
-- the node ids, the seconds and the nonces do.
pub auth_message_injective :
    (id ts : ℕ) (nonce : List ℕ) (id' ts' : ℕ) (nonce' : List ℕ)
    → (id < 2 ^ 32) × (ts < 2 ^ 63)
    → (id' < 2 ^ 32) × (ts' < 2 ^ 63)
    → auth_message id ts nonce ≡ auth_message id' ts' nonce'
    → (id ≡ id') × (ts ≡ ts') × (nonce ≡ nonce')
auth_message_injective id ts nonce id' ts' nonce' h h' same =
    let read = message_parts-auth_message id ts nonce h.0 h.1 in
    let read' = message_parts-auth_message id' ts' nonce' h'.0 h'.1 in
    let parts = sym read ∙ (ap message_parts same ∙ read') in (cc parts, cc parts, cc parts)

-- What stands behind an accepted id: a signature by the key on record for it, over this
-- challenge's nonce and second, at most 30 seconds old.
pub record Proof (c : Codec) (verify : List ℕ → List ℕ → List ℕ → Bool)
    (look_up : ℕ → Option (List ℕ)) (nonce : List ℕ) (ts now id : ℕ) : Type 0 where
  pub pub_key : List ℕ
  pub sig : List ℕ
  pub on_record : look_up id ≡ some pub_key
  pub key_size : length pub_key ≡ public_key_size
  pub signed : verify pub_key (auth_message id ts nonce) sig ≡ true
  pub not_before : ts ≤ now
  pub not_after : now ≤ ts + max_auth_age
  pub some_id : id ≢ 0

text_body_cases :
    (r : AuthRead)
    → ((body : List ℕ) × (r ≡ text body)) ⊎ ((r ≡ failed) ⊎ ((body : List ℕ) × (r ≡ no_text body)))
text_body_cases failed = inr (inl refl)
text_body_cases (text body) = inl (body, refl)
text_body_cases (no_text body) = inr (inr (body, refl))

module _ (c : Codec) (verify : List ℕ → List ℕ → List ℕ → Bool)
    (look_up : ℕ → Option (List ℕ)) where
  check_reply-Proof :
      (nonce : List ℕ) (ts now : ℕ) (body : List ℕ) (id : ℕ)
      → check_reply c verify look_up nonce ts now body ≡ ok id
      → Proof c verify look_up nonce ts now id
  unfolding check_reply
  check_reply-Proof nonce ts now body id h = elim (Option-cases (c.get_reply body)) [
    | inl e ↦ absurd (ground (arith, e))
    | inr (r, e) ↦ elim (Option-cases (look_up r.node_id)) [
      | inl u ↦ absurd (ground (arith, e, u))
      | inr (k, u) ↦ elim (Option-cases (c.decode r.sig)) [
        | inl d ↦ absurd (ground (arith, e, u, d))
        | inr (s, d) ↦ record {
          pub_key = k;
          sig = s;
          on_record = ground (arith, e, u, d);
          key_size = ground (arith, e, u, d);
          signed = ground (arith, e, u, d);
          not_before = ground (arith, e, u, d);
          not_after = ground (arith, e, u, d);
          some_id = λ z. ground (arith, e, u, d, z);
        }
      ]
    ]
  ]

  -- The server accepts an id only with a proof of it.
  pub run_auth-Proof :
      (random : List ℕ) (ts : ℕ) (written : Bool) (reply : AuthRead) (now : ℕ) (ok_written : Bool)
      (id : ℕ)
      → run_auth c verify look_up (some random) ts written reply now ok_written ≡ ok id
      → Proof c verify look_up (c.hex random) ts now id
  unfolding run_auth
  run_auth-Proof random ts written reply now ok_written id h = elim (text_body_cases reply) [
    | inl (body, e) ↦ check_reply-Proof (c.hex random) ts now body id (ground (arith, e))
    | inr refused ↦ absurd (ground (arith, refused))
  ]

-- What the library calls rely on: each message, and base64, is read back.
pub record IsCodec (c : Codec) : Type 0 where
  pub challenge_back : (m : AuthChallenge) → c.get_challenge (c.put_challenge m) ≡ some m
  pub reply_back : (m : AuthReply) → c.get_reply (c.put_reply m) ≡ some m
  pub ok_back : (m : AuthOk) → c.get_ok (c.put_ok m) ≡ some m
  pub decode-encode : (bytes : List ℕ) → c.decode (c.encode bytes) ≡ some bytes
  pub length-hex : (bytes : List ℕ) → length (c.hex bytes) ≡ 2 * length bytes

-- A daemon whose key is on record and a server that talk to each other within 30 seconds agree: the
-- daemon finishes its side, and the server accepts its id.
pub run_auth-client_run_auth :
    (c : Codec) (verify : List ℕ → List ℕ → List ℕ → Bool) (look_up : ℕ → Option (List ℕ))
    (sign : List ℕ → List ℕ) (public_key : List ℕ) (id : ℕ) (random : List ℕ) (ts now : ℕ)
    → IsCodec c
    → ((m : List ℕ) → verify public_key m (sign m) ≡ true)
    → look_up id ≡ some public_key
    → length public_key ≡ public_key_size
    → id ≢ 0
    → length random ≡ 32
    → ts ≤ now
    → now ≤ ts + max_auth_age
    → (reply : List ℕ) × (client_run_auth c sign public_key id
          (text (c.put_challenge (challenge_of (c.hex random) ts)))
          true
          (text (c.put_ok (record { type_name = codes "auth_ok" })))
        ≡ ok reply)
      × (run_auth c verify look_up (some random) ts true (text reply) now true ≡ ok id)
unfolding client_run_auth answer run_auth check_reply challenge_of
run_auth-client_run_auth c verify look_up sign public_key id random ts now v good known size nonzero
      long early late =
    (
      c.put_reply (record {
        type_name = codes "auth_reply";
        node_id = id;
        public_key = c.encode public_key;
        sig = c.encode (sign (auth_message id ts (c.hex random)));
      }),
      ground (
        arith,
        v.challenge_back (challenge_of (c.hex random) ts),
        v.ok_back (record { type_name = codes "auth_ok" }),
        v.length-hex random,
      ),
      ground (
        arith,
        v.reply_back (record {
          type_name = codes "auth_reply";
          node_id = id;
          public_key = c.encode public_key;
          sig = c.encode (sign (auth_message id ts (c.hex random)));
        }),
        known,
        v.decode-encode (sign (auth_message id ts (c.hex random))),
        good (auth_message id ts (c.hex random)),
      ),
    )
