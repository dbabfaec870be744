-- ===== src/Wss/Auth.antt =====
-- wss/server.go and wss/internal/daemonwss/wss.go: runAuth on both sides of a connection. What
-- encoding/json, encoding/base64, crypto/ed25519, the identity and the connection do is an argument.
pub mod Laws
use beacon.Base.{
  ℕ, ◌+◌, ◌*◌, ◌/◌, Bool, true, false, not, ◌||◌, ◌&&◌, Option, none, some, List, [], ◌∷◌, ◌++◌,
  ltb, leb, ◌==◌, if◌then◌else◌, length, same_bytes,
}
use beacon.Net.{codes, decimal}

-- the three messages, by their JSON fields; Go's zero value stands for a field that is left out
pub record AuthChallenge : Type 0 where
  pub type_name : List ℕ
  pub nonce : List ℕ
  pub timestamp : ℕ

pub record AuthReply : Type 0 where
  pub type_name : List ℕ
  pub node_id : ℕ
  pub public_key : List ℕ
  pub sig : List ℕ

pub record AuthOk : Type 0 where
  pub type_name : List ℕ

-- json.Marshal and json.Unmarshal of the three, hex and base64 text
pub record Codec : Type 0 where
  pub put_challenge : AuthChallenge → List ℕ
  pub get_challenge : List ℕ → Option AuthChallenge
  pub put_reply : AuthReply → List ℕ
  pub get_reply : List ℕ → Option AuthReply
  pub put_ok : AuthOk → List ℕ
  pub get_ok : List ℕ → Option AuthOk
  pub hex : List ℕ → List ℕ
  pub encode : List ℕ → List ℕ
  pub decode : List ℕ → Option (List ℕ)

-- what conn.Read returns
pub data AuthRead : Type 0 where
  failed : AuthRead
  text : List ℕ → AuthRead
  no_text : List ℕ → AuthRead

pub data AuthError : Type 0 where
  nonce_gen write_challenge read_challenge parse_challenge bad_challenge write_reply read_reply
        not_text parse_reply :
      AuthError
  malformed_reply unknown_node bad_public_key bad_sig_encoding auth_expired verify_failed write_ok :
      AuthError
  read_ok parse_ok rejected : AuthError

pub data Result (A : Type 0) : Type 0 where
  ok : A → Result A
  err : AuthError → Result A

infixl 5 ◌>>=◌ ◌>>◌
abbrev pub ◌>>=◌ : {A B : Type 0} → Result A → (A → Result B) → Result B
ok a >>= f = f a
err e >>= f = err e

abbrev pub ◌>>◌ : {B : Type 0} → Result (Unit {0}) → Result B → Result B
m >> k = m >>= λ _. k

abbrev pub guard : Bool → AuthError → Result (Unit {0})
guard true e = ok tt
guard false e = err e

abbrev pub required : {A : Type 0} → Option A → AuthError → Result A
required none e = err e
required (some a) e = ok a

abbrev pub text_body : AuthRead → AuthError → AuthError → Result (List ℕ)
text_body failed e e' = err e
text_body (text body) e e' = ok body
text_body (no_text body) e e' = err e'

abbrev pub max_auth_age : ℕ
max_auth_age = 30

abbrev pub public_key_size : ℕ
public_key_size = 32

-- fmt.Sprintf("compat_auth:%d:%d:%s", nodeID, ts, nonce)
unfoldable pub auth_message : ℕ → ℕ → List ℕ → List ℕ
auth_message id ts nonce =
    codes "compat_auth:" ++ (decimal id ++ (b':' ∷ (decimal ts ++ (b':' ∷ nonce))))

unfoldable pub challenge_of : List ℕ → ℕ → AuthChallenge
challenge_of nonce ts = record { type_name = codes "auth_challenge"; nonce = nonce; timestamp = ts }

module _ (c : Codec) (verify : List ℕ → List ℕ → List ℕ → Bool)
    (look_up : ℕ → Option (List ℕ)) where
  -- The check of a reply that has been read, at second `now`, to the challenge of second `ts`.
  unfoldable pub check_reply : List ℕ → ℕ → ℕ → List ℕ → Result ℕ
  check_reply nonce ts now body = do
    reply ← required (c.get_reply body) parse_reply
    guard (same_bytes reply.type_name (codes "auth_reply") && not (reply.node_id == 0))
        malformed_reply
    pub_key ← required (look_up reply.node_id) unknown_node
    guard (length pub_key == public_key_size) bad_public_key
    sig ← required (c.decode reply.sig) bad_sig_encoding
    guard (not (ltb now ts || ltb (ts + max_auth_age) now)) auth_expired
    guard (verify pub_key (auth_message reply.node_id ts nonce) sig) verify_failed
    ok reply.node_id

  -- The server's runAuth: the random bytes, the outcome of each write, and what the read returned.
  unfoldable pub run_auth : Option (List ℕ) → ℕ → Bool → AuthRead → ℕ → Bool → Result ℕ
  run_auth random ts challenge_written reply now ok_written = do
    nonce_bytes ← required random nonce_gen
    guard challenge_written write_challenge
    body ← text_body reply read_reply not_text
    id ← check_reply (c.hex nonce_bytes) ts now body
    guard ok_written write_ok
    ok id

-- the reply of a daemon to a challenge text; `sign` and `public_key` are its identity's
unfoldable pub answer : Codec → (List ℕ → List ℕ) → List ℕ → ℕ → List ℕ → Result (List ℕ)
answer c sign public_key id body = do
  ch ← required (c.get_challenge body) parse_challenge
  guard (same_bytes ch.type_name (codes "auth_challenge") && not (length ch.nonce == 0))
      bad_challenge
  ok (
      c.put_reply (record {
        type_name = codes "auth_reply";
        node_id = id;
        public_key = c.encode public_key;
        sig = c.encode (sign (auth_message id ch.timestamp ch.nonce));
      }))

-- the daemon's runAuth, as its outcome: what it wrote, or why it gave up
unfoldable pub client_run_auth :
    Codec → (List ℕ → List ℕ) → List ℕ → ℕ → AuthRead → Bool → AuthRead → Result (List ℕ)
client_run_auth c sign public_key id challenge reply_written last = do
  body ← text_body challenge read_challenge not_text
  reply ← answer c sign public_key id body
  guard reply_written write_reply
  ok_body ← text_body last read_ok not_text
  done ← required (c.get_ok ok_body) parse_ok
  guard (same_bytes done.type_name (codes "auth_ok")) rejected
  ok reply

-- what the daemon's dialAndAuth returns: a connection, or the error of websocket.Dial or of runAuth
pub data DialOutcome : Type 0 where
  authenticated_conn wss_dial : DialOutcome
  wss_auth : AuthError → DialOutcome

abbrev auth_outcome : Result (List ℕ) → DialOutcome
auth_outcome (ok reply) = authenticated_conn
auth_outcome (err e) = wss_auth e

-- `dialled` is the outcome of websocket.Dial, and the rest is that of client_run_auth.
unfoldable pub dial_and_auth :
    Codec → (List ℕ → List ℕ) → List ℕ → ℕ → Bool → AuthRead → Bool → AuthRead → DialOutcome
dial_and_auth c sign public_key id dialled challenge reply_written last =
    if dialled
    then auth_outcome (client_run_auth c sign public_key id challenge reply_written last)
    else wss_dial
