-- ===== src/Wss/Config.antt =====
-- wss/server.go, New, and wss/internal/daemonwss/wss.go, Dial: the checks of their configurations.
-- Durations are in seconds.
use beacon.Base.{ℕ, Bool, not, List, ◌==◌, if◌then◌else◌, length, inl, inr, ◌⊎◌}
use beacon.Wss.{WssServer, new_wss}
use beacon.Wss.Transport.{Transport, dialled_transport}

abbrev or_default : ℕ → ℕ → ℕ
or_default n d = if n == 0 then d else n

-- A function of the configuration is a flag: whether it is there.
pub record Config : Type 0 where
  pub bind_addr : List ℕ
  pub pub_key_lookup : Bool
  pub on_frame : Bool
  pub auth_timeout : ℕ
  pub idle_timeout : ℕ
  pub write_timeout : ℕ
  pub max_peers : ℕ

pub data ConfigError : Type 0 where
  no_bind_addr no_pub_key_lookup no_on_frame no_url no_tls_config no_identity dial_failed :
      ConfigError

abbrev pub default_auth_timeout : ℕ
default_auth_timeout = 10

abbrev pub default_idle_timeout : ℕ
default_idle_timeout = 90

abbrev pub default_write_timeout : ℕ
default_write_timeout = 2

unfoldable pub with_timeouts : Config → Config
with_timeouts cfg = record cfg {
  auth_timeout = or_default cfg.auth_timeout default_auth_timeout;
  idle_timeout = or_default cfg.idle_timeout default_idle_timeout;
  write_timeout = or_default cfg.write_timeout default_write_timeout;
}

unfoldable pub new_server : Config → ConfigError ⊎ (Config × WssServer)
new_server cfg =
    if length cfg.bind_addr == 0
    then inl no_bind_addr
    else if not cfg.pub_key_lookup
    then inl no_pub_key_lookup
    else if not cfg.on_frame
    then inl no_on_frame
    else inr (with_timeouts cfg, new_wss cfg.max_peers)

pub record DialConfig : Type 0 where
  pub url : List ℕ
  pub tls_config : Bool
  pub identity : Bool
  pub recv_buffer : ℕ

-- Dial; `connected`: whether its dialAndAuth succeeds.
unfoldable pub dial_transport : DialConfig → Bool → ConfigError ⊎ Transport
dial_transport cfg connected =
    if length cfg.url == 0
    then inl no_url
    else if not cfg.tls_config
    then inl no_tls_config
    else if not cfg.identity
    then inl no_identity
    else if not connected
    then inl dial_failed
    else inr (dialled_transport cfg.recv_buffer)
