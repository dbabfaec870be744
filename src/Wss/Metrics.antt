-- ===== src/Wss/Metrics.antt =====
-- wss/server.go: the snapshot of the counters, and the listen address.
use beacon.Base.{ℕ, Option, none, some, List}
use beacon.Wss.{WssServer, peer_count}

pub record Metrics : Type 0 where
  pub upgrade_ok : ℕ
  pub upgrade_fail : ℕ
  pub auth_ok : ℕ
  pub auth_fail : ℕ
  pub frames_in : ℕ
  pub frames_out : ℕ
  pub idle_disconns : ℕ
  pub active_peers : ℕ

unfoldable pub metrics : WssServer → Metrics
metrics s = record {
  upgrade_ok = s.upgrade_ok;
  upgrade_fail = s.upgrade_fail;
  auth_ok = s.auth_ok;
  auth_fail = s.auth_fail;
  frames_in = s.frames_in;
  frames_out = s.frames_out;
  idle_disconns = s.idle_disconns;
  active_peers = peer_count s;
}

-- Metrics{}
abbrev pub no_metrics : Metrics
no_metrics = record {
  upgrade_ok = 0;
  upgrade_fail = 0;
  auth_ok = 0;
  auth_fail = 0;
  frames_in = 0;
  frames_out = 0;
  idle_disconns = 0;
  active_peers = 0;
}

-- Addr: the address of the listener, once Start has bound it, or else the configured one
unfoldable pub bound_addr : Option (List ℕ) → List ℕ → List ℕ
bound_addr none bind_addr = bind_addr
bound_addr (some listening_on) bind_addr = listening_on
