-- ===== src/Wss/Upgrading.antt =====
-- wss/server.go: handleUpgrade as it runs beside other requests. The lock is not held from the
-- capacity check to the installation, so other goroutines run between its steps.
pub mod Bound
pub mod Excess
use beacon.Base.{ℕ, zero, suc, ◌<◌, ◌^◌, ◌≡◌, Bool, Option, none, some, List, [], ◌∷◌, ◌++◌, length}
use beacon.Base.{if◌then◌else◌}
use beacon.Wss.{
  WssServer, new_wss, bump, at_capacity, install, write_frame, loop_head, after_read, pass_on,
  ReadEvent, close_wss,
}

-- where a call of handleUpgrade stands: past the capacity check, past websocket.Accept, past
-- runAuth with a node's id
pub data Upgrade : Type 0 where
  admitted accepted : Upgrade
  authenticated : ℕ → Upgrade

-- what the call gets: whether websocket.Accept succeeds, and the node id that runAuth returns, if
-- it does not return an error
pub record UpgradeOutcome : Type 0 where
  pub accept_ok : Bool
  pub auth : Option ℕ

-- runAuth returns a uint32 that is not 0.
abbrev pub IsOutcome : UpgradeOutcome → Type 0
IsOutcome o = (id : ℕ) → o.auth ≡ some id → (0 < id) × (id < 2 ^ 32)

-- the capacity check
unfoldable pub check_capacity : WssServer → WssServer × List Upgrade
check_capacity s =
    if at_capacity s
    then (record s { upgrade_fail = bump s.upgrade_fail }, [])
    else (s, admitted ∷ [])

-- The next step of a call. The list is empty if the call returns or goes on to its read loop.
unfoldable pub advance : WssServer → Upgrade → UpgradeOutcome → WssServer × List Upgrade
advance s admitted o =
    if o.accept_ok
    then (record s { upgrade_ok = bump s.upgrade_ok }, accepted ∷ [])
    else (record s { upgrade_fail = bump s.upgrade_fail }, [])
advance s accepted o = elim o.auth [
  | none ↦ (record s { auth_fail = bump s.auth_fail }, [])
  | some id ↦ (record s { auth_ok = bump s.auth_ok }, authenticated id ∷ [])
]
advance s (authenticated id) o = ((install s id).0, [])

-- A call without others beside it. Three steps take every call to its end.
unfoldable pub finish : ℕ → WssServer × List Upgrade → UpgradeOutcome → WssServer
finish zero (s, us) o = s
finish (suc n) (s, []) o = s
finish (suc n) (s, u ∷ us) o = finish n (advance s u o) o

-- A step of another goroutine: a write of a relay worker, a step of a read loop (its head, a read
-- with its tests, what follows them), or Close.
pub data Elsewhere : WssServer → WssServer → Type 0 where
  write :
      (s : WssServer) (dest : ℕ) (frame : List ℕ) (write_ok : Bool)
      → Elsewhere s (write_frame s dest frame write_ok).0
  head : (s : WssServer) (h : ℕ) → Elsewhere s (loop_head s h).0
  read : (s : WssServer) (h : ℕ) (e : ReadEvent) → Elsewhere s (after_read s h e).0
  pass : (s : WssServer) → Elsewhere s (pass_on s)
  close : (s : WssServer) → Elsewhere s (close_wss s)

-- What a bridge of `cap` peers and the calls that run become, in any interleaving in which no more
-- than `limit` calls run at a time.
pub data Concurrent (cap limit : ℕ) : WssServer → List Upgrade → Type 0 where
  at_start : Concurrent cap limit (new_wss cap) []
  request :
      (s : WssServer) (us : List Upgrade)
      → Concurrent cap limit s us
      → length us < limit
      → Concurrent cap limit (check_capacity s).0 ((check_capacity s).1 ++ us)
  progress :
      (s : WssServer) (before : List Upgrade) (u : Upgrade) (later : List Upgrade)
      (o : UpgradeOutcome)
      → IsOutcome o
      → Concurrent cap limit s (before ++ u ∷ later)
      → Concurrent cap limit (advance s u o).0 (before ++ ((advance s u o).1 ++ later))
  elsewhere :
      (s t : WssServer) (us : List Upgrade)
      → Concurrent cap limit s us
      → Elsewhere s t
      → Concurrent cap limit t us
