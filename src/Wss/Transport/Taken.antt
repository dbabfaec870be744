-- ===== src/Wss/Transport/Taken.antt =====
-- wss/internal/daemonwss/wss.go: what a step of the daemon's transport gives, if it is taken.
use beacon.Base.{◌≡◌, Bool, true, false, Option, none, some, if◌then◌else◌, if_keep_by}
use beacon.Wss.Transport.{
  Transport, Answer, go, read, woken, dial, on_go, on_read, on_woken, on_dial, ReadAnswer, Wake,
  or_stay,
}

-- what a step gives, if it is taken
abbrev pub IfTaken : (Transport → Type 0) → Option Transport → Type 0
IfTaken P none = Unit
IfTaken P (some t) = P t

pub or_stay-IfTaken :
    (P : Transport → Type 0) (t : Transport) (o : Option Transport)
    → P t
    → IfTaken P o
    → P (or_stay t o)
or_stay-IfTaken P t none p q = p
or_stay-IfTaken P t (some u) p q = q

module _ (P : Transport → Type 0) where
  pub on_go-IfTaken : (a : Answer) (o : Option Transport) → IfTaken P o → IfTaken P (on_go a o)
  on_go-IfTaken go o p = p
  on_go-IfTaken (read r) o p = tt
  on_go-IfTaken (woken w) o p = tt
  on_go-IfTaken (dial s) o p = tt

  pub on_read-IfTaken :
      (a : Answer) (f : ReadAnswer → Option Transport)
      → ((r : ReadAnswer) → IfTaken P (f r))
      → IfTaken P (on_read a f)
  on_read-IfTaken go f p = tt
  on_read-IfTaken (read r) f p = p r
  on_read-IfTaken (woken w) f p = tt
  on_read-IfTaken (dial s) f p = tt

  pub on_woken-IfTaken :
      (a : Answer) (f : Wake → Option Transport)
      → ((w : Wake) → IfTaken P (f w))
      → IfTaken P (on_woken a f)
  on_woken-IfTaken go f p = tt
  on_woken-IfTaken (read r) f p = tt
  on_woken-IfTaken (woken w) f p = p w
  on_woken-IfTaken (dial s) f p = tt

  pub on_dial-IfTaken :
      (a : Answer) (f : Bool → Option Transport)
      → ((s : Bool) → IfTaken P (f s))
      → IfTaken P (on_dial a f)
  on_dial-IfTaken go f p = tt
  on_dial-IfTaken (read r) f p = tt
  on_dial-IfTaken (woken w) f p = tt
  on_dial-IfTaken (dial s) f p = p s

  -- how a step of the supervisor is shown to keep something: place by place
  pub if-IfTaken :
      (b : Bool) (x y : Option Transport)
      → (b ≡ true → IfTaken P x)
      → (b ≡ false → IfTaken P y)
      → IfTaken P (if b then x else y)
  if-IfTaken b x y p q = if_keep_by (IfTaken P) b x y p q
