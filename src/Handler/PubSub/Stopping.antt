-- ===== src/Handler/PubSub/Stopping.antt =====
-- Handle waits on a condition variable for the flag that Stop sets; both under one mutex, so each of
-- their locked sections is a step. A wake-up, be it by notify_one or spurious, tests the flag.
use sapper_bricks.Prelude.{◌≡◌, Bool, true, false, Option, none, some, if◌then◌else◌, arith}

pub record Waiting : Type 0 where
  pub stop_requested : Bool
  -- the wait of Handle is over
  pub returned : Bool

abbrev pub start : Waiting
start = record { stop_requested = false; returned = false }

unfoldable pub stop : Waiting → Waiting
stop t = record t { stop_requested = true }

-- One look at the predicate of the wait: none means that Handle waits on.
unfoldable pub wake : Waiting → Option Waiting
wake t = if t.stop_requested then some (record t { returned = true }) else none

pub data Step (t : Waiting) (u : Waiting) : Type 0 where
  stops : u ≡ stop t → Step t u
  wakes : wake t ≡ some u → Step t u

pub data Reach (t : Waiting) : Waiting → Type 0 where
  here : Reach t t
  next : {u v : Waiting} → Reach t u → Step u v → Reach t v

-- In whatever order Stop is called and Handle wakes up, Handle returns only after a Stop, and once
-- Stop was called, also before Handle waits, the next look at the flag ends the wait.
pub Reach-returned :
    {u : Waiting}
    → Reach start u
    → (u.returned ≡ true → u.stop_requested ≡ true)
      × (u.stop_requested ≡ true → wake u ≡ some (record u { returned = true }))
unfolding wake stop
Reach-returned here = (λ h. cc, λ h. cc)
Reach-returned (next r (stops e)) = (λ h. ground (arith, e), λ h. ground (arith, e))
Reach-returned (next r (wakes e)) = (λ h. ground (arith, e), λ h. ground (arith, e))
