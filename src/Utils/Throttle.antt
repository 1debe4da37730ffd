-- ===== src/Utils/Throttle.antt =====
-- src/pf_core/utils/throttle.py: a minimum interval between calls. Times are whole microseconds; the
-- slot is reserved under a lock, so calls by several threads are a list in the order of the lock.
pub mod Spacing
use pf_core.Prelude.{ℕ, ◌+◌, ◌-◌, Bool, List, [], ◌∷◌, ltb, leb, ℤ, pos_part, if◌then◌else◌}

pub record Throttle : Type 0 where
  pub min_interval : ℕ
  pub next_allowed : ℕ

abbrev pub new : ℤ → Throttle
new min_interval = record { min_interval = pos_part min_interval; next_allowed = 0 }

-- the slot that a caller at `now` reserves
abbrev pub slot : ℕ → Throttle → ℕ
slot now th = if ltb now th.next_allowed then th.next_allowed else now

-- acquire: the seconds slept, and the state
unfoldable pub acquire : ℕ → Throttle → ℕ × Throttle
acquire now th =
    if leb th.min_interval 0
    then (0, th)
    else (slot now th - now, record th { next_allowed = slot now th + th.min_interval })

-- the times at which callers go on that came at the given times
unfoldable pub grants : List ℕ → Throttle → List ℕ
unfolding acquire
grants [] th = []
grants (now ∷ nows) th = (now + (acquire now th).0) ∷ grants nows (acquire now th).1
