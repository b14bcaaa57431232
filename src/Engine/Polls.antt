-- ===== src/Engine/Polls.antt =====
-- services/dispenser-service/src/engine/state.rs, `note_dispenser_poll` and `on_poll_missed`: the ends of
-- ghost recovery and of a link that is lost.
use fuel_station_controller.Base.{ℕ, zero, suc, ◌-◌, ◌≤◌, Bool, true, false}
use fuel_station_controller.Engine.Runtime.{RuntimeFp}
use fuel_station_controller.Engine.Session.{note_dispenser_poll}

-- Idle polls of the pump, one after the other.
abbrev pub idle_polls : {V : Type 0} → ℕ → RuntimeFp V → RuntimeFp V
idle_polls zero s = s
idle_polls (suc n) s = idle_polls n (note_dispenser_poll true s)

-- The polls that recovery waits for.
abbrev polls_left : Bool → ℕ → ℕ
polls_left false k = 0
polls_left true k = 4 - k

module _ {V : Type 0} where
  left_of : RuntimeFp V → ℕ
  left_of s = polls_left s.wayne.ghost_recovery s.wayne.consecutive_idle_polls

  record CountsDown (s t : RuntimeFp V) : Type 0 where
    counted : left_of t ≤ left_of s - 1
