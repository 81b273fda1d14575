-- ===== src/Server/Tick.antt =====
-- The length of a tick.
use shinzui.Base.{ℕ, ◌+◌, ◌-◌, ◌≡◌, arith}
use shinzui.Server.{next_sleep, heart_beat}

-- If what passed since the last update is the last sleep and some work, the tick sleeps for the rest
-- of the heart beat, or not at all if the work took longer, whatever the last sleep was.
pub next_sleep_lem : (prev work : ℕ) → next_sleep (prev + work) prev ≡ heart_beat - work
unfolding next_sleep
next_sleep_lem prev work = ground arith
