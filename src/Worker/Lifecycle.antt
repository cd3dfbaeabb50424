-- ===== src/Worker/Lifecycle.antt =====
-- `Start` and `Stop` of internal/worker/alert_worker.go. A call of `Start` that is let in runs one
-- round of checks and then waits: for the ticker, for the end of its context, or for the channel
-- `stopCh`, which `Stop` closes. `time.NewTicker` panics for an interval that is not positive.
use warnly.Base.{
  ℕ, ◌+◌, ◌-◌, ◌<◌, ◌==◌, ◌≤◌, ◌≡◌, Bool, true, false, not, ◌&&◌, if◌then◌else◌, refl, arith,
}
use warnly.Base.Int.{ℤ, pos, ltb_ℤ}

-- `running` and `stopCh` of the worker, the calls of `Start` that are in their loop, and the rounds
-- so far; `panicked` is set by a `close` of a closed channel, and by a ticker without an interval.
pub record Lifecycle : Type 0 where
  pub interval : ℤ
  pub running : Bool
  pub stop_closed : Bool
  pub loops : ℕ
  pub rounds : ℕ
  pub panicked : Bool

unfoldable pub new_lifecycle : ℤ → Lifecycle
new_lifecycle interval = record {
  interval = interval;
  running = false;
  stop_closed = false;
  loops = 0;
  rounds = 0;
  panicked = false;
}

-- The worker is marked running before the ticker is made.
unfoldable pub start : Lifecycle → Lifecycle
start s =
    if s.running
    then s
    else if ltb_ℤ (pos 0) s.interval
    then record s { running = true; loops = s.loops + 1; rounds = s.rounds + 1 }
    else record s { running = true; panicked = true }

-- The call returns with the mutex free either way: a panic runs the deferred unlock.
unfoldable pub stop : Lifecycle → Lifecycle
stop s =
    if not s.running
    then s
    else if s.stop_closed
    then record s { panicked = true }
    else record s { stop_closed = true; running = false }

unfoldable pub tick : Lifecycle → Lifecycle
tick s = record s { rounds = s.rounds + 1 }

-- A loop ends; `running` stays as it is.
unfoldable pub leave : Lifecycle → Lifecycle
leave s = record s { loops = s.loops - 1 }

-- What is reached from a new worker with a positive interval when `Start` is not called after a
-- `Stop` that took effect.
pub data Reaches : Lifecycle → Type 0 where
  fresh : (interval : ℤ) → ltb_ℤ (pos 0) interval ≡ true → Reaches (new_lifecycle interval)
  on_start : {s : Lifecycle} → Reaches s → s.stop_closed ≡ false → Reaches (start s)
  on_stop : {s : Lifecycle} → Reaches s → Reaches (stop s)
  on_tick : {s : Lifecycle} → Reaches s → 0 < s.loops → Reaches (tick s)
  on_leave : {s : Lifecycle} → Reaches s → 0 < s.loops → Reaches (leave s)

-- A positive interval, no panic so far, at most one loop, not marked running once the channel is
-- closed, and no loop while neither has happened: running, or the channel closed.
abbrev pub IsSound : Lifecycle → Type 0
IsSound s =
    (ltb_ℤ (pos 0) s.interval ≡ true)
    × (s.panicked ≡ false)
    × (s.loops ≤ 1)
    × ((s.running && s.stop_closed) ≡ false)
    × ((not s.running && not s.stop_closed && not (s.loops == 0)) ≡ false)

start-IsSound : (s : Lifecycle) → s.stop_closed ≡ false → IsSound s → IsSound (start s)
unfolding start
start-IsSound s unclosed (timed, calm, one, apart, idle) =
    ground (arith, unclosed, timed, calm, one, apart, idle)

stop-IsSound : (s : Lifecycle) → IsSound s → IsSound (stop s)
unfolding stop
stop-IsSound s (timed, calm, one, apart, idle) = ground (arith, timed, calm, one, apart, idle)

leave-IsSound : (s : Lifecycle) → IsSound s → IsSound (leave s)
unfolding leave
leave-IsSound s (timed, calm, one, apart, idle) = ground (arith, timed, calm, one, apart, idle)

-- With a positive interval and as long as `Start` is not called after a `Stop` that took effect,
-- in whatever order the calls, the ticks and the ends of loops come, no call panics, at most one
-- loop runs, and the worker is not marked running once its channel is closed.
pub Reaches-IsSound : (s : Lifecycle) → Reaches s → IsSound s
unfolding new_lifecycle tick
Reaches-IsSound _ (fresh interval timed) =
    (timed, ground arith, ground arith, ground arith, ground arith)
Reaches-IsSound _ (on_start r unclosed) = start-IsSound _ unclosed (Reaches-IsSound _ r)
Reaches-IsSound _ (on_stop r) = stop-IsSound _ (Reaches-IsSound _ r)
Reaches-IsSound _ (on_tick r live) = Reaches-IsSound _ r
Reaches-IsSound _ (on_leave r live) = leave-IsSound _ (Reaches-IsSound _ r)

-- Without a positive interval the first call of `Start` panics, and leaves the worker marked running.
pub start-panicked :
    (interval : ℤ)
    → ltb_ℤ (pos 0) interval ≡ false
    → ((start (new_lifecycle interval)).panicked ≡ true)
      × ((start (new_lifecycle interval)).running ≡ true)
unfolding start new_lifecycle
start-panicked interval h = rw h (refl, refl)

-- A worker that runs with its channel open, stopped, started again and stopped again, panics.
pub stop-restart :
    (s : Lifecycle)
    → s.running ≡ true
    → s.stop_closed ≡ false
    → (stop (start (stop s))).panicked ≡ true
unfolding stop start
stop-restart s runs unclosed = ground (arith, runs, unclosed)
