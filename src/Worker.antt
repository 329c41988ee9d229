-- ===== src/Worker.antt =====
-- pkg/worker: the background workers of a mount.
--
-- A worker's goroutine is a function of what its selects receive, one after the other: a timer or the
-- ticker that fires, or the cancellation of its context. When several are ready, a select takes any of
-- them, so every list of these is a run. Durations are nanoseconds, and one that is not
-- positive is 0.
pub mod Lifecycle
pub mod Examples
use openbao_cloud_creds.Base.{
  ℕ, ◌+◌, ◌==◌, Text, ◌++◌, List, [], ◌∷◌, Option, none, some, Bool, true, false, if◌then◌else◌,
}

pub data Outcome : Type 0 where
  succeeded failed panicked : Outcome

-- What a worker's function does in a tick, given how many ticks came before.
abbrev pub WorkerFunc : Type 0
WorkerFunc = ℕ → Outcome

pub record Registration : Type 0 where
  pub name : Text
  pub interval : ℕ
  pub initial_delay : ℕ
  pub fn : WorkerFunc

pub data Problem : Type 0 where
  bad_interval tick_failed tick_panicked : Problem

pub data Wake : Type 0 where
  fired cancelled : Wake

-- A goroutine so far: the interval of its ticker, the ticks that it ran, what it told the error handler,
-- and whether it has returned.
pub record Run : Type 0 where
  pub ticker : Option ℕ
  pub ticks : ℕ
  pub reports : List (Text × Problem)
  pub returned : Bool

abbrev pub fallback_interval : ℕ
fallback_interval = 900_000_000_000

abbrev pub idle : Run
idle = record { ticker = none; ticks = 0; reports = []; returned = false }

unfoldable pub invoke : Registration → ℕ → Option Problem
invoke w n = elim (w.fn n) [
  | succeeded ↦ none
  | failed ↦ some tick_failed
  | panicked ↦ some tick_panicked
]

-- A call of the error handler, if there is one.
unfoldable pub report : Bool → Registration → Option Problem → List (Text × Problem)
report handler w none = []
report handler w (some problem) = if handler then (w.name, problem) ∷ [] else []

unfoldable pub tick : Bool → Registration → Run → Run
tick handler w r = record r {
  ticks = r.ticks + 1;
  reports = r.reports ++ report handler w (invoke w r.ticks);
}

-- The loop of `run`.
unfoldable pub tick_loop : Bool → Registration → List Wake → Run → Run
tick_loop handler w [] r = r
tick_loop handler w (cancelled ∷ wakes) r = record r { returned = true }
tick_loop handler w (fired ∷ wakes) r = tick_loop handler w wakes (tick handler w r)

-- The interval is clamped before the ticker is made.
unfoldable pub start_ticker : Bool → Registration → Run
start_ticker handler w =
    if w.interval == 0
    then record idle {
      ticker = some fallback_interval;
      reports = report handler w (some bad_interval);
    }
    else record idle { ticker = some w.interval }

unfoldable pub after_delay : Bool → Registration → List Wake → Run
after_delay handler w [] = idle
after_delay handler w (cancelled ∷ wakes) = record idle { returned = true }
after_delay handler w (fired ∷ wakes) = tick_loop handler w wakes (start_ticker handler w)

unfoldable pub run : Bool → Registration → List Wake → Run
run handler w wakes =
    if w.initial_delay == 0
    then tick_loop handler w wakes (start_ticker handler w)
    else after_delay handler w wakes
