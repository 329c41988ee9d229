-- ===== src/Worker/Lifecycle.antt =====
-- What a worker does until its context is cancelled, and that it then returns.
use openbao_cloud_creds.Base.{
  ℕ, zero, suc, ◌+◌, ◌-◌, ◌<◌, ◌≡◌, ◌==◌, Text, ◌++◌, List, [], ◌∷◌, some, Bool, true, false,
  if◌then◌else◌,
}
use openbao_cloud_creds.Worker.{
  Outcome, succeeded, failed, panicked, Registration, Problem, bad_interval, tick_failed,
  tick_panicked, Wake, fired, cancelled, Run,
}

-- The wakes of a worker that fires so often and is then cancelled.
abbrev pub fires_then_cancelled : ℕ → List Wake → List Wake
fires_then_cancelled zero rest = cancelled ∷ rest
fires_then_cancelled (suc n) rest = fired ∷ fires_then_cancelled n rest

-- What is to be told of an outcome, where there is an error handler.
abbrev pub told_of : Bool → Text → Outcome → List (Text × Problem)
told_of false name outcome = []
told_of true name succeeded = []
told_of true name failed = (name, tick_failed) ∷ []
told_of true name panicked = (name, tick_panicked) ∷ []

-- What is to be told of an interval that is not positive.
abbrev pub told_of_interval : Bool → Text → ℕ → List (Text × Problem)
told_of_interval true name zero = (name, bad_interval) ∷ []
told_of_interval handler name interval = []

-- What the ticks from a number on report, in their order.
abbrev pub tick_reports : Bool → Registration → ℕ → ℕ → List (Text × Problem)
tick_reports handler w from zero = []
tick_reports handler w from (suc n) =
    told_of handler w.name (w.fn from) ++ tick_reports handler w (from + 1) n

-- A run has returned after so many ticks, with these reports after those it began with.
abbrev pub Ended : Bool → Registration → ℕ → Run → Run → Type 0
Ended handler w n r out =
    (out.returned ≡ true)
    × (out.ticker ≡ r.ticker)
    × (out.ticks ≡ r.ticks + n)
    × (out.reports ≡ r.reports ++ tick_reports handler w r.ticks n)

-- The ticks that a worker runs before it is cancelled: a delay takes the first wake.
abbrev pub ticks_of : Registration → ℕ → ℕ
ticks_of w n = if w.initial_delay == 0 then n else n - 1

-- A run with a ticker: its interval, and what it reports.
abbrev pub Ticked : Bool → Registration → ℕ → Run → Type 0
Ticked handler w n out =
    (interval : ℕ) × (out.ticker ≡ some interval)
    × (0 < interval)
    × (out.reports ≡ told_of_interval handler w.name w.interval ++ tick_reports handler w 0 n)
