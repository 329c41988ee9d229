-- ===== src/Worker/Examples.antt =====
-- A worker with a delay and no interval, which panics in its second tick.
use openbao_cloud_creds.Base.{◌==◌, ◌≡◌, refl, text, [], ◌∷◌, some, true, if◌then◌else◌}
use openbao_cloud_creds.Worker.{
  succeeded, panicked, WorkerFunc, Registration, bad_interval, tick_panicked, fired, run, invoke,
  report, tick, tick_loop, start_ticker, after_delay, fallback_interval,
}
use openbao_cloud_creds.Worker.Lifecycle.{fires_then_cancelled}

abbrev second_panics : WorkerFunc
second_panics n = if n == 1 then panicked else succeeded

abbrev flusher : Registration
flusher = record { name = text "flush"; interval = 0; initial_delay = 5; fn = second_panics }

-- Of four wakes the first ends the delay.
flushed : run true flusher (fires_then_cancelled 4 (fired ∷ [])) ≡ record {
  ticker = some fallback_interval;
  ticks = 3;
  reports = (text "flush", bad_interval) ∷ (text "flush", tick_panicked) ∷ [];
  returned = true;
}
unfolding run invoke report tick tick_loop start_ticker after_delay
flushed = refl
