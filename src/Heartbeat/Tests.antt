-- ===== src/Heartbeat/Tests.antt =====
-- A heartbeat of three periods, with a message after the second.
use gce.Prelude.{◌≡◌, true, List, [], ◌∷◌, ◌++◌, some, arith, replicate}
use gce.Heartbeat.{close, Output, Event, beats, ends, run}
use gce.Heartbeat.Silence.{
  silent, spec_run, at_least_one, started, says_timeout, run-spec_run, run-timeout,
}

abbrev periods : List Event
periods = ends ∷ ends ∷ beats ∷ ends ∷ []

run-spec_run_example :
    run periods (started 3 close true)
    ≡ some (spec_run (at_least_one 3) close true periods (silent 0))
run-spec_run_example = run-spec_run 3 close true periods (omega arith)

run-timeout_example :
    (outs : List Output) × (run (periods ++ replicate (at_least_one 3) ends) (started 3 close true)
      ≡ some outs)
    × (says_timeout outs ≡ true)
run-timeout_example = run-timeout 3 close true periods (omega arith)
