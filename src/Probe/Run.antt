-- ===== src/Probe/Run.antt =====
-- The two modes of src/probe/mod.rs: `run_server` and `run_client`, over the processes and the clock of
-- the runtime (tokio). Instants are milliseconds.
pub mod Attempts
use accelrd.Prelude.{
  ℕ, zero, suc, ◌+◌, ◌-◌, ◌*◌, ◌≤◌, min, Bool, not, ◌||◌, List, [], ◌∷◌, ◌++◌, Option, none, some,
  Text, codes, Result, ok, err, if◌then◌else◌, leb, unwrap_or,
}
use accelrd.Prelude.Strings.{lines, trim, contains}
use accelrd.Probe.{Outcome, done, failed}
use accelrd.Probe.Perftest.{Summary, build_cmd, parse_required}

abbrev pub perftest_port : ℕ
perftest_port = 18515

-- A process that has ended; `status` is as `{}` prints it, the outputs as `from_utf8_lossy` reads them.
pub record Output : Type 0 where
  pub success : Bool
  pub status : Text
  pub stdout : Text
  pub stderr : Text

-- `output` runs a command; an error is as `{}` prints it.
pub record Runtime (S : Type 0) : Type 0 where
  pub output : List Text → S → Result Output × S
  pub now : S → ℕ
  pub sleep : ℕ → S → S

-- `Instant` never goes back, and a sleep lasts.
pub record IsClock {S : Type 0} (rt : Runtime S) : Type 0 where
  pub output_forward : (cmd : List Text) (s : S) → rt.now s ≤ rt.now (rt.output cmd s).1
  pub sleep_lasts : (d : ℕ) (s : S) → rt.now s + d ≤ rt.now (rt.sleep d s)

-- `lines().last()`
unfoldable pub last_line : List Text → Option Text
last_line [] = none
last_line (line ∷ []) = some line
last_line (_ ∷ line ∷ rest) = last_line (line ∷ rest)

-- The message for a process that failed.
unfoldable pub exit_message : Output → Text
unfolding lines trim last_line
exit_message o =
    codes "ib_send_bw exit "
    ++ (o.status ++ (codes ": " ++ unwrap_or (last_line (lines (trim o.stderr))) []))

unfoldable pub connect_failed : Output → Bool
unfolding contains
connect_failed o =
    let combined = o.stdout ++ (codes "\n" ++ o.stderr) in
    contains combined (codes "Couldn't connect to")
    || contains combined (codes "Unable to init the socket connection")
    || contains combined (codes "Unable to open file descriptor for socket connection")

module _ {F64 : Type 0} (parse_f64 : Text → Option F64) where
  abbrev of_summary : Result (Summary F64) → Outcome F64
  of_summary (ok s) = done s
  of_summary (err e) = failed e

  unfoldable pub finish : Text → Outcome F64
  unfolding parse_required
  finish stdout = of_summary (parse_required parse_f64 stdout)

  abbrev pub spawn_failed : Text → Outcome F64
  spawn_failed e = failed (codes "spawn ib_send_bw: " ++ e)

  unfoldable pub server_outcome : Result Output → Outcome F64
  unfolding exit_message finish
  server_outcome (err e) = spawn_failed e
  server_outcome (ok output) =
      if not output.success then failed (exit_message output) else finish output.stdout

  -- What a round of the client returns, or none where it goes on to sleep and to try again.
  unfoldable pub round_outcome : (deadline now : ℕ) → Result Output → Option (Outcome F64)
  unfolding exit_message connect_failed finish
  round_outcome deadline now (err e) = some (spawn_failed e)
  round_outcome deadline now (ok output) =
      if output.success
      then some (finish output.stdout)
      else if not (connect_failed output) || leb deadline now
      then some (failed (exit_message output))
      else none

  module _ {S : Type 0} (rt : Runtime S) where
    unfoldable pub run_server : (device : Text) (duration_secs : ℕ) → S → Outcome F64 × S
    unfolding build_cmd server_outcome
    run_server device duration_secs s =
        let (r, s') = rt.output (build_cmd none device perftest_port duration_secs) s in
        (server_outcome r, s')

    -- The rounds of the loop; `none` means that the fuel ran out.
    unfoldable pub client_loop :
        (fuel : ℕ) (cmd : List Text) (deadline backoff : ℕ) → S → Option (Outcome F64 × S)
    unfolding round_outcome
    client_loop zero cmd deadline backoff s = none
    client_loop (suc fuel) cmd deadline backoff s =
        let (r, s') = rt.output cmd s in
        let now = rt.now s' in
        let retry =
          client_loop fuel cmd deadline (min (backoff * 2) 3000)
            (rt.sleep (min backoff (deadline - now)) s') in
        elim (round_outcome deadline now r) [ some outcome ↦ some (outcome, s') | none ↦ retry ]

    -- Two rounds for each second of the timeout, and the last.
    unfoldable pub run_client :
        (server device : Text) (duration_secs connect_timeout_secs : ℕ)
        → S
        → Option (Outcome F64 × S)
    unfolding build_cmd client_loop
    run_client server device duration_secs connect_timeout_secs s =
        client_loop (suc (connect_timeout_secs * 2))
          (build_cmd (some server) device perftest_port duration_secs)
          (rt.now s + connect_timeout_secs * 1000) 500 s
