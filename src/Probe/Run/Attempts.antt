-- ===== src/Probe/Run/Attempts.antt =====
-- The retries of `run_client` in src/probe/mod.rs: they end, and only a server that does not listen yet
-- is tried again.
use accelrd.Prelude.{
  ℕ, zero, suc, ◌+◌, ◌-◌, ◌*◌, ◌≤◌, ◌<◌, min, ◌≡◌, refl, true, false, List, Option, none, some,
  Text, Result, ok, err, arith, Bool, inl, inr, ◌⊎◌, not, ◌||◌, leb, if◌then◌else◌,
}
use accelrd.Probe.{Outcome, failed}
use accelrd.Probe.Perftest.{build_cmd}
use accelrd.Probe.Run.{
  Output, Runtime, IsClock, exit_message, connect_failed, finish, spawn_failed, round_outcome,
  client_loop, run_client, perftest_port,
}

module _ {F64 S : Type 0} (parse_f64 : Text → Option F64) (rt : Runtime S) where
  module _ (cmd : List Text) (deadline : ℕ) where
    -- The second state is reached from the first by attempts that could not connect, each before the deadline
    -- and with a sleep of three seconds at most after it, which is not to last beyond the deadline.
    pub data Retried : S → S → Type 0 where
      here : {s : S} → Retried s s
      again :
          {s t : S} (o : Output) (d : ℕ)
          → (rt.output cmd s).0 ≡ ok o
          → o.success ≡ false
          → connect_failed o ≡ true
          → rt.now (rt.output cmd s).1 + d ≤ deadline
          → 0 < d
          → d ≤ 3000
          → Retried (rt.sleep d (rt.output cmd s).1) t
          → Retried s t

    -- What the last attempt makes of its output, at the time when it ends.
    pub data Last (now : ℕ) : Result Output → Outcome F64 → Type 0 where
      no_process : (e : Text) → Last now (err e) (spawn_failed parse_f64 e)
      ended : (o : Output) → o.success ≡ true → Last now (ok o) (finish parse_f64 o.stdout)
      refused :
          (o : Output)
          → o.success ≡ false
          → (connect_failed o ≡ false) ⊎ (deadline ≤ now)
          → Last now (ok o) (failed (exit_message o))

    pub data Returned (s : S) : Option (Outcome F64 × S) → Type 0 where
      returned :
          (t : S) (outcome : Outcome F64)
          → Retried s t
          → Last (rt.now (rt.output cmd t).1) (rt.output cmd t).0 outcome
          → Returned s (some (outcome, (rt.output cmd t).1))

    round_outcome-Last :
        (now : ℕ) (r : Result Output) (outcome : Outcome F64)
        → round_outcome parse_f64 deadline now r ≡ some outcome
        → Last now r outcome
    unfolding round_outcome
    round_outcome-Last now (err e) outcome h =
        let k : spawn_failed parse_f64 e ≡ outcome = cc (h) in rw (← k) (no_process e)
    round_outcome-Last now (ok o) outcome h =
        go o.success refl (connect_failed o) refl (leb deadline now) refl h
      where
        go :
            (b : Bool)
            → o.success ≡ b
            → (c : Bool) → connect_failed o ≡ c
            → (d : Bool) → leb deadline now ≡ d
            → (if b
                then some (finish parse_f64 o.stdout)
                else if not c || d
                then some (failed (exit_message o))
                else none)
              ≡ some outcome
            → Last now (ok o) outcome
        go true e c f d g h =
            let k : finish parse_f64 o.stdout ≡ outcome = cc (h) in rw (← k) (ended o e)
        go false e false f d g h =
            let k : failed (exit_message o) ≡ outcome = cc (h) in rw (← k) (refused o e (inl f))
        go false e true f true g h =
            let k : failed (exit_message o) ≡ outcome = cc (h) in
            rw (← k) (refused o e (inr (ground arith)))
        go false e true f false g h = absurd (cc (h))

    -- A round that goes on: the server did not listen yet, and there is time left.
    record GoesOn (now : ℕ) (r : Result Output) : Type 0 where
      output : Output
      ran : r ≡ ok output
      no_success : output.success ≡ false
      no_server : connect_failed output ≡ true
      time_left : now < deadline

    round_outcome-GoesOn :
        (now : ℕ) (r : Result Output) → round_outcome parse_f64 deadline now r ≡ none → GoesOn now r
    unfolding round_outcome
    round_outcome-GoesOn now (err e) h = absurd (cc (h))
    round_outcome-GoesOn now (ok o) h = record {
      output = o;
      ran = refl;
      no_success = ground (arith, h);
      no_server = ground (arith, h);
      time_left = ground (arith, h);
    }

    Returned-retry :
        (s t : S) (next : Option (Outcome F64 × S))
        → ((u : S) → Retried t u → Retried s u)
        → Returned t next
        → Returned s next
    Returned-retry s t _ f (returned u outcome r l) = returned u outcome (f u r) l

    -- One round, given what the rest of the loop returns if it is reached.
    after_round :
        (s : S) (d : ℕ) (o : Option (Outcome F64)) (next : Option (Outcome F64 × S))
        → let s' = (rt.output cmd s).1 in
          round_outcome parse_f64 deadline (rt.now s') (rt.output cmd s).0 ≡ o
          → (rt.now s' < deadline → (rt.now s' + d ≤ deadline) × (0 < d) × (d ≤ 3000))
          → (rt.now s' < deadline → Returned (rt.sleep d s') next)
          → Returned s (elim o [ some outcome ↦ some (outcome, s') | none ↦ next ])
    after_round s d (some outcome) next e h k =
        returned s outcome here (round_outcome-Last _ _ outcome e)
    after_round s d none next e h k =
        let g = round_outcome-GoesOn _ _ e in
        let sleep = h g.time_left in
        Returned-retry s _ next
          (λ u r. again g.output d g.ran g.no_success g.no_server sleep.0 sleep.1 sleep.2 r)
          (k g.time_left)

  module _ (clock : IsClock rt) where
    client_loop-Returned :
        (fuel : ℕ) (cmd : List Text) (deadline backoff : ℕ) (s : S)
        → deadline ≤ rt.now s + fuel * 500
        → 500 ≤ backoff
        → backoff ≤ 3000
        → Returned cmd deadline s (client_loop parse_f64 rt (suc fuel) cmd deadline backoff s)
    unfolding client_loop
    client_loop-Returned zero cmd deadline backoff s h l u =
        after_round cmd deadline s (min backoff (deadline - now)) _ _ refl (λ e. omega arith)
          (λ e. absurd (omega (arith, clock.output_forward cmd s)))
      where
        now : ℕ
        now = rt.now (rt.output cmd s).1
    client_loop-Returned (suc fuel) cmd deadline backoff s h l u =
        after_round cmd deadline s d _ _ refl (λ e. omega arith)
          (λ e.
            client_loop-Returned fuel cmd deadline (min (backoff * 2) 3000) _
              (omega (arith, clock.output_forward cmd s, clock.sleep_lasts d (rt.output cmd s).1))
              (omega arith) (omega arith))
      where
        now : ℕ
        now = rt.now (rt.output cmd s).1

        d : ℕ
        d = min backoff (deadline - now)

    -- With a clock that never goes back and sleeps that last, the client returns on every behaviour of
    -- its server. It tries again only after attempts that could not connect, sleeps for three seconds
    -- at most between them and never plans to sleep past the deadline, and its outcome is that of the last attempt,
    -- which fails to connect only once the deadline is over.
    pub run_client-Returned :
        (server device : Text) (duration_secs connect_timeout_secs : ℕ) (s : S)
        → Returned
            (build_cmd (some server) device perftest_port duration_secs)
            (rt.now s + connect_timeout_secs * 1000)
            s
            (run_client parse_f64 rt server device duration_secs connect_timeout_secs s)
    unfolding run_client
    run_client-Returned server device duration_secs timeout s =
        client_loop-Returned (timeout * 2) _ (rt.now s + timeout * 1000) 500 s (omega arith)
          (omega arith) (omega arith)
