-- ===== src/Prober/Reconcile/Outcome.antt =====
-- What every probe of src/prober/reconcile.rs leaves behind, whatever the API server answers: no
-- pod that it created, one attempt in the metrics, and one verdict in the annotations.
use accelrd.Prelude.{
  ℕ, ◌+◌, ◌*◌, ◌%◌, ◌^◌, ◌≡◌, refl, ◌||◌, ◌&&◌, Bool, true, false, List, [], ◌∷◌, Option, none,
  some, Text, Result, ok, err, arith, ap, ◌=t◌, =t_refl, unwrap_or,
}
use accelrd.Prober.Annotations.{rack_keys, loopback_keys, Verdict, label, build_body}
use accelrd.Prober.Cluster.{
  Api, IsClock, Event, World, M, ◌>>=◌, Returns, Returns->>=, Holds-imp, created, deleted,
  attempted, patched,
}
use accelrd.Prober.Config.{Resolved}
use accelrd.Prober.Template.{Template, build_pod}
use accelrd.Prober.Pods
use accelrd.Prober.Pods.{
  PodSpec, create, delete, read_record, await_pod_ip, await_terminal, timed_out, failed_phase,
  succeeded,
}
use accelrd.Prober.Pods.Waiting.{await_pod_ip_ends, await_terminal_ends}
use accelrd.Prober.Reconcile.{
  Libraries, cleanup, verdict_of, after_watch, watch_client, after_client, start_client,
  after_address, after_server, start_server, report_pair, report_loopback, probe_pair,
  probe_loopback,
}

-- The creates and deletes of a log, and the rest of it.
abbrev pub pods : List Event → List Event
pods [] = []
pods (created n ∷ es) = created n ∷ pods es
pods (deleted n ∷ es) = deleted n ∷ pods es
pods (attempted r v ∷ es) = pods es
pods (patched n b ∷ es) = pods es

abbrev pub reports : List Event → List Event
reports [] = []
reports (created n ∷ es) = reports es
reports (deleted n ∷ es) = reports es
reports (attempted r v ∷ es) = attempted r v ∷ reports es
reports (patched n b ∷ es) = patched n b ∷ reports es

abbrev pub contains : Text → List Text → Bool
contains n [] = false
contains n (m ∷ ms) = (n =t m) || contains n ms

-- Each created name has a delete after it (the log has the latest event first); `gone` are the
-- names with a delete later than the rest of the log.
abbrev pub all_deleted : (gone : List Text) → List Event → Bool
all_deleted gone [] = true
all_deleted gone (created n ∷ es) = contains n gone && all_deleted gone es
all_deleted gone (deleted n ∷ es) = all_deleted (n ∷ gone) es
all_deleted gone (_ ∷ es) = all_deleted gone es

module _ {S Pod F64 : Type 0} (api : Api S Pod) (clock : IsClock api) (lib : Libraries F64)
    (from_value : Template → Result Pod) (args : Resolved) (report : Verdict F64 → M S (Unit {0}))
    (Reported : Verdict F64 → List Event → Type 0)
    (report-Returns : (v : Verdict F64) (w : World S)
      → reports w.log ≡ []
      → Returns
          (report v)
          w
          (λ _ w'. (pods w'.log ≡ pods w.log) × Reported v (reports w'.log))) where
  abbrev Ended : World S → Type 0
  Ended w = (all_deleted [] (pods w.log) ≡ true) × (v : Verdict F64) × Reported v (reports w.log)

  verdict_of-Returns :
      (p : Pods.Phase) (c : Text) (w : World S)
      → Returns (verdict_of api lib from_value args p c) w (λ _ w'. w'.log ≡ w.log)
  unfolding verdict_of read_record
  verdict_of-Returns succeeded c w = ground arith
  verdict_of-Returns failed_phase c w = refl
  verdict_of-Returns timed_out c w = refl

  -- A pod log in which both pods of a probe were created, and nothing was deleted yet.
  abbrev Both : (server client : Text) → World S → Type 0
  Both server client w = (pods w.log ≡ created client ∷ created server ∷ []) × (reports w.log ≡ [])

  deletes_both :
      (s c : Text)
      → (all_deleted [] (deleted c ∷ deleted s ∷ created c ∷ created s ∷ []) ≡ true)
        × (all_deleted [] (deleted s ∷ deleted c ∷ created c ∷ created s ∷ []) ≡ true)
  deletes_both s c = ground (arith, =t_refl s, =t_refl c)

  -- After the report the pods are as they were, and it is the only one.
  abbrev Told : Verdict F64 → World S → World S → Type 0
  Told v w w' = (pods w'.log ≡ pods w.log) × Reported v (reports w'.log)

  report_and_cleanup :
      (v : Verdict F64) (s c : Text) (w : World S)
      → Both s c w
      → Returns (report v >>= λ _. cleanup api lib from_value args s c) w (λ _ w'. Ended w')
  unfolding cleanup delete
  report_and_cleanup v s c w h =
      Returns->>= (report v) (λ _. cleanup api lib from_value args s c) w (λ _ w'. Told v w w')
        (λ _ w'. Ended w') (report-Returns v w h.1)
        (λ _ w' r. (rw (r.0, h.0) (deletes_both s c).1, v, r.1))

  -- An error path: what it deletes comes before its report.
  report_last :
      (v : Verdict F64) (w : World S)
      → all_deleted [] (pods w.log) ≡ true
      → reports w.log ≡ []
      → Returns (report v) w (λ _ w'. Ended w')
  report_last v w d h =
      Holds-imp (report v w) (λ _ w'. Told v w w') (λ _ w'. Ended w') (λ _ w' r. (rw r.0 d, v, r.1))
        (report-Returns v w h)

  watch_client-Returns :
      (s c : Text) (w : World S)
      → Both s c w
      → Returns (watch_client api lib from_value args report s c) w (λ _ w'. Ended w')
  unfolding watch_client after_watch delete
  watch_client-Returns s c w h =
      let budget = (args.test_duration_secs + 120) % 2 ^ 64 * 1000 in
      Returns->>= (await_terminal api c budget) _ w (λ _ w'. w'.log ≡ w.log) (λ _ w'. Ended w')
        (Holds-imp (await_terminal api c budget w) _ _ (λ _ _ a. a.0)
          (await_terminal_ends api clock c budget w))
        (λ r w' e. watched r w' (rw e h))
    where
      watched :
          (r : Result Pods.Phase) (w : World S)
          → Both s c w
          → Returns (after_watch api lib from_value args report s c r) w (λ _ w'. Ended w')
      watched (err e) w h = report_last _ _ (rw h.0 (deletes_both s c).0) h.1
      watched (ok p) w h =
          Returns->>= (verdict_of api lib from_value args p c) _ w (λ _ w'. w'.log ≡ w.log)
            (λ _ w'. Ended w') (verdict_of-Returns p c w)
            (λ v w' e. report_and_cleanup v s c w' (rw e h))

  -- The log of a probe that created its server pod only.
  abbrev One : (server : Text) → World S → Type 0
  One server w = (pods w.log ≡ created server ∷ []) × (reports w.log ≡ [])

  deletes_one : (s : Text) → all_deleted [] (deleted s ∷ created s ∷ []) ≡ true
  deletes_one s = ground (arith, =t_refl s)

  abbrev Made : World S → Result (Option Text) → World S → Type 0
  Made w (err e) w' = w'.log ≡ w.log
  Made w (ok name) w' = w'.log ≡ created (unwrap_or name []) ∷ w.log

  create-Returns : (pod : Pod) (w : World S) → Returns (create api pod) w (Made w)
  unfolding create
  create-Returns pod w = ground arith

  start_client-Returns :
      (s : Text) (pod : Result Pod) (w : World S)
      → One s w
      → Returns (start_client api lib from_value args report s pod) w (λ _ w'. Ended w')
  unfolding start_client after_client delete
  start_client-Returns s (err e) w h = report_last _ _ (rw h.0 (deletes_one s)) h.1
  start_client-Returns s (ok pod) w h =
      Returns->>= (create api pod) _ w (Made w) (λ _ w'. Ended w') (create-Returns pod w) made
    where
      made :
          (r : Result (Option Text)) (w' : World S)
          → Made w r w'
          → Returns (after_client api lib from_value args report s r) w' (λ _ w''. Ended w'')
      made (err e) w' m = report_last _ _ (rw (m, h.0) (deletes_one s)) (rw m h.1)
      made (ok name) w' m =
          watch_client-Returns s (unwrap_or name []) w'
            (rw m (ap (λ (es : List Event). created (unwrap_or name []) ∷ es) h.0, h.1))

  after_address-Returns :
      (spec : Text → PodSpec) (s : Text) (r : Result Text) (w : World S)
      → One s w
      → Returns (after_address api lib from_value args report spec s r) w (λ _ w'. Ended w')
  unfolding after_address delete
  after_address-Returns spec s (err e) w h = report_last _ _ (rw h.0 (deletes_one s)) h.1
  after_address-Returns spec s (ok ip) w h =
      start_client-Returns s (build_pod from_value args (spec ip)) w h

  pub start_server-Returns :
      (spec : Text → PodSpec) (pod : Result Pod) (w : World S)
      → w.log ≡ []
      → Returns (start_server api lib from_value args report spec pod) w (λ _ w'. Ended w')
  unfolding start_server after_server
  start_server-Returns spec (err e) w h = report_last _ _ (rw h refl) (rw h refl)
  start_server-Returns spec (ok pod) w h =
      Returns->>= (create api pod) _ w (Made w) (λ _ w'. Ended w') (create-Returns pod w) made
    where
      made :
          (r : Result (Option Text)) (w' : World S)
          → Made w r w'
          → Returns (after_server api lib from_value args report spec r) w' (λ _ w''. Ended w'')
      made (err e) w' m = report_last _ _ (rw (m, h) refl) (rw (m, h) refl)
      made (ok name) w' m =
          let s = unwrap_or name [] in
          Returns->>= (await_pod_ip api s 60000) _ w' (λ _ w''. w''.log ≡ w'.log)
            (λ _ w''. Ended w'')
            (Holds-imp (await_pod_ip api s 60000 w') _ _ (λ _ _ a. a.0)
              (await_pod_ip_ends api clock s 60000 w'))
            (λ r w'' e. after_address-Returns spec s r w'' (rw (e, m, h) (refl, refl)))

-- What a verdict's report adds for a pair, the latest event first: both nodes get the verdict with
-- one time, each naming the other, and the metric has its label.
abbrev pub PairReport :
    {F64 : Type 0}
    → (ℕ → F64 → Text)
    → (rack server client : Text) → Verdict F64
    → List Event
    → Type 0
PairReport fixed rack server client v es =
    (now : Text) × (es
      ≡ patched client (build_body fixed rack_keys (some server) now v)
        ∷ patched server (build_body fixed rack_keys (some client) now v)
        ∷ attempted rack (label v)
        ∷ [])

abbrev pub LoopbackReport :
    {F64 : Type 0} → (ℕ → F64 → Text) → (rack node : Text) → Verdict F64 → List Event → Type 0
LoopbackReport fixed rack node v es =
    (now : Text) × (es
      ≡ patched node (build_body fixed loopback_keys none now v) ∷ attempted rack (label v) ∷ [])

module _ {S Pod F64 : Type 0} (api : Api S Pod) (clock : IsClock api) (lib : Libraries F64)
    (from_value : Template → Result Pod) (args : Resolved) (outside : S) where
  abbrev fresh : World S
  fresh = record { outside = outside; log = [] }

  -- Whatever the API server answers, with a clock that never goes back and sleeps that last,
  -- `probe_pair` ends; every pod that it created it asked to
  -- delete afterwards; and it emitted one attempt and patched both nodes once, with one verdict, whose
  -- label is the attempt's, and one time.
  pub probe_pair-Returns :
      (rack server client : Text)
      → Returns (probe_pair api lib from_value args rack server client) fresh (λ _ w.
        (all_deleted [] (pods w.log) ≡ true)
        × (v : Verdict F64) × PairReport lib.fixed rack server client v (reports w.log))
  unfolding probe_pair
  probe_pair-Returns rack server client =
      start_server-Returns api clock lib from_value args
        (report_pair api lib from_value args rack server client)
        (PairReport lib.fixed rack server client)
        (λ v w h. (refl, (api.now_rfc3339 w.outside, rw h))) _ _ fresh refl

  -- Whatever the API server answers, with a clock that never goes back and sleeps that last,
  -- `probe_loopback` ends; every pod that it created it asked to delete afterwards; and it emitted one
  -- attempt and patched its node once, with one verdict, whose label is the attempt's.
  pub probe_loopback-Returns :
      (rack node : Text)
      → Returns (probe_loopback api lib from_value args rack node) fresh (λ _ w.
        (all_deleted [] (pods w.log) ≡ true)
        × (v : Verdict F64) × LoopbackReport lib.fixed rack node v (reports w.log))
  unfolding probe_loopback
  probe_loopback-Returns rack node =
      start_server-Returns api clock lib from_value args
        (report_loopback api lib from_value args rack node) (LoopbackReport lib.fixed rack node)
        (λ v w h. (refl, (api.now_rfc3339 w.outside, rw h))) _ _ fresh refl
