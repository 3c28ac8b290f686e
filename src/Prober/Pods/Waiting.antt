-- ===== src/Prober/Pods/Waiting.antt =====
-- The waiting loops of src/prober/pods.rs: a tick reaches the deadline before the fuel is out, and
-- what each answer says of the API server and of the clock.
use accelrd.Prelude.{
  ℕ, zero, suc, ◌+◌, ◌*◌, ◌/◌, ◌^◌, ◌≤◌, ◌<◌, ◌≡◌, ◌≢◌, ◌⊎◌, inl, inr, refl, true, false, [], ◌∷◌,
  List, Text, codes, Result, ok, err, arith, leb, Bool-cases, is_empty, ◌||◌, ◌=t◌, =t_iff,
  unwrap_or,
}
use accelrd.Prober.Cluster.{
  Api, IsClock, Event, GetPod, PodStatus, found, missing, failed, World, Returns,
}
use accelrd.Prober.Pods.{
  Phase, succeeded, failed_phase, timed_out, phase_of, await_ip_loop, await_pod_ip,
  await_terminal_loop, await_terminal,
}

GetPod-cases : (g : GetPod) → ((p : PodStatus) × (g ≡ found p)) ⊎ ((g ≡ missing) ⊎ (g ≡ failed))
GetPod-cases (found p) = inl (p, refl)
GetPod-cases missing = inr (inl refl)
GetPod-cases failed = inr (inr refl)

nonempty : (t : Text) → is_empty t ≡ false → t ≢ []
nonempty [] h e = absurd (cc (h))
nonempty (c ∷ t) h e = absurd (cc (e))

abbrev pub HasEnded : PodStatus → Type 0
HasEnded p = (phase_of p ≡ codes "Failed") ⊎ (phase_of p ≡ codes "Succeeded")

ended_of :
    (p : PodStatus)
    → ((phase_of p =t codes "Failed") || (phase_of p =t codes "Succeeded")) ≡ true
    → HasEnded p
ended_of p h = elim (Bool-cases (phase_of p =t codes "Failed")) [
  | inl e ↦ inl ((=t_iff (phase_of p) (codes "Failed")).0 e)
  | inr e ↦ inr ((=t_iff (phase_of p) (codes "Succeeded")).0 (cc (e, h)))
]

-- The instants before second 2 ^ 63; `Instant` holds no later one, and its sum with a timeout panics there.
abbrev pub instants : ℕ
instants = 2 ^ 63 * 1000

module _ {S Pod : Type 0} (api : Api S Pod) where
  -- The last thing that the program asked for was this pod, and the server answered so.
  abbrev pub Said : Text → GetPod → World S → Type 0
  Said name g w = (s : S) × (api.get_pod name s ≡ (g, w.outside))

  abbrev pub IpReason : Text → ℕ → Result Text → World S → Type 0
  IpReason name deadline (ok ip) w =
      (ip ≢ []) × (p : PodStatus) × (unwrap_or p.pod_ip [] ≡ ip) × Said name (found p) w
  IpReason name deadline (err _) w =
      (deadline ≤ api.now w.outside)
      ⊎ (Said name missing w ⊎ ((p : PodStatus) × HasEnded p × Said name (found p) w))

  abbrev pub PhaseReason : Text → ℕ → Result Phase → World S → Type 0
  PhaseReason name deadline (ok succeeded) w =
      (p : PodStatus) × (phase_of p ≡ codes "Succeeded") × Said name (found p) w
  PhaseReason name deadline (ok failed_phase) w =
      (p : PodStatus) × (phase_of p ≡ codes "Failed") × Said name (found p) w
  PhaseReason name deadline (ok timed_out) w = deadline ≤ api.now w.outside
  PhaseReason name deadline (err _) w = Said name missing w

  -- No pod is created or deleted, no node patched and no attempt counted, and the answer has its reason.
  abbrev pub IpAnswer : Text → ℕ → World S → Result Text → World S → Type 0
  IpAnswer name deadline w r w' = (w'.log ≡ w.log) × IpReason name deadline r w'

  abbrev pub PhaseAnswer : Text → ℕ → World S → Result Phase → World S → Type 0
  PhaseAnswer name deadline w r w' = (w'.log ≡ w.log) × PhaseReason name deadline r w'

  said :
      (name : Text) (s : S) (g : GetPod) (log : List Event)
      → (api.get_pod name s).0 ≡ g
      → Said name g (record { outside = (api.get_pod name s).1; log = log })
  said name s g log e = (s, λ i. (e i, (api.get_pod name s).1))

  module _ (clock : IsClock api) where
    await_ip_loop-Returns :
        (fuel k start deadline : ℕ) (name : Text) (w : World S)
        → deadline ≤ start + (k + fuel) * 500
        → Returns (await_ip_loop api (suc fuel) k start deadline name) w (IpAnswer name deadline w)
    unfolding await_ip_loop
    await_ip_loop-Returns zero k start deadline name w h =
        let s = api.sleep_until (start + k * 500) w.outside in
        let past : deadline ≤ api.now s =
          omega (arith, clock.sleep_reaches (start + k * 500) w.outside) in
        let e : leb deadline (api.now s) ≡ true = ground (arith, past) in
        rw (e, await_ip_loop) (refl, inl past)
    await_ip_loop-Returns (suc fuel) k start deadline name w h =
        let s = api.sleep_until (start + k * 500) w.outside in
        let s' = (api.get_pod name s).1 in
        let w' = record w { outside = s' } in
        let again = await_ip_loop-Returns fuel (suc k) start deadline name w' (omega arith) in
        elim (Bool-cases (leb deadline (api.now s))) [
          | inl e ↦ rw (e, await_ip_loop) (refl, inl (ground (arith, e)))
          | inr e ↦ elim (GetPod-cases (api.get_pod name s).0) [
            | inl (p, g) ↦ elim (Bool-cases (is_empty (unwrap_or p.pod_ip []))) [
              | inl none_yet ↦
                  elim (Bool-cases
                    ((phase_of p =t codes "Failed") || (phase_of p =t codes "Succeeded"))) [
                      | inl ended ↦
                          rw (e, g, none_yet, ended, await_ip_loop)
                            (refl, inr (inr (p, ended_of p ended, said name s (found p) w.log g)))
                      | inr going ↦ rw (e, g, none_yet, going, await_ip_loop) again
                    ]
              | inr has_ip ↦
                  rw (e, g, has_ip, await_ip_loop)
                    (refl, (nonempty _ has_ip, p, refl, said name s (found p) w.log g))
            ]
            | inr (inl g) ↦ rw (e, g, await_ip_loop) (refl, inr (inl (said name s missing w.log g)))
            | inr (inr g) ↦ rw (e, g, await_ip_loop) again
          ]
        ]

    -- The loop ends also where the deadline is no instant.
    pub await_pod_ip_ends :
        (name : Text) (timeout : ℕ) (w : World S)
        → Returns (await_pod_ip api name timeout) w (IpAnswer name (api.now w.outside + timeout) w)
    unfolding await_pod_ip
    await_pod_ip_ends name timeout w =
        let start = api.now w.outside in
        await_ip_loop-Returns (timeout / 500 + 1) 0 start (start + timeout) name w (omega arith)

    await_terminal_loop-Returns :
        (fuel k start deadline : ℕ) (name : Text) (w : World S)
        → deadline ≤ start + (k + fuel) * 2000
        → Returns
            (await_terminal_loop api (suc fuel) k start deadline name)
            w
            (PhaseAnswer name deadline w)
    unfolding await_terminal_loop
    await_terminal_loop-Returns zero k start deadline name w h =
        let s = api.sleep_until (start + k * 2000) w.outside in
        let past : deadline ≤ api.now s =
          omega (arith, clock.sleep_reaches (start + k * 2000) w.outside) in
        let e : leb deadline (api.now s) ≡ true = ground (arith, past) in
        rw (e, await_terminal_loop) (refl, past)
    await_terminal_loop-Returns (suc fuel) k start deadline name w h =
        let s = api.sleep_until (start + k * 2000) w.outside in
        let s' = (api.get_pod name s).1 in
        let again =
          await_terminal_loop-Returns fuel (suc k) start deadline name (record w { outside = s' })
            (omega arith) in
        elim (Bool-cases (leb deadline (api.now s))) [
          | inl e ↦ rw (e, await_terminal_loop) (refl, ground (arith, e))
          | inr e ↦ elim (GetPod-cases (api.get_pod name s).0) [
            | inl (p, g) ↦ elim (Bool-cases (phase_of p =t codes "Succeeded")) [
              | inl done ↦
                  rw (e, g, done, await_terminal_loop)
                    (
                      refl,
                      (
                        p,
                        (=t_iff (phase_of p) (codes "Succeeded")).0 done,
                        said name s (found p) w.log g,
                      ),
                    )
              | inr not_done ↦ elim (Bool-cases (phase_of p =t codes "Failed")) [
                | inl fell ↦
                    rw (e, g, not_done, fell, await_terminal_loop)
                      (
                        refl,
                        (
                          p,
                          (=t_iff (phase_of p) (codes "Failed")).0 fell,
                          said name s (found p) w.log g,
                        ),
                      )
                | inr going ↦ rw (e, g, not_done, going, await_terminal_loop) again
              ]
            ]
            | inr (inl g) ↦ rw (e, g, await_terminal_loop) (refl, said name s missing w.log g)
            | inr (inr g) ↦ rw (e, g, await_terminal_loop) again
          ]
        ]

    pub await_terminal_ends :
        (name : Text) (timeout : ℕ) (w : World S)
        → Returns
            (await_terminal api name timeout)
            w
            (PhaseAnswer name (api.now w.outside + timeout) w)
    unfolding await_terminal
    await_terminal_ends name timeout w =
        let start = api.now w.outside in
        await_terminal_loop-Returns (timeout / 2000 + 1) 0 start (start + timeout) name w
          (omega arith)

    -- With a clock that never goes back and sleeps that last, where the deadline is an instant, `await_pod_ip` ends on every behaviour of the API
    -- server, creates, deletes and patches nothing, and answers for a reason: an address is not empty and is the one that the server
    -- gave for this pod last, and an error comes past the deadline, or where the server last said that the pod is missing or has ended.
    pub await_pod_ip-Returns :
        (name : Text) (timeout : ℕ) (w : World S)
        → api.now w.outside + timeout < instants
        → Returns (await_pod_ip api name timeout) w (IpAnswer name (api.now w.outside + timeout) w)
    await_pod_ip-Returns name timeout w h = await_pod_ip_ends name timeout w

    -- With a clock that never goes back and sleeps that last, where the deadline is an instant, `await_terminal` ends on every behaviour of the API
    -- server, creates, deletes and patches nothing, and answers for a reason: `Succeeded` and `Failed` are the phase that the
    -- server gave for this pod last, `Timeout` comes past the deadline, and an error where the server last said that the pod is missing.
    pub await_terminal-Returns :
        (name : Text) (timeout : ℕ) (w : World S)
        → api.now w.outside + timeout < instants
        → Returns
            (await_terminal api name timeout)
            w
            (PhaseAnswer name (api.now w.outside + timeout) w)
    await_terminal-Returns name timeout w h = await_terminal_ends name timeout w
