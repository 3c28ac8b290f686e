-- ===== src/Prober/Pods.antt =====
-- src/prober/pods.rs: the calls that build, create, await, read and delete probe pods.
pub mod Waiting
use accelrd.Prelude.{
  ℕ, zero, suc, ◌+◌, ◌*◌, ◌/◌, Bool, true, false, not, ◌&&◌, ◌||◌, List, [], ◌∷◌, ◌++◌, Option,
  none, some, Text, codes, Result, ok, err, context, context_option, if◌then◌else◌, leb, is_empty,
  ◌=t◌, unwrap_or, and_then,
}
use accelrd.Prober.Cluster.{
  Api, GetPod, PodStatus, Event, World, M, ◌>>=◌, ◌>>◌, pure, ask, note, read, found, missing,
  failed,
}
use accelrd.Prober.Config.{Resolved}
use accelrd.Prober.Results.{ProbeRecord, parse}

pub data Role : Type 0 where
  server client : Role

unfoldable pub slug : Role → Text
slug server = codes "server"
slug client = codes "client"

pub record PodSpec : Type 0 where
  pub role : Role
  pub node_name : Text
  pub partner_node : Text
  pub partner_ip : Option Text
  pub rack : Text
  pub pair_id : Text

pub data Phase : Type 0 where
  succeeded failed_phase timed_out : Phase

abbrev pub phase_of : PodStatus → Text
phase_of p = unwrap_or p.phase []

-- The log of a create: the name under which the caller goes on.
abbrev note_created : {S : Type 0} → Result (Option Text) → M S (Unit {0})
note_created (ok name) = note (Event.created (unwrap_or name []))
note_created (err _) = pure tt

module _ {S Pod : Type 0} (api : Api S Pod) where
  unfoldable pub create : Pod → M S (Result (Option Text))
  create pod = do
    r ← ask (api.create pod)
    note_created r
    pure (context (codes "create probe pod") r)

  -- A failed delete is logged and otherwise ignored.
  unfoldable pub delete : Text → M S (Unit {0})
  delete name = do ask (api.delete name); note (Event.deleted name)

  -- `loop { interval.tick().await; .. }` every 500 ms, where tick `k` ends no earlier than
  -- `start + k * 500`.
  unfoldable pub await_ip_loop : (fuel k start deadline : ℕ) → Text → M S (Result Text)
  await_ip_loop zero k start deadline name w = none
  await_ip_loop (suc fuel) k start deadline name w =
      let s = api.sleep_until (start + k * 500) w.outside in
      let (r, s') = api.get_pod name s in
      let again = await_ip_loop fuel (suc k) start deadline name (record w { outside = s' }) in
      if leb deadline (api.now s)
      then some (
        err (codes "timeout waiting for pod " ++ name ++ codes " to receive a pod-network IP"),
        record w { outside = s },
      )
      else elim r [
        | found p ↦
            if not (is_empty (unwrap_or p.pod_ip []))
            then some (ok (unwrap_or p.pod_ip []), record w { outside = s' })
            else if (phase_of p =t codes "Failed") || (phase_of p =t codes "Succeeded")
            then some (
              err (codes "pod " ++ name ++ codes " terminated before receiving an IP"),
              record w { outside = s' },
            )
            else again
        | missing ↦ some (
          err (codes "pod " ++ name ++ codes " disappeared before receiving an IP"),
          record w { outside = s' },
        )
        | failed ↦ again
      ]

  -- The timeout is in milliseconds; one tick every 500 ms reaches the deadline.
  unfoldable pub await_pod_ip : Text → ℕ → M S (Result Text)
  unfolding await_ip_loop
  await_pod_ip name timeout w =
      let start = api.now w.outside in
      await_ip_loop (suc (timeout / 500 + 1)) 0 start (start + timeout) name w

  unfoldable pub await_terminal_loop : (fuel k start deadline : ℕ) → Text → M S (Result Phase)
  await_terminal_loop zero k start deadline name w = none
  await_terminal_loop (suc fuel) k start deadline name w =
      let s = api.sleep_until (start + k * 2000) w.outside in
      let (r, s') = api.get_pod name s in
      let again =
        await_terminal_loop fuel (suc k) start deadline name (record w { outside = s' }) in
      if leb deadline (api.now s) then some (ok timed_out, record w { outside = s }) else elim r [
        | found p ↦
            if phase_of p =t codes "Succeeded"
            then some (ok succeeded, record w { outside = s' })
            else if phase_of p =t codes "Failed"
            then some (ok failed_phase, record w { outside = s' })
            else again
        | missing ↦ some (
          err (codes "pod " ++ name ++ codes " disappeared during probe"),
          record w { outside = s' },
        )
        | failed ↦ again
      ]

  unfoldable pub await_terminal : Text → ℕ → M S (Result Phase)
  unfolding await_terminal_loop
  await_terminal name timeout w =
      let start = api.now w.outside in
      await_terminal_loop (suc (timeout / 2000 + 1)) 0 start (start + timeout) name w

  module _ {F64 : Type 0} (from_str : Text → Option (ProbeRecord F64)) where
    unfoldable pub read_record : Text → M S (Result (ProbeRecord F64))
    unfolding parse
    read_record name = do
      log ← ask (api.logs name)
      pure (elim log [ none ↦ err (codes "read probe logs") | some text ↦ parse from_str text ])
