-- ===== src/Prober/Cluster.antt =====
-- What the prober asks of the Kubernetes API server, the clock and the sleeping runtime (crates
-- kube and tokio), as an interface over a state of the outside world, and programs over it. The
-- log of a world holds what the program asked for, the latest first.
use accelrd.Prelude.{ℕ, ◌≤◌, Bool, List, ◌∷◌, Option, none, some, Text, Result}
use accelrd.Prober.Annotations.{Body}

-- What the source reads of a pod's `status`.
pub record PodStatus : Type 0 where
  pub pod_ip : Option Text
  pub phase : Option Text

-- The outcomes of a `get`: the pod, an API error with code 404, another error.
pub data GetPod : Type 0 where
  found : PodStatus → GetPod
  missing : GetPod
  failed : GetPod

pub data Event : Type 0 where
  created : Text → Event
  deleted : Text → Event
  attempted : (rack verdict : Text) → Event
  patched : Text → Body → Event

-- `Pod` is the API server's pod; `create` returns the `metadata.name` that it gave. `logs` has the
-- last lines of a pod's log. Instants are milliseconds.
pub record Api (S Pod : Type 0) : Type 0 where
  pub create : Pod → S → Result (Option Text) × S
  pub get_pod : Text → S → GetPod × S
  pub logs : Text → S → Option Text × S
  pub delete : Text → S → Bool × S
  pub patch_node : Text → Body → S → Bool × S
  pub now : S → ℕ
  pub sleep_until : ℕ → S → S
  pub now_rfc3339 : S → Text
  pub unix_secs : S → ℕ

-- `Instant` never goes back, and a sleep ends no earlier than it was told to.
pub record IsClock {S Pod : Type 0} (api : Api S Pod) : Type 0 where
  pub sleep_reaches : (t : ℕ) (s : S) → t ≤ api.now (api.sleep_until t s)
  pub get_pod_forward : (name : Text) (s : S) → api.now s ≤ api.now (api.get_pod name s).1

pub record World (S : Type 0) : Type 0 where
  pub outside : S
  pub log : List Event

-- A program; `none` means that the fuel of a loop ran out.
abbrev pub M : Type 0 → Type 0 → Type 0
M S A = World S → Option (A × World S)

abbrev after_option : {S A B : Type 0} → Option (A × World S) → (A → M S B) → Option (B × World S)
after_option none f = none
after_option (some (a, w)) f = f a w

infixl 5 ◌>>=◌ ◌>>◌
abbrev pub ◌>>=◌ : {S A B : Type 0} → M S A → (A → M S B) → M S B
◌>>=◌ m f w = after_option (m w) f

abbrev pub ◌>>◌ : {S A B : Type 0} → M S A → M S B → M S B
m >> k = m >>= λ _. k

abbrev pub pure : {S A : Type 0} → A → M S A
pure a w = some (a, w)

module _ {S : Type 0} where
  abbrev pub Holds : {A : Type 0} → Option (A × World S) → (A → World S → Type 0) → Type 0
  Holds none P = ⊥
  Holds (some (a, w)) P = P a w

  -- the program ends, and what it returns satisfies `P`
  abbrev pub Returns : {A : Type 0} → M S A → World S → (A → World S → Type 0) → Type 0
  Returns m w P = Holds (m w) P

  pub Holds-imp :
      {A : Type 0} (r : Option (A × World S)) (P Q : A → World S → Type 0)
      → ((a : A) (w : World S) → P a w → Q a w)
      → Holds r P
      → Holds r Q
  Holds-imp none P Q k h = h
  Holds-imp (some (a, w)) P Q k h = k a w h

  -- Asks the outside world, and logs the event.
  abbrev pub ask : {A : Type 0} → (S → A × S) → M S A
  ask f w = let (a, s) = f w.outside in some (a, record w { outside = s })

  abbrev pub note : Event → M S (Unit {0})
  note e w = some (tt, record w { log = e ∷ w.log })

  abbrev pub read : {A : Type 0} → (S → A) → M S A
  read f w = some (f w.outside, w)

  -- The rule for a sequence: the first program's postcondition is the second's precondition.
  pub Returns->>= :
      {A B : Type 0} (m : M S A) (f : A → M S B) (w : World S) (P : A → World S → Type 0)
      (Q : B → World S → Type 0)
      → Returns m w P
      → ((a : A) (w' : World S) → P a w' → Returns (f a) w' Q)
      → Returns (m >>= f) w Q
  Returns->>= {A} {B} m f w P Q h k = go (m w) h
    where
      go : (r : Option (A × World S)) → Holds r P → Holds (after_option r f) Q
      go none h = h
      go (some (a, w')) h = k a w' h
