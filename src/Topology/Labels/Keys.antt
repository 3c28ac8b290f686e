-- ===== src/Topology/Labels/Keys.antt =====
-- Which keys the parts of `build` leave alone.
use accelrd.Prelude.{
  ℕ, ◌≡◌, refl, ◌∙◌, Bool, true, false, List, [], ◌∷◌, ◌++◌, Option, none, some, Text, codes,
  text_ord, cmp_text, is_eq, starts_with, arith, if◌then◌else◌, ◌=t◌, length, foldl, any, map,
}
use accelrd.Prelude.Dict.{Dict, get, get-insert_ne, get-insert_self}
use accelrd.Prelude.Decimal.{show_number}
use accelrd.Sensors.{Accelerator, memory_kind_slug, vendor_slug}
use accelrd.Topology.{NodeTopology, LldpNeighbor, RdmaDevice}
use accelrd.Topology.LabelSet.{LabelSet}
use accelrd.Topology.Slugs.{slugify_model}
use accelrd.Topology.Lldp.{rack_slug}
use accelrd.Topology.Labels.{
  inventory_entry, Surroundings, count_by, label, label_some, annotate_some, emit_labels,
  emit_count_labels, count_labels, physical_step, physical_labels, sriov_labels, sriov_step,
  inventory_annotations, describe_rdma, mark_roce, chassis_labels, lldp_labels,
}

-- A key outside a prefix is none of the keys with it.
outside_prefix : (k p s : Text) → starts_with k p ≡ false → is_eq (cmp_text k (p ++ s)) ≡ false
unfolding starts_with cmp_text
outside_prefix k [] s h = cc
outside_prefix [] (b ∷ p) s h = refl
outside_prefix (a ∷ k) (b ∷ p) s h = ground (arith, outside_prefix k p s)

module _ (k : Text) where
  pub get-label_ne :
      (j v : Text) (set : LabelSet)
      → is_eq (cmp_text k j) ≡ false
      → get k (label j v set).labels ≡ get k set.labels
  unfolding label
  get-label_ne j v set h = get-insert_ne k j v set.labels h

  pub get-label_some_ne :
      (j : Text) (o : Option Text) (set : LabelSet)
      → is_eq (cmp_text k j) ≡ false
      → get k (label_some j o set).labels ≡ get k set.labels
  unfolding label_some
  get-label_some_ne j none set h = refl
  get-label_some_ne j (some v) set h = get-label_ne j v set h

  pub get-label_some :
      (o : Option Text) (set : LabelSet)
      → get k set.labels ≡ none
      → get k (label_some k o set).labels ≡ o
  unfolding label_some label
  get-label_some none set h = h
  get-label_some (some v) set h = get-insert_self k v set.labels

  pub get-annotate_some :
      (j : Text) (o : Option Text) (set : LabelSet)
      → get k (annotate_some j o set).labels ≡ get k set.labels
  unfolding annotate_some
  get-annotate_some j none set = refl
  get-annotate_some j (some v) set = refl

  pub get-emit_labels :
      (prefix suffix : Text) (counts : Dict Text ℕ) (set : LabelSet)
      → starts_with k prefix ≡ false
      → get k (emit_labels prefix suffix counts set).labels ≡ get k set.labels
  unfolding emit_labels
  get-emit_labels prefix suffix [] set h = refl
  get-emit_labels prefix suffix ((key, count) ∷ rest) set h =
      get-emit_labels prefix suffix rest _ h
      ∙ get-label_ne (prefix ++ (key ++ suffix)) _ set (outside_prefix k prefix (key ++ suffix) h)

  pub get-chassis_labels :
      (ns : List LldpNeighbor) (acc : List Text × LabelSet)
      → starts_with k (codes "accel-topo.lunnova.dev/lldp.") ≡ false
      → get k (chassis_labels ns acc).1.labels ≡ get k acc.1.labels
  unfolding chassis_labels
  get-chassis_labels [] acc h = refl
  get-chassis_labels (n ∷ ns) (seen, set) h =
      get-chassis_labels ns _ h ∙ one (any (λ c. n.chassis_id =t c) seen)
    where
      key : Text
      key = codes "accel-topo.lunnova.dev/lldp.chassis." ++ rack_slug n

      one :
          (b : Bool)
          → let next : List Text × LabelSet =
              if b then (seen, set) else (n.chassis_id ∷ seen, label key (codes "1") set) in
            get k next.1.labels ≡ get k set.labels
      one true = refl
      one false = get-label_ne key (codes "1") set (
          outside_prefix k (codes "accel-topo.lunnova.dev/lldp.") (codes "chassis." ++ rack_slug n)
            h)

  pub get-lldp_labels :
      (env : Surroundings) (t : NodeTopology) (set : LabelSet)
      → starts_with k (codes "accel-topo.lunnova.dev/lldp.") ≡ false
      → get k (lldp_labels env t set).labels ≡ get k set.labels
  unfolding lldp_labels
  get-lldp_labels env t set h = go t.lldp_neighbors refl
    where
      go :
          (ns : List LldpNeighbor)
          → t.lldp_neighbors ≡ ns
          → get k (lldp_labels env t set).labels ≡ get k set.labels
      go [] e = rw (e, lldp_labels) refl
      go (n ∷ ns) e =
          rw (e, lldp_labels)
            (get-annotate_some (codes "accel-topo.lunnova.dev/lldp-neighbors") _ (
                label (codes "accel-topo.lunnova.dev/lldp.chassis-count")
                  (show_number (length (chassis_labels (n ∷ ns) ([], set)).0))
                  (chassis_labels (n ∷ ns) ([], set)).1)
              ∙ get-label_ne (codes "accel-topo.lunnova.dev/lldp.chassis-count")
                  (show_number (length (chassis_labels (n ∷ ns) ([], set)).0))
                  (chassis_labels (n ∷ ns) ([], set)).1
                  (outside_prefix k (codes "accel-topo.lunnova.dev/lldp.") (codes "chassis-count")
                    h)
              ∙ get-chassis_labels (n ∷ ns) ([], set) h)

  pub get-sriov_labels :
      (env : Surroundings) (accels : List Accelerator) (set : LabelSet)
      → starts_with k (codes "accel.lunnova.dev/sriov.") ≡ false
      → get k (sriov_labels env accels set).labels ≡ get k set.labels
  unfolding sriov_labels
  get-sriov_labels env accels set h = go (foldl (sriov_step env) none accels) refl
    where
      go :
          (o : Option (ℕ × ℕ))
          → foldl (sriov_step env) none accels ≡ o
          → get k (sriov_labels env accels set).labels ≡ get k set.labels
      go none e = rw (e, sriov_labels) refl
      go (some (total, used)) e =
          rw (e, sriov_labels)
            (get-label_ne (codes "accel.lunnova.dev/sriov.configured") (show_number used)
                (label (codes "accel.lunnova.dev/sriov.total") (show_number total) set)
                (outside_prefix k (codes "accel.lunnova.dev/sriov.") (codes "configured") h)
              ∙ get-label_ne (codes "accel.lunnova.dev/sriov.total") (show_number total) set
                  (outside_prefix k (codes "accel.lunnova.dev/sriov.") (codes "total") h))

  pub get-inventory_annotations :
      (env : Surroundings) (t : NodeTopology) (accels : List Accelerator) (set : LabelSet)
      → get k (inventory_annotations env t accels set).labels ≡ get k set.labels
  unfolding inventory_annotations
  get-inventory_annotations env t accels set =
      get-annotate_some (codes "accel.lunnova.dev/fabric-graph") _ (
        annotate_some (codes "accel.lunnova.dev/inventory")
          (env.inventory_json (map inventory_entry accels)) set)
      ∙ get-annotate_some (codes "accel.lunnova.dev/inventory") _ set

  pub get-physical_labels :
      (accels : List Accelerator) (set : LabelSet)
      → starts_with k (codes "accel.lunnova.dev/") ≡ false
      → starts_with k (codes "accel.lunnova.dev/vendor.") ≡ false
      → get k (physical_labels accels set).labels ≡ get k set.labels
  unfolding physical_labels
  get-physical_labels accels set h v =
      let funcs = map (λ e. (e.0, length e.1)) (foldl physical_step [] accels) in
      get-label_ne (codes "accel.lunnova.dev/total-count") (show_number (length accels))
        (emit_labels (codes "accel.lunnova.dev/vendor.") (codes ".physical-count") funcs set)
        (outside_prefix k (codes "accel.lunnova.dev/") (codes "total-count") h)
      ∙ get-emit_labels (codes "accel.lunnova.dev/vendor.") (codes ".physical-count") funcs set v

  pub get-count_labels :
      (accels : List Accelerator) (set : LabelSet)
      → starts_with k (codes "accel.lunnova.dev/memory-kind.") ≡ false
      → starts_with k (codes "accel.lunnova.dev/model.") ≡ false
      → starts_with k (codes "accel.lunnova.dev/vendor.") ≡ false
      → get k (count_labels accels set).labels ≡ get k set.labels
  unfolding count_labels
  get-count_labels accels set h m v =
      let vendors = count_by (λ a. vendor_slug a.id.vendor) accels in
      let models = count_by (λ a. slugify_model a.model) accels in
      let first = emit_count_labels (codes "accel.lunnova.dev/vendor") vendors set in
      let second = emit_count_labels (codes "accel.lunnova.dev/model") models first in
      get-emit_labels (codes "accel.lunnova.dev/memory-kind.") (codes ".count")
        (count_by (λ a. memory_kind_slug a.memory_kind) accels) second h
      ∙ get-emit_labels (codes "accel.lunnova.dev/model.") (codes ".count") models first m
      ∙ get-emit_labels (codes "accel.lunnova.dev/vendor.") (codes ".count") vendors set v

  pub get-describe_rdma :
      (env : Surroundings) (ds : List RdmaDevice) (set : LabelSet)
      → is_eq (cmp_text k (codes "accel-net.lunnova.dev/rdma.devices-count")) ≡ false
      → get k (describe_rdma env ds set).labels ≡ get k set.labels
  unfolding describe_rdma
  get-describe_rdma env [] set h = refl
  get-describe_rdma env (d ∷ ds) set h =
      get-annotate_some (codes "accel-net.lunnova.dev/rdma-inventory") _ (
        label (codes "accel-net.lunnova.dev/rdma.devices-count") (show_number (length (d ∷ ds)))
          set)
      ∙ get-label_ne (codes "accel-net.lunnova.dev/rdma.devices-count")
          (show_number (length (d ∷ ds))) set h

  pub get-mark_roce_ne :
      (b : Bool) (set : LabelSet)
      → is_eq (cmp_text k (codes "accel-net.lunnova.dev/rdma")) ≡ false
      → get k (mark_roce b set).labels ≡ get k set.labels
  unfolding mark_roce
  get-mark_roce_ne true set h =
      get-label_ne (codes "accel-net.lunnova.dev/rdma") (codes "present") set h
  get-mark_roce_ne false set h = refl
