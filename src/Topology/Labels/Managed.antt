-- ===== src/Topology/Labels/Managed.antt =====
-- Every key that `build` sets is the daemon's own: the labeler takes it down again.
use accelrd.Prelude.{
  ℕ, Bool, true, false, foldl, map, length, ◌≡◌, refl, true, false, List, [], ◌∷◌, ◌++◌, Option,
  none, some, Text, codes, text_ord, All, starts_with, any, if◌then◌else◌, ◌=t◌,
}
use accelrd.Prelude.Dict.{Dict, insert, IsOrdered, insert-IsOrdered, All-insert}
use accelrd.Sensors.{Accelerator, memory_kind_slug, vendor_slug}
use accelrd.Topology.Slugs.{slugify_model}
use accelrd.Topology.Lldp.{rack_slug}
use accelrd.K8s.Labeler.{is_managed}
use accelrd.Topology.{NodeTopology, LldpNeighbor, RdmaDevice, any_active_roce}
use accelrd.Topology.LabelSet.{LabelSet}
use accelrd.Topology.Labels.{
  domain_step, count_by, Surroundings, label, label_some, annotate_some, emit_labels,
  emit_count_labels, topology_labels, count_labels, physical_labels, sriov_labels, sriov_step,
  physical_step, inventory_annotations, rdma_labels, describe_rdma, mark_roce, chassis_labels,
  lldp_labels, build,
}

abbrev IsOwn : Dict Text Text → Type 0
IsOwn d = IsOrdered d × All (λ e. is_managed e.0 ≡ true) d

insert-IsOwn :
    (k v : Text) (d : Dict Text Text) → is_managed k ≡ true → IsOwn d → IsOwn (insert k v d)
insert-IsOwn k v d m h = (insert-IsOrdered k v d h.0, All-insert _ k v d m h.1)

-- Both maps are in order and hold only keys that the labeler manages.
pub record AreOwn (set : LabelSet) : Type 0 where
  pub labels_own : IsOwn set.labels
  pub annotations_own : IsOwn set.annotations

label-AreOwn :
    (k v : Text) (set : LabelSet) → is_managed k ≡ true → AreOwn set → AreOwn (label k v set)
unfolding label
label-AreOwn k v set m h = record {
  labels_own = insert-IsOwn k v set.labels m h.labels_own;
  annotations_own = h.annotations_own;
}

label_some-AreOwn :
    (k : Text) (o : Option Text) (set : LabelSet)
    → is_managed k ≡ true
    → AreOwn set
    → AreOwn (label_some k o set)
unfolding label_some
label_some-AreOwn k none set m h = h
label_some-AreOwn k (some v) set m h = label-AreOwn k v set m h

annotate_some-AreOwn :
    (k : Text) (o : Option Text) (set : LabelSet)
    → is_managed k ≡ true
    → AreOwn set
    → AreOwn (annotate_some k o set)
unfolding annotate_some
annotate_some-AreOwn k none set m h = h
annotate_some-AreOwn k (some v) set m h = record {
  labels_own = h.labels_own;
  annotations_own = insert-IsOwn k v set.annotations m h.annotations_own;
}

emit_labels-AreOwn :
    (prefix suffix : Text)
    → ((key : Text) → is_managed (prefix ++ (key ++ suffix)) ≡ true)
    → (counts : Dict Text ℕ) (set : LabelSet) → AreOwn set
    → AreOwn (emit_labels prefix suffix counts set)
unfolding emit_labels
emit_labels-AreOwn prefix suffix m [] set h = h
emit_labels-AreOwn prefix suffix m ((key, count) ∷ rest) set h =
    emit_labels-AreOwn prefix suffix m rest _
      (label-AreOwn (prefix ++ (key ++ suffix)) _ set (m key) h)

emit_count_labels-AreOwn :
    (prefix : Text)
    → ((key : Text) → is_managed ((prefix ++ codes ".") ++ (key ++ codes ".count")) ≡ true)
    → (counts : Dict Text ℕ) (set : LabelSet) → AreOwn set
    → AreOwn (emit_count_labels prefix counts set)
unfolding emit_count_labels
emit_count_labels-AreOwn prefix m counts set h =
    emit_labels-AreOwn (prefix ++ codes ".") (codes ".count") m counts set h

topology_labels-AreOwn :
    (t : NodeTopology) (set : LabelSet) → AreOwn set → AreOwn (topology_labels t set)
unfolding topology_labels is_managed starts_with
topology_labels-AreOwn t set h =
    label-AreOwn (codes "accel-topo.lunnova.dev/fabric-domains-count") _ _ refl (
      emit_labels-AreOwn (codes "accel-topo.lunnova.dev/fabric-domain.") [] (λ key. refl)
        (foldl domain_step [] t.fabric_domains) _
        (label_some-AreOwn (codes "accel-topo.lunnova.dev/rack") t.rack _ refl
          (label_some-AreOwn (codes "accel-topo.lunnova.dev/block") t.block set refl h)))

count_labels-AreOwn :
    (accels : List Accelerator) (set : LabelSet) → AreOwn set → AreOwn (count_labels accels set)
unfolding count_labels is_managed starts_with
count_labels-AreOwn accels set h =
    emit_count_labels-AreOwn (codes "accel.lunnova.dev/memory-kind") (λ key. refl)
      (count_by (λ a. memory_kind_slug a.memory_kind) accels) _
      (emit_count_labels-AreOwn (codes "accel.lunnova.dev/model") (λ key. refl)
        (count_by (λ a. slugify_model a.model) accels) _
        (emit_count_labels-AreOwn (codes "accel.lunnova.dev/vendor") (λ key. refl)
          (count_by (λ a. vendor_slug a.id.vendor) accels) set h))

chassis_labels-AreOwn :
    (ns : List LldpNeighbor) (acc : List Text × LabelSet)
    → AreOwn acc.1
    → AreOwn (chassis_labels ns acc).1
unfolding chassis_labels is_managed starts_with
chassis_labels-AreOwn [] acc h = h
chassis_labels-AreOwn (n ∷ ns) (seen, set) h =
    elim (any (λ c. n.chassis_id =t c) seen)
      as (λ b.
        AreOwn
          (chassis_labels ns (
            if b then (seen, set) else (
              n.chassis_id ∷ seen,
              label (codes "accel-topo.lunnova.dev/lldp.chassis." ++ rack_slug n) (codes "1") set,
            ))).1) [
              | true ↦ chassis_labels-AreOwn ns (seen, set) h
              | false ↦ chassis_labels-AreOwn ns _ (
                  label-AreOwn (codes "accel-topo.lunnova.dev/lldp.chassis." ++ rack_slug n)
                    (codes "1") set refl h)
            ]

physical_labels-AreOwn :
    (accels : List Accelerator) (set : LabelSet) → AreOwn set → AreOwn (physical_labels accels set)
unfolding physical_labels is_managed starts_with
physical_labels-AreOwn accels set h =
    label-AreOwn (codes "accel.lunnova.dev/total-count") _ _ refl (
      emit_labels-AreOwn (codes "accel.lunnova.dev/vendor.") (codes ".physical-count") (λ key. refl)
        (map (λ e. (e.0, length e.1)) (foldl physical_step [] accels)) set h)

mark_roce-AreOwn : (b : Bool) (set : LabelSet) → AreOwn set → AreOwn (mark_roce b set)
unfolding mark_roce is_managed starts_with
mark_roce-AreOwn true set h =
    label-AreOwn (codes "accel-net.lunnova.dev/rdma") (codes "present") set refl h
mark_roce-AreOwn false set h = h

module _ (env : Surroundings) where
  sriov_labels-AreOwn :
      (accels : List Accelerator) (set : LabelSet)
      → AreOwn set
      → AreOwn (sriov_labels env accels set)
  unfolding sriov_labels is_managed starts_with
  sriov_labels-AreOwn accels set h = go (foldl (sriov_step env) none accels) refl
    where
      go :
          (o : Option (ℕ × ℕ))
          → foldl (sriov_step env) none accels ≡ o
          → AreOwn (sriov_labels env accels set)
      go none e = rw (e, sriov_labels) h
      go (some (total, used)) e =
          rw (e, sriov_labels)
            (label-AreOwn (codes "accel.lunnova.dev/sriov.configured") _ _ refl
              (label-AreOwn (codes "accel.lunnova.dev/sriov.total") _ set refl h))

  inventory_annotations-AreOwn :
      (t : NodeTopology) (accels : List Accelerator) (set : LabelSet)
      → AreOwn set
      → AreOwn (inventory_annotations env t accels set)
  unfolding inventory_annotations is_managed starts_with
  inventory_annotations-AreOwn t accels set h =
      annotate_some-AreOwn (codes "accel.lunnova.dev/fabric-graph") _ _ refl
        (annotate_some-AreOwn (codes "accel.lunnova.dev/inventory") _ set refl h)

  describe_rdma-AreOwn :
      (ds : List RdmaDevice) (set : LabelSet) → AreOwn set → AreOwn (describe_rdma env ds set)
  unfolding describe_rdma is_managed starts_with
  describe_rdma-AreOwn [] set h = h
  describe_rdma-AreOwn (d ∷ ds) set h =
      annotate_some-AreOwn (codes "accel-net.lunnova.dev/rdma-inventory") _ _ refl
        (label-AreOwn (codes "accel-net.lunnova.dev/rdma.devices-count") _ set refl h)

  rdma_labels-AreOwn :
      (t : NodeTopology) (set : LabelSet) → AreOwn set → AreOwn (rdma_labels env t set)
  unfolding rdma_labels
  rdma_labels-AreOwn t set h =
      describe_rdma-AreOwn t.rdma _ (mark_roce-AreOwn (any_active_roce t.rdma) set h)

  lldp_labels-AreOwn :
      (t : NodeTopology) (set : LabelSet) → AreOwn set → AreOwn (lldp_labels env t set)
  unfolding lldp_labels is_managed starts_with
  lldp_labels-AreOwn t set h = go t.lldp_neighbors refl
    where
      go : (ns : List LldpNeighbor) → t.lldp_neighbors ≡ ns → AreOwn (lldp_labels env t set)
      go [] e = rw (e, lldp_labels) h
      go (n ∷ ns) e =
          rw (e, lldp_labels)
            (annotate_some-AreOwn (codes "accel-topo.lunnova.dev/lldp-neighbors") _ _ refl (
              label-AreOwn (codes "accel-topo.lunnova.dev/lldp.chassis-count") _ _ refl
                (chassis_labels-AreOwn (n ∷ ns) ([], set) h)))

  -- The labels and the annotations of a node are maps in the order of their keys, and each key is one
  -- that the labeler manages, so that it is taken down once it is no longer desired.
  pub build-AreOwn : (t : NodeTopology) (accels : List Accelerator) → AreOwn (build env t accels)
  unfolding build
  build-AreOwn t accels = lldp_labels-AreOwn t _ (
      rdma_labels-AreOwn t _ (
        inventory_annotations-AreOwn t accels _ (
          sriov_labels-AreOwn accels _ (
            physical_labels-AreOwn accels _ (
              count_labels-AreOwn accels _ (
                topology_labels-AreOwn t _
                  (record { labels_own = (tt, tt); annotations_own = (tt, tt) })))))))
