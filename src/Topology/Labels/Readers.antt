-- ===== src/Topology/Labels/Readers.antt =====
-- What the prober and the console read in the labels that `build` sets.
use accelrd.Prelude.{
  =t_refl, ◌<◌, ◌≡◌, refl, ◌∙◌, ap, Bool, true, false, List, [], none, some, Text, codes, text_ord,
  cmp_text, is_eq, starts_with, arith, and_then, length, foldl,
}
use accelrd.Prelude.Dict.{Dict, get, get-insert_self}
use accelrd.Prelude.Strings.{parse_below, u64_bound}
use accelrd.Prelude.Decimal.{show_number, parse_below-show_number}
use accelrd.Sensors.{Accelerator}
use accelrd.Topology.{NodeTopology, any_active_roce}
use accelrd.Topology.LabelSet.{LabelSet}
use accelrd.Prober.Pair.{rack_label, rdma_label, has_rdma}
use accelrd.Topology.Labels.{
  Surroundings, domain_step, label_some, emit_labels, topology_labels, count_labels,
  physical_labels, sriov_labels, inventory_annotations, rdma_labels, describe_rdma, mark_roce,
  build,
}
use accelrd.Topology.Labels.Keys.{
  get-label_ne, get-label_some_ne, get-label_some, get-emit_labels, get-lldp_labels,
  get-sriov_labels, get-inventory_annotations, get-physical_labels, get-count_labels,
  get-describe_rdma, get-mark_roce_ne,
}

has_rdma-get :
    (d e : Dict Text Text) → get rdma_label d ≡ get rdma_label e → has_rdma d ≡ has_rdma e
unfolding has_rdma
has_rdma-get d e h = ground (arith, h)

module _ (env : Surroundings) (t : NodeTopology) (accels : List Accelerator) where
  abbrev empty : LabelSet
  empty = record { labels = []; annotations = [] }

  -- The sets after each part of `build`.
  abbrev with_topology : LabelSet
  with_topology = topology_labels t empty

  abbrev with_block : LabelSet
  with_block = label_some (codes "accel-topo.lunnova.dev/block") t.block empty

  abbrev with_domains : LabelSet
  with_domains =
      emit_labels (codes "accel-topo.lunnova.dev/fabric-domain.") []
        (foldl domain_step [] t.fabric_domains) (label_some rack_label t.rack with_block)

  abbrev with_counts : LabelSet
  with_counts = count_labels accels with_topology

  abbrev with_cards : LabelSet
  with_cards = physical_labels accels with_counts

  abbrev with_inventory : LabelSet
  with_inventory = inventory_annotations env t accels (sriov_labels env accels with_cards)

  abbrev with_roce : LabelSet
  with_roce = mark_roce (any_active_roce t.rdma) with_inventory

  build-back :
      (k : Text)
      → starts_with k (codes "accel-topo.lunnova.dev/lldp.") ≡ false
      → is_eq (cmp_text k (codes "accel-net.lunnova.dev/rdma.devices-count")) ≡ false
      → get k (build env t accels).labels ≡ get k with_roce.labels
  unfolding build rdma_labels
  build-back k l r =
      get-lldp_labels k env t (describe_rdma env t.rdma with_roce) l
      ∙ get-describe_rdma k env t.rdma with_roce r

  inventory-back :
      (k : Text)
      → starts_with k (codes "accel.lunnova.dev/sriov.") ≡ false
      → get k with_inventory.labels ≡ get k with_cards.labels
  inventory-back k h =
      get-inventory_annotations k env t accels (sriov_labels env accels with_cards)
      ∙ get-sriov_labels k env accels with_cards h

  get-rack : get rack_label (build env t accels).labels ≡ t.rack
  unfolding topology_labels cmp_text starts_with get
  get-rack =
      build-back rack_label refl refl
      ∙ get-mark_roce_ne rack_label (any_active_roce t.rdma) with_inventory refl
      ∙ inventory-back rack_label refl
      ∙ get-physical_labels rack_label accels with_counts refl refl
      ∙ get-count_labels rack_label accels with_topology refl refl refl
      ∙ get-label_ne rack_label (codes "accel-topo.lunnova.dev/fabric-domains-count")
          (show_number (length t.fabric_domains)) with_domains refl
      ∙ get-emit_labels rack_label (codes "accel-topo.lunnova.dev/fabric-domain.") []
          (foldl domain_step [] t.fabric_domains) (label_some rack_label t.rack with_block) refl
      ∙ get-label_some rack_label t.rack with_block
          (get-label_some_ne rack_label (codes "accel-topo.lunnova.dev/block") t.block empty refl)

  get-rdma_key :
      (b : Bool) (set : LabelSet)
      → get rdma_label set.labels ≡ none
      → has_rdma (mark_roce b set).labels ≡ b
  unfolding has_rdma mark_roce
  get-rdma_key true set h =
      let there = get-insert_self rdma_label (codes "present") set.labels in
      ground (arith, there, =t_refl (codes "present"))
  get-rdma_key false set h = rw (h, has_rdma) refl

  get-rdma_topology : get rdma_label with_topology.labels ≡ none
  unfolding topology_labels cmp_text starts_with get
  get-rdma_topology =
      get-label_ne rdma_label (codes "accel-topo.lunnova.dev/fabric-domains-count")
        (show_number (length t.fabric_domains)) with_domains refl
      ∙ get-emit_labels rdma_label (codes "accel-topo.lunnova.dev/fabric-domain.") []
          (foldl domain_step [] t.fabric_domains) (label_some rack_label t.rack with_block) refl
      ∙ get-label_some_ne rdma_label rack_label t.rack with_block refl
      ∙ get-label_some_ne rdma_label (codes "accel-topo.lunnova.dev/block") t.block empty refl

  has_rdma-build : has_rdma (build env t accels).labels ≡ any_active_roce t.rdma
  unfolding has_rdma cmp_text starts_with
  has_rdma-build =
      has_rdma-get (build env t accels).labels with_roce.labels (build-back rdma_label refl refl)
      ∙ get-rdma_key (any_active_roce t.rdma) with_inventory (
          inventory-back rdma_label refl
          ∙ get-physical_labels rdma_label accels with_counts refl refl
          ∙ get-count_labels rdma_label accels with_topology refl refl refl
          ∙ get-rdma_topology)

  get-total :
      get (codes "accel.lunnova.dev/total-count") (build env t accels).labels
      ≡ some (show_number (length accels))
  unfolding cmp_text starts_with physical_labels
  get-total =
      let total = codes "accel.lunnova.dev/total-count" in
      build-back total refl refl
      ∙ get-mark_roce_ne total (any_active_roce t.rdma) with_inventory refl
      ∙ inventory-back total refl
      ∙ get-insert_self total (show_number (length accels)) _

  -- In the labels of a node with fewer than 2 ^ 64 accelerators, the prober finds the rack of the
  -- topology and finds the node able to do RDMA exactly when it has an active RoCE port, and the
  -- console reads the number of accelerators.
  pub build_read :
      length accels < u64_bound
      → let labels = (build env t accels).labels in
        (get rack_label labels ≡ t.rack)
        × (has_rdma labels ≡ any_active_roce t.rdma)
        × (and_then (get (codes "accel.lunnova.dev/total-count") labels) (parse_below u64_bound)
            ≡ some (length accels))
  build_read h = (
    get-rack,
    has_rdma-build,
    ap (λ o. and_then o (parse_below u64_bound)) get-total
        ∙ parse_below-show_number (length accels) h,
  )
