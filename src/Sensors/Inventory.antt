-- ===== src/Sensors/Inventory.antt =====
-- `enumerate_all` of src/sensors/mod.rs: the accelerators of every vendor, with the marks of partitions.
use accelrd.Prelude.{◌≡◌, refl, ◌++◌, ℕ, List, [], ◌∷◌, none, Text, map, All, All-append, foldl}
use accelrd.Sensors.{Accelerator, Vendor, amd, nvidia, intel}
use accelrd.Sensors.Common.{mark, mark_partitions, parent_step}
use accelrd.Sensors.Sysfs.{Fs, enumerate_for_vendor}
use accelrd.Sensors.Amd
use accelrd.Sensors.Nvidia
use accelrd.Sensors.Intel

module _ (fs : Fs) where
  -- No backend's `enumerate` fails.
  unfoldable pub enumerate_all : List Accelerator
  unfolding mark_partitions Amd.enumerate Nvidia.enumerate Intel.enumerate
  enumerate_all =
      mark_partitions fs.read (Amd.enumerate fs ++ (Nvidia.enumerate fs ++ Intel.enumerate fs))

  -- The card is in no domain.
  abbrev pub IsUnplaced : Accelerator → Type 0
  IsUnplaced a = a.fabric_domain ≡ none

  map-IsUnplaced :
      {A : Type 0} (f : A → Accelerator)
      → ((x : A) → IsUnplaced (f x))
      → (l : List A) → All IsUnplaced (map f l)
  map-IsUnplaced f h [] = tt
  map-IsUnplaced f h (x ∷ l) = (h x, map-IsUnplaced f h l)

  enumerate_for_vendor-IsUnplaced :
      (vendor : Vendor) (build : ℕ → Text → Accelerator)
      → ((n : ℕ) (dir : Text) → IsUnplaced (build n dir))
      → All IsUnplaced (enumerate_for_vendor fs vendor build)
  unfolding enumerate_for_vendor
  enumerate_for_vendor-IsUnplaced vendor build h =
      map-IsUnplaced (λ c. build c.0 c.1) (λ c. h c.0 c.1) _

  mark_all-IsUnplaced :
      (marks : Accelerator → Accelerator)
      → ((a : Accelerator) → IsUnplaced a → IsUnplaced (marks a))
      → (l : List Accelerator) → All IsUnplaced l
      → All IsUnplaced (map marks l)
  mark_all-IsUnplaced marks k [] h = tt
  mark_all-IsUnplaced marks k (a ∷ l) h = (k a h.0, mark_all-IsUnplaced marks k l h.1)

  mark_partitions-IsUnplaced :
      (l : List Accelerator) → All IsUnplaced l → All IsUnplaced (mark_partitions fs.read l)
  unfolding mark_partitions mark
  mark_partitions-IsUnplaced l h =
      mark_all-IsUnplaced (mark fs.read (foldl parent_step [] l)) (λ a e. e) l h

  amd-IsUnplaced : All IsUnplaced (Amd.enumerate fs)
  unfolding Amd.enumerate Amd.build_accelerator
  amd-IsUnplaced = enumerate_for_vendor-IsUnplaced amd (Amd.build_accelerator fs) (λ n dir. refl)

  nvidia-IsUnplaced : All IsUnplaced (Nvidia.enumerate fs)
  unfolding Nvidia.enumerate Nvidia.build_accelerator
  nvidia-IsUnplaced =
      enumerate_for_vendor-IsUnplaced nvidia
        (Nvidia.build_accelerator fs (Nvidia.read_proc_nvidia_models fs)) (λ n dir. refl)

  intel-IsUnplaced : All IsUnplaced (Intel.enumerate fs)
  unfolding Intel.enumerate Intel.build_accelerator
  intel-IsUnplaced =
      enumerate_for_vendor-IsUnplaced intel (Intel.build_accelerator fs) (λ n dir. refl)

  -- The sensors place no card in a domain.
  pub enumerate_all-IsUnplaced : All IsUnplaced enumerate_all
  unfolding enumerate_all
  enumerate_all-IsUnplaced =
      let nvidia_intel =
        All-append IsUnplaced (Nvidia.enumerate fs) (Intel.enumerate fs) nvidia-IsUnplaced
          intel-IsUnplaced in
      let all =
        All-append IsUnplaced (Amd.enumerate fs) (Nvidia.enumerate fs ++ Intel.enumerate fs)
          amd-IsUnplaced nvidia_intel in
      mark_partitions-IsUnplaced _ all
