-- ===== src/Sensors/Host.antt =====
-- src/sensors/host.rs: the memory, the disks and the power of the host.
use accelrd.Prelude.{
  ℕ, zero, suc, ◌-◌, ◌*◌, min, Bool, not, ◌&&◌, ◌||◌, ◌++◌, List, [], ◌∷◌, Option, none, some, Text,
  codes, text_ord, ◌=t◌, any, keep, foldl, length, and_then, map_option, keep_if, starts_with,
  is_empty, if◌then◌else◌,
}
use accelrd.Prelude.Dict.{Dict, get, insert}
use accelrd.Prelude.Sort.{sort_by}
use accelrd.Prelude.Strings.{
  split_once, split_whitespace, trim, lines, ends_with, parse_below, u64_bound,
}
use accelrd.Sensors.{Measurement, Floats}
use accelrd.Sensors.Common.{join_path}
use accelrd.Sensors.Sysfs.{Fs, flat_map}

-- `saturating_mul` of u64.
abbrev pub saturating_mul : ℕ → ℕ → ℕ
saturating_mul a b = min (a * b) (u64_bound - 1)

-- The bytes of a number with its unit.
unfoldable pub meminfo_bytes : ℕ → Text → ℕ
meminfo_bytes num unit =
    if unit =t codes "kB" || unit =t codes "KB"
    then saturating_mul num 1024
    else if unit =t codes "MB"
    then saturating_mul num 1048576
    else num

-- What follows the colon of a line.
unfoldable pub meminfo_value : List Text → Option ℕ
unfolding parse_below meminfo_bytes
meminfo_value [] = none
meminfo_value (num ∷ []) = map_option (λ n. meminfo_bytes n []) (parse_below u64_bound num)
meminfo_value (num ∷ unit ∷ _) = map_option (λ n. meminfo_bytes n unit) (parse_below u64_bound num)

unfoldable pub meminfo_line : Text → Option (Text × ℕ)
unfolding split_once split_whitespace meminfo_value trim
meminfo_line line =
    and_then (split_once b':' line)
      λ kv. map_option (λ bytes. (trim kv.0, bytes)) (meminfo_value (split_whitespace kv.1))

abbrev pub insert_entry : Dict Text ℕ → Option (Text × ℕ) → Dict Text ℕ
insert_entry out none = out
insert_entry out (some kv) = insert kv.0 kv.1 out

unfoldable pub parse_meminfo_str : Text → Dict Text ℕ
unfolding meminfo_line lines
parse_meminfo_str content =
    foldl (λ out line. insert_entry out (meminfo_line line)) [] (lines content)

abbrev pub real_filesystems : List Text
real_filesystems =
    codes "ext4"
    ∷ codes "xfs"
    ∷ codes "btrfs"
    ∷ codes "zfs"
    ∷ codes "f2fs"
    ∷ codes "ext3"
    ∷ codes "ext2"
    ∷ []

abbrev skip_hwmon_names : List Text
skip_hwmon_names =
    codes "amdgpu"
    ∷ codes "i915"
    ∷ codes "xe"
    ∷ codes "nouveau"
    ∷ codes "nvidia"
    ∷ codes "nvme"
    ∷ codes "drivetemp"
    ∷ []

abbrev pub has_text : Text → List Text → Bool
has_text s l = any (λ t. t =t s) l

-- The token after the first `-` among the tokens; none without a `-`.
unfoldable pub fs_type : List Text → Option Text
fs_type [] = none
fs_type (t ∷ []) = if t =t codes "-" then some [] else none
fs_type (t ∷ next ∷ rest) =
    let later = fs_type (next ∷ rest) in if t =t codes "-" then some next else later

-- `parts.get(n)`
abbrev pub part : ℕ → List Text → Option Text
part n [] = none
part zero (x ∷ xs) = some x
part (suc n) (x ∷ xs) = part n xs

-- The mount point of a line, where its file system is a real one.
unfoldable pub mount_of : Text → Option Text
unfolding split_whitespace fs_type
mount_of line =
    let parts = split_whitespace line in
    and_then (fs_type parts) λ fs. if has_text fs real_filesystems then part 4 parts else none

-- The loop over the lines, with the mounts that were seen.
unfoldable pub mounts_from : (seen : List Text) → List Text → List Text
unfolding mount_of
mounts_from seen [] = []
mounts_from seen (line ∷ rest) = elim (mount_of line) [
  | none ↦ mounts_from seen rest
  | some m ↦ if has_text m seen then mounts_from seen rest else m ∷ mounts_from (m ∷ seen) rest
]

unfoldable pub parse_mountinfo : Text → List Text
unfolding mounts_from lines
parse_mountinfo content = mounts_from [] (lines content)

-- `str::replace`; `skip` counts the bytes of a match that are still to be passed over.
unfoldable pub replace_from : (skip : ℕ) (from to : Text) → Text → Text
unfolding starts_with
replace_from skip from to [] = []
replace_from (suc skip) from to (c ∷ s) = replace_from skip from to s
replace_from zero from to (c ∷ s) =
    let here = replace_from (length from - 1) from to s in
    let later = replace_from 0 from to s in
    if starts_with (c ∷ s) from then to ++ here else c ∷ later

module _ (fs : Fs) where
  unfoldable pub parse_meminfo : Dict Text ℕ
  unfolding parse_meminfo_str
  parse_meminfo = elim (fs.read (codes "/proc/meminfo")) [
    | none ↦ []
    | some s ↦ parse_meminfo_str s
  ]

  unfoldable pub real_mounts : List Text
  unfolding parse_mountinfo
  real_mounts = elim (fs.read (codes "/proc/self/mountinfo")) [
    | none ↦ []
    | some s ↦ parse_mountinfo s
  ]

  -- The total and the free bytes of a mount.
  unfoldable pub statvfs_pair : Text → Option (ℕ × ℕ)
  statvfs_pair path =
      map_option (λ v. (saturating_mul v.1 v.0, saturating_mul v.2 v.0)) (fs.statvfs path)

  unfoldable pub read_first_line : Text → Option Text
  unfolding lines trim
  read_first_line p = and_then (fs.read p) λ s. elim (lines s) [
    | [] ↦ none
    | line ∷ _ ↦ keep_if (λ l. not (is_empty l)) (some (trim line))
  ]

  unfoldable pub read_u64 : Text → Option ℕ
  unfolding read_first_line parse_below
  read_u64 p = and_then (read_first_line p) (parse_below u64_bound)

  -- The names of the files, sorted; their paths share the directory.
  unfoldable pub power_input_files : Text → List Text
  unfolding starts_with ends_with sort_by
  power_input_files dir = elim (fs.read_dir dir) [
    | none ↦ []
    | some entries ↦
        sort_by text_ord.cmp
          (keep (λ n. starts_with n (codes "power") && ends_with n (codes "_input")) entries)
  ]

module _ {F64 : Type 0} (fs : Fs) (f : Floats F64) where
  abbrev gauge : (name : Text) → ℕ → List (Text × Text) → Measurement F64
  gauge name v attrs = record { name = name; unit = codes "By"; value = f.of_nat v; attrs = attrs }

  abbrev push : (name : Text) → Option ℕ → List (Measurement F64)
  push name none = []
  push name (some v) = gauge name v [] ∷ []

  abbrev swap_metrics : Option ℕ → Option ℕ → List (Measurement F64)
  swap_metrics (some total) (some free) =
      gauge (codes "host.memory.swap.total_bytes") total []
      ∷ gauge (codes "host.memory.swap.used_bytes") (total - free) []
      ∷ []
  swap_metrics _ _ = []

  unfoldable pub memory_metrics : List (Measurement F64)
  unfolding parse_meminfo
  memory_metrics =
      push (codes "host.memory.total_bytes") (get (codes "MemTotal") (parse_meminfo fs))
      ++ push (codes "host.memory.available_bytes") (get (codes "MemAvailable") (parse_meminfo fs))
      ++ swap_metrics (get (codes "SwapTotal") (parse_meminfo fs))
          (get (codes "SwapFree") (parse_meminfo fs))

  -- The readings of one mount.
  abbrev pub mount_metrics : Text → Option (ℕ × ℕ) → List (Measurement F64)
  mount_metrics mount none = []
  mount_metrics mount (some pair) =
      gauge (codes "host.disk.total_bytes") pair.0 ((codes "mount", mount) ∷ [])
      ∷ gauge (codes "host.disk.free_bytes") pair.1 ((codes "mount", mount) ∷ [])
      ∷ []

  unfoldable pub disk_metrics : List (Measurement F64)
  unfolding real_mounts statvfs_pair flat_map
  disk_metrics = flat_map (λ m. mount_metrics m (statvfs_pair fs m)) (real_mounts fs)

  abbrev rail_attr : Option Text → List (Text × Text)
  rail_attr none = []
  rail_attr (some label) = (codes "rail", label) ∷ []

  -- One power file of a chip.
  unfoldable pub power_reading : (dir name file : Text) → List (Measurement F64)
  unfolding read_u64 read_first_line join_path replace_from
  power_reading dir name file = elim (read_u64 fs (join_path dir file)) [
    | none ↦ []
    | some uw ↦
        record {
          name = codes "host.power.usage";
          unit = codes "W";
          value = f.div (f.of_nat uw) (f.of_nat 1000000);
          attrs =
              (codes "source", name)
              ∷ rail_attr (
                  read_first_line fs
                    (join_path dir (replace_from 0 (codes "_input") (codes "_label") file)));
        }
        ∷ []
  ]

  unfoldable pub chip_readings : Text → List (Measurement F64)
  unfolding read_first_line join_path power_input_files power_reading flat_map
  chip_readings dir = elim (read_first_line fs (join_path dir (codes "name"))) [
    | none ↦ []
    | some name ↦
        if has_text name skip_hwmon_names
        then []
        else flat_map (power_reading dir name) (power_input_files fs dir)
  ]

  unfoldable pub power_metrics : List (Measurement F64)
  unfolding chip_readings join_path flat_map
  power_metrics = elim (fs.read_dir (codes "/sys/class/hwmon")) [
    | none ↦ []
    | some entries ↦ flat_map (λ e. chip_readings (join_path (codes "/sys/class/hwmon") e)) entries
  ]

  unfoldable pub snapshot : List (Measurement F64)
  unfolding memory_metrics disk_metrics power_metrics
  snapshot = memory_metrics ++ disk_metrics ++ power_metrics
