-- ===== src/Sensors/Sysfs.antt =====
-- The readers of sysfs in src/sensors/common.rs, over an interface of the file system. Names in
-- directories are Unicode.
use accelrd.Prelude.{
  ℕ, zero, suc, ◌+◌, ◌-◌, ◌*◌, ◌/◌, ◌%◌, ◌^◌, Bool, not, ◌&&◌, List, [], ◌∷◌, ◌++◌, Option, none,
  some, Text, codes, nat_ord, compare, map, keep, filter_map, and_then, map_option, keep_if,
  unwrap_or, starts_with, is_empty, ltb, leb, ◌==◌, true, false, if◌then◌else◌, Ordering,
}
use accelrd.Prelude.Int.{ℤ, pos, sub_ℕ}
use accelrd.Prelude.Sort.{sort_by}
use accelrd.Prelude.Strings.{
  reverse, trim, lines, split, split_once, split_ascii_whitespace, contains, parse_below,
  parse_digits, strip_prefix, u64_bound,
}
use accelrd.Sensors.{
  Vendor, amd, nvidia, intel, other, from_pci_id, Accelerator, Measurement, Floats,
}
use accelrd.Sensors.Common.{join_path, read_u64}

-- `read` is `read_to_string`; `read_dir` has the names of the entries that can be read; `statvfs` has f_frsize, f_blocks and
-- f_bavail.
pub record Fs : Type 0 where
  pub read : Text → Option Text
  pub read_dir : Text → Option (List Text)
  pub read_link : Text → Option Text
  pub canonicalize : Text → Option Text
  pub statvfs : Text → Option (ℕ × ℕ × ℕ)

-- `Path::file_name` of a path that does not end in a slash or in dots.
unfoldable pub below : Text → Text → Text
below [] name = name
below (c ∷ s) name = let rest = below s (c ∷ name) in if c == b'/' then name else rest

unfoldable pub file_name : Text → Option Text
unfolding below reverse
file_name path = keep_if (λ n. not (is_empty n)) (some (below (reverse path []) []))

-- `trim_start_matches("0x")`
unfoldable pub trim_0x : Text → Text
trim_0x (a ∷ b ∷ s) = let rest = trim_0x s in if a == b'0' && b == b'x' then rest else a ∷ b ∷ s
trim_0x s = s

-- The value of a hexadecimal digit.
unfoldable pub hex_value : ℕ → Option ℕ
hex_value c =
    if leb b'0' c && leb c b'9'
    then some (c - b'0')
    else if leb b'a' c && leb c b'f'
    then some (c - b'a' + 10)
    else if leb b'A' c && leb c b'F'
    then some (c - b'A' + 10)
    else none

unfoldable pub hex_from : ℕ → Text → Option ℕ
unfolding hex_value
hex_from acc [] = some acc
hex_from acc (c ∷ s) = and_then (hex_value c) (λ d. hex_from (acc * 16 + d) s)

-- `from_str_radix(16)`, with an optional sign `+`.
unfoldable pub from_hex : (bound : ℕ) → Text → Option ℕ
unfolding hex_from
from_hex bound [] = none
from_hex bound (c ∷ s) =
    keep_if (λ n. ltb n bound)
      (if c == b'+' then (if is_empty s then none else hex_from 0 s) else hex_from 0 (c ∷ s))

-- `(a..=b)`
unfoldable pub count_up : (n start : ℕ) → List ℕ
count_up zero start = []
count_up (suc n) start = start ∷ count_up n (start + 1)

unfoldable pub range_inclusive : ℕ → ℕ → List ℕ
unfolding count_up
range_inclusive a b = count_up (suc b - a) a

-- The CPUs of one piece of a list.
unfoldable pub parse_piece : Text → List ℕ
unfolding split_once parse_below range_inclusive
parse_piece piece = elim (split_once b'-' piece) [
  | none ↦ elim (parse_below u64_bound piece) [ none ↦ [] | some n ↦ n ∷ [] ]
  | some (a, b) ↦ elim (parse_below u64_bound a) [
    | none ↦ []
    | some from ↦ elim (parse_below u64_bound b) [ none ↦ [] | some to ↦ range_inclusive from to ]
  ]
]

unfoldable pub flat_map : {A B : Type 0} → (A → List B) → List A → List B
flat_map f [] = []
flat_map f (x ∷ xs) = f x ++ flat_map f xs

unfoldable pub parse_cpulist : Text → List ℕ
unfolding split trim parse_piece flat_map
parse_cpulist s = flat_map parse_piece (keep (λ p. not (is_empty p)) (map trim (split b',' s)))

unfoldable pub parse_hex : Text → ℕ
unfolding trim_0x from_hex
parse_hex s = unwrap_or (from_hex u64_bound (trim_0x s)) 0

-- The size of a BAR from the columns of its line; `end - start + 1` wraps.
unfoldable pub bar_size : List Text → ℕ
unfolding parse_hex
bar_size [] = 0
bar_size (start ∷ []) = if parse_hex start == 0 then 0 else (2 ^ 64 - parse_hex start + 1) % 2 ^ 64
bar_size (start ∷ end ∷ _) =
    if parse_hex start == 0 then 0 else (parse_hex end + 2 ^ 64 - parse_hex start + 1) % 2 ^ 64

unfoldable pub parse_i32 : Text → Option ℤ
unfolding parse_digits
parse_i32 [] = none
parse_i32 (c ∷ s) =
    if c == b'-'
    then (if starts_with s (codes "+")
        then none
        else map_option (λ n. sub_ℕ 0 n) (keep_if (λ n. leb n (2 ^ 31)) (parse_digits s)))
    else map_option pos (keep_if (λ n. ltb n (2 ^ 31)) (parse_digits (c ∷ s)))

-- `{n:#06x}` of a 16-bit number.
abbrev pub hex_digit : ℕ → ℕ
hex_digit d = if ltb d 10 then b'0' + d else b'a' + (d - 10)

unfoldable pub show_hex4 : ℕ → Text
show_hex4 n =
    b'0'
    ∷ b'x'
    ∷ hex_digit (n / 4096)
    ∷ hex_digit (n / 256 % 16)
    ∷ hex_digit (n / 16 % 16)
    ∷ hex_digit (n % 16)
    ∷ []

-- `==` on vendors.
abbrev pub vendor_is : Vendor → Vendor → Bool
vendor_is amd amd = true
vendor_is nvidia nvidia = true
vendor_is intel intel = true
vendor_is other other = true
vendor_is _ _ = false

abbrev head : {A : Type 0} → List A → Option A
head [] = none
head (x ∷ _) = some x

-- `get(n).copied().unwrap_or(0)`
abbrev pub bar_at : ℕ → List ℕ → ℕ
bar_at n [] = 0
bar_at zero (x ∷ xs) = x
bar_at (suc n) (x ∷ xs) = bar_at n xs

module _ (fs : Fs) where
  unfoldable pub read_hex_u16 : Text → Option ℕ
  unfolding trim trim_0x from_hex
  read_hex_u16 path = and_then (fs.read path) (λ s. from_hex 65536 (trim_0x (trim s)))

  unfoldable pub read_i32 : Text → Option ℤ
  unfolding trim parse_i32
  read_i32 path = and_then (fs.read path) (λ s. parse_i32 (trim s))

  unfoldable pub read_string_first_line : Text → Option Text
  unfolding lines trim
  read_string_first_line path = and_then (fs.read path) (λ s. map_option trim (head (lines s)))

  unfoldable pub read_local_cpus : Text → List ℕ
  unfolding read_string_first_line join_path parse_cpulist
  read_local_cpus device_dir =
      unwrap_or
        (map_option parse_cpulist
          (read_string_first_line (join_path device_dir (codes "local_cpulist"))))
        []

  unfoldable pub read_pci_bars : Text → List ℕ
  unfolding join_path lines split_ascii_whitespace bar_size
  read_pci_bars device_dir = elim (fs.read (join_path device_dir (codes "resource"))) [
    | none ↦ []
    | some s ↦ map (λ line. bar_size (split_ascii_whitespace line)) (lines s)
  ]

  unfoldable pub pci_addr_from_device_dir : Text → Option Text
  unfolding file_name contains
  pci_addr_from_device_dir device_dir = keep_if (λ s. contains s (codes ":")) (file_name device_dir)

  unfoldable pub hwmon_dirs : Text → List Text
  unfolding join_path starts_with
  hwmon_dirs device_dir =
      let hw = join_path device_dir (codes "hwmon") in
      elim (fs.read_dir hw) [
        | none ↦ []
        | some entries ↦ map (join_path hw) (keep (λ e. starts_with e (codes "hwmon")) entries)
      ]

  unfoldable pub card_vendor : Text → Vendor
  unfolding read_hex_u16 join_path from_pci_id
  card_vendor device_dir =
      unwrap_or (map_option from_pci_id (read_hex_u16 (join_path device_dir (codes "vendor"))))
        other

  -- One entry of `/sys/class/drm`; `u32` bounds the number.
  unfoldable pub drm_card : Text → Option (ℕ × Text)
  unfolding strip_prefix parse_below join_path
  drm_card name = and_then (strip_prefix name (codes "card")) λ digits.
      and_then (parse_below (2 ^ 32) digits) λ idx.
        map_option (λ real. (idx, real))
          (fs.canonicalize (join_path (join_path (codes "/sys/class/drm") name) (codes "device")))

  abbrev pub by_index : ℕ × Text → ℕ × Text → Ordering
  by_index a b = compare a.0 b.0

  unfoldable pub drm_cards : List (ℕ × Text)
  unfolding drm_card sort_by
  drm_cards = elim (fs.read_dir (codes "/sys/class/drm")) [
    | none ↦ []
    | some entries ↦ sort_by by_index (filter_map drm_card entries)
  ]

  unfoldable pub enumerate_for_vendor :
      (vendor : Vendor) → (ℕ → Text → Accelerator) → List Accelerator
  unfolding drm_cards card_vendor
  enumerate_for_vendor vendor build =
      map (λ c. build c.0 c.1) (keep (λ c. vendor_is vendor (card_vendor c.1)) drm_cards)

abbrev pub find_map : {A B : Type 0} → (A → Option B) → List A → Option B
find_map g [] = none
find_map g (x ∷ xs) = let rest = find_map g xs in elim (g x) [ some b ↦ some b | none ↦ rest ]

module _ {F64 : Type 0} (fs : Fs) (f : Floats F64) where
  unfoldable pub hwmon_temperature_celsius : Text → Option F64
  unfolding hwmon_dirs read_u64 join_path
  hwmon_temperature_celsius device_dir =
      find_map
        (λ hw.
          map_option (λ t. f.div (f.of_nat t) (f.of_nat 1000))
            (read_u64 fs.read (join_path hw (codes "temp1_input"))))
        (hwmon_dirs fs device_dir)

  abbrev pub measurement : (name unit : Text) → F64 → Measurement F64
  measurement name unit value = record { name = name; unit = unit; value = value; attrs = [] }

  unfoldable pub sensor_health : Text → Vendor → Measurement F64
  unfolding card_vendor
  sensor_health device_dir expected =
      measurement (codes "accel.sensor.health") (codes "1")
        (if vendor_is (card_vendor fs device_dir) expected then f.of_nat 1 else f.of_nat 0)
