-- ===== src/Linux/Disk/Mounts.antt =====
-- usageStats.go, usageSensors.go and usageWorker.go: the usage of mounts. statfs is a parameter, and
-- float64 is the type F with the percentage that the code computes.
use go_hass_agent.Prelude.{
  ℕ, ◌+◌, ◌-◌, ◌^◌, ◌%◌, String, Bool, false, not, ◌&&◌, ◌||◌, Option, none, some, List, [], ◌∷◌,
  ◌++◌, ◌==◌, if◌then◌else◌, nat_eq, map,
}
use text.Mathlib.Text.{starts_with}
use Prim.Native.Char.{code}
use go_hass_agent.Prelude.Text.{◌+++◌, elem, words, lines}

-- What statfs gives for a mount.
pub record Statfs : Type 0 where
  pub block_size : ℕ
  pub blocks : ℕ
  pub blocks_free : ℕ
  pub blocks_available : ℕ
  pub inodes : ℕ
  pub inodes_free : ℕ

-- `mount`, with its attributes
pub record Mount : Type 0 where
  pub mountpoint : String
  pub device : String
  pub filesystem : String
  pub options : String
  pub stats : Statfs

unfoldable pub valid_virtual_fs : List String
valid_virtual_fs = "tmpfs" ∷ "ramfs" ∷ "cifs" ∷ "smb" ∷ "nfs" ∷ []

unfoldable pub mount_blocklist : List String
mount_blocklist = "/tmp/crun" ∷ "/run/netns" ∷ []

-- One line of /proc/filesystems, word by word: after nodev, the next word counts where it is one
-- of the virtual file systems.
unfoldable pub line_filesystems : List String → List String
unfolding valid_virtual_fs
line_filesystems [] = []
line_filesystems (w ∷ []) = if w == "nodev" then [] else w ∷ []
line_filesystems (w ∷ v ∷ rest) =
    let after = line_filesystems rest in
    let from_second = line_filesystems (v ∷ rest) in
    if w == "nodev" then (if elem v valid_virtual_fs then v ∷ after else after) else w ∷ from_second

unfoldable pub filesystems_of : List String → List String
unfolding line_filesystems
filesystems_of [] = []
filesystems_of (line ∷ rest) = line_filesystems (words line) ++ filesystems_of rest

-- `getFilesystems`
unfoldable pub get_filesystems : Option String → Option (List String)
unfolding filesystems_of
get_filesystems none = none
get_filesystems (some text) = some (filesystems_of (lines text))

unfoldable pub is_blocked : List String → String → Bool
is_blocked [] mountpoint = false
is_blocked (b ∷ blocked) mountpoint = starts_with mountpoint b || is_blocked blocked mountpoint

-- The first four words of a line; a missing one reads as the empty text.
pub record Fields : Type 0 where
  pub device : String
  pub mountpoint : String
  pub filesystem : String
  pub options : String

unfoldable pub head_or_empty : List String → String
head_or_empty [] = ""
head_or_empty (w ∷ ws) = w

unfoldable pub tail_of : List String → List String
tail_of [] = []
tail_of (w ∷ ws) = ws

unfoldable pub fields_of : List String → Fields
unfolding head_or_empty tail_of
fields_of ws = record {
  device = head_or_empty ws;
  mountpoint = head_or_empty (tail_of ws);
  filesystem = head_or_empty (tail_of (tail_of ws));
  options = head_or_empty (tail_of (tail_of (tail_of ws)));
}

unfoldable pub mount_of : Fields → Option Statfs → List Mount
mount_of f none = []
mount_of f (some stats) =
    record {
      mountpoint = f.mountpoint;
      device = f.device;
      filesystem = f.filesystem;
      options = f.options;
      stats = stats;
    }
    ∷ []

module _ (statfs : String → Option Statfs) (filesystems : List String) where
  -- One line of /proc/mounts.
  unfoldable pub line_mounts : Fields → List Mount
  unfolding mount_of is_blocked mount_blocklist
  line_mounts f =
      if elem f.filesystem filesystems && not (is_blocked mount_blocklist f.mountpoint)
      then mount_of f (statfs f.mountpoint)
      else []

  unfoldable pub mounts_of : List String → List Mount
  unfolding line_mounts fields_of
  mounts_of [] = []
  mounts_of (line ∷ rest) = line_mounts (fields_of (words line)) ++ mounts_of rest

-- `getMounts`, for the texts of the two files; `none` is its error.
unfoldable pub get_mounts :
    (String → Option Statfs) → Option String → Option String → Option (List Mount)
unfolding get_filesystems mounts_of
get_mounts statfs file mounts = elim (get_filesystems file) [
  | none ↦ none
  | some filesystems ↦ elim mounts [
    | none ↦ none
    | some text ↦ some (mounts_of statfs filesystems (lines text))
  ]
]

-- strings.ReplaceAll(s, "/", "_")
unfoldable pub slashes_replaced : String → String
slashes_replaced String.[] = String.[]
slashes_replaced (String.◌∷◌ c s) =
    if nat_eq (code c) b'/' then "_" +++ slashes_replaced s else String.◌∷◌ c (slashes_replaced s)

-- `Name` and `ID`
unfoldable pub mount_name : String → String
mount_name mountpoint = "Mountpoint " +++ mountpoint +++ " Usage"

unfoldable pub mount_id : String → String
unfolding slashes_replaced
mount_id mountpoint =
    if mountpoint == "/" then "mountpoint_root" else "mountpoint" +++ slashes_replaced mountpoint

pub record DiskUsageSensor (F : Type 0) : Type 0 where
  pub mount : Mount
  pub blocks_used : ℕ
  pub value : F

-- `newDiskUsageSensor`: the subtraction is one of uint64.
unfoldable pub new_disk_usage_sensor : {F : Type 0} → (ℕ → ℕ → F) → Mount → DiskUsageSensor F
new_disk_usage_sensor percent m =
    let used = (m.stats.blocks + 2 ^ 64 - m.stats.blocks_free) % 2 ^ 64 in
    record { mount = m; blocks_used = used; value = percent used m.stats.blocks }

-- `Sensors` of the worker
unfoldable pub usage_sensors :
    {F : Type 0}
    → (ℕ → ℕ → F)
    → (String → Option Statfs)
    → Option String
    → Option String
    → Option (List (DiskUsageSensor F))
unfolding new_disk_usage_sensor get_mounts
usage_sensors percent statfs file mounts = elim (get_mounts statfs file mounts) [
  | none ↦ none
  | some found ↦ some (map (new_disk_usage_sensor percent) found)
]
