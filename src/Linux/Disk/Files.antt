-- ===== src/Linux/Disk/Files.antt =====
-- ioStats.go: the devices of /proc/partitions and their statistics in /sys/block.
use go_hass_agent.Prelude.{
  ℕ, ◌+◌, String, Bool, true, false, ◌&&◌, Option, none, some, List, [], ◌∷◌, ◌++◌, ◌==◌, drop,
  if◌then◌else◌,
}
use go_hass_agent.Prelude.Text.{elem, words, lines, parse_uint}

unfoldable pub device_maj_no : List String
device_maj_no = "8" ∷ "252" ∷ "253" ∷ "259" ∷ []

-- `validDeviceNo`, for a line of at least two columns
unfoldable pub valid_device_no : String → String → Bool
unfolding device_maj_no
valid_device_no major minor = elem major device_maj_no && minor == "0"

-- How the loop ends: with the names, and whether its error is nil; or with an index out of range.
pub data Names : Type 0 where
  names : List String → Bool → Names
  out_of_range : Names

-- One line: `none` is an index out of range. The minor number is looked at where the major one is
-- one of a disk, and the name where both are.
device_of : List String → Option (List String)
unfolding device_maj_no
device_of [] = none
device_of (major ∷ []) = if elem major device_maj_no then none else some []
device_of (major ∷ minor ∷ []) = if valid_device_no major minor then none else some []
device_of (major ∷ minor ∷ blocks ∷ []) = if valid_device_no major minor then none else some []
device_of (major ∷ minor ∷ blocks ∷ name ∷ rest) =
    if valid_device_no major minor then some (name ∷ []) else some []

unfoldable pub names_from : List (List String) → List String → Names
unfolding device_of
names_from [] found = names found true
names_from ([] ∷ rows) found = names found false
names_from ((c ∷ cols) ∷ rows) found = elim (device_of (c ∷ cols)) [
  | none ↦ out_of_range
  | some more ↦ names_from rows (found ++ more)
]

columns : List String → List (List String)
columns [] = []
columns (line ∷ rest) = words line ∷ columns rest

-- `getDeviceNames`, for the text of the file: its first two lines are skipped.
unfoldable pub get_device_names : Option String → Names
unfolding names_from columns
get_device_names none = names [] false
get_device_names (some text) = names_from (columns (drop 2 (lines text))) []

-- `device`
pub record Device : Type 0 where
  pub id : String
  pub model : String

-- stats[statno], numbered in the order of the constants; what cannot be parsed is left out.
unfoldable pub stats_from : ℕ → List String → List (ℕ × ℕ)
unfolding parse_uint
stats_from n [] = []
stats_from n (w ∷ ws) =
    let rest = stats_from (n + 1) ws in
    if (parse_uint w).1 then (n, (parse_uint w).0) ∷ rest else rest

abbrev pub model_or_empty : Option String → String
model_or_empty none = ""
model_or_empty (some model) = model

-- `getDevice`, for the trimmed model and the text of the statistics
unfoldable pub get_device : String → Option String → Option String → Device × Option (List (ℕ × ℕ))
unfolding stats_from
get_device name model none = (record { id = name; model = model_or_empty model }, none)
get_device name model (some text) =
    (record { id = name; model = model_or_empty model }, some (stats_from 0 (words text)))
