-- ===== src/Device/Distro.antt =====
-- pkg/linux/whichdistro: /etc/os-release.
use go_hass_agent.Prelude.{String, Option, none, some, List, [], ◌∷◌, ◌==◌, if◌then◌else◌}
use go_hass_agent.Prelude.Dict.{Dict, lookup, insert}
use go_hass_agent.Prelude.Text.{split_on, keep_nonempty, contains}

-- bytes.FieldsFunc at the equals signs: the parts that are not empty
unfoldable pub fields_of : String → List String
unfolding split_on keep_nonempty
fields_of line = keep_nonempty (split_on b'=' line)

-- How `GetOSRelease` ends: the entries, an error, or an index out of range.
pub data Release : Type 0 where
  release : Dict String → Release
  unreadable out_of_range : Release

-- The entry of a line: its first two fields, whatever comes behind them.
unfoldable pub entry_of : List String → Option (String × String)
entry_of [] = none
entry_of (key ∷ []) = none
entry_of (key ∷ value ∷ rest) = some (key, value)

unfoldable pub entries_from : List String → Dict String → Release
unfolding entry_of fields_of
entries_from [] info = release info
entries_from (line ∷ rest) info =
    let others = entries_from rest info in
    if line == "" then others else elim (entry_of (fields_of line)) [
      | none ↦ out_of_range
      | some (key, value) ↦ entries_from rest (insert key value info)
    ]

-- `readOSRelease`: the first file, else the second
unfoldable pub read_os_release : Option String → Option String → Option String
read_os_release none alternative = alternative
read_os_release (some text) alternative = some text

-- `GetOSRelease`, for the texts of the two files
unfoldable pub get_os_release : Option String → Option String → Release
unfolding entries_from read_os_release
get_os_release file alternative = elim (read_os_release file alternative) [
  | none ↦ unreadable
  | some text ↦ entries_from (split_on b'\n' text) []
]

-- `GetValue`: `none` where it is not there, or cannot be unquoted.
unfoldable pub get_value : (String → Option String) → Dict String → String → Option String
get_value unquote info key = elim (lookup key info) [
  | none ↦ none
  | some value ↦ if contains value "\"" then unquote value else some value
]
