-- ===== src/Linux/Mem/Parse.antt =====
-- `getMemStats`, on the text of the file; `none` where it cannot be opened.
use Prim.Native.Char.{code}
use go_hass_agent.Prelude.{
  ℕ, ◌*◌, ◌^◌, ◌%◌, String, Option, none, some, List, [], ◌∷◌, nat_eq, if◌then◌else◌, ◌≡◌, arith,
}
use go_hass_agent.Prelude.Dict.{lookup}
use go_hass_agent.Prelude.Text.{words, lines, parse_uint, nonempty}
use go_hass_agent.Linux.Mem.Ids.{MemStatId, number}
use go_hass_agent.Linux.Mem.StatNames.{stat_names}

-- memoryStats: the entries of the map, in the order of a range. The units of a memStat are always B.
abbrev pub MemoryStats : Type 0
MemoryStats = List (MemStatId × ℕ)

-- stats[id]
unfoldable pub find : MemStatId → MemoryStats → Option ℕ
find id [] = none
find id ((key, v) ∷ rest) = if nat_eq (number key) (number id) then some v else find id rest

-- stats[id] = v
unfoldable pub put : MemStatId → ℕ → MemoryStats → MemoryStats
put id v [] = (id, v) ∷ []
put id v ((key, old) ∷ rest) =
    if nat_eq (number key) (number id) then (id, v) ∷ rest else (key, old) ∷ put id v rest

abbrev pub or_zero : Option ℕ → ℕ
or_zero none = 0
or_zero (some v) = v

-- `get`, less the units
unfoldable pub get : MemoryStats → MemStatId → ℕ
unfolding find
get stats id = or_zero (find id stats)

unfoldable pub trim_left : ℕ → String → String
trim_left sep String.[] = String.[]
trim_left sep (String.◌∷◌ c s) =
    let rest = trim_left sep s in if nat_eq (code c) sep then rest else String.◌∷◌ c s

unfoldable pub trim_right : ℕ → String → String
trim_right sep String.[] = String.[]
trim_right sep (String.◌∷◌ c s) =
    let rest = trim_right sep s in
    if nonempty rest
    then String.◌∷◌ c rest
    else if nat_eq (code c) sep
    then String.[]
    else String.◌∷◌ c String.[]

-- The first two words of a line; a missing word reads as the empty text.
unfoldable pub two_words : List String → String × String
two_words [] = ("", "")
two_words (a ∷ []) = (a, "")
two_words (a ∷ b ∷ rest) = (a, b)

unfoldable pub add_stat : Option MemStatId → String → MemoryStats → MemoryStats
unfolding put parse_uint
add_stat none value stats = stats
add_stat (some id) value stats = put id ((parse_uint value).0 * 1000 % 2 ^ 64) stats

-- One line: an unknown name is ignored, and a value that cannot be parsed counts as what
-- ParseUint returns beside its error.
unfoldable pub add_line : String → MemoryStats → MemoryStats
unfolding two_words add_stat trim_left trim_right
add_line line stats =
    let (name, value) = two_words (words line) in
    add_stat (lookup (trim_right b':' (trim_left b':' name)) stat_names) value stats

unfoldable pub add_lines : List String → MemoryStats → MemoryStats
unfolding add_line
add_lines [] stats = stats
add_lines (line ∷ rest) stats = add_lines rest (add_line line stats)

unfoldable pub get_mem_stats : Option String → Option MemoryStats
unfolding add_lines
get_mem_stats none = none
get_mem_stats (some text) = some (add_lines (lines text) [])

pub find-put :
    (id other : MemStatId) (v : ℕ) (stats : MemoryStats)
    → find other (put id v stats)
      ≡ (if nat_eq (number id) (number other) then some v else find other stats)
unfolding find put
find-put id other v [] = ground arith
find-put id other v ((key, old) ∷ rest) = ground (arith, find-put id other v rest)
