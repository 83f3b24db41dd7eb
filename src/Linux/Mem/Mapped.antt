-- ===== src/Linux/Mem/Mapped.antt =====
-- Which statistics of /proc/meminfo the map of names reaches.
use go_hass_agent.Prelude.{
  ◌*◌, ◌^◌, ◌%◌, String, Bool, true, false, none, some, List, [], ◌∷◌, nat_eq, ◌≡◌, refl, ◌∙◌, ap,
  if◌then◌else◌, arith, Option-cases, inl, inr,
}
use go_hass_agent.Prelude.Dict.{Dict, lookup}
use go_hass_agent.Prelude.Text.{lines, words, parse_uint}
use go_hass_agent.Linux.Mem.Ids.{MemStatId, number, mem_direct_map_1g}
use go_hass_agent.Linux.Mem.StatNames.{stat_names}
use go_hass_agent.Linux.Mem.Parse.{
  MemoryStats, find, two_words, add_stat, trim_left, trim_right, add_line, add_lines, get_mem_stats,
  find-put,
}

-- Whether one of the entries has the id.
reaches : MemStatId → Dict MemStatId → Bool
reaches id [] = false
reaches id ((name, key) ∷ rest) = if nat_eq (number key) (number id) then true else reaches id rest

lookup-reaches :
    (id : MemStatId) (name : String) (entries : Dict MemStatId) (key : MemStatId)
    → reaches id entries ≡ false
    → lookup name entries ≡ some key
    → nat_eq (number key) (number id) ≡ false
unfolding reaches lookup
lookup-reaches id name [] key h e = cc
lookup-reaches id name ((other, known) ∷ rest) key h e =
    ground (arith, lookup-reaches id name rest key)

unreached : reaches mem_direct_map_1g stat_names ≡ false
unfolding reaches stat_names number
unreached = refl

add_stat-find :
    (id : MemStatId) (name value : String) (stats : MemoryStats)
    → reaches id stat_names ≡ false
    → find id (add_stat (lookup name stat_names) value stats) ≡ find id stats
unfolding add_stat
add_stat-find id name value stats h = elim (Option-cases (lookup name stat_names)) [
  | inl e ↦ rw e refl
  | inr (key, e) ↦ rw e (
      ground (
        arith,
        find-put key id ((parse_uint value).0 * 1000 % 2 ^ 64) stats,
        lookup-reaches id name stat_names key h e,
      ))
]

add_lines-find :
    (id : MemStatId) (rows : List String) (stats : MemoryStats)
    → reaches id stat_names ≡ false
    → find id (add_lines rows stats) ≡ find id stats
unfolding add_lines add_line
add_lines-find id [] stats h = refl
add_lines-find id (row ∷ rows) stats h =
    add_lines-find id rows (add_line row stats) h
    ∙ add_stat-find id (trim_right b':' (trim_left b':' (two_words (words row)).0))
        (two_words (words row)).1 stats h

-- The size of the 1 GB pages is never read, whatever /proc/meminfo says: the name DirectMap1G is
-- mapped to the statistic of the 4 kB pages, so no line sets that of the 1 GB pages.
pub direct_map_1g_missing :
    (text : String) (stats : MemoryStats)
    → get_mem_stats (some text) ≡ some stats
    → find mem_direct_map_1g stats ≡ none
unfolding get_mem_stats find
direct_map_1g_missing text stats h =
    let e : stats ≡ add_lines (lines text) [] = cc in
    ap (find mem_direct_map_1g) e ∙ add_lines-find mem_direct_map_1g (lines text) [] unreached
