-- ===== src/Linux/Mem/Used.antt =====
-- The memory in use, and the number of the sensors.
use mathlib.Core.Logic.{∥∥₁_elim}
use mathlib.Core.List.{Perm}
use mathlib.Core.List.{Permᴰ}
use mathlib.Core.List.Permᴰ
use native.Mathlib.Nat.{ℕ_set}
use go_hass_agent.Prelude.{
  ap, ◌∙◌, sym, subst, ℕ, ◌+◌, ◌^◌, ◌%◌, ◌≤◌, ◌<◌, String, true, Option, none, some, List, [], ◌∷◌,
  nat_eq, ltb, ◌≡◌, refl, if◌then◌else◌, length, arith,
}
use go_hass_agent.Prelude.Dict.{lookup}
use go_hass_agent.Prelude.Text.{lines, words}
use go_hass_agent.Linux.Mem.Ids.{
  MemStatId, number, mem_total, mem_free, mem_buffered, mem_cached, swap_total,
}
use go_hass_agent.Linux.Mem.StatNames.{stat_names}
use go_hass_agent.Linux.Mem.Parse.{
  or_zero, MemoryStats, find, put, get, two_words, add_stat, trim_left, trim_right, add_line,
  add_lines, get_mem_stats, find-put,
}
use go_hass_agent.Linux.Mem.Usage.{Percents, sensors_from, mem_other, mem_used}

-- A map has one entry for a key, and its values are uint64.
abbrev pub IsMap : MemoryStats → Type 0
IsMap [] = Unit {0}
IsMap ((key, v) ∷ rest) = (find key rest ≡ none) × v < 2 ^ 64 × IsMap rest

find_same :
    (a b : MemStatId) (stats : MemoryStats)
    → nat_eq (number a) (number b) ≡ true
    → find a stats ≡ find b stats
unfolding find
find_same a b [] e = refl
find_same a b ((key, v) ∷ rest) e = ground (arith, find_same a b rest)

put-IsMap :
    (id : MemStatId) (v : ℕ) (stats : MemoryStats)
    → v < 2 ^ 64
    → IsMap stats
    → IsMap (put id v stats)
unfolding put find
put-IsMap id v [] b h = (refl, b, tt)
put-IsMap id v ((key, old) ∷ rest) b h =
    ground (arith, put-IsMap id v rest, find-put id key v rest, find_same key id rest)

-- What one statistic adds to the sum.
part : MemStatId → MemoryStats → ℕ
part id [] = 0
part id ((key, v) ∷ rest) = (if nat_eq (number key) (number id) then v else 0) + part id rest

part_missing : (id : MemStatId) (stats : MemoryStats) → find id stats ≡ none → part id stats ≡ 0
unfolding part find
part_missing id [] h = refl
part_missing id ((key, v) ∷ rest) h = ground (arith, part_missing id rest)

part-get : (id : MemStatId) (stats : MemoryStats) → IsMap stats → part id stats ≡ get stats id
unfolding part get find
part-get id [] h = refl
part-get id ((key, v) ∷ rest) h =
    ground (arith, part-get id rest, part_missing id rest, find_same key id rest)

add_stat-IsMap :
    (o : Option MemStatId) (value : String) (stats : MemoryStats)
    → IsMap stats
    → IsMap (add_stat o value stats)
unfolding add_stat
add_stat-IsMap none value stats h = h
add_stat-IsMap (some id) value stats h = put-IsMap id _ stats (omega arith) h

add_lines-IsMap :
    (rows : List String) (stats : MemoryStats) → IsMap stats → IsMap (add_lines rows stats)
unfolding add_lines add_line
add_lines-IsMap [] stats h = h
add_lines-IsMap (row ∷ rows) stats h = add_lines-IsMap rows (add_line row stats) (
    add_stat-IsMap (lookup (trim_right b':' (trim_left b':' (two_words (words row)).0)) stat_names)
      (two_words (words row)).1 stats h)

three_parts : MemoryStats → ℕ
unfolding part
three_parts stats = part mem_free stats + part mem_buffered stats + part mem_cached stats

-- The sum of the loop, whatever the order of the range.
mem_other-parts :
    (stats : MemoryStats) (sum : ℕ)
    → sum < 2 ^ 64
    → mem_other stats sum ≡ (sum + three_parts stats) % 2 ^ 64
unfolding mem_other three_parts part number
mem_other-parts [] sum b = omega arith
mem_other-parts ((key, v) ∷ rest) sum b =
    ground (arith, mem_other-parts rest sum, mem_other-parts rest ((sum + v) % 2 ^ 64))

get-lt : (id : MemStatId) (stats : MemoryStats) → IsMap stats → get stats id < 2 ^ 64
unfolding get find
get-lt id [] h = omega arith
get-lt id ((key, v) ∷ rest) h = ground (arith, get-lt id rest)

get_mem_stats-IsMap :
    (text : String) (stats : MemoryStats) → get_mem_stats (some text) ≡ some stats → IsMap stats
unfolding get_mem_stats
get_mem_stats-IsMap text stats h =
    let e : add_lines (lines text) [] ≡ stats = cc in
    subst IsMap e (add_lines-IsMap (lines text) [] tt)

mem_other-gets :
    (stats : MemoryStats)
    → IsMap stats
    → mem_other stats 0
      ≡ (get stats mem_free + get stats mem_buffered + get stats mem_cached) % 2 ^ 64
unfolding three_parts
mem_other-gets stats m = omega (
  arith,
  mem_other-parts stats 0 (omega arith),
  part-get mem_free stats m,
  part-get mem_buffered stats m,
  part-get mem_cached stats m,
)

-- The entries of one map in another order.
abbrev Same : MemoryStats → MemoryStats → Type 0
Same a b = IsMap b × ((id : MemStatId) → find id a ≡ find id b)

Same-cons :
    (k : MemStatId) (v : ℕ) (a b : MemoryStats)
    → IsMap ((k, v) ∷ a)
    → Same a b
    → Same ((k, v) ∷ a) ((k, v) ∷ b)
unfolding find
Same-cons k v a b h (m, same) = (
  (sym (same k) ∙ h.0, h.1, m),
  λ id. ap (λ o. if nat_eq (number k) (number id) then some v else o) (same id),
)

Same-swap :
    (k l : MemStatId) (v w : ℕ) (a : MemoryStats)
    → IsMap ((k, v) ∷ (l, w) ∷ a)
    → Same ((k, v) ∷ (l, w) ∷ a) ((l, w) ∷ (k, v) ∷ a)
unfolding find
Same-swap k l v w a h = (
  ground (arith, h),
  λ id. ground (arith, h, find_same k l a, find_same l id a, find_same k id a),
)

-- A permutation of a map has the same entries.
Permᴰ-IsMap :
    {a b : MemoryStats} → Permᴰ a b → IsMap a → IsMap b × ((id : MemStatId) → find id a ≡ find id b)
unfolding find
Permᴰ-IsMap Permᴰ.nil h = (tt, λ id. refl)
Permᴰ-IsMap (Permᴰ.cons {a = (k, v)} {l₁ = xs} {l₂ = ys} e p) h =
    subst (λ r. Same ((k, v) ∷ xs) (r ∷ ys)) e (Same-cons k v xs ys h (Permᴰ-IsMap p h.2))
Permᴰ-IsMap (Permᴰ.swap {a = (k, v)} {b = (l, w)} {a' = r'} {l = rest} e f) h =
    subst (λ r. Same ((k, v) ∷ (l, w) ∷ rest) (r' ∷ r ∷ rest)) e
      (subst (λ r. Same ((k, v) ∷ (l, w) ∷ rest) (r ∷ (k, v) ∷ rest)) f (Same-swap k l v w rest h))
Permᴰ-IsMap (Permᴰ.trans p q) h =
    let (m, same) = Permᴰ-IsMap p h in
    let (m', same') = Permᴰ-IsMap q m in (m', λ id. same id ∙ same' id)

used_of_order :
    {order stats : MemoryStats}
    → Permᴰ order stats
    → IsMap stats
    → get stats mem_free + get stats mem_buffered + get stats mem_cached ≤ get stats mem_total
    → mem_used order + (get stats mem_free + get stats mem_buffered + get stats mem_cached)
      ≡ get stats mem_total
unfolding mem_used get
used_of_order {order} {stats} p m le =
    let (m', same) = Permᴰ-IsMap (Permᴰ.symm p) m in
    omega (
      arith,
      mem_other-gets order m',
      get-lt mem_total order m',
      ap or_zero (same mem_total),
      ap or_zero (same mem_free),
      ap or_zero (same mem_buffered),
      ap or_zero (same mem_cached),
    )

-- The memory in use, of any /proc/meminfo and in whatever order the range visits its statistics, is
-- what free, buffers and cache leave of the total, as long as these are no more than the total.
pub mem_used-add :
    (text : String) (stats order : MemoryStats)
    → get_mem_stats (some text) ≡ some stats
    → Perm order stats
    → get stats mem_free + get stats mem_buffered + get stats mem_cached ≤ get stats mem_total
    → mem_used order + (get stats mem_free + get stats mem_buffered + get stats mem_cached)
      ≡ get stats mem_total
mem_used-add text stats order h p le =
    ∥∥₁_elim p (ℕ_set _ _) (λ d. used_of_order d (get_mem_stats-IsMap text stats h) le)

-- With more free, buffered and cached than there is in total, as where the total cannot be parsed,
-- the subtraction wraps around: what is reported as used is 2 ^ 64 less the difference.
mem_used_wraps :
    (text : String) (stats : MemoryStats)
    → get_mem_stats (some text) ≡ some stats
    → get stats mem_total < get stats mem_free + get stats mem_buffered + get stats mem_cached
    → get stats mem_free + get stats mem_buffered + get stats mem_cached < 2 ^ 64
    → mem_used stats + (get stats mem_free + get stats mem_buffered + get stats mem_cached)
      ≡ 2 ^ 64 + get stats mem_total
unfolding mem_used
mem_used_wraps text stats h gt b =
    let m = get_mem_stats-IsMap text stats h in omega (arith, mem_other-gets stats m)

-- Seven sensors without swap, and eleven with it.
pub length-sensors_from :
    {F : Type 0} (floats : Percents F) (to_snake : String → String) (stats : MemoryStats)
    → length (sensors_from floats to_snake stats) ≡ (if ltb 0 (get stats swap_total) then 11 else 7)
unfolding sensors_from
length-sensors_from floats to_snake stats = ground arith
