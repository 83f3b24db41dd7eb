-- ===== src/Linux/Disk/MountIds.antt =====
-- Which mounts are reported, and under which ids.
use go_hass_agent.Prelude.{
  String, ◌≢◌, ◌⊎◌, eq_iff, arith, if◌then◌else◌, Bool, true, false, not, ◌&&◌, Option, none, some,
  List, [], ◌∷◌, ◌++◌, ◌==◌, ◌≡◌, refl, subst, ap, sym, ◌∙◌, Bool-cases, inl, inr, nat_eq,
}
use text.Mathlib.TextLemmas.{nil-append, cons-append, append_assoc}
use text.Mathlib.Text.{starts_with}
use Prim.Native.Char.{code}
use go_hass_agent.Prelude.Text.{◌+++◌, elem, words, lines}
use go_hass_agent.Linux.Disk.Mounts.{
  Statfs, Mount, fields_of, head_or_empty, tail_of, valid_virtual_fs, line_filesystems,
  filesystems_of, is_blocked, mount_blocklist, line_mounts, mount_of, mounts_of, get_filesystems,
  get_mounts, slashes_replaced, mount_id,
}

slashes_replaced-append :
    (a b : String) → slashes_replaced (a +++ b) ≡ slashes_replaced a +++ slashes_replaced b
unfolding slashes_replaced
slashes_replaced-append String.[] b = rw (nil-append b, nil-append (slashes_replaced b)) refl
slashes_replaced-append (String.◌∷◌ c a) b =
    ap slashes_replaced (cons-append c a b) ∙ (elim (Bool-cases (nat_eq (code c) b'/')) [
      | inl e ↦ rw e (
          ap (λ t. "_" +++ t) (slashes_replaced-append a b)
          ∙ sym (append_assoc "_" (slashes_replaced a) (slashes_replaced b)))
      | inr e ↦ rw e (
          ap (String.◌∷◌ c) (slashes_replaced-append a b)
          ∙ sym (cons-append c (slashes_replaced a) (slashes_replaced b)))
    ])

-- Two mount points that differ only in whether a name is divided by a slash or by an underscore, as
-- /mnt/a/b and /mnt/a_b, have the same id, so that one overwrites the other.
pub mount_ids_collide :
    (before after : String)
    → ((before +++ "/" +++ after) == "/") ≡ false
    → ((before +++ "_" +++ after) == "/") ≡ false
    → mount_id (before +++ "/" +++ after) ≡ mount_id (before +++ "_" +++ after)
unfolding mount_id
mount_ids_collide before after p q = rw (p, q) (ap (λ t. "mountpoint" +++ t) same)
  where
    same : slashes_replaced (before +++ "/" +++ after) ≡ slashes_replaced (before +++ "_" +++ after)
    same =
        slashes_replaced-append before ("/" +++ after)
        ∙ ap (λ t. slashes_replaced before +++ t)
            (slashes_replaced-append "/" after ∙ sym (slashes_replaced-append "_" after))
        ∙ sym (slashes_replaced-append before ("_" +++ after))

-- The virtual file systems that count.
abbrev pub IsVirtual : String → Type 0
IsVirtual v = v ≡ "tmpfs" ⊎ v ≡ "ramfs" ⊎ v ≡ "cifs" ⊎ v ≡ "smb" ⊎ v ≡ "nfs"

-- The words of a line of /proc/filesystems name a file system: one without nodev before it, or a
-- virtual one that counts, with nodev before it.
pub data Names : List String → String → Type 0 where
  real : (w : String) (ws : List String) → w ≢ "nodev" → Names (w ∷ ws) w
  virtual : (v : String) (ws : List String) → IsVirtual v → Names ("nodev" ∷ v ∷ ws) v
  skip_pair : (v f : String) (ws : List String) → Names ws f → Names ("nodev" ∷ v ∷ ws) f
  skip_word : (w f : String) (ws : List String) → w ≢ "nodev" → Names ws f → Names (w ∷ ws) f

abbrev pub NamedIn : List String → String → Type 0
NamedIn [] f = ⊥
NamedIn (line ∷ rest) f = Names (words line) f ⊎ NamedIn rest f

elem-cons :
    (f x : String) (xs : List String) → elem f (x ∷ xs) ≡ true → (x ≡ f) ⊎ (elem f xs ≡ true)
unfolding elem
elem-cons f x xs h = ground (arith, h, eq_iff x f, eq_iff f x)

elem-append :
    (f : String) (xs ys : List String)
    → elem f (xs ++ ys) ≡ true
    → (elem f xs ≡ true) ⊎ (elem f ys ≡ true)
unfolding elem
elem-append f [] ys h = inr h
elem-append f (x ∷ xs) ys h = ground (arith, h, elem-append f xs ys)

elem-IsVirtual : (v : String) → elem v valid_virtual_fs ≡ true → IsVirtual v
unfolding elem valid_virtual_fs
elem-IsVirtual v h = ground (
  arith,
  h,
  eq_iff v "tmpfs",
  eq_iff v "ramfs",
  eq_iff v "cifs",
  eq_iff v "smb",
  eq_iff v "nfs",
  eq_iff "tmpfs" v,
  eq_iff "ramfs" v,
  eq_iff "cifs" v,
  eq_iff "smb" v,
  eq_iff "nfs" v,
)

not_nodev : (w : String) → (w == "nodev") ≡ false → w ≢ "nodev"
not_nodev w e h = ground (arith, e, h, eq_iff w "nodev")

pair-Names :
    (v f : String) (ws after : List String)
    → (elem f after ≡ true → Names ws f)
    → elem f (if elem v valid_virtual_fs then v ∷ after else after) ≡ true
    → Names ("nodev" ∷ v ∷ ws) f
pair-Names v f ws after later h = elim (Bool-cases (elem v valid_virtual_fs)) [
  | inl e ↦ elim (elem-cons f v after (rw e at h)) [
    | inl same ↦ subst (Names ("nodev" ∷ v ∷ ws)) same (virtual v ws (elem-IsVirtual v e))
    | inr k ↦ skip_pair v f ws (later k)
  ]
  | inr e ↦ skip_pair v f ws (later (rw e at h))
]

word-Names :
    (w f : String) (ws found : List String)
    → (w == "nodev") ≡ false
    → (elem f found ≡ true → Names ws f)
    → elem f (w ∷ found) ≡ true
    → Names (w ∷ ws) f
word-Names w f ws found e later h = elim (elem-cons f w found h) [
  | inl same ↦ subst (Names (w ∷ ws)) same (real w ws (not_nodev w e))
  | inr k ↦ skip_word w f ws (not_nodev w e) (later k)
]

line-Names : (ws : List String) (f : String) → elem f (line_filesystems ws) ≡ true → Names ws f
unfolding line_filesystems elem
line-Names [] f h = cc
line-Names (w ∷ []) f h = elim (Bool-cases (w == "nodev")) [
  | inl e ↦ absurd (no_word (rw e at h))
  | inr e ↦ word-Names w f [] [] e (λ k. absurd (no_word k)) (rw e at h)
]
  where
    no_word : false ≡ true → ⊥
    no_word k = cc
line-Names (w ∷ v ∷ ws) f h = elim (Bool-cases (w == "nodev")) [
  | inl e ↦
      subst (λ n. Names (n ∷ v ∷ ws) f) (sym ((eq_iff w "nodev").0 e))
        (pair-Names v f ws (line_filesystems ws) (line-Names ws f) (rw e at h))
  | inr e ↦
      word-Names w f (v ∷ ws) (line_filesystems (v ∷ ws)) e (line-Names (v ∷ ws) f) (rw e at h)
]

filesystems-NamedIn :
    (rows : List String) (f : String) → elem f (filesystems_of rows) ≡ true → NamedIn rows f
unfolding filesystems_of elem
filesystems-NamedIn [] f h = cc
filesystems-NamedIn (row ∷ rows) f h =
    elim (elem-append f (line_filesystems (words row)) (filesystems_of rows) h) [
      | inl k ↦ inl (line-Names (words row) f k)
      | inr k ↦ inr (filesystems-NamedIn rows f k)
    ]

-- The words of a line of /proc/mounts begin with the four texts of a mount; where there are fewer
-- words, the texts that are missing are empty.
abbrev pub BeginsWith : List String → Mount → Type 0
BeginsWith ws m =
    (more : List String) × (ws ++ ("" ∷ "" ∷ "" ∷ "" ∷ [])
      ≡ m.device ∷ m.mountpoint ∷ m.filesystem ∷ m.options ∷ more)

abbrev pub ListedIn : List String → Mount → Type 0
ListedIn [] m = ⊥
ListedIn (line ∷ rest) m = BeginsWith (words line) m ⊎ ListedIn rest m

abbrev pub All : (Mount → Type 0) → List Mount → Type 0
All P [] = Unit {0}
All P (m ∷ ms) = P m × All P ms

All-map : {P Q : Mount → Type 0} (ms : List Mount) → ((m : Mount) → P m → Q m) → All P ms → All Q ms
All-map [] f h = tt
All-map (m ∷ ms) f (h, hs) = (f m h, All-map ms f hs)

-- What /proc/filesystems, /proc/mounts and statfs say of a mount that is reported.
abbrev pub IsReported : (String → Option Statfs) → List String → List String → Mount → Type 0
IsReported statfs filesystem_lines mount_lines m =
    NamedIn filesystem_lines m.filesystem
    × (starts_with m.mountpoint "/tmp/crun" ≡ false)
    × (starts_with m.mountpoint "/run/netns" ≡ false)
    × (statfs m.mountpoint ≡ some m.stats)
    × ListedIn mount_lines m

not_blocked :
    (mountpoint : String)
    → is_blocked mount_blocklist mountpoint ≡ false
    → (starts_with mountpoint "/tmp/crun" ≡ false) × (starts_with mountpoint "/run/netns" ≡ false)
unfolding is_blocked mount_blocklist
not_blocked mountpoint h = (ground (arith, h), ground (arith, h))

fields-BeginWith :
    (ws : List String) (stats : Statfs)
    → BeginsWith ws (record {
      mountpoint = (fields_of ws).mountpoint;
      device = (fields_of ws).device;
      filesystem = (fields_of ws).filesystem;
      options = (fields_of ws).options;
      stats = stats;
    })
unfolding fields_of head_or_empty tail_of
fields-BeginWith [] stats = ([], refl)
fields-BeginWith (a ∷ []) stats = ("" ∷ [], refl)
fields-BeginWith (a ∷ b ∷ []) stats = ("" ∷ "" ∷ [], refl)
fields-BeginWith (a ∷ b ∷ c ∷ []) stats = ("" ∷ "" ∷ "" ∷ [], refl)
fields-BeginWith (a ∷ b ∷ c ∷ d ∷ more) stats = (more ++ ("" ∷ "" ∷ "" ∷ "" ∷ []), refl)

both_true : (a b : Bool) → a && not b ≡ true → (a ≡ true) × (b ≡ false)
both_true true false h = (refl, refl)
both_true true true h = cc
both_true false b h = cc

module _ (statfs : String → Option Statfs) (filesystem_lines : List String) where
  one_line :
      (row : String) (rows : List String) (o : Option Statfs) (ms : List Mount)
      → statfs (fields_of (words row)).mountpoint ≡ o
      → NamedIn filesystem_lines (fields_of (words row)).filesystem
      → is_blocked mount_blocklist (fields_of (words row)).mountpoint ≡ false
      → All (IsReported statfs filesystem_lines (row ∷ rows)) ms
      → All
          (IsReported statfs filesystem_lines (row ∷ rows))
          (mount_of (fields_of (words row)) o ++ ms)
  unfolding mount_of
  one_line row rows none ms e n b h = h
  one_line row rows (some stats) ms e n b h =
      let (crun, netns) = not_blocked (fields_of (words row)).mountpoint b in
      ((n, crun, netns, e, inl (fields-BeginWith (words row) stats)), h)

  later_lines :
      (row : String) (rows : List String) (ms : List Mount)
      → All (IsReported statfs filesystem_lines rows) ms
      → All (IsReported statfs filesystem_lines (row ∷ rows)) ms
  later_lines row rows ms h = All-map ms (λ m (n, c, t, e, l). (n, c, t, e, inr l)) h

  mounts_of-IsReported :
      (rows : List String)
      → All
          (IsReported statfs filesystem_lines rows)
          (mounts_of statfs (filesystems_of filesystem_lines) rows)
  unfolding mounts_of line_mounts
  mounts_of-IsReported [] = tt
  mounts_of-IsReported (row ∷ rows) =
      let f = fields_of (words row) in
      let fs = filesystems_of filesystem_lines in
      let later = later_lines row rows (mounts_of statfs fs rows) (mounts_of-IsReported rows) in
      elim (Bool-cases (elem f.filesystem fs && not (is_blocked mount_blocklist f.mountpoint))) [
        | inl e ↦
            let (known, free) = both_true _ _ e in
            rw e (
              one_line row rows (statfs f.mountpoint) (mounts_of statfs fs rows) refl
                (filesystems-NamedIn filesystem_lines f.filesystem known) free later)
        | inr e ↦ rw e later
      ]

-- Whatever the files hold, every mount that is reported is listed in a line of /proc/mounts, is of
-- a file system that a line of /proc/filesystems names, without nodev or as one of tmpfs, ramfs,
-- cifs, smb and nfs, does not start with the text /tmp/crun or /run/netns, and has the statistics
-- that statfs gives for it.
pub mounts_are_allowed :
    (statfs : String → Option Statfs) (file text : String)
    → (ms : List Mount) × (get_mounts statfs (some file) (some text) ≡ some ms)
      × All (IsReported statfs (lines file) (lines text)) ms
unfolding get_mounts get_filesystems
mounts_are_allowed statfs file text = (
  mounts_of statfs (filesystems_of (lines file)) (lines text),
  refl,
  mounts_of-IsReported statfs (lines file) (lines text),
)
