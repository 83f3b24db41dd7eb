-- ===== src/Registry/Gob.antt =====
-- internal/hass/sensor/registry/registry_gob.go, registry.go and util.go. The mutex makes each
-- method one step. The gob encoder and decoder are a parameter, and so is what the disk does.
use go_hass_agent.Prelude.{
  ℕ, String, Bool, false, ◌||◌, if◌then◌else◌, Option, none, some, List, [], ◌∷◌, ◌++◌, length,
  drop,
}
use go_hass_agent.Prelude.Dict.{Dict, lookup, insert}
use go_hass_agent.Registry.{RegistryError, open_failed, encode_failed}

pub record Metadata : Type 0 where
  pub registered : Bool
  pub disabled : Bool

-- What happens to the next write: it goes through, the file cannot be opened, or the encoder
-- fails and leaves the given bytes in the file.
pub data Outcome : Type 0 where
  written no_file : Outcome
  broken : List ℕ → Outcome

pub data Decoded : Type 0 where
  entries : Dict Metadata → Decoded
  eof malformed : Decoded

-- encoding/gob: the bytes of a map, and the first value at the head of a stream of bytes.
pub record Codec : Type 0 where
  pub encode : Dict Metadata → List ℕ
  pub decode : List ℕ → Decoded

-- `outcomes` is what the disk has in store for the writes to come; past its end they go through.
pub record GobRegistry : Type 0 where
  pub sensors : Dict Metadata
  pub file : List ℕ
  pub outcomes : List Outcome

-- What `Load` meets: whether the directory is there or can be made, and the bytes of the
-- registry's file (none of them when opening creates it), if it can be opened.
pub record Disk : Type 0 where
  pub dir_exists : Bool
  pub mkdir_works : Bool
  pub contents : Option (List ℕ)

pub data LoadError : Type 0 where
  path_failed read_failed decode_failed : LoadError

pub data LoadResult : Type 0 where
  loaded : GobRegistry → LoadResult
  failed : LoadError → LoadResult

-- checkPath of util.go
check_path : Disk → Bool
check_path d = d.dir_exists || d.mkdir_works

-- The registry's file is opened without O_TRUNC: the new bytes cover the head of the old ones.
unfoldable pub overwrite : List ℕ → List ℕ → List ℕ
overwrite new old = new ++ drop (length new) old

-- m := g.sensors[id]: the zero value for an unknown id
unfoldable pub metadata_of : Option Metadata → Metadata
metadata_of none = record { registered = false; disabled = false }
metadata_of (some m) = m

unfoldable pub is_disabled : String → GobRegistry → Bool
unfolding metadata_of
is_disabled id g = (metadata_of (lookup id g.sensors)).disabled

unfoldable pub is_registered : String → GobRegistry → Bool
unfolding metadata_of
is_registered id g = (metadata_of (lookup id g.sensors)).registered

module _ (codec : Codec) where
  write_with : List Outcome → GobRegistry → Option RegistryError × GobRegistry
  write_with [] g = (none, record g { file = overwrite (codec.encode g.sensors) g.file })
  write_with (written ∷ os) g =
      (none, record g { file = overwrite (codec.encode g.sensors) g.file; outcomes = os })
  write_with (no_file ∷ os) g = (some open_failed, record g { outcomes = os })
  write_with (broken bytes ∷ os) g = (some encode_failed, record g { file = bytes; outcomes = os })

  -- `write`
  unfoldable pub write : GobRegistry → Option RegistryError × GobRegistry
  unfolding write_with
  write g = write_with g.outcomes g

  unfoldable pub set_disabled : String → Bool → GobRegistry → Option RegistryError × GobRegistry
  unfolding metadata_of
  set_disabled id value g =
      let m = record (metadata_of (lookup id g.sensors)) { disabled = value } in
      write (record g { sensors = insert id m g.sensors })

  unfoldable pub set_registered : String → Bool → GobRegistry → Option RegistryError × GobRegistry
  unfolding metadata_of
  set_registered id value g =
      let m = record (metadata_of (lookup id g.sensors)) { registered = value } in
      write (record g { sensors = insert id m g.sensors })

  decoded : List ℕ → Decoded → LoadResult
  decoded bytes (entries m) = loaded (record { sensors = m; file = bytes; outcomes = [] })
  decoded bytes eof = loaded (record { sensors = []; file = bytes; outcomes = [] })
  decoded bytes malformed = failed decode_failed

  read : Option (List ℕ) → LoadResult
  unfolding decoded
  read none = failed read_failed
  read (some bytes) = decoded bytes (codec.decode bytes)

  -- `Load`
  unfoldable pub load : Disk → LoadResult
  unfolding check_path read
  load d = if check_path d then read d.contents else failed path_failed

-- `Reset` of registry.go: whether the path exists and can be removed; `none` is success.
pub data ResetError : Type 0 where
  not_found remove_failed : ResetError

unfoldable pub reset : Bool → Bool → Option ResetError
reset exists removable =
    if exists then if removable then none else some remove_failed else some not_found
