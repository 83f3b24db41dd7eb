-- ===== src/Registry/File.antt =====
-- The registry's file: what a change leaves in it, and what a later `Load` reads back.
use go_hass_agent.Prelude.{ℕ, String, ◌≡◌, Bool, true, Option, none, some, List, [], ◌∷◌, ◌++◌}
use go_hass_agent.Prelude.Dict.{Dict}
use go_hass_agent.Registry.{RegistryError}
use go_hass_agent.Registry.Gob.{
  Codec, GobRegistry, Outcome, written, no_file, broken, Metadata, entries, loaded, overwrite,
  write, load, set_disabled, set_registered,
}

-- A change that the client asks for.
pub data Change : Type 0 where
  disable : String → Bool → Change
  register : String → Bool → Change

-- A gob stream describes its own length: the decoder stops behind the first value.
abbrev pub IsSelfDelimiting : Codec → Type 0
IsSelfDelimiting codec =
    (m : Dict Metadata) (rest : List ℕ) → codec.decode (codec.encode m ++ rest) ≡ entries m

module _ (codec : Codec) where
  abbrev pub change : Change → GobRegistry → Option RegistryError × GobRegistry
  change (disable i b) g = set_disabled codec i b g
  change (register i b) g = set_registered codec i b g

  -- A history of changes; the error is that of the last one.
  unfoldable pub changes : Change → List Change → GobRegistry → Option RegistryError × GobRegistry
  changes c [] g = change c g
  changes c (d ∷ cs) g = changes d cs (change c g).1

  -- Memory and file agree.
  abbrev InSync : GobRegistry → Type 0
  InSync g = codec.decode g.file ≡ entries g.sensors

  module _ (law : IsSelfDelimiting codec) where
    write-InSync_with :
        (os : List Outcome) (g : GobRegistry)
        → (write codec (record g { outcomes = os })).0 ≡ none
        → InSync (write codec (record g { outcomes = os })).1
    unfolding write overwrite
    write-InSync_with [] g h = law g.sensors _
    write-InSync_with (written ∷ os) g h = law g.sensors _
    write-InSync_with (no_file ∷ os) g h = cc
    write-InSync_with (broken bytes ∷ os) g h = cc

    write-InSync : (g : GobRegistry) → (write codec g).0 ≡ none → InSync (write codec g).1
    write-InSync g h = write-InSync_with g.outcomes g h

    change-InSync : (c : Change) (g : GobRegistry) → (change c g).0 ≡ none → InSync (change c g).1
    unfolding set_disabled set_registered
    change-InSync (disable i b) g h = write-InSync _ h
    change-InSync (register i b) g h = write-InSync _ h

    changes-InSync :
        (c : Change) (cs : List Change) (g : GobRegistry)
        → (changes c cs g).0 ≡ none
        → InSync (changes c cs g).1
    unfolding changes
    changes-InSync c [] g h = change-InSync c g h
    changes-InSync c (d ∷ cs) g h = changes-InSync d cs (change c g).1 h

    -- After any history of changes whose last one reported no error, `Load` of the file succeeds
    -- with the map that the registry had in memory, although files are not truncated and earlier
    -- writes may have failed or left the file broken. The gob format is assumed to be
    -- self-delimiting, and the directory to be there.
    pub load-changes :
        (c : Change) (cs : List Change) (g : GobRegistry) (mkdir : Bool)
        → (changes c cs g).0 ≡ none
        → load codec (record {
          dir_exists = true;
          mkdir_works = mkdir;
          contents = some (changes c cs g).1.file;
        })
          ≡ loaded (record {
            sensors = (changes c cs g).1.sensors;
            file = (changes c cs g).1.file;
            outcomes = [];
          })
    unfolding load
    load-changes c cs g mkdir h = rw (changes-InSync c cs g h)
