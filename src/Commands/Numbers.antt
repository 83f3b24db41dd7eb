-- ===== src/Commands/Numbers.antt =====
-- internal/commands/commands.go: what the generators make of the commands file.
use go_hass_agent.Prelude.{
  ℕ, zero, ◌+◌, String, Bool-cases, inl, inr, Option, List, [], ◌∷◌, ◌++◌, ◌==◌, length,
  length-append, length-map, ◌≡◌, refl, ap, ◌∙◌, arith,
}
use go_hass_agent.Prelude.Int.{ℤ, pos}
use go_hass_agent.Commands.{
  Value, text, int64, int, float64, boolean, other, Command, CommandList, Os,
}
use go_hass_agent.Commands.Controls.{
  ButtonEntity, SwitchEntity, NumberEntity, Controller, Floats, conv_int, or_int,
}
use go_hass_agent.Commands.Entities.{
  messages, with_commands, add_numbers, int_entity, float_entity, generate_buttons,
  generate_switches, generate_numbers, number_entity, button_entity, switch_entity,
}

-- What the TOML reader makes of a number: an int64 or a float64, and never an int.
abbrev pub IsToml : {F : Type 0} → Value F → Type 0
IsToml (int z) = ⊥
IsToml (text s) = Unit {0}
IsToml (int64 z) = Unit {0}
IsToml (float64 x) = Unit {0}
IsToml (boolean b) = Unit {0}
IsToml other = Unit {0}

abbrev pub AllToml : {F : Type 0} → List (Command F) → Type 0
AllToml [] = Unit {0}
AllToml (cmd ∷ cmds) = (IsToml cmd.min × IsToml cmd.max × IsToml cmd.step) × AllToml cmds

-- The bounds and the step that stand for a value left out.
abbrev pub KeepDefaults : List (NumberEntity ℤ) → Type 0
KeepDefaults [] = Unit {0}
KeepDefaults (e ∷ es) = ((e.min ≡ pos 0) × (e.max ≡ pos 100) × (e.step ≡ pos 1)) × KeepDefaults es

conv_int-IsToml : {F : Type 0} (v : Value F) → IsToml v → conv_int v ≡ pos 0
unfolding conv_int
conv_int-IsToml (int z) h = elim h [ ]
conv_int-IsToml (text s) h = refl
conv_int-IsToml (int64 z) h = refl
conv_int-IsToml (float64 x) h = refl
conv_int-IsToml (boolean b) h = refl
conv_int-IsToml other h = refl

or_int-zero : (d : ℕ) → or_int d (pos zero) ≡ pos d
unfolding or_int
or_int-zero d = refl

KeepDefaults-append :
    (xs ys : List (NumberEntity ℤ)) → KeepDefaults xs → KeepDefaults ys → KeepDefaults (xs ++ ys)
KeepDefaults-append [] ys h k = k
KeepDefaults-append (x ∷ xs) ys h k = (h.0, KeepDefaults-append xs ys h.1 k)

module _ {F : Type 0} (os : Os) (to_snake : String → String) (fl : Floats F) where
  add_numbers-length :
      (device : String) (cmds : List (Command F)) (ints : List (NumberEntity ℤ))
      (floats : List (NumberEntity F))
      → length (add_numbers os to_snake fl device cmds ints floats).0
          + length (add_numbers os to_snake fl device cmds ints floats).1
        ≡ length cmds + (length ints + length floats)
  unfolding add_numbers
  add_numbers-length device [] ints floats = omega arith
  add_numbers-length device (cmd ∷ cmds) ints floats =
      elim (Bool-cases (cmd.number_type == "float")) [
        | inl e ↦
            rw (length, e)
              (omega (
                arith,
                add_numbers-length device cmds ints
                    (floats ++ (float_entity os to_snake fl device cmd ∷ [])),
                length-append floats (float_entity os to_snake fl device cmd ∷ []),
              ))
        | inr e ↦
            rw (length, e)
              (omega (
                arith,
                add_numbers-length device cmds (ints ++ (int_entity os to_snake fl device cmd ∷ []))
                    floats,
                length-append ints (int_entity os to_snake fl device cmd ∷ []),
              ))
      ]

  int_entity-Defaults :
      (device : String) (cmd : Command F)
      → IsToml cmd.min × IsToml cmd.max × IsToml cmd.step
      → KeepDefaults (int_entity os to_snake fl device cmd ∷ [])
  unfolding int_entity number_entity
  int_entity-Defaults device cmd h = (
    (
      conv_int-IsToml cmd.min h.0,
      ap (or_int 100) (conv_int-IsToml cmd.max h.1) ∙ or_int-zero 100,
      ap (or_int 1) (conv_int-IsToml cmd.step h.2) ∙ or_int-zero 1,
    ),
    tt,
  )

  add_numbers-Defaults :
      (device : String) (cmds : List (Command F)) (ints : List (NumberEntity ℤ))
      (floats : List (NumberEntity F))
      → AllToml cmds
      → KeepDefaults ints
      → KeepDefaults (add_numbers os to_snake fl device cmds ints floats).0
  unfolding add_numbers
  add_numbers-Defaults device [] ints floats h k = k
  add_numbers-Defaults device (cmd ∷ cmds) ints floats h k =
      elim (Bool-cases (cmd.number_type == "float")) [
        | inl e ↦ rw (KeepDefaults, e) (add_numbers-Defaults device cmds ints _ h.1 k)
        | inr e ↦
            rw (KeepDefaults, e)
              (add_numbers-Defaults device cmds _ floats h.1
                (KeepDefaults-append ints _ k (int_entity-Defaults device cmd h.0)))
      ]

  messages-length :
      {M : Type 0} (button : ButtonEntity → Option M) (switch : SwitchEntity → Option M)
      (int_number : NumberEntity ℤ → Option M) (float_number : NumberEntity F → Option M)
      (d : Controller F)
      → length (messages os to_snake fl button switch int_number float_number d)
        ≡ length d.buttons + length d.switches + (length d.int_numbers + length d.float_numbers)
  unfolding messages
  messages-length button switch int_number float_number d =
      simp (length-append, length-map) (omega arith)

  -- The controller made of a commands file has one subscription, or one configuration, for each
  -- command of the file: none is lost, and none is doubled, whichever of the two lists of numbers
  -- it goes to.
  pub one_message_each :
      {M : Type 0} (button : ButtonEntity → Option M) (switch : SwitchEntity → Option M)
      (int_number : NumberEntity ℤ → Option M) (float_number : NumberEntity F → Option M)
      (device : String) (cmds : CommandList F)
      → length (
          messages os to_snake fl button switch int_number float_number
            (with_commands os to_snake fl device cmds))
        ≡ length cmds.buttons + length cmds.switches + length cmds.numbers
  unfolding with_commands generate_buttons generate_switches generate_numbers
  one_message_each button switch int_number float_number device cmds = omega (
    arith,
    messages-length button switch int_number float_number
        (with_commands os to_snake fl device cmds),
    length-map (button_entity os to_snake fl device) cmds.buttons,
    length-map (switch_entity os to_snake fl device) cmds.switches,
    add_numbers-length device cmds.numbers [] [],
  )

  -- When the TOML reader made every bound and step of the file, each whole number control has
  -- minimum 0, maximum 100 and step 1, whatever the file gives: the reader makes an int64 of an
  -- integer, and `convValue` asks for an int.
  pub int_numbers-KeepDefaults :
      (device : String) (cmds : CommandList F)
      → AllToml cmds.numbers
      → KeepDefaults (with_commands os to_snake fl device cmds).int_numbers
  unfolding with_commands generate_buttons generate_switches generate_numbers
  int_numbers-KeepDefaults device cmds h = add_numbers-Defaults device cmds.numbers [] [] h tt
