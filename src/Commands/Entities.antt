-- ===== src/Commands/Entities.antt =====
-- internal/commands/commands.go: `NewCommandsController`, the three generators, `Subscriptions`
-- and `Configs`. The entities carry what the MQTT library's constructors are given.
use go_hass_agent.Prelude.{
  String, Bool, true, false, ◌⊎◌, inl, inr, Option, none, some, List, [], ◌∷◌, ◌++◌, map, ◌==◌,
  if◌then◌else◌,
}
use go_hass_agent.Prelude.Int.{ℤ}
use go_hass_agent.Commands.{
  Command, CommandList, CommandError, no_commands, read_failed, parse_failed, Os, press,
  command_callback, switch_state, number_state,
}
use Prim.Native.String
use go_hass_agent.Commands.Controls.{
  ButtonEntity, SwitchEntity, NumberEntity, Controller, Floats, conv_int, conv_float, or_int,
  or_float, number_icon, display_type,
}

module _ {F : Type 0} (os : Os) (to_snake : String → String) (fl : Floats F) where
  entity_id : String → String → String
  entity_id device name = to_snake (String.◌++◌ (String.◌++◌ device "_") name)

  unfoldable pub button_entity : String → Command F → ButtonEntity
  unfolding entity_id
  button_entity device cmd = record {
    name = cmd.name;
    id = entity_id device cmd.name;
    icon = if cmd.icon == "" then "mdi:button-pointer" else cmd.icon;
    command_callback = λ payload. press os cmd.name cmd.exec;
  }

  unfoldable pub switch_entity : String → Command F → SwitchEntity
  unfolding entity_id
  switch_entity device cmd = record {
    name = cmd.name;
    id = entity_id device cmd.name;
    icon = if cmd.icon == "" then "mdi:toggle-switch" else cmd.icon;
    state_callback = switch_state os cmd.exec;
    command_callback = command_callback os "Switch toggle failed." cmd.name cmd.exec;
    optimistic = true;
  }

  unfoldable pub number_entity : {T : Type 0} → String → Command F → T → T → T → NumberEntity T
  unfolding entity_id number_icon display_type
  number_entity device cmd step min max = record {
    name = cmd.name;
    id = entity_id device cmd.name;
    icon = number_icon cmd.icon cmd.display;
    state_callback = number_state os cmd.exec;
    command_callback = command_callback os "Set number failed." cmd.name cmd.exec;
    value_template = "{{ value_json.value }}";
    step = step;
    min = min;
    max = max;
    display = display_type cmd.display;
  }

  unfoldable pub int_entity : String → Command F → NumberEntity ℤ
  unfolding number_entity conv_int or_int
  int_entity device cmd =
      number_entity device cmd (or_int 1 (conv_int cmd.step)) (conv_int cmd.min)
        (or_int 100 (conv_int cmd.max))

  unfoldable pub float_entity : String → Command F → NumberEntity F
  unfolding number_entity conv_float or_float
  float_entity device cmd =
      number_entity device cmd (or_float fl 1 (conv_float fl cmd.step)) (conv_float fl cmd.min)
        (or_float fl 100 (conv_float fl cmd.max))

  unfoldable pub generate_buttons : List (Command F) → Controller F → Controller F
  unfolding button_entity
  generate_buttons cmds d = record d { buttons = map (button_entity d.device_name) cmds }

  unfoldable pub generate_switches : List (Command F) → Controller F → Controller F
  unfolding switch_entity
  generate_switches cmds d = record d { switches = map (switch_entity d.device_name) cmds }

  -- The loop of `generateNumbers`, which fills two lists.
  unfoldable pub add_numbers :
      String
      → List (Command F)
      → List (NumberEntity ℤ)
      → List (NumberEntity F)
      → List (NumberEntity ℤ) × List (NumberEntity F)
  unfolding int_entity float_entity
  add_numbers device [] ints floats = (ints, floats)
  add_numbers device (cmd ∷ cmds) ints floats = elim (cmd.number_type == "float") [
    | true ↦ add_numbers device cmds ints (floats ++ (float_entity device cmd ∷ []))
    | false ↦ add_numbers device cmds (ints ++ (int_entity device cmd ∷ [])) floats
  ]

  unfoldable pub generate_numbers : List (Command F) → Controller F → Controller F
  unfolding add_numbers
  generate_numbers cmds d =
      let (ints, floats) = add_numbers d.device_name cmds [] [] in
      record d { int_numbers = ints; float_numbers = floats }

  unfoldable pub with_commands : String → CommandList F → Controller F
  unfolding generate_buttons generate_switches generate_numbers
  with_commands device cmds =
      let empty : Controller F = record {
        device_name = device;
        buttons = [];
        switches = [];
        int_numbers = [];
        float_numbers = [];
      } in
      generate_numbers cmds.numbers
        (generate_switches cmds.switches (generate_buttons cmds.buttons empty))

  parsed : String → Option (CommandList F) → CommandError ⊎ Controller F
  unfolding with_commands
  parsed device none = inl parse_failed
  parsed device (some cmds) = inr (with_commands device cmds)

  -- `NewCommandsController`: whether the file is there, its text, and the TOML reader.
  unfoldable pub new_commands_controller :
      (String → Option (CommandList F))
      → Bool
      → Option String
      → String
      → CommandError ⊎ Controller F
  unfolding parsed
  new_commands_controller read_toml there contents device =
      if there
      then elim contents [
        | none ↦ inl read_failed
        | some data_read ↦ parsed device (read_toml data_read)
      ]
      else inl no_commands

  -- `Subscriptions`, or `Configs`, with what the MQTT library's method makes of each entity: an
  -- entity that cannot be marshalled gives a nil pointer in the list.
  unfoldable pub messages :
      {M : Type 0}
      → (ButtonEntity → Option M)
      → (SwitchEntity → Option M)
      → (NumberEntity ℤ → Option M)
      → (NumberEntity F → Option M)
      → Controller F
      → List (Option M)
  messages button switch int_number float_number d =
      map button d.buttons
      ++ map switch d.switches
      ++ map int_number d.int_numbers
      ++ map float_number d.float_numbers
