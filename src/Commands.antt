-- ===== src/Commands.antt =====
-- internal/commands/commands.go: the controls a user defines in the commands file. Running a
-- process, the TOML reader, strcase.ToSnake, the MQTT library's marshalling and float64 are
-- parameters; a callback is the function the entity carries.
pub mod Controls
pub mod Entities
pub mod Numbers
pub mod Callbacks
use go_hass_agent.Prelude.{
  String, Bool, not, ◌&&◌, ◌⊎◌, inl, inr, Option, none, some, List, [], ◌∷◌, ◌++◌, ◌==◌,
  if◌then◌else◌,
}
use go_hass_agent.Prelude.Int.{ℤ}
use go_hass_agent.Prelude.Split.{split_spaces}
use Prim.Native.String

-- A Go `any`: the values the TOML reader makes, and an int, which it never makes.
pub data Value (F : Type 0) : Type 0 where
  text : String → Value F
  int64 int : ℤ → Value F
  float64 : F → Value F
  boolean : Bool → Value F
  other : Value F

pub record Command (F : Type 0) : Type 0 where
  pub name : String
  pub exec : String
  pub icon : String
  pub display : String
  pub number_type : String
  pub min : Value F
  pub max : Value F
  pub step : Value F

pub record CommandList (F : Type 0) : Type 0 where
  pub buttons : List (Command F)
  pub switches : List (Command F)
  pub numbers : List (Command F)

pub data CommandError : Type 0 where
  no_commands no_state cmd_failed parse_cmd unknown_switch_state unknown_number_state : CommandError
  read_failed parse_failed state_failed : CommandError

-- What a callback did: the argument vectors it ran, and its result.
pub record Ran (A : Type 0) : Type 0 where
  pub calls : List (List String)
  pub result : A

pub record Warning : Type 0 where
  pub message : String
  pub control : String
  pub error : CommandError

-- exec.Command(...).Output() and the two number parsers of strconv; `contains` is bytes.Contains.
pub record Os : Type 0 where
  pub output : List String → Option String
  pub trim_space : String → String
  pub parses_int : String → Bool
  pub parses_float : String → Bool
  pub contains : String → String → Bool

module _ (os : Os) where
  -- The argument vectors that exec.Command hands to the operating system: without the name of a
  -- program it starts nothing.
  unfoldable pub started : List String → List (List String)
  started [] = []
  started (prog ∷ args) = if prog == "" then [] else (prog ∷ args) ∷ []

  -- `Output`, which is an error where nothing was started.
  unfoldable pub printed : List String → Option String
  printed [] = none
  printed (prog ∷ args) = if prog == "" then none else os.output (prog ∷ args)

  failed_or_not : Option String → Option CommandError
  failed_or_not none = some cmd_failed
  failed_or_not (some out) = none

  ran_without : List String → Option CommandError
  unfolding printed failed_or_not
  ran_without argv = failed_or_not (printed argv)

  without_state : List String → Ran (Option CommandError)
  unfolding started ran_without
  without_state [] = record { calls = []; result = some parse_cmd }
  without_state (prog ∷ args) = record {
    calls = started (prog ∷ args);
    result = ran_without (prog ∷ args);
  }

  unfoldable pub cmd_without_state : String → Ran (Option CommandError)
  unfolding without_state
  cmd_without_state command = without_state (split_spaces command)

  unfoldable pub cmd_with_state : String → String → Ran (Option CommandError)
  unfolding started ran_without
  cmd_with_state command state =
      let argv = split_spaces command ++ (state ∷ []) in
      if state == ""
      then record { calls = []; result = some no_state }
      else record { calls = started argv; result = ran_without argv }

  unfoldable pub read_switch : Option String → CommandError ⊎ String
  read_switch none = inl state_failed
  read_switch (some out) =
      if os.contains out "ON"
      then inr "ON"
      else if os.contains out "OFF"
      then inr "OFF"
      else inl unknown_switch_state

  switch_argv : List String → Ran (CommandError ⊎ String)
  unfolding started printed read_switch
  switch_argv [] = record { calls = []; result = inl unknown_switch_state }
  switch_argv (prog ∷ args) = record {
    calls = started (prog ∷ args);
    result = read_switch (printed (prog ∷ args));
  }

  unfoldable pub switch_state : String → Ran (CommandError ⊎ String)
  unfolding switch_argv
  switch_state command = switch_argv (split_spaces command)

  unfoldable pub read_number : Option String → CommandError ⊎ String
  read_number none = inl unknown_number_state
  read_number (some out) =
      let number = os.trim_space out in
      if not (os.parses_int number) && not (os.parses_float number)
      then inl unknown_number_state
      else inr (String.◌++◌ (String.◌++◌ "{ \"value\": " number) " }")

  number_argv : List String → Ran (CommandError ⊎ String)
  unfolding started printed read_number
  number_argv [] = record { calls = []; result = inl unknown_number_state }
  number_argv (prog ∷ args) = record {
    calls = started (prog ∷ args);
    result = read_number (printed (prog ∷ args));
  }

  unfoldable pub number_state : String → Ran (CommandError ⊎ String)
  unfolding number_argv
  number_state command = number_argv (split_spaces command)

  -- The callbacks log the error, if there is one.
  logged : String → String → Option CommandError → Option Warning
  logged message control none = none
  logged message control (some e) =
      some (record { message = message; control = control; error = e })

  unfoldable pub press : String → String → Ran (Option Warning)
  unfolding logged cmd_without_state
  press name exec =
      let r = cmd_without_state exec in
      record { calls = r.calls; result = logged "Button press failed." name r.result }

  unfoldable pub command_callback : String → String → String → String → Ran (Option Warning)
  unfolding logged cmd_with_state
  command_callback message name exec payload =
      let r = cmd_with_state exec payload in
      record { calls = r.calls; result = logged message name r.result }
