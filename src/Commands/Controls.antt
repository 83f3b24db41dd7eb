-- ===== src/Commands/Controls.antt =====
-- internal/commands/commands.go: the MQTT entities as `NewCommandsController` makes them, the
-- controller that holds them, and `convValue`.
use go_hass_agent.Prelude.{ℕ, zero, suc, String, Bool, ◌⊎◌, Option, List, ◌==◌, if◌then◌else◌}
use go_hass_agent.Prelude.Int.{ℤ, pos, negsuc}
use go_hass_agent.Commands.{
  Value, text, int64, int, float64, boolean, other, CommandError, Ran, Warning,
}

pub record ButtonEntity : Type 0 where
  pub name : String
  pub id : String
  pub icon : String
  pub command_callback : String → Ran (Option Warning)

pub record SwitchEntity : Type 0 where
  pub name : String
  pub id : String
  pub icon : String
  pub state_callback : Ran (CommandError ⊎ String)
  pub command_callback : String → Ran (Option Warning)
  pub optimistic : Bool

pub data DisplayType : Type 0 where
  number_auto number_box number_slider : DisplayType

pub record NumberEntity (T : Type 0) : Type 0 where
  pub name : String
  pub id : String
  pub icon : String
  pub state_callback : Ran (CommandError ⊎ String)
  pub command_callback : String → Ran (Option Warning)
  pub value_template : String
  pub step : T
  pub min : T
  pub max : T
  pub display : DisplayType

pub record Controller (F : Type 0) : Type 0 where
  pub device_name : String
  pub buttons : List ButtonEntity
  pub switches : List SwitchEntity
  pub int_numbers : List (NumberEntity ℤ)
  pub float_numbers : List (NumberEntity F)

-- float64, as far as `generateNumbers` uses it.
pub record Floats (F : Type 0) : Type 0 where
  pub of_nat : ℕ → F
  pub is_zero : F → Bool

-- `convValue[T]`: the type assertion orig.(T), else T(0)
unfoldable pub conv_int : {F : Type 0} → Value F → ℤ
conv_int (int z) = z
conv_int (text s) = pos 0
conv_int (int64 z) = pos 0
conv_int (float64 x) = pos 0
conv_int (boolean b) = pos 0
conv_int other = pos 0

unfoldable pub conv_float : {F : Type 0} → Floats F → Value F → F
conv_float fl (float64 x) = x
conv_float fl (text s) = fl.of_nat 0
conv_float fl (int64 z) = fl.of_nat 0
conv_float fl (int z) = fl.of_nat 0
conv_float fl (boolean b) = fl.of_nat 0
conv_float fl other = fl.of_nat 0

-- if x == 0 { x = d }
unfoldable pub or_int : ℕ → ℤ → ℤ
or_int d (pos zero) = pos d
or_int d (pos (suc n)) = pos (suc n)
or_int d (negsuc n) = negsuc n

unfoldable pub or_float : {F : Type 0} → Floats F → ℕ → F → F
or_float fl d x = if fl.is_zero x then fl.of_nat d else x

-- The icon of a number, and its display type.
unfoldable pub number_icon : String → String → String
number_icon icon display =
    if icon == ""
    then if display == "box"
      then "mdi:counter"
      else if display == "slider"
      then "mdi:tune"
      else "mdi:knob"
    else icon

unfoldable pub display_type : String → DisplayType
display_type display =
    if display == "box"
    then number_box
    else if display == "slider"
    then number_slider
    else number_auto
