-- ===== src/Linux/Desktop.antt =====
-- internal/linux/desktop/desktop.go: the colour scheme and the accent colour of the desktop. V is
-- dbus.Variant and F is float64; what the code does with them is a parameter.
use go_hass_agent.Prelude.{
  ℕ, suc, String, false, true, Option, none, some, List, [], ◌∷◌, ◌==◌, nat_eq, if◌then◌else◌,
}
use go_hass_agent.Prelude.Text.{contains}
use go_hass_agent.Dbusx.Values.{Any, text}
use go_hass_agent.Dbusx.Watch.{Trigger}
use go_hass_agent.Linux.{LinuxSensor}
use go_hass_agent.Linux.Power.{power_sensor}

-- The conversions of a variant to uint32 and to a list, of which each value may be a float64, and
-- to one of eight bits; the text of a colour; and a variant within the body of a signal.
pub record Colors (V F : Type 0) : Type 0 where
  pub to_uint : V → Option ℕ
  pub to_values : V → Option (List (Option F))
  pub to_8bit : F → ℕ
  pub format : ℕ → ℕ → ℕ → String
  pub as_variant : Any V → Option V

abbrev pub state_unknown : String
state_unknown = "Unknown"

-- A text, or an index out of range.
pub data Parsed (A : Type 0) : Type 0 where
  parsed : A → Parsed A
  out_of_range : Parsed A

-- The three bytes of a colour.
pub record Rgb : Type 0 where
  pub red : ℕ
  pub green : ℕ
  pub blue : ℕ

unfoldable pub set_color : ℕ → ℕ → Rgb → Parsed Rgb
set_color i v rgb =
    if nat_eq i 0
    then parsed (record rgb { red = v })
    else if nat_eq i 1
    then parsed (record rgb { green = v })
    else if nat_eq i 2
    then parsed (record rgb { blue = v })
    else out_of_range

unfoldable pub scheme_text : Option ℕ → String
scheme_text none = state_unknown
scheme_text (some n) = if nat_eq n 1 then "dark" else if nat_eq n 2 then "light" else state_unknown

-- A sensor, its error, or a panic.
pub data Made : Type 0 where
  made : LinuxSensor String → Made
  not_made panics : Made

unfoldable pub scheme_icon : String → String
scheme_icon scheme =
    if scheme == "dark"
    then "mdi:weather-night"
    else if scheme == "light"
    then "mdi:weather-sunny"
    else "mdi:theme-light-dark"

unfoldable pub color_scheme_sensor : String → LinuxSensor String
unfolding power_sensor scheme_icon
color_scheme_sensor scheme =
    power_sensor "Desktop Color Scheme" "desktop_color_scheme" scheme (scheme_icon scheme) false
      true

unfoldable pub accent_color_sensor : String → LinuxSensor String
unfolding power_sensor
accent_color_sensor accent =
    power_sensor "Desktop Accent Color" "desktop_accent_color" accent "mdi:palette" false true

made_of : (String → LinuxSensor String) → Option (Parsed String) → Made
made_of sensor none = not_made
made_of sensor (some (parsed t)) = made (sensor t)
made_of sensor (some out_of_range) = panics

module _ {V F : Type 0} (colors : Colors V F) where
  -- `parseColorScheme`
  unfoldable pub parse_color_scheme : V → String
  unfolding scheme_text
  parse_color_scheme v = scheme_text (colors.to_uint v)

  unfoldable pub rgb_from : ℕ → List (Option F) → Rgb → Parsed Rgb
  unfolding set_color
  rgb_from i [] rgb = parsed rgb
  rgb_from i (none ∷ values) rgb = rgb_from (suc i) values rgb
  rgb_from i (some x ∷ values) rgb = elim (set_color i (colors.to_8bit x) rgb) [
    | out_of_range ↦ out_of_range
    | parsed rgb' ↦ rgb_from (suc i) values rgb'
  ]

  accent_text : Parsed Rgb → Parsed String
  accent_text (parsed rgb) = parsed (colors.format rgb.red rgb.green rgb.blue)
  accent_text out_of_range = out_of_range

  accent_of : Option (List (Option F)) → Parsed String
  unfolding rgb_from accent_text
  accent_of none = parsed state_unknown
  accent_of (some values) =
      accent_text (rgb_from 0 values (record { red = 0; green = 0; blue = 0 }))

  -- `parseAccentColor`: a fourth colour is an index out of range.
  unfoldable pub parse_accent_color : V → Parsed String
  unfolding accent_of
  parse_accent_color v = accent_of (colors.to_values v)

  -- The sensors of a given value, which the code reads from the portal where its text is empty; the
  -- portal's answer is `none` for an error.
  module _ (portal : String → Option V) where
    scheme_read : Option V → Option (Parsed String)
    unfolding parse_color_scheme
    scheme_read none = none
    scheme_read (some v) = some (parsed (parse_color_scheme v))

    accent_read : Option V → Option (Parsed String)
    unfolding parse_accent_color
    accent_read none = none
    accent_read (some v) = some (parse_accent_color v)

    unfoldable pub new_color_scheme_sensor : String → Made
    unfolding made_of scheme_read color_scheme_sensor
    new_color_scheme_sensor scheme =
        if scheme == ""
        then made_of color_scheme_sensor (scheme_read (portal "color-scheme"))
        else made (color_scheme_sensor scheme)

    unfoldable pub new_accent_color_sensor : String → Made
    unfolding made_of accent_read accent_color_sensor
    new_accent_color_sensor accent =
        if accent == ""
        then made_of accent_color_sensor (accent_read (portal "accent-color"))
        else made (accent_color_sensor accent)

    -- `Sensors`: what is made of the two; an error leaves one out.
    unfoldable pub desktop_sensors : List Made
    unfolding new_color_scheme_sensor new_accent_color_sensor
    desktop_sensors = new_color_scheme_sensor "" ∷ new_accent_color_sensor "" ∷ []

    setting_changed : String → V → List Made
    unfolding new_color_scheme_sensor new_accent_color_sensor parse_color_scheme parse_accent_color
    setting_changed prop v =
        if prop == "color-scheme"
        then new_color_scheme_sensor (parse_color_scheme v) ∷ []
        else if prop == "accent-color"
        then elim (parse_accent_color v) [
          | out_of_range ↦ panics ∷ []
          | parsed accent ↦ new_accent_color_sensor accent ∷ []
        ]
        else []

    with_value : String → Option V → List Made
    unfolding setting_changed
    with_value prop none = []
    with_value prop (some v) = setting_changed prop v

    -- `extractProp`, and what the loop does with it: a value that is not there panics.
    extracted : List (Any V) → List Made
    unfolding with_value
    extracted (a ∷ text prop ∷ v ∷ rest) = with_value prop (colors.as_variant v)
    extracted (a ∷ text prop ∷ []) = panics ∷ []
    extracted (a ∷ b ∷ rest) = []
    extracted _ = panics ∷ []

    -- One event of the loop.
    unfoldable pub desktop_event : Trigger V → List Made
    unfolding extracted contains
    desktop_event event =
        if contains event.signal "SettingChanged" then extracted event.content else []
