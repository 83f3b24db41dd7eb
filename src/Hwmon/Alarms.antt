-- ===== src/Hwmon/Alarms.antt =====
-- Alarms: their type, and what becomes of two limit alarms of one channel.
use text.Mathlib.TextLemmas.{append_assoc, nil-append, cons-append}
use go_hass_agent.Device.Release.{IsFree}
use go_hass_agent.Sensor.Classes.{binary_sensor}
use go_hass_agent.Hwmon.Names.{is_alarm, new_hw_sensor}
use go_hass_agent.Prelude.{
  subst, sym, ap, ◌∙◌, eq_iff, String, Bool, true, false, Option, none, some, List, [], ◌∷◌, ◌≡◌,
  refl, inl, inr, ◌==◌, Bool-cases, eq_refl, arith,
}
use go_hass_agent.Prelude.Dict.{lookup, insert}
use go_hass_agent.Prelude.Text.{
  ◌+++◌, contains, contains-append_right, add_char, push_char, cut, before, split_on, join,
  parse_bool,
}
use go_hass_agent.Hwmon.{
  parse_sensor_type, Value, float, Floats, flag, ChipSensor, SensorFile, new_sensor,
}
use go_hass_agent.Hwmon.Files.{
  Entry, file_id, file_with, sensor_file, with_alarm, set_flag, update_info,
}
use go_hass_agent.Hwmon.Chips.{
  sent_before, get_sensors, get_sensor_files, Chip, tracker_id, collect_file, collect, has_value,
  with_values,
}

ends_in_alarm : (id : String) → contains (id +++ "_alarm") "alarm" ≡ true
ends_in_alarm id =
    subst (λ t. contains t "alarm" ≡ true) (append_assoc id "_" "alarm")
      (contains-append_right (id +++ "_") "alarm")

is_alarm-file_id :
    (id attr : String)
    → contains attr "alarm" ≡ true
    → is_alarm (parse_sensor_type (file_id id attr)) ≡ true
unfolding parse_sensor_type file_id is_alarm
is_alarm-file_id id attr h =
    rw h (ground (arith, ends_in_alarm id, Bool-cases (contains (id +++ "_alarm") "intrusion")))

is_alarm-file_with :
    (name : String) (contents : Option String) (parts : Option (String × String))
    {file : SensorFile}
    → file_with name contents parts ≡ some file
    → contains file.attribute "alarm" ≡ true
    → is_alarm file.sensor_type ≡ true
unfolding file_with
is_alarm-file_with name contents none e h = cc
is_alarm-file_with name none (some (id, attr)) e h = cc
is_alarm-file_with name (some t) (some (id, attr)) e h = ground (arith, is_alarm-file_id id attr)

split_kept :
    {F : Type 0} (floats : Floats F) (file : SensorFile) (parts : List String) (s : ChipSensor F)
    → ((with_alarm floats file parts s).value ≡ s.value)
      × ((with_alarm floats file parts s).monitor_type ≡ s.monitor_type)
unfolding with_alarm
split_kept floats file [] s = (refl, refl)
split_kept floats file (a ∷ []) s = (refl, refl)
split_kept floats file (a ∷ b ∷ []) s = (refl, refl)
split_kept floats file (a ∷ b ∷ c ∷ parts) s = (refl, refl)

type_kept :
    {F : Type 0} (floats : Floats F) (file : SensorFile) (s : ChipSensor F)
    → (update_info floats file s).monitor_type ≡ s.monitor_type
unfolding update_info
type_kept floats file s = ground (arith, split_kept floats file (split_on b'_' file.attribute) s)

-- Unknown or a Boolean.
unfoldable pub IsBoolean : {F : Type 0} → Value F → Type 0
IsBoolean (float x) = ⊥
IsBoolean _ = Unit {0}

set_flag-IsBoolean :
    {F : Type 0} (floats : Floats F) (o : Option Bool) (s : ChipSensor F)
    → IsBoolean s.value
    → IsBoolean (set_flag floats o s).value
unfolding set_flag IsBoolean
set_flag-IsBoolean floats none s h = h
set_flag-IsBoolean floats (some b) s h = tt

update_info-IsBoolean :
    {F : Type 0} (floats : Floats F) (file : SensorFile) (s : ChipSensor F)
    → contains file.attribute "alarm" ≡ true
    → IsBoolean s.value
    → IsBoolean (update_info floats file s).value
unfolding update_info
update_info-IsBoolean floats file s h v = elim (Bool-cases (file.attribute == "label")) [
  | inl e ↦ rw e v
  | inr e ↦
      rw (e, h)
        (set_flag-IsBoolean floats (parse_bool file.contents) _
          (subst IsBoolean (sym (split_kept floats file (split_on b'_' file.attribute) s).0) v))
]

new_hw_sensor-binary :
    {F : Type 0} (chip : Chip F) (s : ChipSensor F)
    → is_alarm s.monitor_type ≡ true
    → (new_hw_sensor chip s).sensor_type ≡ binary_sensor
unfolding new_hw_sensor
new_hw_sensor-binary chip s h = rw h

-- A file of an alarm, be it of a temperature, a fan or a voltage, makes a binary sensor whose value
-- is unknown or a Boolean and never a number.
pub alarms_are_binary :
    {F : Type 0} (floats : Floats F) (chip : Chip F) (e : Entry) (file : SensorFile)
    → sensor_file e ≡ some file
    → contains file.attribute "alarm" ≡ true
    → IsBoolean (update_info floats file (new_sensor file)).value
      × ((new_hw_sensor chip (update_info floats file (new_sensor file))).sensor_type
          ≡ binary_sensor)
unfolding sensor_file new_sensor IsBoolean
alarms_are_binary floats chip (name, contents) file e h = (
  update_info-IsBoolean floats file (new_sensor file) h tt,
  new_hw_sensor-binary chip (update_info floats file (new_sensor file)) (
      rw (type_kept floats file (new_sensor file))
        (is_alarm-file_with name contents (cut b'_' name) e h)),
)

updated_value :
    {F : Type 0} (floats : Floats F) (file : SensorFile) (limit : String) (b : Bool)
    (s : ChipSensor F)
    → (file.attribute == "label") ≡ false
    → contains file.attribute "alarm" ≡ true
    → split_on b'_' file.attribute ≡ limit ∷ "alarm" ∷ []
    → parse_bool file.contents ≡ some b
    → ((update_info floats file s).id
        ≡ join "_" (before b'_' file.sensor_id ∷ limit ∷ "alarm" ∷ []))
      × ((update_info floats file s).value ≡ flag b)
unfolding update_info with_alarm set_flag
updated_value floats file limit b s l h p v = rw (l, h, p, v) (refl, refl)

collected_twice :
    {F : Type 0} (floats : Floats F) (f g : SensorFile)
    → tracker_id f ≡ tracker_id g
    → collect floats (f ∷ g ∷ []) []
      ≡ (tracker_id g, update_info floats g (update_info floats f (new_sensor f))) ∷ []
unfolding collect collect_file lookup insert
collected_twice floats f g e = rw (e, eq_refl (tracker_id g))

only_with_value :
    {F : Type 0} (floats : Floats F) (id : String) (s : ChipSensor F) (b : Bool)
    → s.value ≡ flag b
    → with_values floats ((id, s) ∷ []) ≡ s ∷ []
unfolding with_values has_value
only_with_value floats id s b h = rw h

-- A file of the alarm of a limit, as crit_alarm is of the limit crit.
abbrev IsLimitAlarm : SensorFile → String → Bool → Type 0
IsLimitAlarm file limit b =
    ((file.attribute == "label") ≡ false)
    × (contains file.attribute "alarm" ≡ true)
    × (split_on b'_' file.attribute ≡ limit ∷ "alarm" ∷ [])
    × (parse_bool file.contents ≡ some b)

merged :
    {F : Type 0} (floats : Floats F) (f g : SensorFile) (limit : String) (b : Bool)
    → tracker_id f ≡ tracker_id g
    → IsLimitAlarm g limit b
    → (s : ChipSensor F) × (with_values floats (collect floats (f ∷ g ∷ []) []) ≡ s ∷ [])
      × (s.id ≡ join "_" (before b'_' g.sensor_id ∷ limit ∷ "alarm" ∷ []))
      × (s.value ≡ flag b)
merged floats f g limit b e (l, h, p, v) =
    let known = updated_value floats g limit b (update_info floats f (new_sensor f)) l h p v in
    (
      update_info floats g (update_info floats f (new_sensor f)),
      ap (with_values floats) (collected_twice floats f g e)
          ∙ only_with_value floats (tracker_id g)
              (update_info floats g (update_info floats f (new_sensor f))) b known.1,
      known.0,
      known.1,
    )

cut_first : (a b : String) → IsFree b'_' a → cut b'_' (a +++ "_" +++ b) ≡ some (a, b)
unfolding cut add_char
cut_first String.[] b h =
    ap (cut b'_') (nil-append ("_" +++ b) ∙ cons-append "_" String.[] b)
    ∙ ap (λ t. some (String.[], t)) (nil-append b)
cut_first (String.◌∷◌ c a) b h =
    ap (cut b'_') (cons-append c a ("_" +++ b)) ∙ rw h.0 (ap (add_char c) (cut_first a b h.1))

before_first : (a b : String) → IsFree b'_' a → before b'_' (a +++ "_" +++ b) ≡ a
unfolding before
before_first String.[] b h = ap (before b'_') (nil-append ("_" +++ b) ∙ cons-append "_" String.[] b)
before_first (String.◌∷◌ c a) b h =
    ap (before b'_') (cons-append c a ("_" +++ b))
    ∙ rw h.0 (ap (λ t. String.◌∷◌ c t) (before_first a b h.1))

split_last : (a b : String) → IsFree b'_' a → split_on b'_' (a +++ "_" +++ b) ≡ a ∷ split_on b'_' b
unfolding split_on push_char
split_last String.[] b h =
    ap (split_on b'_') (nil-append ("_" +++ b) ∙ cons-append "_" String.[] b)
    ∙ ap (λ t. String.[] ∷ split_on b'_' t) (nil-append b)
split_last (String.◌∷◌ c a) b h =
    ap (split_on b'_') (cons-append c a ("_" +++ b))
    ∙ rw h.0 (ap (push_char c) (split_last a b h.1))

-- The name of the file of the alarm of a limit, as temp1_crit_alarm.
abbrev pub alarm_name : String → String → String
alarm_name channel limit = channel +++ "_" +++ limit +++ "_alarm"

alarm_file : String → String → String → SensorFile
alarm_file channel limit contents = record {
  name = alarm_name channel limit;
  sensor_id = channel +++ "_alarm";
  attribute = limit +++ "_alarm";
  contents = contents;
  sensor_type = parse_sensor_type (channel +++ "_alarm");
}

sensor_file-alarm :
    (channel limit contents : String)
    → IsFree b'_' channel
    → sensor_file (alarm_name channel limit, some contents)
      ≡ some (alarm_file channel limit contents)
unfolding sensor_file file_with file_id alarm_file
sensor_file-alarm channel limit contents h =
    ap (file_with (alarm_name channel limit) (some contents))
      (cut_first channel (limit +++ "_alarm") h)
    ∙ rw (ends_in_alarm limit) refl

split_alarm : split_on b'_' "alarm" ≡ "alarm" ∷ []
unfolding split_on push_char
split_alarm = refl

label_is_no_alarm : contains "label" "alarm" ≡ false
unfolding contains
label_is_no_alarm = refl

no_label : (attr : String) → contains attr "alarm" ≡ true → (attr == "label") ≡ false
no_label attr h = elim (Bool-cases (attr == "label")) [
  | inl e ↦ absurd (
      both_ways (contains "label" "alarm") label_is_no_alarm
        (subst (λ t. contains t "alarm" ≡ true) ((eq_iff attr "label").0 e) h))
  | inr e ↦ e
]
  where
    both_ways : (c : Bool) → c ≡ false → c ≡ true → ⊥
    both_ways c f t = cc

alarm_file-IsLimitAlarm :
    (channel limit contents : String) (b : Bool)
    → IsFree b'_' limit
    → parse_bool contents ≡ some b
    → IsLimitAlarm (alarm_file channel limit contents) limit b
unfolding alarm_file
alarm_file-IsLimitAlarm channel limit contents b h v = (
  no_label (limit +++ "_alarm") (ends_in_alarm limit),
  ends_in_alarm limit,
  split_last limit "alarm" h ∙ ap (λ l. limit ∷ l) split_alarm,
  v,
)

two_files :
    (d e : Entry) (f g : SensorFile)
    → sensor_file d ≡ some f
    → sensor_file e ≡ some g
    → get_sensor_files (d ∷ e ∷ []) ≡ f ∷ g ∷ []
unfolding get_sensor_files sent_before
two_files d e f g p q =
    ap (λ o. sent_before o (sent_before (sensor_file e) [])) p
    ∙ ap (λ o. sent_before (some f) (sent_before o [])) q

-- Of the alarms of two limits of one channel, as temp1_max_alarm and temp1_crit_alarm, `getSensors`
-- makes a single sensor, with the name and the value of the file that the goroutines deliver last,
-- where that has a Boolean: the other alarm is lost, and which one it is depends on the order. The
-- names of the channel and of the last limit have no underscore.
pub limit_alarms_merge :
    {F : Type 0} (floats : Floats F) (channel first last one two : String) (b : Bool)
    → IsFree b'_' channel
    → IsFree b'_' last
    → parse_bool two ≡ some b
    → (s : ChipSensor F) × (get_sensors floats
          (some ((alarm_name channel first, some one) ∷ (alarm_name channel last, some two) ∷ []))
        ≡ some (s ∷ []))
      × (s.id ≡ alarm_name channel last)
      × (s.value ≡ flag b)
unfolding get_sensors tracker_id alarm_file join
limit_alarms_merge floats channel first last one two b c l v =
    let (s, e, id, value) =
      merged floats (alarm_file channel first one) (alarm_file channel last two) last b refl
        (alarm_file-IsLimitAlarm channel last two b l v) in
    (
      s,
      ap (λ files. some (with_values floats (collect floats files [])))
            (two_files _ _ (alarm_file channel first one) (alarm_file channel last two)
              (sensor_file-alarm channel first one c) (sensor_file-alarm channel last two c))
          ∙ ap (λ l. some l) e,
      id ∙ ap (λ t. t +++ "_" +++ last +++ "_alarm") (before_first channel "alarm" c),
      value,
    )
