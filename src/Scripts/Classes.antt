-- ===== src/Scripts/Classes.antt =====
-- The classes that a script names: they are read back as the program itself would print them.
use go_hass_agent.Prelude.{◌≡◌, refl, ◌≢◌}
use go_hass_agent.Sensor.Classes.{DeviceClass, device_class_string}
use go_hass_agent.Scripts.Sensor.{device_class}

-- A device class in a script's output is the class with that name.
pub device_class-device_class_string :
    (d : DeviceClass) → d ≢ DeviceClass.none → device_class (device_class_string d) ≡ d
unfolding device_class device_class_string
device_class-device_class_string DeviceClass.none h = absurd (h refl)
device_class-device_class_string DeviceClass.apparent_power h = refl
device_class-device_class_string _ h = refl
