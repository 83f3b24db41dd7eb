-- ===== src/Device/Details.antt =====
-- internal/device: the details of the distribution, the kernel, the hardware and the host.
use go_hass_agent.Prelude.{
  ℕ, String, Bool, true, false, Option, none, some, List, [], ◌∷◌, nat_eq, if◌then◌else◌,
}
use go_hass_agent.Prelude.Text.{before}
use go_hass_agent.Device.Distro.{Release, release, unreadable, out_of_range, get_value}

abbrev pub or_default : String → Option String → String
or_default unknown none = unknown
or_default unknown (some v) = v

-- The two values and whether the error is nil; `none` is a panic on reading the file.
unfoldable pub two_values :
    (String → Option String) → String → String → Release → Option ((String × String) × Bool)
unfolding get_value
two_values unquote name version unreadable = some (("Unknown Distro", "Unknown Version"), false)
two_values unquote name version out_of_range = none
two_values unquote name version (release info) = some (
  (
    or_default "Unknown Distro" (get_value unquote info name),
    or_default "Unknown Version" (get_value unquote info version),
  ),
  true,
)

-- `GetOSID` and `GetOSDetails`
unfoldable pub get_os_id : (String → Option String) → Release → Option ((String × String) × Bool)
unfolding two_values
get_os_id unquote = two_values unquote "ID" "VERSION_ID"

unfoldable pub get_os_details :
    (String → Option String) → Release → Option ((String × String) × Bool)
unfolding two_values
get_os_details unquote = two_values unquote "NAME" "VERSION"

without_zeros : List ℕ → List ℕ
without_zeros [] = []
without_zeros (b ∷ bs) = let rest = without_zeros bs in if nat_eq b 0 then rest else b ∷ rest

-- `GetKernelVersion`: the bytes of the release that are not zero
unfoldable pub get_kernel_version : Option (List ℕ) → Option (List ℕ)
unfolding without_zeros
get_kernel_version none = none
get_kernel_version (some bytes) = some (without_zeros bytes)

-- `GetHostname`, with whether its error is nil
unfoldable pub get_hostname : Option String → Bool → String × Bool
unfolding before
get_hostname none short = ("localhost", false)
get_hostname (some hostname) short = (if short then before b'.' hostname else hostname, true)

-- `GetHWProductInfo` and `Chassis`; `none` is an error of the library, or nothing found.
unfoldable pub get_hw_product_info : Option (String × String) → (String × String) × Bool
get_hw_product_info none = (("Unknown Model", "Unknown Vendor"), false)
get_hw_product_info (some product) = (product, true)

unfoldable pub chassis : Option String → String × Bool
chassis none = ("", false)
chassis (some type) = (type, true)
