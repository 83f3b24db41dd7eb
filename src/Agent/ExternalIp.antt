-- ===== src/Agent/ExternalIp.antt =====
-- internal/agent/sensors.go, and the workers of internal/agent/device_controller.go for the version
-- and the external addresses. The web's answers and net.IP are parameters.
use go_hass_agent.Prelude.{String, Option, none, some, List, [], ◌∷◌, ◌++◌}

-- The kinds of a net.IP, as To4 and To16 tell them.
pub data Kind : Type 0 where
  v4 v6 other : Kind

-- address
pub record Address : Type 0 where
  pub kind : Kind
  pub text : String

unfoldable pub address_name : Address → String
address_name a = elim a.kind [
  | v4 ↦ "External IPv4 Address"
  | v6 ↦ "External IPv6 Address"
  | other ↦ "External IP Address"
]

unfoldable pub address_id : Address → String
address_id a = elim a.kind [
  | v4 ↦ "external_ipv4_address"
  | v6 ↦ "external_ipv6_address"
  | other ↦ "external_ip_address"
]

unfoldable pub address_icon : Address → String
address_icon a = elim a.kind [
  | v4 ↦ "mdi:numeric-4-box-outline"
  | v6 ↦ "mdi:numeric-6-box-outline"
  | other ↦ "mdi:ip"
]

-- The versions of IP that are asked for, and a host with a URL for each.
pub data IpVersion : Type 0 where
  four six : IpVersion

pub record Host : Type 0 where
  pub url_4 : String
  pub url_6 : String

-- `ipLookupHosts`, in some order of the range
unfoldable pub ip_lookup_hosts : List Host
ip_lookup_hosts =
    record { url_4 = "https://4.icanhazip.com"; url_6 = "https://6.icanhazip.com" }
    ∷ record { url_4 = "https://api.ipify.org"; url_6 = "https://api6.ipify.org" }
    ∷ []

unfoldable pub url_of : IpVersion → Host → String
url_of four h = h.url_4
url_of six h = h.url_6

-- What a lookup returns.
pub data Lookup : Type 0 where
  found : Address → Lookup
  no_answer invalid_ip no_lookup_hosts : Lookup

-- `get` is the body of a response without an error, and `parse` trims it and reads the address.
module _ (get : String → Option String) (parse : String → Option Address) where
  read_ip : Option Address → Lookup
  read_ip none = invalid_ip
  read_ip (some a) = found a

  answered : Option String → Lookup
  unfolding read_ip
  answered none = no_answer
  answered (some body) = read_ip (parse body)

  -- `lookupExternalIPs`: the body of the loop returns whatever the first host gives.
  unfoldable pub lookup_external_ips : List Host → IpVersion → Lookup
  unfolding answered
  lookup_external_ips [] ver = no_lookup_hosts
  lookup_external_ips (h ∷ hosts) ver = answered (get (url_of ver h))

  found_of : Lookup → List Address
  found_of (found a) = a ∷ []
  found_of no_answer = []
  found_of invalid_ip = []
  found_of no_lookup_hosts = []

  -- `Sensors` of ExternalIPWorker
  unfoldable pub external_ips : List Host → List Address
  unfolding found_of lookup_external_ips
  external_ips hosts =
      found_of (lookup_external_ips hosts four) ++ found_of (lookup_external_ips hosts six)

-- VersionWorker: the version that it is made with
pub record VersionWorker : Type 0 where
  pub version : String

-- `newVersionWorker`, for the version of the preferences
unfoldable pub new_version_worker : Option String → VersionWorker
new_version_worker none = record { version = "unknown" }
new_version_worker (some v) = record { version = v }

-- The sensor of the version, by its state: `Sensors` makes a new one, and `State` is the version that
-- the program was built with, whatever the worker was made with.
unfoldable pub version_sensors : String → VersionWorker → List String
version_sensors app_version w = app_version ∷ []
