-- ===== src/Linux/Net/Address.antt =====
-- connectionAddrSensor.go
use go_hass_agent.Prelude.{String, Option, none, some, List, [], ◌∷◌, ◌++◌}
use go_hass_agent.Prelude.Dict.{Dict, lookup, insert}
use go_hass_agent.Prelude.Int.{ℤ, pos}
use go_hass_agent.Prelude.Text.{◌+++◌}
use go_hass_agent.Linux.Net.{Variants, Setting, text, object_path, variant, uint32, unsupported}

pub data Version : Type 0 where
  ipv4 ipv6 : Version

-- strconv.Itoa of the version
unfoldable pub version_text : Version → String
version_text ipv4 = "4"
version_text ipv6 = "6"

-- What the bus gives for the properties of a configuration, `none` for an error.
pub record IpConfig (V : Type 0) : Type 0 where
  pub address_data : Option (List (Dict V))
  pub gateway : Option String
  pub nameserver_data : Option (List (Dict V))

abbrev pub Configs : Type 0 → Type 0
Configs V = Version → String → IpConfig V

-- connectionAddrSensor, with the path of its configuration as the bus gives it
pub record AddrSensor : Type 0 where
  pub addr : String
  pub gateway : String
  pub nameservers : List String
  pub prefix : ℤ
  pub ver : Version
  pub display_name : String
  pub unique_id : String
  pub icon_string : String

-- `newConnectionAddrSensor`, less the property of its configuration
unfoldable pub new_addr_sensor : (String → String) → Version → String → AddrSensor
unfolding version_text
new_addr_sensor to_snake ver name = record {
  addr = "";
  gateway = "";
  nameservers = [];
  prefix = pos 0;
  ver = ver;
  display_name = name +++ " Connection IPv" +++ version_text ver +++ " Address";
  unique_id = to_snake name +++ "_connection_ipv" +++ version_text ver +++ "_address";
  icon_string = "mdi:numeric-" +++ version_text ver;
}

pub data AttributeValue : Type 0 where
  words : String → AttributeValue
  int : ℤ → AttributeValue
  list : List String → AttributeValue

-- `Attributes`; those of linux.Sensor are the source alone here.
unfoldable pub addr_attributes : AddrSensor → Dict AttributeValue
addr_attributes s =
    let shared : Dict AttributeValue =
      ("data_source", words "D-Bus")
      ∷ ("prefix", int s.prefix)
      ∷ ("gateway", words s.gateway)
      ∷ [] in
    elim (s.ver) [ ipv4 ↦ insert "nameservers" (list s.nameservers) shared | ipv6 ↦ shared ]

module _ {V : Type 0} (ops : Variants V) where
  -- A key of a map of variants.
  unfoldable pub value_at : String → Dict V → V
  value_at key details = elim (lookup key details) [ none ↦ ops.missing | some v ↦ v ]

  unfoldable pub with_prefix : String → Option ℤ → AddrSensor → Option AddrSensor
  with_prefix address none s = none
  with_prefix address (some n) s = some (record s { addr = address; prefix = n })

  unfoldable pub with_address : Option String → Option ℤ → AddrSensor → Option AddrSensor
  unfolding with_prefix
  with_address none n s = none
  with_address (some address) n s = with_prefix address n s

  -- `updateAddr`; `none` is its error, which leaves the sensor as it was.
  unfoldable pub update_addr : Option (List (Dict V)) → AddrSensor → Option AddrSensor
  unfolding with_address value_at
  update_addr none s = none
  update_addr (some []) s = some (record s { addr = ""; prefix = pos 0 })
  update_addr (some (details ∷ rest)) s =
      with_address (ops.to_text (value_at "address" details))
        (ops.to_int (value_at "prefix" details)) s

  -- `updateGateway`
  unfoldable pub update_gateway : Option String → AddrSensor → AddrSensor
  update_gateway none s = s
  update_gateway (some gateway) s = record s { gateway = gateway }

  -- The addresses of the nameservers that are texts.
  unfoldable pub names_of : List (Dict V) → List String
  unfolding value_at
  names_of [] = []
  names_of (details ∷ rest) = elim (ops.to_text (value_at "address" details)) [
    | none ↦ names_of rest
    | some name ↦ name ∷ names_of rest
  ]

  -- `updateNameservers`: the loop appends to the list that the sensor has.
  unfoldable pub update_nameservers : Option (List (Dict V)) → AddrSensor → AddrSensor
  unfolding names_of
  update_nameservers none s = s
  update_nameservers (some found) s = elim (s.ver) [
    | ipv6 ↦ s
    | ipv4 ↦ record s { nameservers = s.nameservers ++ names_of found }
  ]

  unfoldable pub with_config : IpConfig V → AddrSensor → Option AddrSensor
  unfolding update_addr update_gateway update_nameservers
  with_config config s = elim (update_addr config.address_data s) [
    | none ↦ none
    | some s' ↦ some (update_nameservers config.nameserver_data (update_gateway config.gateway s'))
  ]

  -- The path of the configuration.
  unfoldable pub path_of : Setting V → Option String
  path_of (text p) = some p
  path_of (object_path p) = some p
  path_of (variant v) = ops.to_text v
  path_of (uint32 n) = none
  path_of unsupported = none

  -- `setState`; `none` is its error.
  unfoldable pub set_addr_state : Configs V → Setting V → AddrSensor → Option AddrSensor
  unfolding path_of with_config
  set_addr_state configs value s = elim (path_of value) [
    | none ↦ none
    | some path ↦ with_config (configs s.ver path) s
  ]

  -- `updateState`, for what the bus gives as the path of the configuration
  unfoldable pub update_addr_state : Configs V → Option String → AddrSensor → Option AddrSensor
  unfolding set_addr_state
  update_addr_state configs none s = none
  update_addr_state configs (some path) s = set_addr_state configs (object_path path) s
