-- ===== src/Lib.antt =====
-- go-hass-agent: a verification library of the agent's core.
--
-- The program is an agent that reports a machine's sensors to Home Assistant and runs commands for
-- it. Controllers (internal/agent/device_controller.go, internal/linux/worker.go,
-- internal/scripts/controller.go) start workers, whose sensors the client
-- (internal/hass/client.go) sends. The client asks the registry (internal/hass/sensor/registry)
-- whether a sensor is registered or disabled, and puts what was sent into the tracker
-- (internal/hass/sensor/tracker.go). A websocket (internal/hass/websocket.go) brings notifications.
-- Registration (internal/agent/register.go) writes the preferences (internal/preferences), which
-- give the client its URL and token. Custom commands (internal/commands/commands.go) become controls
-- in Home Assistant.
--
-- Files and the code that they model:
--   Prelude         what the modules share: Boolean tests, lists, Go maps as association lists,
--                   strings.Split, sort.Strings, integers
--   Sensor          internal/hass/sensor/sensor.go: the data of a sensor, requests, responses;
--                   Sensor/Classes is internal/hass/sensor/types, Sensor/Request is NewRequest
--   Tracker         internal/hass/sensor/tracker.go; Tracker/Contents proves what it holds
--   Registry        the interface Registry of client.go with the laws that the client relies on;
--                   Registry/Gob is registry_gob.go, registry.go and util.go; Registry/Memory fills
--                   the interface, and Registry/File is about the file and Load
--   Client          internal/hass/client.go and config.go: send and the client's state;
--                   Client/Process is ProcessSensor and its handlers; Traffic, Sync, History and
--                   Outcomes prove what is sent, how the registry follows, what holds over many
--                   sensors, and what errors leave behind
--   Websocket       internal/hass/websocket.go: OnMessage and keepAlive as events on a session; Ids
--                   and Auth are about the requests' ids and the token
--   Agent/Workers   internal/agent/device_controller.go and internal/linux/worker.go; Lifecycle and
--                   Shutdown are about starting and stopping
--   Agent/Register  internal/agent/register.go and RegisterDevice of internal/hass/registration.go,
--                   with Agent/Urls for the two URLs; Registered is about what holds after it,
--                   Accepted about when it succeeds
--   Preferences     internal/preferences: prefs.go, hass.go, registration.go, device.go;
--                   Encoding is what their struct tags say of the file, Saving about Save and Load
--   Scripts         internal/scripts: Controller is controller.go, Sensor is scripts.go and
--                   sensor.go; Schedule and Running are about the jobs and the scheduler's entries
--   Commands        internal/commands/commands.go: the callbacks, with Controls and Entities for the
--                   controls made of the commands file; Numbers and Callbacks are about both
--   Linux           internal/linux/sensor.go; Linux/Counts is internal/linux/net/networkRates.go,
--                   Linux/Rates is about its rates; Linux/Battery is
--                   internal/linux/battery/battery.go, with Monitors for what starts and stops on
--                   D-Bus signals, Signals for the changes of properties and States for the
--                   sensors' texts and icons; Linux/Disk is ioSensors.go and ioWorker.go of
--                   internal/linux/disk, with Files for ioStats.go and Mounts for the usage of
--                   mounts, with MountIds about which are reported
--   Linux/Mem       internal/linux/mem: Ids and StatNames are the statistics, Parse reads
--                   /proc/meminfo, Usage makes the sensors; Used and Mapped are about both
--   Linux/Cpu       internal/linux/cpu: usage.go, loadAvgs.go and cpufreq.go; Totals is about usage
--   Linux/Net       internal/linux/net: Address, State and Wifi are the sensors of a connection,
--                   Monitor its loops, AccessPoints what it watches of a wireless one, Worker the
--                   tracking of connections with its goroutines as steps; Nameservers and Tracked are
--                   about these
--   Linux/Power     internal/linux/power: Laptop, Session (powerState.go, screenLock.go), Profile,
--                   Control (powerControl.go) and Screen (screenLockControl.go); Unseen and Tracked
--                   are about the signals and the ids
--   Linux/Apps, Linux/Users, Linux/Problems
--                   internal/linux/apps, internal/linux/user and internal/linux/problems
--   Linux/Media     internal/linux/media: Camera, Volume and Mpris; Recording is about the buttons
--   Linux/System    internal/linux/system: Time, Info and DbusCommand (hwmon.go is in Hwmon/Names)
--   Linux/Desktop, Linux/Location
--                   internal/linux/desktop and internal/linux/location
--   Linux/Updates   internal/linux/worker.go: what a worker sends, by its kind
--   Linux/Pulse     pkg/linux/pulseaudiox/pulseaudio.go
--   Hwmon           pkg/linux/hwmon: the types of sensors; Files reads a sensor's file, Chips gathers
--                   the sensors of a chip, Names makes the sensors of internal/linux/system/hwmon.go;
--                   Gather and Alarms are about these
--   Dbusx           pkg/linux/dbusx: Values is dbus.go and props.go, Watch is watch.go with its
--                   goroutines as steps; Parsed and Delivery are about them
--   Device          Distro is pkg/linux/whichdistro, Details is internal/device; Release is about
--                   the file that Distro reads
--   Agent/OsController
--                   internal/agent/os_controller_linux.go
--   Agent/Run       agent.go, controllers.go and sensor_controller.go of internal/agent: the agent's
--                   options, its controllers and the channel that ends it
--   Agent/Merge     mergeCh of internal/agent/util.go, with its goroutines as steps; Merge/Lanes and
--                   Merge/Fair are about what comes out of it
--   Agent/Publish   the loop of internal/agent/mqtt_controller.go as steps; Publish/Lost is about
--                   its messages
--   Agent/ExternalIp
--                   internal/agent/sensors.go, and the workers of device_controller.go for the
--                   version and the external addresses
--   Tests           each theorem that has hypotheses, applied to concrete values
--
-- A component's state is a record, an operation is a function from the state to its error and the
-- state that it leaves (`none` is nil), and the client's world also holds every request sent. A
-- mutex makes a method one step. A Go map is an association list; a range over it visits the
-- entries in an order that Go leaves open, and theorems about such loops hold for every list. A Go
-- value that the code only passes on is of a type parameter V. All loops are over lists, so no fuel
-- is needed. uint64 arithmetic is written with % 2 ^ 64.
--
-- Not under this repository, and parameters: the HTTP library (a Server gives the answer to each
-- request), the validator, encoding/gob (assumed to be self-delimiting where a file is read back),
-- TOML, JSON and YAML readers, net/url, os/exec, the cron library (an interface with the behaviour
-- it documents), strcase, the MQTT library, gopsutil, godbus (what the bus answers, and the signals
-- that it sends), go4vl, the client of PulseAudio, float64 (a record of the operations that a part
-- uses), the files under /proc and /sys, and what the disk does.
--
-- Where goroutines share state, as in the websocket, in a watch for signals, in the tracking of
-- batteries, in the tracking of connections, in the
-- merging of the workers' channels or in the publishing to MQTT, they are a step relation, and
-- theorems hold for every interleaving. A loop over signals takes them as a list, in the order of
-- delivery.
--
-- Not modelled: the timing of the controllers' goroutines, so that a sensor is processed in one step;
-- logging; the text of errors; request headers and retries; the connection of the websocket; the
-- graphical windows; the command line; the connection to D-Bus with its calls and introspection.
pub mod Prelude
pub mod Sensor
pub mod Tracker
pub mod Registry
pub mod Client
pub mod Websocket
pub mod Agent
pub mod Scripts
pub mod Commands
pub mod Device
pub mod Hwmon
pub mod Dbusx
pub mod Linux
pub mod Preferences
pub mod Tests
