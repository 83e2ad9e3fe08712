-- ===== src/Lib.antt =====
-- The PlaceNet node "hamlet": its supervisor, its configuration, the registry of beacons, the keys
-- of its broadcasts, its HTTP gateway, its certificate authority, its MQTT broker, its MQTT client
-- and its two clients of the cloud gateway.
--
-- `App` (src/app.rs) reads the configuration, opens the certificate authority, provisions the
-- files of the broker and of its client, registers services with a supervisor, starts them, and
-- runs two loops: one takes beacon messages and handshakes and keeps the registry, the other
-- broadcasts the node's URL with a token. The services run as tasks that talk through channels.
--
-- The files, and the code that each models:
-- - Common: the types of Rust's standard library as they are used. Text is the list of its code
--   points, a map is an association list, a 64-bit integer its bit pattern; Common/Json is
--   serde_json's `Value`, Common/Backoff the delays that both gateway clients share, Common/Disk the
--   files that are written.
-- - Services: `ServiceId` (src/services/mod.rs).
-- - Supervisor: src/supervisor.rs. A service is a value with the operations of `ManagedService`;
--   `serve` is a round of the loop of `spawn`, `run` the loop with its shutdown. Guards,
--   Transitions, Run, Isolation, OneShot and Held are its theorems.
-- - Config: src/config.rs. The environment is a function. Agreement compares the client's and the
--   broker's settings.
-- - MqttClient: src/services/mqtt_client. Options builds the connection, Service is the managed
--   service, Tasks its two tasks, Handle the subscriptions, Manager the registration and the node's
--   own identity.
-- - Capabilities: src/services/capabilities.rs, the binaries that are found.
-- - Ca: src/infra/ca. Tables holds the three tables as they are in migrations, Operations the making of
--   certificates, Service the calls. Devices describes the calls about devices a second time, as a
--   directory, and Refinement compares the two; Revocation, Identity and Authority are theorems.
-- - Brokerage: src/services/mqtt_brokerage. Service is the managed service around the child process,
--   Passwords the password file, Provision the broker's certificate, Manager the registration.
--   Children, Lifecycle and Certificate are theorems.
-- - Registry: src/services/beacon_management/registry.rs. `check_timeouts` is a sweep that ends,
--   `check_timeouts_cut` in Interrupted one that is dropped at an await point, as `tokio::select!` in
--   src/app.rs can.
-- - KeyManagement: src/services/beacon_management/key_management.rs, and the table of
--   migrations/0004_broadcast_keys.sql as the list of its rows.
-- - CloudGateway: src/services/cloud_gateway; GatewayMqtt: src/services/gateway_mqtt. Each has its
--   managed service and its connection task. A task is a state machine: a phase for each point where
--   it waits, and an event for each arm that can be ready there; `run` is `none` exactly if an event
--   cannot occur. Login is the HTTPS login with its URL parser.
-- - Gateway: the HTTP gateway of src/services/beacon_management, its requests, handlers and dispatch
--   (internals) and its managed service (gateway_service.rs). Tls is internals/tls.rs over the
--   authority, Connections the accept loops of tasks.rs with the tasks of internals/proxy.rs, whose
--   steps come in any order. The handlers are generic in the
--   authority that they call, and Issuing puts src/infra/ca in its place.
-- - Peer: src/services/peer, a message to another node, which no code sends.
-- - App: src/app.rs, with `App::initialize` in Initialize over the boxed services of Services, and the
--   two loops, MessageLoop and BroadcastLoop. Startup, Trust, WithoutBroker, Records, Gateways,
--   Broadcasts and Onboarding are theorems.
-- - Examples: the theorems at concrete inputs.
--
-- All functions are structural recursions over the events, commands or rows that are given, so no
-- fuel is needed, but for the decimal digits of a number: twenty are enough for 64 bits.
--
-- Parameters stand for what is outside: the MQTT broker's answers, the file system, PEM and
-- certificate stores, sockets, TLS and HTTP, the JSON parser and printer, HMAC-SHA256, random bytes,
-- the clock, rcgen with its keys and certificates, and the processes of the operating system. A signature
-- is a function of what is signed, and two different paths name two files. Log lines are left out. Not modelled is the setup of the process
-- (src/main.rs).
pub mod Common
pub mod Services
pub mod Supervisor
pub mod MqttClient
pub mod Registry
pub mod Config
pub mod Capabilities
pub mod Ca
pub mod Brokerage
pub mod Peer
pub mod CloudGateway
pub mod GatewayMqtt
pub mod KeyManagement
pub mod Gateway
pub mod App
pub mod Examples
