-- ===== src/Lib.antt =====
-- rotten-apple: a fabric of hosts that run guests on Xen. Controllers issue signed events; every
-- node keeps them in a hash chain, applies them to its wanted state, compares that with what the
-- backend reports and plans actions. On a node's dom0 a daemon balances the guests' memory and
-- serves signed requests, and a governor sizes dom0 itself. This library models these parts from
-- their Rust source, by state passing: a method that changes `self` returns the new state.
--
-- Files and code (paths from the repository's root):
--   Prelude and its children: Boolean tests, lists, results (`?` is `>>=`), texts as lists of code
--     points with the library calls of `str` that the code makes.
--   BTreeMap, HashMap: the two maps of std, as lists of entries, sorted by key and in any order.
--   Fabric/NodeId: crates/fabric/src/node_id.rs. `new`, `hex_suffix`, `==` (`same`), `kebab`,
--     `derive_from_paths` with the file contents as arguments.
--   Fabric/Event: crates/fabric/src/event.rs. `signed_bytes`, `hash`, `sign`, `verify`. The record
--     `Fabric` holds keys, signatures, SHA-256 and the JSON encoder, which are other crates; its one
--     law is that a signature verifies under the public half of its key.
--   Fabric/Chain: crates/fabric/src/chain.rs. `TrustStore` and `EventLog::append`, split into its
--     `checks` and its `commit`; a call of `expect` is the error `panicked`. `replay` offers a list of
--     envelopes. Links says what a chain is, Admission when `append` accepts, Order how accepted
--     events are ordered, History what every built log is, Tamper what the head hash pins.
--   Manifest: crates/manifest/src/lib.rs. The profile; Validate is `validate_against`, Sizes the two
--     parsers, with 64-bit floats as a parameter. Whoever parses TOML takes the parser as a parameter.
--   Agent/Truth, Agent/Wanted, Agent/Refuse, Agent/Reconcile: crates/agent/src/truth.rs, wanted.rs,
--     refuse.rs and reconcile.rs. `apply_event` is `applied` and what it keeps on an error; a plan is
--     built by the loop over the wanted entries and the one over the observed domains.
--   Orchestratord/Broadcast: the module `broadcast` of crates/orchestratord/src/engine.rs, and
--     `events.tail` of dispatch.rs. A call holds the mutex from end to end, so calls are one sequence.
--   Orchestratord/Engine: `run_tick` of engine.rs and what it calls. Clocks and the answers of the
--     actor are an argument of a tick; within one tick a balloon call is answered by its arguments.
--   Orchestratord/Auth: crates/orchestratord/src/auth.rs. `authorize`, `sign_request`,
--     `signing_payload`. The record `Wire` holds JSON, hexadecimal and the encoding of keys.
--   Orchestratord/Protocol, Actor, Params, Dispatch, Connection: protocol.rs, actor.rs, dispatch.rs
--     (its parameters, then its methods) and `handle_connection` of lib.rs. A request to the actor is
--     a step of the state behind the channel; a connection is a list of turns, between which others
--     may change the daemon. JSON is the record `Json`; an answer keeps its content, not its text.
--   Backend: crates/backend/src/lib.rs. The trait as a record with a state; Backend/PciAddr is the
--     printer and the parser of PCI addresses, for machine integers that are bounded by `IsAddr`.
--   Xen: crates/backend-xen/src/mode.rs (`select_mode`) and config.rs (`from_profile`, the plan of a
--     domain), with the probe of a disk and the bridges of the host as arguments.
--   Instances: crates/instances/src/lib.rs. The registry and the catalog; Disk is the files, with a
--     record of what the host does in one operation, writes that fail halfway included; Operations is
--     create, fork and destroy, Rendered the manifest that is written, Clock the time stamp. Contract
--     is the abstract specification, steps of a map from ids to entries, and Steps its refinement.
--   Bootstrapper/BootMode: crates/bootstrapper/src/boot_mode.rs, over the masked units, the override
--     of getty and the state file.
--   Cockpit: crates/cockpit/src/lib.rs. Commands is `Cmd` with `cmd_to_rpc` and the reading of the
--     daemon's answers, Choices what the prompts offer, State the state with its messages, Prompts and
--     Keys the arms of `handle_key`, Session the loop `run_active` as a list of rounds, Workers the two
--     ways to serve a command (daemon_client.rs has the text of an error). Clocks are arguments.
--   Detect: crates/detect/src/gpu.rs (Gpu, over what is read below /sys) and lib.rs with
--     lift_readiness.rs (Readiness, the two `classify`; a message is the values that its text holds).
--   Mcp: crates/mcp-server. Protocol is protocol.rs with JSON values and the trait of upstream.rs, Tools
--     `translate_tool` and `tool_list`, Create the tool that makes an instance, Server the methods and
--     `serve` as a list of turns; the crate images and the query for the identity of the node are
--     arguments.
--   Governor: crates/dom0-memd/src/lib.rs. `decide_target`, the parsers of /proc/meminfo and of
--     `xl list`, and one round of `run`.
--   Planner: crates/detect/src/planner.rs. `plan`, `clamp_dom0_mb`, `split_cpus`, without the lines
--     of rationale.
--   Tests: the theorems at concrete inputs.
--
-- Numbers are native natural numbers. Where the code adds or multiplies u64 values the model writes
-- the wrap (`% 2 ^ 64`) or the saturation out. Every loop goes over a list.
-- `decimal` prints with a bound of twenty digits, which hold every number of 64 bits.
-- Not modelled: threads, sockets, child processes, libxl, deserialisation, logging, the user
-- interfaces but for the console's logic, the rest of the bootstrapper, which installs packages and
-- writes boot configuration and file systems, the commands that probe the hardware and the registry of images.
pub mod Prelude
pub mod BTreeMap
pub mod HashMap
pub mod Fabric
pub mod Manifest
pub mod Agent
pub mod Orchestratord
pub mod Governor
pub mod Planner
pub mod Instances
pub mod Backend
pub mod Xen
pub mod Bootstrapper
pub mod Detect
pub mod Mcp
pub mod Cockpit
pub mod Tests
