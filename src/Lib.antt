-- ===== src/Lib.antt =====
-- archetype-proxy-server: a reverse proxy that decrypts attested HTTP requests, forwards them to
-- plain upstreams, and seals the answers. This library models its Rust sources and states what they
-- guarantee.
--
-- The parts and the files that model them, by the source's paths:
--
-- Config and its children model src/config.rs. Config/Kinds has the enumerations and their
-- spellings, Config/Settings the records, Config/Layers `resolve` and `Config::resolve_layers`,
-- Config/Route `Route` and `RouteTable`, Config/Tls `TlsConfig::validate`, Config/Tpm the TPM policy
-- (`FileTpm::resolve`, `read_tpm_env`, `load_cert_der`), Config/Load `Config::load` with `read_file`,
-- `read_env` and `validate`, Config/Dump `Config::dump`. What the operating system, toml, hex, pem and X.509 give is the record
-- World of Config/World, an argument of the definitions that use it.
--
-- Attestation models src/attestation.rs: the startup guard and the choice of provider and verifier.
-- The cargo features are a record of Booleans, and an object of the openhttpa crates is the
-- constructor that is called with its arguments.
--
-- Metrics models the counters and the histogram of src/metrics.rs, Metrics/Render its text. An
-- atomic counter wraps around at 2^64. Latencies are in nanoseconds, where the source has seconds as a float.
--
-- Proxy models src/proxy.rs and the frame type of src/envelope.rs: Proxy/Decrypt is
-- `DecryptedRequest::from_request`, Proxy/Forward is `proxy_handler`,
-- Proxy/Router the middleware and the probes. The SDK is the record Sdk and
-- the HTTP client the record Http, both of Proxy/Types. A handler's effects are its value: the
-- metrics after it, the calls it made, and the frames that it hands to `seal_stream`.
--
-- Ws models src/ws.rs: Ws/Frame the frames under a nonce counter, Ws/Bridge the loops of
-- `run_bridge`, Ws/Upgrade `ws_upgrade_handler`. The AEAD is the record Aead, the session registry
-- the record Sessions. A socket is the list of the messages that it receives until it ends, and the
-- sink is a function of what was sent before.
--
-- Discovery models src/discovery/mod.rs (Discovery/Manager) and src/discovery/k8s.rs
-- (Discovery/Kubernetes, with the events of kube in Events); the manager's updates and the watcher's
-- events are lists, run in order, and an object is given by its metadata.
-- Discovery/Labels models src/discovery/labels.rs, the routes in the labels of a container, and
-- Discovery/Docker models src/discovery/docker.rs, where bollard decides each turn's outcome.
--
-- Cli models src/cli.rs, from the arguments that clap has parsed.
--
-- Tls models src/tls.rs: loading a pair of files, and the resolver whose certificates are swapped at
-- runtime. Acme models src/acme.rs: Acme the responses to challenges, Acme/Dns the two DNS providers,
-- Acme/Cert and Acme/Cache the certificates and their files, Acme/Manager the order (Issue) and the
-- renewal loop (Renewal). What is outside are records: Rustls, Pki, Files, DnsWorld and Authority,
-- the answers of the certificate authority during one order. Steps has the operations that write a
-- state and may fail: a failure keeps what was written, as a `?` does in the source.
--
-- Startup models src/main.rs and `build_providers`, from the arguments to the listener: what is
-- served, or the error that the process exits with. Startup/Acme is `setup_acme`.
--
-- How they interact: Config.Load gives the settings and the file's routes; Discovery.Manager merges
-- those with the snapshots of the providers into a Config.Route table; Proxy.Forward and Ws.Upgrade
-- select from that table; Proxy.Decrypt lets a request through to Proxy.Forward; both count in
-- Metrics; Attestation decides from the settings whether the server starts; Startup puts these
-- together, and its listener asks a resolver of Tls, which Acme.Manager fills. Proxy.Router sends a
-- request to Ws.Upgrade or on.
--
-- Text (Prelude and Text) is a list of code points with the methods of `str` that the source calls;
-- Ordered is `BTreeMap` as a list of entries in ascending order. Numbers are natural numbers, with
-- the bounds of `usize` and `u64` (64 bits) written where the source saturates or wraps. Every
-- function is structurally recursive and none runs out of steps: only Text.decimal counts down, from
-- a bound above the digits of its number, and Text/Decimal reads the digits back. Logging is left out. Messages built by
-- `format!` keep the case and the values quoted, or the constant part of the text. Tests holds runs
-- on concrete inputs.
--
-- Not modelled: the routing of axum in `build_router`; dialling and key set-up in `run_bridge` and the
-- choice of `select!`, where both loops are modelled; the tasks that src/main.rs spawns, and the exit
-- of the HTTP-01 responder when it cannot bind; the formatting of floating-point numbers; the hex
-- encoding of src/envelope.rs, which only calls hex and serde. All of these are calls of other crates
-- with no state of the program's own.
pub mod Prelude
pub mod Text
pub mod Ordered
pub mod Config
pub mod Attestation
pub mod Metrics
pub mod Proxy
pub mod Ws
pub mod Tls
pub mod Steps
pub mod Acme
pub mod Discovery
pub mod Tests
pub mod Cli
pub mod Startup
