-- ===== src/Cli.antt =====
-- src/cli.rs: the parsed command line, as clap fills it.
pub mod Overrides
use archetype_proxy_server.Prelude.{
  ℕ, suc, zero, Bool, true, false, Option, none, some, ◌++◌, or_option, if◌then◌else◌,
}
use archetype_proxy_server.Text.{Str, codes}
use archetype_proxy_server.Config.Settings.{SocketAddr, PartialStatic}

pub data LogLevel : Type 0 where
  off error warn info debug trace : LogLevel

-- `LogLevel::as_str`
unfoldable pub as_str : LogLevel → Str
as_str off = codes "off"
as_str error = codes "error"
as_str warn = codes "warn"
as_str info = codes "info"
as_str debug = codes "debug"
as_str trace = codes "trace"

pub data Commands : Type 0 where
  dump : Commands

pub record Args : Type 0 where
  pub positional_path : Option Str
  pub config : Option Str
  pub listen : Option SocketAddr
  pub max_body_bytes : Option ℕ
  pub docker : Bool
  pub kubernetes : Bool
  pub log_level : Option LogLevel
  pub verbose : ℕ
  pub command : Option Commands

-- `Args::config_path`: the option before the positional argument.
unfoldable pub config_path : Args → Option Str
config_path args = or_option args.config args.positional_path

unfoldable pub is_dump : Args → Bool
is_dump args = elim args.command [ none ↦ false | some dump ↦ true ]

abbrev level_of : Option LogLevel → ℕ → LogLevel
level_of (some level) verbose = level
level_of none zero = info
level_of none (suc zero) = debug
level_of none (suc (suc more)) = trace

unfoldable pub level : Args → LogLevel
level args = level_of args.log_level args.verbose

unfoldable pub log_directive : Args → Str
unfolding level as_str
log_directive args = codes "archetype_proxy_server=" ++ as_str (level args)

abbrev pub enable_only : Bool → Option Bool
enable_only flag = if flag then some true else none

unfoldable pub overrides : Args → PartialStatic
overrides args = record {
  listen = args.listen;
  max_body_bytes = args.max_body_bytes;
  tls = none;
  allow_mock = none;
  strict_attestation = none;
  atb_ttl_secs = none;
  atb_eviction_interval_secs = none;
  atb_max_sessions = none;
  tee_provider = none;
  verifier = none;
  verifier_endpoint = none;
  verifier_api_key = none;
  tpm = none;
  rate_limit_max_requests = none;
  rate_limit_window_secs = none;
  docker_enabled = enable_only args.docker;
  docker_socket = none;
  docker_poll_secs = none;
  kubernetes_enabled = enable_only args.kubernetes;
  kubernetes_namespace = none;
}
