-- ===== src/Acme/Dns.antt =====
-- The DNS-01 providers of src/acme.rs: what they call outside, and the hook commands. What a
-- command or a request returns is given, and may depend on all that was called before.
pub mod Cloudflare
pub mod Provider
pub mod Answers
pub mod Zones
pub mod Records
use archetype_proxy_server.Prelude.{
  ℕ, ◌+◌, Bool, Option, none, some, List, ◌∷◌, ◌++◌, Result, ok, err, ensure,
}
use archetype_proxy_server.Text.{Str, codes, decimal}
use archetype_proxy_server.Ordered.{BTreeMap}
use archetype_proxy_server.Steps.{Step, done, update, ◌>>◌}
use archetype_proxy_server.Acme.{AcmeError, dns_hook, spawn, exit}

-- An integer: `negsuc n` is −(n + 1).
pub data ℤ : Type 0 where
  pos negsuc : ℕ → ℤ

unfoldable pub signed_decimal : ℤ → Str
unfolding decimal
signed_decimal (pos n) = decimal n
signed_decimal (negsuc n) = codes "-" ++ decimal (n + 1)

pub record CfError : Type 0 where
  pub code : ℤ
  pub message : Str

pub record CfEnvelope (T : Type 0) : Type 0 where
  pub success : Bool
  pub errors : List CfError
  pub result : Option T

pub record CfRecord : Type 0 where
  pub id : Str

pub record CfZone : Type 0 where
  pub id : Str

-- Everything a provider does outside, in order.
pub data Call : Type 0 where
  -- `sh -c command` with `ACME_DNS_DOMAIN`, `ACME_DNS_NAME` and `ACME_DNS_VALUE`
  hook : (command domain record_name value : Str) → Call
  get_zones : (url token name : Str) → Call
  post_txt : (url token record_name value : Str) → (ttl : ℕ) → Call
  delete : (url token : Str) → Call
  sleep : (seconds : ℕ) → Call

-- A request that could not be sent, a body that could not be decoded, or the envelope.
pub data Reply (T : Type 0) : Type 0 where
  unsent undecoded : Reply T
  envelope : CfEnvelope T → Reply T

pub record DnsWorld : Type 0 where
  -- whether the command succeeds; `none` when it cannot be started
  pub run : List Call → Call → Option Bool
  pub zones : List Call → Call → Reply (List CfZone)
  pub created : List Call → Call → Reply CfRecord
  -- whether the status is a success
  pub deleted : List Call → Call → Option Bool

-- The two mutable maps of `CloudflareDnsProvider`, and the calls so far, the last one first.
pub record DnsState : Type 0 where
  pub records : BTreeMap (Str × Str) Str
  pub zone_cache : BTreeMap Str Str
  pub calls : List Call

abbrev pub called : Call → DnsState → DnsState
called c d = record { records = d.records; zone_cache = d.zone_cache; calls = c ∷ d.calls }

abbrev pub DnsStep : Type 0 → Type 0
DnsStep A = Step DnsState AcmeError A

pub record ManualDnsProvider : Type 0 where
  pub hook_command : Option Str
  pub cleanup_command : Option Str
  pub propagation : ℕ

module _ (w : DnsWorld) where
  exited : (command : Str) → Option Bool → Result AcmeError (Unit {0})
  exited command none = err (dns_hook (spawn command))
  exited command (some success) = ensure success (dns_hook (exit command))

  unfoldable pub run_hook : (command domain record_name value : Str) → DnsStep (Unit {0})
  unfolding exited
  run_hook command domain record_name value d =
      let call = hook command domain record_name value in
      (called call d, exited command (w.run d.calls call))

  hooked : Option Str → (domain record_name value : Str) → DnsStep (Unit {0})
  unfolding run_hook
  hooked none domain record_name value = done tt
  hooked (some command) domain record_name value = run_hook command domain record_name value

  unfoldable pub manual_publish :
      ManualDnsProvider → (domain record_name value : Str) → DnsStep (Unit {0})
  unfolding hooked
  manual_publish p domain record_name value = do
    hooked p.hook_command domain record_name value
    update (called (sleep p.propagation))

  unfoldable pub manual_cleanup :
      ManualDnsProvider → (domain record_name value : Str) → DnsState → DnsState
  unfolding hooked
  manual_cleanup p domain record_name value d =
      (hooked p.cleanup_command domain record_name value d).0
