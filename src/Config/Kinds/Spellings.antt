-- ===== src/Config/Kinds/Spellings.antt =====
-- The four enumerations of src/config.rs are read back from the names under which they are shown.
use archetype_proxy_server.Prelude.{◌≡◌, ok}
use archetype_proxy_server.Config.Kinds.{
  TeeProviderKind, VerifierKind, AcmeChallenge, DnsProviderKind,
}
use archetype_proxy_server.Config.Kinds.TeeProvider
use archetype_proxy_server.Config.Kinds.Verifier
use archetype_proxy_server.Config.Kinds.Challenge
use archetype_proxy_server.Config.Kinds.DnsProvider

-- Each kind of TEE provider, verifier, challenge and DNS provider is read back from its name.
pub from_str-as_str_of_kinds :
    ((k : TeeProviderKind) → TeeProvider.from_str (TeeProvider.as_str k) ≡ ok k)
    × ((k : VerifierKind) → Verifier.from_str (Verifier.as_str k) ≡ ok k)
    × ((k : AcmeChallenge) → Challenge.from_str (Challenge.as_str k) ≡ ok k)
    × ((k : DnsProviderKind) → DnsProvider.from_str (DnsProvider.as_str k) ≡ ok k)
from_str-as_str_of_kinds = (
  TeeProvider.from_str-as_str, Verifier.from_str-as_str, Challenge.from_str-as_str,
  DnsProvider.from_str-as_str,
)
