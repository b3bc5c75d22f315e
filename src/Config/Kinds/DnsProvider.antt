-- ===== src/Config/Kinds/DnsProvider.antt =====
-- `DnsProviderKind` of src/config.rs: its spellings.
use archetype_proxy_server.Prelude.{String, List, [], ◌∷◌, Result, ok, ok_or, ◌≡◌, refl}
use archetype_proxy_server.Text.{Str, codes}
use archetype_proxy_server.Config.Kinds.{DnsProviderKind, token, match_token}

unfoldable pub as_str : DnsProviderKind → Str
as_str DnsProviderKind.manual = codes "manual"
as_str DnsProviderKind.cloudflare = codes "cloudflare"

abbrev pub arms : List (String × DnsProviderKind)
arms =
    ("manual", DnsProviderKind.manual)
    ∷ ("hook", DnsProviderKind.manual)
    ∷ ("cloudflare", DnsProviderKind.cloudflare)
    ∷ ("cf", DnsProviderKind.cloudflare)
    ∷ []

unfoldable pub from_str : Str → Result Str DnsProviderKind
unfolding token match_token
from_str s = ok_or (match_token (token s) arms) (token s)

-- The name that is displayed is read back.
pub from_str-as_str : (k : DnsProviderKind) → from_str (as_str k) ≡ ok k
unfolding from_str as_str
from_str-as_str DnsProviderKind.manual = refl
from_str-as_str DnsProviderKind.cloudflare = refl
