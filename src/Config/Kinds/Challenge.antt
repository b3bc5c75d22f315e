-- ===== src/Config/Kinds/Challenge.antt =====
-- `AcmeChallenge` of src/config.rs: its spellings.
use archetype_proxy_server.Prelude.{String, List, [], ◌∷◌, Result, ok, ok_or, ◌≡◌, refl}
use archetype_proxy_server.Text.{Str, codes}
use archetype_proxy_server.Config.Kinds.{AcmeChallenge, token, match_token}

unfoldable pub as_str : AcmeChallenge → Str
as_str AcmeChallenge.tls_alpn01 = codes "tls-alpn-01"
as_str AcmeChallenge.http01 = codes "http-01"
as_str AcmeChallenge.dns01 = codes "dns-01"

abbrev pub arms : List (String × AcmeChallenge)
arms =
    ("tls-alpn-01", AcmeChallenge.tls_alpn01)
    ∷ ("tls_alpn_01", AcmeChallenge.tls_alpn01)
    ∷ ("tlsalpn01", AcmeChallenge.tls_alpn01)
    ∷ ("tls-alpn", AcmeChallenge.tls_alpn01)
    ∷ ("http-01", AcmeChallenge.http01)
    ∷ ("http_01", AcmeChallenge.http01)
    ∷ ("http01", AcmeChallenge.http01)
    ∷ ("http", AcmeChallenge.http01)
    ∷ ("dns-01", AcmeChallenge.dns01)
    ∷ ("dns_01", AcmeChallenge.dns01)
    ∷ ("dns01", AcmeChallenge.dns01)
    ∷ ("dns", AcmeChallenge.dns01)
    ∷ []

unfoldable pub from_str : Str → Result Str AcmeChallenge
unfolding token match_token
from_str s = ok_or (match_token (token s) arms) (token s)

-- The name that is displayed is read back.
pub from_str-as_str : (k : AcmeChallenge) → from_str (as_str k) ≡ ok k
unfolding from_str as_str
from_str-as_str AcmeChallenge.tls_alpn01 = refl
from_str-as_str AcmeChallenge.http01 = refl
from_str-as_str AcmeChallenge.dns01 = refl
