-- ===== src/Config/Tls/Modes.antt =====
-- Exactly one certificate source.
use archetype_proxy_server.Prelude.{
  ◌≡◌, ◌≢◌, ◌↔◌, ◌⊎◌, Bool, true, false, Option, none, some, ok, err, is_some_and, is_empty, any,
  arith,
}
use archetype_proxy_server.Config.Kinds.{AcmeChallenge}
use archetype_proxy_server.Config.Settings.{AcmeConfig, TlsConfig, TlsMode}
use archetype_proxy_server.Config.Tls.{validate, unreachable, is_wildcard}

-- The ACME block is there and switched on.
abbrev pub is_enabled : Option AcmeConfig → Bool
is_enabled o = is_some_and (λ (a : AcmeConfig). a.enabled) o

-- What a mode promises of the block that it was read from.
abbrev pub IsModeOf : TlsConfig → TlsMode → Type 0
IsModeOf t (TlsMode.static_files cert key) =
    (t.cert_path ≡ some cert) × (t.key_path ≡ some key) × (is_enabled t.acme ≡ false)
IsModeOf t (TlsMode.acme a) =
    (t.acme ≡ some a)
    × (a.enabled ≡ true)
    × (t.cert_path ≡ none)
    × (t.key_path ≡ none)
    × (is_empty a.domains ≡ false)
    × ((a.challenge ≡ AcmeChallenge.dns01) ⊎ (any is_wildcard a.domains ≡ false))

-- A block is accepted exactly as the mode that it describes: both paths and no ACME, or ACME with
-- domains and no path, where a wildcard domain asks for DNS-01.
pub validate_iff : (t : TlsConfig) (m : TlsMode) → (validate t ≡ ok m) ↔ IsModeOf t m
unfolding validate
validate_iff t (TlsMode.static_files cert key) = ((λ e. ground arith), λ h. ground arith)
validate_iff t (TlsMode.acme a) = ((λ e. ground arith), λ h. ground arith)

-- The arm that the source marks as unreachable is.
pub validate-ne-unreachable : (t : TlsConfig) → validate t ≢ err unreachable
unfolding validate
validate-ne-unreachable t = ground arith
