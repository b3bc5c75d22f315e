-- ===== src/Config/Tpm.antt =====
-- The TPM reference policy of src/config.rs: its hex fields, its variables, its root certificates.
pub mod Silent
use archetype_proxy_server.Prelude.{
  ℕ, Bool, true, false, ◌&&◌, ◌||◌, not, Option, none, some, List, [], ◌∷◌, ◌++◌, Result, ok, err,
  ok_or, map_ok, ◌>>=◌, ◌>>◌, ensure, is_some, is_empty, filter, map, if◌then◌else◌, ◌==◌,
}
use archetype_proxy_server.Text.{
  Str, codes, trim, split, split_once, parse_uint, u32_bound, starts_with, decimal,
}
use archetype_proxy_server.Ordered.{BTreeMap, insert}
use archetype_proxy_server.Ordered.Keys.{nat_ord}
use archetype_proxy_server.Config.Kinds.{parse_bool_token}
use archetype_proxy_server.Config.Settings.{
  TpmConfig, EnvReason, not_a_boolean, not_a_pair, invalid_pcr_index, expected_hex, ValidationError,
  root_pem, root_without_certificate, root_not_x509, ConfigError, read, env, validation,
}
use archetype_proxy_server.Config.World.{World, FileTpm}
use archetype_proxy_server.Config.Tls.{non_empty}

-- `bytes.windows(11).any(|w| w == b"-----BEGIN ")`
unfoldable pub has_armor : List ℕ → Bool
unfolding starts_with
has_armor [] = false
has_armor (b ∷ bytes) = starts_with (b ∷ bytes) (codes "-----BEGIN ") || has_armor bytes

-- `str::parse::<u32>`
abbrev parse_u32 : Str → Option ℕ
parse_u32 s = parse_uint u32_bound s

-- `raw.split(..).map(str::trim).filter(|s| !s.is_empty())`
unfoldable pub pieces : (ℕ → Bool) → Str → List Str
unfolding split trim
pieces p raw = filter (λ s. not (is_empty s)) (map trim (split p raw))

abbrev pub is_comma : ℕ → Bool
is_comma c = c == b','

abbrev is_comma_or_colon : ℕ → Bool
is_comma_or_colon c = c == b',' || c == b':'

module _ (w : World) where
  open w use {env_var, hex_decode, pem_certs, is_x509}

  check_certs : Str → List (List ℕ) → Result ConfigError (Unit {0})
  check_certs path [] = ok tt
  check_certs path (der ∷ ders) = do
    ensure (is_x509 der) (validation (root_not_x509 path))
    check_certs path ders

  armored_certs : Str → List ℕ → Result ConfigError (List (List ℕ))
  armored_certs path bytes = do
    certs ← ok_or (pem_certs bytes) (validation (root_pem path))
    ensure (not (is_empty certs)) (validation (root_without_certificate path))
    ok certs

  -- `load_cert_der`
  unfoldable pub load_cert_der : Str → Result ConfigError (List (List ℕ))
  unfolding has_armor check_certs armored_certs
  load_cert_der path = do
    bytes ← ok_or (w.read path) (read path)
    ders ← if has_armor bytes then armored_certs path bytes else ok (bytes ∷ [])
    check_certs path ders
    ok ders

  -- `TpmConfig::trusted_ek_roots_der`
  unfoldable pub load_all : List Str → Result ConfigError (List (List ℕ))
  unfolding load_cert_der
  load_all [] = ok []
  load_all (path ∷ paths) = do certs ← load_cert_der path; rest ← load_all paths; ok (certs ++ rest)

  unfoldable pub trusted_ek_roots_der : TpmConfig → Result ConfigError (List (List ℕ))
  unfolding load_all
  trusted_ek_roots_der t = load_all t.trusted_ek_root_paths

  unfoldable pub decode_hex_field : Str → Str → Result ConfigError (List ℕ)
  unfolding trim
  decode_hex_field value field = ok_or (hex_decode (trim value)) (env field value expected_hex)

  abbrev decode_optional : Option Str → Str → Result ConfigError (Option (List ℕ))
  decode_optional none field = ok none
  decode_optional (some h) field = map_ok some (decode_hex_field h field)

  -- The loop of `FileTpm::resolve` over its map.
  file_pcrs : BTreeMap Str Str → BTreeMap ℕ (List ℕ) → Result ConfigError (BTreeMap ℕ (List ℕ))
  unfolding trim parse_uint decimal decode_hex_field insert
  file_pcrs [] acc = ok acc
  file_pcrs ((idx_str, hex_str) ∷ more) acc = do
    idx ←
        ok_or (parse_u32 (trim idx_str))
          (env (codes "attestation.tpm.expected_pcrs") idx_str invalid_pcr_index)
    bytes ←
        decode_hex_field hex_str
          (codes "attestation.tpm.expected_pcrs[" ++ decimal idx ++ codes "]")
    file_pcrs more (insert idx bytes acc)

  -- `FileTpm::resolve`
  unfoldable pub resolve_file_tpm : FileTpm → Result ConfigError TpmConfig
  unfolding file_pcrs
  resolve_file_tpm f = do
    expected_pcrs ← file_pcrs f.expected_pcrs []
    pinned_ak_sec1 ←
        decode_optional f.pinned_ak_sec1_hex (codes "attestation.tpm.pinned_ak_sec1_hex")
    ok (record {
      expected_pcrs = expected_pcrs;
      pinned_ak_sec1 = pinned_ak_sec1;
      pcr_selection = f.pcr_selection;
      trusted_ek_root_paths = f.trusted_ek_root_paths;
      allow_unpinned_ak = f.allow_unpinned_ak;
    })

  -- `var` of `read_tpm_env` and `read_env`: an empty variable counts as unset.
  abbrev pub var : Str → Option Str
  var name = non_empty (env_var name)

  -- The loop over the `index:hex` pairs.
  env_pcrs : List Str → BTreeMap ℕ (List ℕ) → Result ConfigError (BTreeMap ℕ (List ℕ))
  unfolding split_once trim parse_uint decode_hex_field insert
  env_pcrs [] acc = ok acc
  env_pcrs (pair ∷ more) acc = do
    let name = codes "ARCHETYPE_PROXY_TPM_EXPECTED_PCRS"
    cut ← ok_or (split_once b':' pair) (env name pair not_a_pair)
    idx ← ok_or (parse_u32 (trim cut.0)) (env name cut.0 invalid_pcr_index)
    bytes ← decode_hex_field cut.1 name
    env_pcrs more (insert idx bytes acc)

  abbrev pcrs_of : Option Str → Result ConfigError (BTreeMap ℕ (List ℕ))
  pcrs_of none = ok []
  pcrs_of (some raw) = env_pcrs (pieces is_comma raw) []

  selection : List Str → Result ConfigError (List ℕ)
  unfolding parse_uint
  selection [] = ok []
  selection (s ∷ more) = do
    idx ← ok_or (parse_u32 s) (env (codes "ARCHETYPE_PROXY_TPM_PCR_SELECTION") s invalid_pcr_index)
    rest ← selection more
    ok (idx ∷ rest)

  abbrev selection_of : Option Str → Result ConfigError (Option (List ℕ))
  selection_of none = ok none
  selection_of (some raw) = map_ok some (selection (pieces is_comma raw))

  abbrev roots_of : Option Str → List Str
  roots_of none = []
  roots_of (some raw) = pieces is_comma_or_colon raw

  abbrev allow_of : Option Str → Result ConfigError Bool
  allow_of none = ok false
  allow_of (some v) =
      ok_or (parse_bool_token v)
        (env (codes "ARCHETYPE_PROXY_TPM_ALLOW_UNPINNED_AK") v not_a_boolean)

  -- The rest of `read_tpm_env`, once a variable is set.
  read_tpm_vars : (pcrs ak sel roots allow : Option Str) → Result ConfigError (Option TpmConfig)
  unfolding env_pcrs selection pieces parse_bool_token decode_hex_field
  read_tpm_vars pcrs ak sel roots allow = do
    expected_pcrs ← pcrs_of pcrs
    pinned_ak_sec1 ← decode_optional ak (codes "ARCHETYPE_PROXY_TPM_PINNED_AK_SEC1_HEX")
    pcr_selection ← selection_of sel
    allow_unpinned_ak ← allow_of allow
    ok (
        some (record {
          expected_pcrs = expected_pcrs;
          pinned_ak_sec1 = pinned_ak_sec1;
          pcr_selection = pcr_selection;
          trusted_ek_root_paths = roots_of roots;
          allow_unpinned_ak = allow_unpinned_ak;
        }))

  -- `read_tpm_env`
  unfoldable pub read_tpm_env : Result ConfigError (Option TpmConfig)
  unfolding read_tpm_vars
  read_tpm_env =
      let pcrs = var (codes "ARCHETYPE_PROXY_TPM_EXPECTED_PCRS") in
      let ak = var (codes "ARCHETYPE_PROXY_TPM_PINNED_AK_SEC1_HEX") in
      let sel = var (codes "ARCHETYPE_PROXY_TPM_PCR_SELECTION") in
      let roots = var (codes "ARCHETYPE_PROXY_TPM_TRUSTED_EK_ROOT_PATHS") in
      let allow = var (codes "ARCHETYPE_PROXY_TPM_ALLOW_UNPINNED_AK") in
      if not (is_some pcrs)
        && not (is_some ak)
        && not (is_some sel)
        && not (is_some roots)
        && not (is_some allow)
      then ok none
      else read_tpm_vars pcrs ak sel roots allow
