-- ===== src/Config/Tpm/Silent.antt =====
-- When the TPM variables leave the layer silent.
use archetype_proxy_server.Prelude.{
  ◌≡◌, refl, ◌↔◌, Option, none, List, [], ◌∷◌, ok, arith, String, All, is_some, not, ◌&&◌,
  if◌then◌else◌,
}
use archetype_proxy_server.Text.{Str, codes}
use archetype_proxy_server.Config.World.{World}
use archetype_proxy_server.Config.Tpm.{read_tpm_env, read_tpm_vars, var}

abbrev pub tpm_variables : List String
tpm_variables =
    "ARCHETYPE_PROXY_TPM_EXPECTED_PCRS" ∷ "ARCHETYPE_PROXY_TPM_PINNED_AK_SEC1_HEX"
    ∷ "ARCHETYPE_PROXY_TPM_PCR_SELECTION" ∷ "ARCHETYPE_PROXY_TPM_TRUSTED_EK_ROOT_PATHS"
    ∷ "ARCHETYPE_PROXY_TPM_ALLOW_UNPINNED_AK" ∷ []

read_tpm_vars-ne-none :
    (w : World) (pcrs ak sel roots allow : Option Str)
    → read_tpm_vars w pcrs ak sel roots allow ≡ ok none
    → ⊥
unfolding read_tpm_vars
read_tpm_vars-ne-none w pcrs ak sel roots allow h = ground arith

-- The environment is silent on the TPM policy exactly when each of its five variables is unset or
-- empty: otherwise a policy is read, or the variables are refused.
pub read_tpm_env-eq-none_iff :
    (w : World) → (read_tpm_env w ≡ ok none) ↔ All (λ name. var w (codes name) ≡ none) tpm_variables
unfolding read_tpm_env
read_tpm_env-eq-none_iff w = go _ _ _ _ _
  where
    go :
        (pcrs ak sel roots allow : Option Str)
        → ((if not (is_some pcrs)
                && not (is_some ak)
                && not (is_some sel)
                && not (is_some roots)
                && not (is_some allow)
              then ok none
              else read_tpm_vars w pcrs ak sel roots allow)
            ≡ ok none)
          ↔ ((pcrs ≡ none)
              × ((ak ≡ none) × ((sel ≡ none) × ((roots ≡ none) × ((allow ≡ none) × Unit {0})))))
    go none none none none none = ((λ h. (refl, (refl, (refl, (refl, (refl, tt)))))), λ h. refl)
    go pcrs ak sel roots allow =
        (λ h. ground (arith, read_tpm_vars-ne-none w pcrs ak sel roots allow), λ h. ground arith)
