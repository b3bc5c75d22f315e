-- ===== src/Config/Load/Policy.antt =====
-- What a configuration that was loaded guarantees.
use archetype_proxy_server.Prelude.{
  ◌≡◌, refl, subst, sym, ◌↔◌, ◌⊎◌, inl, inr, true, false, Option, none, some, List, ok, is_ok,
  is_some, is_empty, arith, Bool-cases, >>=-eq-ok,
}
use archetype_proxy_server.Text.{Str}
use archetype_proxy_server.Config.World.{World}
use archetype_proxy_server.Config.Route.{Route}
use archetype_proxy_server.Config.Settings.{TpmConfig, PartialStatic, Config, AttestationConfig}
use archetype_proxy_server.Config.Tpm.{trusted_ek_roots_der}
use archetype_proxy_server.Config.Layers.{resolve_layers}
use archetype_proxy_server.Config.Layers.Precedence.{merged, resolve_layers-merged}
use archetype_proxy_server.Config.Load.{
  validate, validate_tpm, uses_tpm, load, read_file, read_env, config_path,
}

-- A policy that can be enforced: expected PCRs, a way to trust the attestation key, and root
-- certificates that load where roots are configured.
pub record IsEnforceable (w : World) (t : TpmConfig) : Type 0 where
  pub has_pcrs : is_empty t.expected_pcrs ≡ false
  pub trusts :
      (is_some t.pinned_ak_sec1 ≡ true)
      ⊎ (is_empty t.trusted_ek_root_paths ≡ false)
      ⊎ (t.allow_unpinned_ak ≡ true)
  pub roots_load :
      (is_empty t.trusted_ek_root_paths ≡ true) ⊎ (is_ok (trusted_ek_roots_der w t) ≡ true)

abbrev pub HasPolicy : World → AttestationConfig → Type 0
HasPolicy w att = (t : TpmConfig) × (att.tpm ≡ some t) × IsEnforceable w t

module _ (w : World) where
  validate_tpm_sound :
      (att : AttestationConfig) (t : TpmConfig)
      → validate_tpm w att (some t) ≡ ok tt
      → IsEnforceable w t
  unfolding validate_tpm
  validate_tpm_sound att t h = record {
    has_pcrs = ground arith;
    trusts = ground arith;
    roots_load = ground arith;
  }

  validate_tpm_complete :
      (att : AttestationConfig) (t : TpmConfig)
      → IsEnforceable w t
      → validate_tpm w att (some t) ≡ ok tt
  unfolding validate_tpm
  validate_tpm_complete att t h = ground arith

  policy_sound :
      (att : AttestationConfig) (o : Option TpmConfig)
      → validate_tpm w att o ≡ ok tt
      → (t : TpmConfig) × (o ≡ some t) × IsEnforceable w t
  unfolding validate_tpm
  policy_sound att none h = cc
  policy_sound att (some t) h = (t, refl, validate_tpm_sound att t h)

  policy_complete : (att : AttestationConfig) → HasPolicy w att → validate_tpm w att att.tpm ≡ ok tt
  policy_complete att (t, e, h) =
      subst (λ o. validate_tpm w att o ≡ ok tt) (sym e) (validate_tpm_complete att t h)

  -- The cross-field check passes exactly where no TPM is used or its policy can be enforced.
  pub validate-HasPolicy_iff :
      (c : Config)
      → (validate w c ≡ ok tt)
        ↔ ((uses_tpm c.static.attestation ≡ false) ⊎ HasPolicy w c.static.attestation)
  unfolding validate
  validate-HasPolicy_iff c = elim (Bool-cases (uses_tpm c.static.attestation)) [
    | inl u ↦ (
      λ h. inr (policy_sound c.static.attestation c.static.attestation.tpm (rw u at h)),
      λ s. elim s [ inl n ↦ absurd (cc) | inr p ↦ rw u (policy_complete c.static.attestation p) ],
    )
    | inr n ↦ (λ h. inl n, λ s. rw n)
  ]

  -- A configuration that was loaded is the merge of the file at the resolved path, the environment
  -- and the command line, and its policy can be enforced if it uses a TPM.
  pub load_sound :
      (cli : PartialStatic) (explicit : Option Str) (c : Config)
      → load w cli explicit ≡ ok c
      → (file : PartialStatic × List Route) × (env : PartialStatic) × (read_file w
            (config_path w explicit)
          ≡ ok file)
        × (read_env w ≡ ok env)
        × (c.static ≡ merged file.0 env cli)
        × (c.file_routes ≡ file.1)
        × ((uses_tpm c.static.attestation ≡ false) ⊎ HasPolicy w c.static.attestation)
  unfolding load
  load_sound cli explicit c h =
      let (file, read, h₁) = >>=-eq-ok (read_file w (config_path w explicit)) _ h in
      let (env, vars, h₂) = >>=-eq-ok (read_env w) _ h₁ in
      let (_, valid, h₃) = >>=-eq-ok (validate w (resolve_layers file env cli)) _ h₂ in
      let same : resolve_layers file env cli ≡ c = cc in
      let (settings, routes) = resolve_layers-merged file.0 env cli file.1 in
      (
        file,
        env,
        read,
        vars,
        rw (← same) settings,
        rw (← same) routes,
        rw (← same) ((validate-HasPolicy_iff (resolve_layers file env cli)).0 valid),
      )
