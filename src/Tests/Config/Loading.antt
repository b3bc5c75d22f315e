-- ===== src/Tests/Config/Loading.antt =====
-- A run of `Config::load`, with no file and an empty environment.
use archetype_proxy_server.Prelude.{◌≡◌, ◌⊎◌, refl, false, none, List, ok}
use archetype_proxy_server.Config.Settings.{PartialStatic}
use archetype_proxy_server.Config.Route.{Route}
use archetype_proxy_server.Config.Layers.{resolve_layers, resolve}
use archetype_proxy_server.Config.Layers.Precedence.{merged}
use archetype_proxy_server.Config.Load.{
  silent, load, uses_tpm, read_file, read_env, config_path, validate,
}
use archetype_proxy_server.Config.Load.Policy.{load_sound, HasPolicy}
use archetype_proxy_server.Tests.Config.{bare, bare_config}

load_sound_example :
    (file : PartialStatic × List Route) × (env : PartialStatic) × (read_file bare
        (config_path bare none)
      ≡ ok file)
    × (read_env bare ≡ ok env)
    × (bare_config.static ≡ merged file.0 env silent)
    × (bare_config.file_routes ≡ file.1)
    × ((uses_tpm bare_config.static.attestation ≡ false)
        ⊎ HasPolicy bare bare_config.static.attestation)
unfolding load read_file read_env validate resolve_layers resolve
load_sound_example = load_sound bare silent none bare_config refl
