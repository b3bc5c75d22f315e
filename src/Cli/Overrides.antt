-- ===== src/Cli/Overrides.antt =====
-- What the command line can and cannot change.
use archetype_proxy_server.Prelude.{
  ◌≡◌, refl, Bool, true, false, ◌||◌, Option, List, unwrap_or, or_option,
}
use archetype_proxy_server.Config.Settings.{PartialStatic}
use archetype_proxy_server.Config.Route.{Route}
use archetype_proxy_server.Config.Layers.{resolve_layers}
use archetype_proxy_server.Config.Layers.Precedence.{merged, resolve_layers-merged}
use archetype_proxy_server.Config.Load.{silent}
use archetype_proxy_server.Cli.{Args, overrides, enable_only}

enable :
    (flag : Bool) (lower : Option Bool)
    → unwrap_or (or_option (enable_only flag) lower) false ≡ (flag || unwrap_or lower false)
enable true lower = refl
enable false lower = refl

docker_of_merged :
    (file env : PartialStatic) (args : Args)
    → (merged file env (overrides args)).discovery.docker.enabled
      ≡ (args.docker || (merged file env silent).discovery.docker.enabled)
unfolding merged overrides
docker_of_merged file env args =
    enable args.docker (or_option env.docker_enabled file.docker_enabled)

kubernetes_of_merged :
    (file env : PartialStatic) (args : Args)
    → (merged file env (overrides args)).discovery.kubernetes.enabled
      ≡ (args.kubernetes || (merged file env silent).discovery.kubernetes.enabled)
unfolding merged overrides
kubernetes_of_merged file env args =
    enable args.kubernetes (or_option env.kubernetes_enabled file.kubernetes_enabled)

attestation_of_merged :
    (file env : PartialStatic) (args : Args)
    → (merged file env (overrides args)).attestation ≡ (merged file env silent).attestation
unfolding merged overrides
attestation_of_merged file env args = refl

-- The flags of the command line switch discovery on and never off, and no argument of it changes
-- the attestation settings.
pub resolve_layers-overrides :
    (file env : PartialStatic) (routes : List Route) (args : Args)
    → let with_args = (resolve_layers (file, routes) env (overrides args)).static in
      let without = (resolve_layers (file, routes) env silent).static in
      (with_args.discovery.docker.enabled ≡ (args.docker || without.discovery.docker.enabled))
      × (with_args.discovery.kubernetes.enabled
          ≡ (args.kubernetes || without.discovery.kubernetes.enabled))
      × (with_args.attestation ≡ without.attestation)
resolve_layers-overrides file env routes args =
    let (this, _) = resolve_layers-merged file env (overrides args) routes in
    let (that, _) = resolve_layers-merged file env silent routes in
    rw (this, that)
      (
        docker_of_merged file env args,
        kubernetes_of_merged file env args,
        attestation_of_merged file env args,
      )
