-- ===== src/Config/Dump/Sources.antt =====
-- The source that a line of the dump shows, against the layers that set it.
use archetype_proxy_server.Prelude.{
  String, ◌≡◌, ap, Option, none, List, [], ◌∷◌, ◌++◌, All, All-imp, unwrap_or,
}
use archetype_proxy_server.Text.{Str, codes}
use archetype_proxy_server.Ordered.{get}
use archetype_proxy_server.Ordered.Keys.{str_ord}
use archetype_proxy_server.Config.Kinds.{Source, source_name, default}
use archetype_proxy_server.Config.Route.{Route}
use archetype_proxy_server.Config.Settings.{PartialStatic, Provenance}
use archetype_proxy_server.Config.Layers.{resolve_layers}
use archetype_proxy_server.Config.Layers.Recorded.{
  sources, entry, get-provenance, get-provenance_tpm,
}
use archetype_proxy_server.Config.Dump.{pad, shown_source, line}

-- A line with a given source.
abbrev pub line_from : Source → Str → Str → Str
line_from source field value =
    codes "  "
    ++ pad 28 field
    ++ codes " = "
    ++ pad 30 value
    ++ codes " ["
    ++ source_name source
    ++ codes "]\n"

line_of_get :
    (p : Provenance) (field value : Str) {o : Option Source}
    → get field p ≡ o
    → line p (field, value) ≡ line_from (unwrap_or o default) field value
unfolding line shown_source
line_of_get p field value e = ap (λ o. line_from (unwrap_or o default) field value) e

-- In the dump of a merged configuration, the line of a setting shows the highest layer that set
-- it, as it was recorded, and `default` where none is recorded.
pub line-resolve_layers :
    (file env cli : PartialStatic) (routes : List Route) (field value : Str)
    → line (resolve_layers (file, routes) env cli).provenance (field, value)
      ≡ line_from (unwrap_or (entry field (sources file env cli)) default) field value
line-resolve_layers file env cli routes field value =
    line_of_get (resolve_layers (file, routes) env cli).provenance field value
      (get-provenance file env cli routes field)

-- The four TPM lines of the dump show `default` whatever the layers set, also where one of them
-- set the policy whose parts these lines print.
pub line-tpm_default :
    (file env cli : PartialStatic) (routes : List Route) (value : Str)
    → All
        (λ (field : String).
          line (resolve_layers (file, routes) env cli).provenance (codes field, value)
          ≡ line_from default (codes field) value)
        ("attestation.tpm.expected_pcrs" ∷ "attestation.tpm.pinned_ak"
          ∷ "attestation.tpm.trusted_ek_roots" ∷ "attestation.tpm.allow_unpinned_ak" ∷ [])
line-tpm_default file env cli routes value =
    let p : Provenance = (resolve_layers (file, routes) env cli).provenance in
    All-imp {P = λ (field : String). get (codes field) p ≡ none}
      {Q = λ (field : String). line p (codes field, value) ≡ line_from default (codes field) value}
      (λ field e. line_of_get p (codes field) value {o = none} e)
      ("attestation.tpm.expected_pcrs" ∷ "attestation.tpm.pinned_ak"
        ∷ "attestation.tpm.trusted_ek_roots" ∷ "attestation.tpm.allow_unpinned_ak" ∷ [])
      (get-provenance_tpm file env cli routes)
