-- ===== src/Registry/Lookup.antt =====
-- resolve and get of PluginRegistry in core/registry/src/openroad_platform_registry/registry.py.
use chip_evolve.Base.{
  Bool, true, false, ◌&&◌, not, Option, none, some, List, [], ◌∷◌, String, str_eq, select,
}
use chip_evolve.Contracts.Task.{has_text}
use chip_evolve.Contracts.Plugin.{PluginManifest}
use chip_evolve.Registry.Records.{
  RegisteredPlugin, unknown_plugin, several_versions, not_admitted, lacks_capability, lacks_arch,
  not_one, Answer, granted, refused, ◌>>=◌, ◌>>◌, ensure, is_admitted,
}

abbrev pub is_version : Option String → RegisteredPlugin → Bool
is_version none p = true
is_version (some version) p = str_eq p.manifest.plugin_version version

abbrev pub is_match : String → Option String → RegisteredPlugin → Bool
is_match plugin_id version p = str_eq p.manifest.plugin_id plugin_id && is_version version p

-- `wanted and wanted not in offered`
abbrev pub lacks : Option String → List String → Bool
lacks none offered = false
lacks (some wanted) offered = not (str_eq wanted "") && not (has_text offered wanted)

abbrev pub the_match : List RegisteredPlugin → Answer RegisteredPlugin
the_match [] = refused unknown_plugin
the_match (p ∷ []) = granted p
the_match (p ∷ q ∷ rest) = refused several_versions

-- resolve
unfoldable pub resolve :
    String
    → Option String
    → Option String
    → Option String
    → Bool
    → List RegisteredPlugin
    → Answer PluginManifest
resolve plugin_id version capability arch require_admitted plugins = do
  p ← the_match (select (is_match plugin_id version) plugins)
  ensure (not (require_admitted && not (is_admitted p.admission))) not_admitted
  ensure (not (lacks capability p.manifest.capabilities)) lacks_capability
  ensure (not (lacks arch p.manifest.supported_arch)) lacks_arch
  granted p.manifest

abbrev the_only : List RegisteredPlugin → Answer RegisteredPlugin
the_only (p ∷ []) = granted p
the_only _ = refused not_one

-- get
unfoldable pub get : String → List RegisteredPlugin → Answer RegisteredPlugin
get plugin_id plugins = the_only (select (λ p. str_eq p.manifest.plugin_id plugin_id) plugins)
