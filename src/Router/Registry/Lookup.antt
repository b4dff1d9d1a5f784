-- ===== src/Router/Registry/Lookup.antt =====
-- Registry.ByName on the registries that NewRegistry and NewRegistryFor build from the catalog.
use mathlib.Core.Option as Option
use veto.Router.Types.{ModelCapabilities}

module _ {F : Type 0} where
  -- A model of the built-in source.
  abbrev pub builtin : ModelCapabilities F → ModelCapabilities F
  builtin m = record m { source = "builtin" }
