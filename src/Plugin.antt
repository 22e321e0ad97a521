-- ===== src/Plugin.antt =====
-- The plugin's declarations: the configuration for Lilu in src/kern_start.cpp, and the kmod_info
-- structure with its bindings in src/kmod_info.c. Macros are functions of the build's settings; a
-- function that is only named is its symbol. `Lilu` holds what Lilu's headers define.
use Prim.Native.String.{String, ◌++◌}
use svm_stuff.Base.{ℕ, List, [], ◌∷◌, bit_or}
use svm_stuff.Hypervisor.{World, plugin_start}

-- PRODUCT_NAME, BUNDLE_ID and MODULE_VERSION, which the build defines.
pub record Build : Type 0 where
  pub product_name : String
  pub bundle_id : String
  pub module_version : String

pub record Lilu : Type 0 where
  pub parse_module_version : String → ℕ
  pub allow_normal : ℕ
  pub allow_installer_recovery : ℕ
  pub big_sur : ℕ

abbrev pub bootarg_off : List String
bootarg_off = "-amdvoff" ∷ []

abbrev pub bootarg_debug : List String
bootarg_debug = "-amdvdbg" ∷ []

abbrev pub bootarg_beta : List String
bootarg_beta = "-amdvbeta" ∷ []

pub record PluginConfiguration : Type 0 where
  pub product : String
  pub version : ℕ
  pub run_mode : ℕ
  pub disable_args : List String
  pub debug_args : List String
  pub beta_args : List String
  pub min_kernel : ℕ
  pub max_kernel : ℕ
  pub on_start : World → World

unfoldable pub config : Lilu → Build → PluginConfiguration
config lilu b = record {
  product = b.product_name;
  version = lilu.parse_module_version b.module_version;
  run_mode = bit_or lilu.allow_normal lilu.allow_installer_recovery;
  disable_args = bootarg_off;
  debug_args = bootarg_debug;
  beta_args = bootarg_beta;
  min_kernel = lilu.big_sur;
  max_kernel = lilu.big_sur;
  on_start = plugin_start;
}

-- `a ## _ ## b`
abbrev pub addpr_cat : String → String → String
addpr_cat a b = a ++ "_" ++ b

abbrev pub addpr_sym : Build → String → String
addpr_sym b sym = addpr_cat b.product_name sym

-- What KMOD_EXPLICIT_DECL is given for its structure.
pub record KmodInfo : Type 0 where
  pub name : String
  pub version : String
  pub start : String
  pub stop : String

unfoldable pub kmod_info : Build → KmodInfo
kmod_info b = record {
  name = b.bundle_id;
  version = b.module_version;
  start = "_start";
  stop = "_stop";
}

abbrev pub realmain : Build → String
realmain b = addpr_sym b "kern_start"

abbrev pub antimain : Build → String
antimain b = addpr_sym b "kern_stop"
