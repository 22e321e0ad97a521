-- ===== src/Examples/Plugin.antt =====
-- The plugin's declarations with the settings of the Makefile.
use svm_stuff.Base.{◌≡◌, refl}
use svm_stuff.Hypervisor.{World, plugin_start}
use svm_stuff.Plugin.{Build, Lilu, config, kmod_info, realmain, antimain}

abbrev makefile : Build
makefile = record {
  product_name = "AMDV";
  bundle_id = "org.hackintosh.AMDV";
  module_version = "0.1.0";
}

start_symbol : realmain makefile ≡ "AMDV_kern_start"
start_symbol = refl

stop_symbol : antimain makefile ≡ "AMDV_kern_stop"
stop_symbol = refl

name_of_kext : (kmod_info makefile).name ≡ "org.hackintosh.AMDV"
unfolding kmod_info
name_of_kext = refl

starts : (lilu : Lilu) (w : World) → (config lilu makefile).on_start w ≡ plugin_start w
unfolding config
starts lilu w = refl
