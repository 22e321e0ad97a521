-- ===== src/Hypervisor/Lifecycle.antt =====
-- The life of the object of src/kern_hv_amd.cpp as a state machine: registration, loading, traps and
-- unloading, in any order that the plugin allows.
pub mod Invariant
pub mod Serve
pub mod Unset
use svm_stuff.Base.{
  ℕ, ◌^◌, ◌<◌, sym, ◌≡◌, refl, ap, ◌∙◌, subst, Bool, true, false, Option, none, some, List, ◌∷◌,
}
use svm_stuff.Vmcb.Constants.{msr_vm_hsave_pa}
use svm_stuff.Vmx.Shadow.Invariant.{IsValid}
use svm_stuff.Trap.{SavedState64}
use svm_stuff.Backend.{Platform, disable}
use svm_stuff.Backend.Bytes.{AllBytes, disable-AllBytes}
use svm_stuff.Backend.Power.{IsPlatform, svme}
use svm_stuff.Backend.Off.{SwitchedOff, disable-SwitchedOff}
use svm_stuff.Emu.{Machine}
use svm_stuff.Emu.Decode.{Hde64s}
use svm_stuff.Emu.Launch.{WorldSwitch}
use svm_stuff.Emu.Handle.{handle_ud}
use svm_stuff.Emu.Trace.{IsSound, HasWords, KeepsBytes, TrapsTo, here, trap, TrapsTo-IsSound}
use svm_stuff.Emu.Serve.{KeepsVmcb, TrapsTo-KeepsVmcb}
use svm_stuff.Hypervisor.{
  Patcher, World, plugin_start, init, on_patcher_load, deinit, machine_of, with_machine,
}
use svm_stuff.Hypervisor.Patch.{Patched}
use svm_stuff.Hypervisor.Load.{Loaded, unsupported, failed, running, on_patcher_load-Loaded}
use svm_stuff.Hypervisor.Serve.{IsReady, IsServing, serving, load-AllBytes}

-- Not loaded, loaded with SVM on, loaded with nothing patched, and unloaded after SVM was on.
pub data Phase : Type 0 where
  off up down unloaded : Phase

module _ (hw : Platform) (pt : Patcher) (hde64_disasm : ℕ → Hde64s) (switch : Option WorldSwitch)
    (k : KeepsBytes switch) (w0 : World) where
  -- The worlds that the plugin comes to from `w0`. Lilu calls back once, after the registration.
  pub data Reaches : Phase → World → Type 0 where
    boot : Reaches off w0
    start : {w : World} → Reaches off w → Reaches off (plugin_start w)
    load_up :
        {w : World}
        → Reaches off w
        → w.registered ≡ true
        → ((on_patcher_load hw pt w).svm).enabled ≡ true
        → Reaches up (on_patcher_load hw pt w)
    load_down :
        {w : World}
        → Reaches off w
        → w.registered ≡ true
        → ((on_patcher_load hw pt w).svm).enabled ≡ false
        → Reaches down (on_patcher_load hw pt w)
    ud :
        {ph : Phase} {w : World} {m : Machine} (st st' : SavedState64) (b : Bool)
        → Reaches ph w
        → HasWords st
        → handle_ud hde64_disasm switch st (machine_of w) ≡ some (b, st', m)
        → Reaches ph (with_machine w m)
    unload : {w : World} → Reaches up w → Reaches unloaded (deinit hw w)
    unload_down : {w : World} → Reaches down w → Reaches down (deinit hw w)

module _ (pt : Patcher) (w0 : World) where
  pub record IsOff (w : World) : Type 0 where
    pub ready : IsReady w
    pub kernel : w.kernel ≡ w0.kernel
    pub live : (w.sys).live ≡ (w0.sys).live

  pub record IsDown (w : World) : Type 0 where
    pub sound : IsSound (machine_of w)
    pub enabled : (w.svm).enabled ≡ false
    pub kernel : w.kernel ≡ w0.kernel

  pub record IsUnloaded (w : World) : Type 0 where
    pub sound : IsSound (machine_of w)
    pub svme_clear : svme w.sys ≡ 0
    pub no_save_area : (w.sys).msr msr_vm_hsave_pa ≡ 0
    pub live : (w.sys).live ≡ (w0.sys).live
    pub patched : Patched pt w0.kernel w.kernel

  -- What holds in a phase.
  abbrev pub Holds : Phase → World → Type 0
  Holds off = IsOff
  Holds up = IsServing pt w0
  Holds down = IsDown
  Holds unloaded = IsUnloaded
