-- ===== src/Hypervisor/Load.antt =====
-- `onPatcherLoad` of src/kern_hv_amd.cpp as a whole.
use svm_stuff.Base.{
  ◌≡◌, ◌≢◌, refl, ◌∙◌, arith, Bool, true, false, not, none, some, ◌∷◌, if◌then◌else◌, Bool-cases,
  inl, inr,
}
use svm_stuff.Backend.{Descriptor, Platform, System, SvmBackend, detect, enable, first_vmcb}
use svm_stuff.Backend.Laws.{Supported, detect_iff}
use svm_stuff.Backend.Power.{
  IsPlatform, Enabled, on, no_hsave, not_stuck, no_vmcb, svme, enable-Enabled,
}
use svm_stuff.Emu.{bind}
use svm_stuff.Hypervisor.{Patcher, World, on_patcher_load, patch_kernel}
use svm_stuff.Hypervisor.Patch.{Patched, patch_kernel-Patched}

-- How loading ends, from the world `w`.
pub data Loaded (hw : Platform) (pt : Patcher) (w : World) : World → Type 0 where
  -- The processor has no SVM that can be used: nothing is patched, written or allocated.
  unsupported :
      {w' : World}
      → ¬ Supported hw w.sys
      → w'.kernel ≡ w.kernel
      → w'.vmx ≡ w.vmx
      → w'.sys ≡ w.sys
      → (w'.svm).enabled ≡ false
      → Loaded hw pt w w'
  -- SVM could not be switched on: nothing is patched, and the emulator is not bound.
  failed :
      {w' : World}
      → Supported hw w.sys
      → w'.kernel ≡ w.kernel
      → w'.vmx ≡ w.vmx
      → (w'.svm).enabled ≡ false
      → Loaded hw pt w w'
  -- The emulator has the VMCB that was set up.
  running :
      {w' : World} (h v : Descriptor)
      → Supported hw w.sys
      → Patched pt w.kernel w'.kernel
      → svme w'.sys ≡ 1
      → ((w'.svm).hsave_desc ≡ some h) × ((w'.sys).live ≡ v ∷ h ∷ (w.sys).live)
      → ((w'.svm).enabled ≡ true)
        × ((w'.svm).vmcb_desc ≡ some v)
        × ((w'.svm).vmcb ≡ v.va)
        × ((w'.svm).vmcb_pa ≡ v.pa)
      → v.va ≢ 0
      → (w'.sys).pages v.va ≡ some (first_vmcb (λ a. 0))
      → w'.vmx ≡ bind v.va v.pa (w'.svm).svm_features w.vmx
      → Loaded hw pt w w'

-- What `detect` leaves alone.
detect-kept :
    (hw : Platform) (y : System) (k : SvmBackend)
    → ((detect hw y k).0.enabled ≡ k.enabled) × ((detect hw y k).0.vmcb_desc ≡ k.vmcb_desc)
unfolding detect
detect-kept hw y k = (ground arith, ground arith)

module _ (hw : Platform) (is : IsPlatform hw) (pt : Patcher) (w : World) where
  abbrev loaded_end : System × SvmBackend × Bool → World
  loaded_end (sys, svm, up) = if not up then record w { sys = sys; svm = svm } else record w {
    sys = sys;
    svm = svm;
    kernel = patch_kernel pt w.kernel;
    vmx = bind svm.vmcb svm.vmcb_pa svm.svm_features w.vmx;
  }

  enabled_end :
      (k : SvmBackend)
      → Supported hw w.sys
      → k.enabled ≡ false
      → (r : System × SvmBackend × Bool) → Enabled hw w.sys k r
      → Loaded hw pt w (loaded_end r)
  enabled_end k s off r (on h v sv ps l g z (e, eh, ev, eb, ea, ep) told) =
      running h v s (patch_kernel-Patched pt w.kernel) sv (eh, l) (e, ev, eb, ea) z g
        (rw (eb, ea) refl)
  enabled_end k s off r (no_hsave l m told) = failed s refl refl off
  enabled_end k s off r (not_stuck h sv l (e, eh) told) = failed s refl refl e
  enabled_end k s off r (no_vmcb h sv p l g (e, ev, eh) told) = failed s refl refl e

  pub on_patcher_load-Loaded :
      (w.svm).enabled ≡ false → (w.svm).vmcb_desc ≡ none → Loaded hw pt w (on_patcher_load hw pt w)
  unfolding on_patcher_load
  on_patcher_load-Loaded off unset = elim (Bool-cases (detect hw w.sys w.svm).1) [
    | inr absent ↦
        rw absent (unsupported (λ s. absent_supported absent s) refl refl refl (kept.0 ∙ off))
    | inl found ↦ rw found (
        enabled_end found_svm ((detect_iff hw w.sys w.svm).0 found) (kept.0 ∙ off)
          (enable hw w.sys found_svm)
          (enable-Enabled hw is w.sys found_svm (kept.0 ∙ off) (kept.1 ∙ unset)))
  ]
    where
      absent_supported : (detect hw w.sys w.svm).1 ≡ false → ¬ Supported hw w.sys
      absent_supported absent s = let found = (detect_iff hw w.sys w.svm).1 s in cc

      found_svm : SvmBackend
      found_svm = (detect hw w.sys w.svm).0

      kept : (found_svm.enabled ≡ (w.svm).enabled) × (found_svm.vmcb_desc ≡ (w.svm).vmcb_desc)
      kept = detect-kept hw w.sys w.svm
