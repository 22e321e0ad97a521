-- ===== src/Hypervisor/Serve.antt =====
-- What a load that switches SVM on leaves: `onPatcherLoad` of src/kern_hv_amd.cpp.
use svm_stuff.Base.{
  ◌^◌, ◌<◌, ◌≡◌, ◌≢◌, sym, ap, ◌∙◌, subst, true, false, none, some, ◌∷◌, Bool-cases, inl, inr,
}
use svm_stuff.Vmx.Shadow.Invariant.{IsValid}
use svm_stuff.Backend.{Descriptor, Platform, detect, enable, first_vmcb}
use svm_stuff.Backend.Bytes.{AllBytes, enable-AllBytes}
use svm_stuff.Backend.Power.{IsPlatform, svme}
use svm_stuff.Emu.{bind}
use svm_stuff.Emu.Trace.{IsSound}
use svm_stuff.Emu.Serve.{IsBound}
use svm_stuff.Hypervisor.{Patcher, World, on_patcher_load, machine_of}
use svm_stuff.Hypervisor.Patch.{Patched}
use svm_stuff.Hypervisor.Load.{Loaded, unsupported, failed, running, on_patcher_load-Loaded}

-- The backend is off, the emulator as it should be, and memory consists of bytes.
pub record IsReady (w : World) : Type 0 where
  pub off : (w.svm).enabled ≡ false
  pub no_vmcb : (w.svm).vmcb_desc ≡ none
  pub vmcs : IsValid (w.vmx).vmcs
  pub rax : (w.vmx).guest_rax < 2 ^ 64
  pub bytes : AllBytes (w.sys).pages

pub load-AllBytes :
    (hw : Platform) (pt : Patcher) (w : World)
    → AllBytes (w.sys).pages
    → AllBytes ((on_patcher_load hw pt w).sys).pages
unfolding on_patcher_load
load-AllBytes hw pt w h = elim (Bool-cases (detect hw w.sys w.svm).1) [
  | inr absent ↦ rw absent h
  | inl found ↦ rw found (elim (Bool-cases (enable hw w.sys (detect hw w.sys w.svm).0).2) [
    | inl up ↦ rw up all
    | inr down ↦ rw down all
  ])
]
  where
    all : AllBytes (enable hw w.sys (detect hw w.sys w.svm).0).0.pages
    all = enable-AllBytes hw w.sys (detect hw w.sys w.svm).0 h

-- The emulator is bound to the VMCB of the backend, which is there, and the machine is sound.
pub record IsServing (pt : Patcher) (w w' : World) : Type 0 where
  pub hsave : Descriptor
  pub vmcb : Descriptor
  pub enabled : (w'.svm).enabled ≡ true
  pub svme_set : svme w'.sys ≡ 1
  pub held_hsave : (w'.svm).hsave_desc ≡ some hsave
  pub held : (w'.svm).vmcb_desc ≡ some vmcb
  pub live : (w'.sys).live ≡ vmcb ∷ hsave ∷ (w.sys).live
  pub bound : (w'.vmx).vmcb ≡ vmcb.va
  pub ne_zero : vmcb.va ≢ 0
  pub there : IsBound (machine_of w')
  pub sound : IsSound (machine_of w')
  pub patched : Patched pt w.kernel w'.kernel

-- A load that leaves the backend enabled leaves the emulator ready for traps.
Loaded-IsServing :
    (hw : Platform) (pt : Patcher) (w w' : World)
    → Loaded hw pt w w'
    → (w'.svm).enabled ≡ true
    → IsReady w
    → AllBytes (w'.sys).pages
    → IsServing pt w w'
unfolding bind
Loaded-IsServing hw pt w w' (unsupported n k v y off) up r b = cc
Loaded-IsServing hw pt w w' (failed s k v off) up r b = cc
Loaded-IsServing hw pt w w' (running h v s patched on (eh, l) (e, ev, eb, ea) z page same) up r b =
    record {
      hsave = h;
      vmcb = v;
      enabled = e;
      svme_set = on;
      held_hsave = eh;
      held = ev;
      live = l;
      bound = ap (λ e. e.vmcb) same;
      ne_zero = z;
      there = (first_vmcb (λ a. 0), ap (λ e. (w'.sys).pages e.vmcb) same ∙ page);
      sound = record {
        vmcs = subst (λ e. IsValid e.vmcs) (sym same) r.vmcs;
        rax = subst (λ e. e.guest_rax < 2 ^ 64) (sym same) r.rax;
        bytes = b;
      };
      patched = patched;
    }

module _ (hw : Platform) (is : IsPlatform hw) (pt : Patcher) (w : World) (ready : IsReady w)
    (up : ((on_patcher_load hw pt w).svm).enabled ≡ true) where
  pub serving : IsServing pt w (on_patcher_load hw pt w)
  serving =
      Loaded-IsServing hw pt w (on_patcher_load hw pt w)
        (on_patcher_load-Loaded hw is pt w ready.off ready.no_vmcb) up ready
        (load-AllBytes hw pt w ready.bytes)
