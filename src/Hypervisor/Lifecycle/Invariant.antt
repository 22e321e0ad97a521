-- ===== src/Hypervisor/Lifecycle/Invariant.antt =====
-- What holds in each phase of the plugin's life.
use svm_stuff.Base.{ℕ, ◌^◌, ◌<◌, sym, ◌≡◌, refl, ap, ◌∙◌, subst, true, false, Option, ◌∷◌}
use svm_stuff.Vmx.Shadow.Invariant.{IsValid}
use svm_stuff.Backend.{Platform, disable}
use svm_stuff.Backend.Bytes.{AllBytes, disable-AllBytes}
use svm_stuff.Backend.Power.{IsPlatform}
use svm_stuff.Backend.Off.{disable-SwitchedOff}
use svm_stuff.Emu.{Machine}
use svm_stuff.Emu.Decode.{Hde64s}
use svm_stuff.Emu.Launch.{WorldSwitch}
use svm_stuff.Emu.Trace.{IsSound, KeepsBytes, TrapsTo, here, trap, TrapsTo-IsSound}
use svm_stuff.Emu.Serve.{TrapsTo-KeepsVmcb}
use svm_stuff.Hypervisor.{
  Patcher, World, plugin_start, init, on_patcher_load, deinit, machine_of, with_machine,
}
use svm_stuff.Hypervisor.Patch.{Patched}
use svm_stuff.Hypervisor.Load.{Loaded, unsupported, failed, running, on_patcher_load-Loaded}
use svm_stuff.Hypervisor.Serve.{IsReady, IsServing, serving, load-AllBytes}
use svm_stuff.Hypervisor.Lifecycle.{
  Phase, off, up, down, unloaded, Reaches, boot, start, load_up, load_down, ud, unload, unload_down,
  IsOff, IsDown, IsUnloaded, Holds,
}

module _ (hw : Platform) (pt : Patcher) (hde64_disasm : ℕ → Hde64s) (switch : Option WorldSwitch)
    (k : KeepsBytes switch) (w0 : World) where
  abbrev Life : Phase → World → Type 0
  Life = Reaches hw pt hde64_disasm switch k w0

  ready-IsSound : (w : World) → IsReady w → IsSound (machine_of w)
  ready-IsSound w r = record { vmcs = r.vmcs; rax = r.rax; bytes = r.bytes }

  load_up-IsServing :
      (w : World)
      → IsPlatform hw
      → IsOff pt w0 w
      → ((on_patcher_load hw pt w).svm).enabled ≡ true
      → IsServing pt w0 (on_patcher_load hw pt w)
  load_up-IsServing w is h on =
      let s = serving hw is pt w h.ready on in
      record {
        hsave = s.hsave;
        vmcb = s.vmcb;
        enabled = s.enabled;
        svme_set = s.svme_set;
        held_hsave = s.held_hsave;
        held = s.held;
        live = s.live ∙ ap (λ ds. s.vmcb ∷ s.hsave ∷ ds) h.live;
        bound = s.bound;
        ne_zero = s.ne_zero;
        there = s.there;
        sound = s.sound;
        patched = subst (λ c. Patched pt c (on_patcher_load hw pt w).kernel) h.kernel s.patched;
      }

  IsDown-kept :
      (w w' : World)
      → IsOff pt w0 w
      → w'.kernel ≡ w.kernel
      → w'.vmx ≡ w.vmx
      → (w'.svm).enabled ≡ false
      → AllBytes (w'.sys).pages
      → IsDown pt w0 w'
  IsDown-kept w w' h c v gone b = record {
    sound = record {
      vmcs = subst (λ e. IsValid e.vmcs) (sym v) (h.ready).vmcs;
      rax = subst (λ e. e.guest_rax < 2 ^ 64) (sym v) (h.ready).rax;
      bytes = b;
    };
    enabled = gone;
    kernel = c ∙ h.kernel;
  }

  Loaded-IsDown :
      (w w' : World)
      → IsOff pt w0 w
      → Loaded hw pt w w'
      → (w'.svm).enabled ≡ false
      → AllBytes (w'.sys).pages
      → IsDown pt w0 w'
  Loaded-IsDown w w' h (unsupported n c v y e) gone b = IsDown-kept w w' h c v gone b
  Loaded-IsDown w w' h (failed s c v e) gone b = IsDown-kept w w' h c v gone b
  Loaded-IsDown w w' h (running i v s patched on d e z page same) gone b = let yes = e.0 in cc

  -- One trap keeps what holds in a phase.
  ud-Holds :
      (ph : Phase) (w : World) (m : Machine)
      → TrapsTo hde64_disasm switch k (machine_of w) m
      → Holds pt w0 ph w
      → Holds pt w0 ph (with_machine w m)
  ud-Holds off w m t h =
      let s = TrapsTo-IsSound hde64_disasm switch k t (ready-IsSound w h.ready) in
      record {
        ready = record {
          off = (h.ready).off;
          no_vmcb = (h.ready).no_vmcb;
          vmcs = s.vmcs;
          rax = s.rax;
          bytes = s.bytes;
        };
        kernel = h.kernel;
        live = h.live;
      }
  ud-Holds up w m t h =
      let kept = TrapsTo-KeepsVmcb hde64_disasm switch k t h.there in
      record {
        hsave = h.hsave;
        vmcb = h.vmcb;
        enabled = h.enabled;
        svme_set = h.svme_set;
        held_hsave = h.held_hsave;
        held = h.held;
        live = h.live;
        bound = kept.0 ∙ h.bound;
        ne_zero = h.ne_zero;
        there = kept.1;
        sound = TrapsTo-IsSound hde64_disasm switch k t h.sound;
        patched = h.patched;
      }
  ud-Holds down w m t h = record {
    sound = TrapsTo-IsSound hde64_disasm switch k t h.sound;
    enabled = h.enabled;
    kernel = h.kernel;
  }
  ud-Holds unloaded w m t h = record {
    sound = TrapsTo-IsSound hde64_disasm switch k t h.sound;
    svme_clear = h.svme_clear;
    no_save_area = h.no_save_area;
    live = h.live;
    patched = h.patched;
  }

  deinit-IsSound : (w : World) → IsSound (machine_of w) → IsSound (machine_of (deinit hw w))
  unfolding deinit
  deinit-IsSound w s = record {
    vmcs = s.vmcs;
    rax = s.rax;
    bytes = disable-AllBytes hw w.sys w.svm s.bytes;
  }

  deinit-IsUnloaded :
      (w : World) → IsPlatform hw → IsServing pt w0 w → IsUnloaded pt w0 (deinit hw w)
  unfolding deinit
  deinit-IsUnloaded w is h =
      let o =
        disable-SwitchedOff hw is w0.sys w.sys w.svm h.hsave h.vmcb h.enabled h.held_hsave h.held
          h.live in
      record {
        sound = deinit-IsSound w h.sound;
        svme_clear = o.svme_clear;
        no_save_area = o.no_save_area;
        live = o.live;
        patched = h.patched;
      }

  deinit-IsDown : (w : World) → IsDown pt w0 w → IsDown pt w0 (deinit hw w)
  unfolding deinit disable
  deinit-IsDown w h = record { sound = deinit-IsSound w h.sound; enabled = refl; kernel = h.kernel }

  -- From a world whose backend is off, with memory of bytes and a valid shadow VMCS, on hardware and
  -- with an allocator that do what their manuals say, with a world switch that leaves bytes in the
  -- VMCB: whatever order of registration, loading, traps with 64-bit registers and unloading the
  -- plugin goes through, the shadow VMCS stays valid and memory bytes. While SVM is on, SVME is set,
  -- the two pages are held and the emulator's VMCB is there, with the kernel patched; where it could
  -- not be switched on, the kernel is as it was; and after unloading SVME is clear, VM_HSAVE_PA 0,
  -- what is held is what was held at first, and the kernel is still patched.
  pub Reaches-Holds :
      IsPlatform hw → IsReady w0 → {ph : Phase} {w : World} → Life ph w → Holds pt w0 ph w
  unfolding plugin_start init
  Reaches-Holds is ready boot = record { ready = ready; kernel = refl; live = refl }
  Reaches-Holds is ready (start r) =
      let h = Reaches-Holds is ready r in
      record {
        ready = record {
          off = (h.ready).off;
          no_vmcb = (h.ready).no_vmcb;
          vmcs = (h.ready).vmcs;
          rax = (h.ready).rax;
          bytes = (h.ready).bytes;
        };
        kernel = h.kernel;
        live = h.live;
      }
  Reaches-Holds is ready (load_up {w} r reg on) =
      load_up-IsServing w is (Reaches-Holds is ready r) on
  Reaches-Holds is ready (load_down {w} r reg gone) =
      let h = Reaches-Holds is ready r in
      Loaded-IsDown w (on_patcher_load hw pt w) h
        (on_patcher_load-Loaded hw is pt w (h.ready).off (h.ready).no_vmcb) gone
        (load-AllBytes hw pt w (h.ready).bytes)
  Reaches-Holds is ready (ud {ph} {w} {m} st st' b r words e) =
      ud-Holds ph w m (trap st st' b words e here) (Reaches-Holds is ready r)
  Reaches-Holds is ready (unload {w} r) = deinit-IsUnloaded w is (Reaches-Holds is ready r)
  Reaches-Holds is ready (unload_down {w} r) = deinit-IsDown w (Reaches-Holds is ready r)
