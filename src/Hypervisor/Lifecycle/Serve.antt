-- ===== src/Hypervisor/Lifecycle/Serve.antt =====
-- Traps while SVM is on, and after unloading.
use svm_stuff.Base.{ℕ, ◌≡◌, Bool, Option, none, some}
use svm_stuff.Trap.{SavedState64}
use svm_stuff.Backend.{Platform}
use svm_stuff.Backend.Power.{IsPlatform}
use svm_stuff.Backend.Off.{disable-SwitchedOff}
use svm_stuff.Emu.{Machine}
use svm_stuff.Emu.Decode.{Hde64s}
use svm_stuff.Emu.Launch.{WorldSwitch}
use svm_stuff.Emu.Handle.{handle_ud}
use svm_stuff.Emu.Trace.{HasWords, KeepsBytes}
use svm_stuff.Hypervisor.{Patcher, World, deinit, machine_of, with_machine}
use svm_stuff.Hypervisor.Serve.{IsReady}
use svm_stuff.Vmx.Controls
use svm_stuff.Emu.Decode.Classify.{IsVmx}
use svm_stuff.Emu.Serve.{handle_ud-IsBound, handle_ud_dangling}
use svm_stuff.Hypervisor.Lifecycle.{Phase, up, Reaches, ud}
use svm_stuff.Hypervisor.Lifecycle.Invariant.{Reaches-Holds}

module _ (hw : Platform) (pt : Patcher) (hde64_disasm : ℕ → Hde64s) (switch : Option WorldSwitch)
    (k : KeepsBytes switch) (w0 : World) where
  abbrev Life : Phase → World → Type 0
  Life = Reaches hw pt hde64_disasm switch k w0

  -- On hardware and with an allocator that do what their manuals say, with a world switch that
  -- leaves bytes in the VMCB, and from a world whose backend was off: in any world reached with SVM
  -- on, a trap with 64-bit registers is handled to its end, and the plugin is in such a world again.
  pub Reaches-Serves :
      {w : World} (st : SavedState64)
      → IsPlatform hw
      → IsReady w0
      → Life up w
      → HasWords st
      → (b : Bool) × (st' : SavedState64) × (m : Machine) × (handle_ud hde64_disasm switch st
            (machine_of w)
          ≡ some (b, st', m))
        × Life up (with_machine w m)
  Reaches-Serves {w} st is ready r words =
      let h = Reaches-Holds hw pt hde64_disasm switch k w0 is ready r in
      let (b, st', m, e, kept) = handle_ud-IsBound hde64_disasm switch st (machine_of w) h.there in
      (b, st', m, e, ud st st' b r words e)

  -- On hardware and with an allocator that do what their manuals say, with a world switch that
  -- leaves bytes in the VMCB, and from a world whose backend was off: after unloading from any world
  -- reached with SVM on, a trap of VMLAUNCH faults. The emulator still has the address of the VMCB,
  -- whose page is gone.
  pub Reaches-deinit_dangling :
      {w : World} (st : SavedState64)
      → IsPlatform hw
      → IsReady w0
      → Life up w
      → IsVmx (hde64_disasm (st.isf).rip) Controls.vmlaunch
      → handle_ud hde64_disasm switch st (machine_of (deinit hw w)) ≡ none
  unfolding deinit
  Reaches-deinit_dangling {w} st is ready r launch =
      let h = Reaches-Holds hw pt hde64_disasm switch k w0 is ready r in
      let o =
        disable-SwitchedOff hw is w0.sys w.sys w.svm h.hsave h.vmcb h.enabled h.held_hsave h.held
          h.live in
      handle_ud_dangling hde64_disasm switch st (machine_of (deinit hw w)) launch
        (rw h.bound h.ne_zero) (rw h.bound o.vmcb_gone)
