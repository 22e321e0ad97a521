-- ===== src/Hypervisor/Session.antt =====
-- The parts together: the plugin of src/kern_hv_amd.cpp with SVM on, the #UD handler, and the code of
-- src/svm_switch.S as the world switch.
use svm_stuff.Base.{ℕ, ◌^◌, ◌≤◌, ◌<◌, ◌≡◌, ◌≢◌, sym, subst, some, List}
use svm_stuff.Vmcb.Page.{Page}
use svm_stuff.Vmx.Controls
use svm_stuff.Vmx.Fields.{VmcsField, encoding}
use svm_stuff.Trap.{SavedState64}
use svm_stuff.Backend.{Platform}
use svm_stuff.Backend.Power.{IsPlatform}
use svm_stuff.Emu.{Machine}
use svm_stuff.Emu.Decode.{Hde64s}
use svm_stuff.Emu.Decode.Classify.{IsVmx}
use svm_stuff.Emu.Launch.{WorldSwitch}
use svm_stuff.Emu.Handle.Fields.{Traps, after_vmwrite, field_of, value_of}
use svm_stuff.Emu.Trace.{KeepsBytes}
use svm_stuff.Emu.Session.{Session, handle_ud-Session}
use svm_stuff.Switch.{Value}
use svm_stuff.Switch.Run.{Svm, Cpu, run, svm_world_switch}
use svm_stuff.Switch.Refine.{entered, calling, svm_world_switch-Returned}
use svm_stuff.Hypervisor.{Patcher, World, machine_of}
use svm_stuff.Hypervisor.Serve.{IsReady}
use svm_stuff.Hypervisor.Lifecycle.{up, Reaches}
use svm_stuff.Hypervisor.Lifecycle.Invariant.{Reaches-Holds}

-- The world switch that the assembly code is, on hardware that does `svm`.
abbrev pub by_code : Svm Page → WorldSwitch
by_code svm pa g p = entered svm pa g p

-- The call of the code with the page `given`, by a caller `c`.
pub record Called (svm : Svm Page) (c : Cpu Page) (m : Machine) (given : Page) (back : Value)
    (below : List Value) : Type 0 where
  pub after : Cpu Page
  pub runs :
      run svm svm_world_switch
        (calling (m.emu).vmcb_pa back below (record c { gprs = (m.emu).gprs; hw = given }))
      ≡ some after
  pub page : after.hw ≡ (by_code svm (m.emu).vmcb_pa (m.emu).gprs given).0
  pub gprs : after.gprs ≡ (by_code svm (m.emu).vmcb_pa (m.emu).gprs given).1
  pub ret_to : after.ret_to ≡ some back
  pub stack : after.stack ≡ below

code-Called :
    (svm : Svm Page) (c : Cpu Page) (m : Machine) (given : Page) (back : Value) (below : List Value)
    → Called svm c m given back below
code-Called svm c m given back below =
    let (after, e, r) =
      svm_world_switch-Returned svm (record c { gprs = (m.emu).gprs; hw = given }) (m.emu).vmcb_pa
        back below in
    record {
      after = after;
      runs = e;
      page = r.hw;
      gprs = r.gprs;
      ret_to = r.ret_to;
      stack = r.stack;
    }

module _ (hw : Platform) (pt : Patcher) (hde64_disasm : ℕ → Hde64s) (svm : Svm Page)
    (k : KeepsBytes (some (by_code svm))) (w0 : World) where
  pub record Serves (w : World) (c : Cpu Page) (back : Value) (below : List Value)
      (st1 st2 st3 : SavedState64) (f : VmcsField) : Type 0 where
    pub session : Session hde64_disasm (by_code svm) (machine_of w) st1 st2 st3 f
    pub called :
        Called svm c
          (after_vmwrite hde64_disasm st1 (machine_of w))
          ((session.observed).given)
          back
          below

  -- On hardware and with an allocator that do what their manuals say, with the code of the world
  -- switch on hardware that leaves bytes in the VMCB, and from a world whose backend was off: in any
  -- world reached with SVM on whose shadow VMCS has at most 213 fields, traps of a VMWRITE of a
  -- 64-bit value, of VMLAUNCH and of VMREAD are all emulated as `Session` tells. Called in between with the VMCB
  -- and the registers of that launch, the assembly code runs to its end, returns to its caller, and
  -- leaves in the VMCB and in the registers what the VMREAD then finds.
  pub Reaches-Session :
      {w : World} (c : Cpu Page) (back : Value) (below : List Value) (st1 st2 st3 : SavedState64)
      (f : VmcsField)
      → IsPlatform hw
      → IsReady w0
      → Reaches hw pt hde64_disasm (some (by_code svm)) k w0 up w
      → ((w.vmx).vmcs).count ≤ 213
      → value_of hde64_disasm st1 < 2 ^ 64
      → Traps hde64_disasm st1 Controls.vmwrite
      → IsVmx (hde64_disasm (st2.isf).rip) Controls.vmlaunch
      → Traps hde64_disasm st3 Controls.vmread
      → field_of hde64_disasm st3 ≡ encoding f
      → Serves w c back below st1 st2 st3 f
  Reaches-Session {w} c back below st1 st2 st3 f is ready r few small write launch read names =
      let h = Reaches-Holds hw pt hde64_disasm (some (by_code svm)) k w0 is ready r in
      let s =
        handle_ud-Session hde64_disasm (by_code svm) (machine_of w) st1 st2 st3 f (h.there).0
          (subst (λ a. a ≢ 0) (sym h.bound) h.ne_zero) (h.there).1 (h.sound).vmcs (h.sound).rax few
          small write launch read names in
      record {
        session = s;
        called =
            code-Called svm c (after_vmwrite hde64_disasm st1 (machine_of w)) (s.observed).given
              back below;
      }
