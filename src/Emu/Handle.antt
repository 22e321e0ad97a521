-- ===== src/Emu/Handle.antt =====
-- `handleUD` of src/kern_vmx_emu.cpp: emulate the VMX instruction behind a #UD, or refuse it.
pub mod Cases
pub mod Laws
pub mod Fields
pub mod Launches
use svm_stuff.Base.{ℕ, ◌+◌, ◌-◌, ◌^◌, Bool, true, false, Option, none, some, bit_and, u64}
use svm_stuff.Vmx.Controls
use svm_stuff.Trap.{SavedState64, Slot, store}
use svm_stuff.Emu.{VmxEmulator, Machine, vmxon, vmxoff, vmptrld, vmclear, vmwrite, vmread}
use svm_stuff.Emu.Decode.{Hde64s, VmxDecoded, decode_vmx}
use svm_stuff.Emu.Launch.{WorldSwitch, vmlaunch_resume}

abbrev pub rflags_status_mask : ℕ
rflags_status_mask = 0x8D5

-- The result of the handler, the trap frame and the machine after it.
abbrev pub Handled : Type 0
Handled = Bool × SavedState64 × Machine

unfoldable pub advance : VmxDecoded → SavedState64 → SavedState64
advance d st = record st {
  isf = record (st.isf) {
    rip = u64 ((st.isf).rip + d.length);
    rflags = bit_and (st.isf).rflags (2 ^ 64 - 1 - rflags_status_mask);
  };
}

abbrev pub with_emu : Machine → VmxEmulator → Machine
with_emu m e = record m { emu = e }

-- `if (d.dstReg) *d.dstReg = v;`
abbrev pub store_result : Option Slot → ℕ → SavedState64 → SavedState64
store_result none v st = st
store_result (some slot) v st = store slot v st

-- The `switch` on the opcode; `none` is a fault in the launch, and the Boolean that of the source.
unfoldable pub dispatch :
    Option WorldSwitch → VmxDecoded → Controls.VmxOpcode → SavedState64 → Machine → Option Handled
dispatch switch d Controls.vmxon st m = some (true, st, with_emu m (vmxon m.emu))
dispatch switch d Controls.vmxoff st m = some (true, st, with_emu m (vmxoff m.emu))
dispatch switch d Controls.vmptrld st m = some (true, st, with_emu m (vmptrld m.emu))
dispatch switch d Controls.vmclear st m = some (true, st, with_emu m (vmclear m.emu))
dispatch switch d Controls.vmptrst st m = some (true, st, m)
dispatch switch d Controls.vmwrite st m =
    some (true, st, with_emu m (vmwrite d.field d.src_value m.emu).0)
dispatch switch d Controls.vmread st m =
    some (true, store_result d.dst_reg (vmread d.field m.emu) st, m)
dispatch switch d Controls.vmlaunch st m = elim (vmlaunch_resume switch m) [
  | none ↦ none
  | some (reason, m') ↦ some (true, st, m')
]
dispatch switch d Controls.vmresume st m = elim (vmlaunch_resume switch m) [
  | none ↦ none
  | some (reason, m') ↦ some (true, st, m')
]
dispatch switch d Controls.invept st m = some (true, st, m)
dispatch switch d Controls.invvpid st m = some (true, st, m)
dispatch switch d Controls.no_op st m = some (false, st, m)

-- The instruction is advanced past only where it was emulated.
abbrev pub complete : VmxDecoded → Handled → Handled
complete d (true, st, m) = (true, advance d st, m)
complete d (false, st, m) = (false, st, m)

unfoldable pub handle_ud :
    (ℕ → Hde64s) → Option WorldSwitch → SavedState64 → Machine → Option Handled
handle_ud hde64_disasm switch st m = elim (decode_vmx hde64_disasm st) [
  | none ↦ some (false, st, m)
  | some d ↦ elim (dispatch switch d d.op st m) [ none ↦ none | some r ↦ some (complete d r) ]
]
