-- ===== src/Emu/Handle/Launches.antt =====
-- VMLAUNCH and VMRESUME through the #UD handler of src/kern_vmx_emu.cpp, and the registers of the trap.
use svm_stuff.Base.{
  ℕ, ◌+◌, ◌≡◌, refl, ap, true, Option, none, some, ◌==◌, Bool-cases, inl, inr, u8, u64,
}
use svm_stuff.Vmcb.Page.{Page}
use svm_stuff.Vmx.Controls
use svm_stuff.Vmx.Controls.{unknown, reason_code}
use svm_stuff.Trap.{SavedState64, Slot, load}
use svm_stuff.Emu.{Machine}
use svm_stuff.Emu.Decode.{Hde64s, operands}
use svm_stuff.Emu.Decode.Classify.{IsVmx, decode_vmx-operands}
use svm_stuff.Emu.Launch.{WorldSwitch, run_guest, vmlaunch_resume}
use svm_stuff.Emu.Handle.{advance, dispatch, handle_ud}
use svm_stuff.Emu.Handle.Fields.{step_length, handle-decoded, load-advance}

pub data IsLaunch : Controls.VmxOpcode → Type 0 where
  for_vmlaunch : IsLaunch Controls.vmlaunch
  for_vmresume : IsLaunch Controls.vmresume

-- A launch returns if the VMCB that is bound is allocated.
vmlaunch_resume-returns :
    (switch : Option WorldSwitch) (m : Machine) (p : Page)
    → m.pages (m.emu).vmcb ≡ some p
    → (reason : ℕ) × (m' : Machine) × (vmlaunch_resume switch m ≡ some (reason, m'))
unfolding vmlaunch_resume
vmlaunch_resume-returns switch m p here = elim (Bool-cases ((m.emu).vmcb == 0)) [
  | inl off ↦ (reason_code unknown, m, rw off refl)
  | inr on ↦ ((run_guest switch m p).0, (run_guest switch m p).1, rw (on, here) refl)
]

module _ (hde64_disasm : ℕ → Hde64s) (switch : Option WorldSwitch) where
  -- A trap of a launch is the launch.
  pub handle-launch :
      {op : Controls.VmxOpcode} (st : SavedState64) (m m' : Machine) (reason : ℕ)
      → IsLaunch op
      → IsVmx (hde64_disasm (st.isf).rip) op
      → vmlaunch_resume switch m ≡ some (reason, m')
      → handle_ud hde64_disasm switch st m
        ≡ some (true, advance (step_length hde64_disasm op st) st, m')
  unfolding dispatch operands
  handle-launch st m m' reason for_vmlaunch is e =
      handle-decoded hde64_disasm switch st m (step_length hde64_disasm Controls.vmlaunch st) _
        (decode_vmx-operands hde64_disasm st Controls.vmlaunch is)
        (ap (λ o. elim o [ none ↦ none | some r ↦ some (true, st, r.1) ]) e)
  handle-launch st m m' reason for_vmresume is e =
      handle-decoded hde64_disasm switch st m (step_length hde64_disasm Controls.vmresume st) _
        (decode_vmx-operands hde64_disasm st Controls.vmresume is)
        (ap (λ o. elim o [ none ↦ none | some r ↦ some (true, st, r.1) ]) e)

  -- The trap frame `st` after its trap.
  pub record OwnRegisters (st frame : SavedState64) : Type 0 where
    pub registers : (a : Slot) → load a frame ≡ load a st
    pub rip : (frame.isf).rip ≡ u64 ((st.isf).rip + u8 (hde64_disasm (st.isf).rip).len)

  -- Launches of one machine at two traps.
  pub record LaunchesAlike (m : Machine) (st st' : SavedState64) : Type 0 where
    pub after : Machine
    pub frame : SavedState64
    pub frame' : SavedState64
    pub first : handle_ud hde64_disasm switch st m ≡ some (true, frame, after)
    pub second : handle_ud hde64_disasm switch st' m ≡ some (true, frame', after)
    pub own : OwnRegisters st frame
    pub own' : OwnRegisters st' frame'

  advance-OwnRegisters :
      (op : Controls.VmxOpcode) (st : SavedState64)
      → OwnRegisters st (advance (step_length hde64_disasm op st) st)
  unfolding advance
  advance-OwnRegisters op st = record {
    registers = λ a. load-advance a (step_length hde64_disasm op st) st;
    rip = refl;
  }

  -- If the VMCB bound is allocated: traps of VMLAUNCH or VMRESUME with any registers and at any two
  -- places lead to the very same machine, so no register of the trap reaches the guest. After either, the
  -- frame has the registers of its own trap, none of the guest's, and RIP is behind the instruction,
  -- whatever host state the shadow VMCS holds.
  pub handle_ud-LaunchesAlike :
      {op op' : Controls.VmxOpcode} (m : Machine) (p : Page) (st st' : SavedState64)
      → m.pages (m.emu).vmcb ≡ some p
      → IsLaunch op
      → IsLaunch op'
      → IsVmx (hde64_disasm (st.isf).rip) op
      → IsVmx (hde64_disasm (st'.isf).rip) op'
      → LaunchesAlike m st st'
  handle_ud-LaunchesAlike {op} {op'} m p st st' here l l' is is' =
      let (reason, after, e) = vmlaunch_resume-returns switch m p here in
      record {
        after = after;
        frame = advance (step_length hde64_disasm op st) st;
        frame' = advance (step_length hde64_disasm op' st') st';
        first = handle-launch st m after reason l is e;
        second = handle-launch st' m after reason l' is' e;
        own = advance-OwnRegisters op st;
        own' = advance-OwnRegisters op' st';
      }
