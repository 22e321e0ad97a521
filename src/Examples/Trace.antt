-- ===== src/Examples/Trace.antt =====
-- A trap of VMWRITE on a machine with a VMCB bound.
use svm_stuff.Base.{
  some-injective, none-ne-some, arith, true, none, ◌==◌, Bool-cases, inl, inr, subst,
}
use svm_stuff.Vmcb.Page.{IsBytes}
use svm_stuff.Trap.{Slot, load}
use svm_stuff.Emu.Handle.Fields.{after_vmwrite, step_length, handle-vmwrite}
use svm_stuff.Emu.Handle.{advance}
use svm_stuff.Vmx.Controls
use svm_stuff.Emu.Trace.{IsSound, HasWords, TrapsTo, here, trap, TrapsTo-IsSound}
use svm_stuff.Examples.Samples.{zero_page-IsBytes, sample-IsValid}
use svm_stuff.Examples.Emu.{bound, code, trap_at, vmwrite-Traps}

pub trap_at-HasWords : HasWords (trap_at 0x100)
unfolding load
trap_at-HasWords svm_stuff.Trap.rax = omega arith
trap_at-HasWords _ = omega arith

pub bound-IsSound : IsSound bound
bound-IsSound = record {
  vmcs = sample-IsValid;
  rax = omega arith;
  bytes = λ a p e. elim (Bool-cases (a == 0x4000)) [
    | inl same ↦ subst IsBytes (some-injective _ _ (rw same at e)) zero_page-IsBytes
    | inr off ↦ absurd (none-ne-some _ (rw off at e))
  ];
}

one_trap : TrapsTo code none tt bound (after_vmwrite code (trap_at 0x100) bound)
one_trap =
    trap (trap_at 0x100)
      (advance (step_length code Controls.vmwrite (trap_at 0x100)) (trap_at 0x100)) true
      trap_at-HasWords (handle-vmwrite code none (trap_at 0x100) bound vmwrite-Traps) here

TrapsTo-IsSound_example : IsSound (after_vmwrite code (trap_at 0x100) bound)
TrapsTo-IsSound_example = TrapsTo-IsSound code none tt one_trap bound-IsSound
