-- ===== src/Examples/Session.antt =====
-- Hypervisors that write CR0 and RSP, launch or change to another VMCS, and read CR0 back.
use svm_stuff.Base.{◌≡◌, refl, arith, true, false, Option, some, List, [], ◌∷◌, inr, ◌^◌, ◌<◌, ◌≢◌}
use svm_stuff.Vmcb.Page.{vmcb_set64, set_bytes-Outside}
use svm_stuff.Vmx.Controls
use svm_stuff.Vmx.Fields.{VmcsField, encoding}
use svm_stuff.Trap.{SavedState64, load, amdv_gpr}
use svm_stuff.Emu.{Machine}
use svm_stuff.Emu.Decode.Classify
use svm_stuff.Emu.Decode.Classify.{IsVmx}
use svm_stuff.Emu.Launch.{WorldSwitch}
use svm_stuff.Emu.Decode.{classify, decode_vmx}
use svm_stuff.Vmx.Shadow.{write, fresh}
use svm_stuff.Vmx.Shadow.Writes.{run_writes}
use svm_stuff.Emu.Lasting.{may_change, ReadLater, vmread-converse}
use svm_stuff.Emu.Handle.{advance, handle_ud}
use svm_stuff.Emu.Handle.Fields.{Traps, field_of, value_of, after_vmwrite, step_length}
use svm_stuff.Emu.Talk.{Answer, Client, converse, seen_talk, converse-vmwrite_comm}
use svm_stuff.Entry.{translate_vmcs_to_vmcb}
use svm_stuff.Emu.Contents.{seen, seen_answer}
use svm_stuff.Emu.Spec.{abstract_trap, handle_ud-abstract_trap}
use svm_stuff.Emu.Handle.Launches.{LaunchesAlike, for_vmlaunch, handle_ud-LaunchesAlike}
use svm_stuff.Emu.Session.{Session, handle_ud-Session}
use svm_stuff.Emu.Confined.{StaysInPage, HasPage, Confined}
use svm_stuff.Emu.Confined.Traps.{converse-Confined}
use svm_stuff.Switch.Refine.{entered}
use svm_stuff.Examples.Samples.{zero_page, sample, sample-IsValid, sample_count}
use svm_stuff.Examples.Emu.{code, trap_at, bound, vmwrite-Traps, vmread-Traps}
use svm_stuff.Examples.Switch.{halting}

-- RAX names VMCS_GUEST_RSP.
abbrev rsp_trap : SavedState64
rsp_trap = record (trap_at 0x100) { rax = 0x681C }

rsp-Traps : Traps code rsp_trap Controls.vmwrite
rsp-Traps = record {
  is_vmx = record {
    length = λ e. omega arith;
    no_error = refl;
    two_byte = refl;
    encodes = Classify.vmwrite refl;
  };
  registers = refl;
}

pub vmlaunch-IsVmx : IsVmx (code 0x106) Controls.vmlaunch
vmlaunch-IsVmx = record {
  length = λ e. omega arith;
  no_error = refl;
  two_byte = refl;
  encodes = Classify.vmlaunch refl refl;
}

-- A launch at first, and VMREAD after each answer.
abbrev client : Client
client [] = trap_at 0x106
client (a ∷ past) = trap_at 0x103

names_differ : field_of code (trap_at 0x100) ≢ field_of code rsp_trap
unfolding svm_stuff.Emu.Decode.reg_index amdv_gpr load
names_differ e = omega (arith, e)

pub value_fits : value_of code (trap_at 0x100) < 2 ^ 64
unfolding svm_stuff.Emu.Decode.rm_index amdv_gpr load
value_fits = omega arith

pub names_cr0 : field_of code (trap_at 0x103) ≡ encoding VmcsField.guest_cr0
unfolding svm_stuff.Emu.Decode.reg_index amdv_gpr load
names_cr0 = refl

abbrev written : Machine
written = after_vmwrite code (trap_at 0x100) bound

abbrev rsp_written : Machine
rsp_written = after_vmwrite code rsp_trap bound

abbrev switch : Option WorldSwitch
switch = some (λ pa g p. entered halting pa g p)

converse-vmwrite_comm_example :
    (handle_ud code switch (trap_at 0x100) bound
      ≡ some (
        true,
        advance (step_length code Controls.vmwrite (trap_at 0x100)) (trap_at 0x100),
        written,
      ))
    × (handle_ud code switch rsp_trap bound
        ≡ some (true, advance (step_length code Controls.vmwrite rsp_trap) rsp_trap, rsp_written))
    × (handle_ud code switch (trap_at 0x100) rsp_written
        ≡ some (
          true,
          advance (step_length code Controls.vmwrite (trap_at 0x100)) (trap_at 0x100),
          after_vmwrite code (trap_at 0x100) rsp_written,
        ))
    × (handle_ud code switch rsp_trap written
        ≡ some (
          true,
          advance (step_length code Controls.vmwrite rsp_trap) rsp_trap,
          after_vmwrite code rsp_trap written,
        ))
    × (seen_talk (converse code switch 2 client [] (after_vmwrite code rsp_trap written))
        ≡ seen_talk
            (converse code switch 2 client [] (after_vmwrite code (trap_at 0x100) rsp_written)))
converse-vmwrite_comm_example =
    converse-vmwrite_comm code switch bound (trap_at 0x100) rsp_trap vmwrite-Traps rsp-Traps
      names_differ (omega (arith, sample_count)) 2 client []

handle_ud-Session_example :
    Session code
      (λ pa g p. entered halting pa g p)
      bound
      (trap_at 0x100)
      (trap_at 0x106)
      (trap_at 0x103)
      VmcsField.guest_cr0
handle_ud-Session_example =
    handle_ud-Session code (λ pa g p. entered halting pa g p) bound (trap_at 0x100) (trap_at 0x106)
      (trap_at 0x103) VmcsField.guest_cr0 zero_page (λ e. omega arith) refl sample-IsValid
      (omega arith) (omega (arith, sample_count)) value_fits vmwrite-Traps vmlaunch-IsVmx
      vmread-Traps names_cr0

halting-StaysInPage : StaysInPage (some (λ pa g p. entered halting pa g p))
unfolding entered vmcb_set64
halting-StaysInPage pa g p a h = set_bytes-Outside 8 p 0x070 0x78 a (inr (omega arith))

bound-HasPage : HasPage bound
bound-HasPage = λ b e. cc

converse-Confined_example :
    (past' : List Answer) × (m' : Machine) × (converse code switch 2 client [] bound
      ≡ some (past', m'))
    × Confined bound m'
converse-Confined_example =
    converse-Confined code switch 2 client [] bound halting-StaysInPage
      (omega (arith, sample_count)) bound-HasPage

-- VMPTRLD, whatever the answers are.
abbrev switching : Client
switching past = trap_at 0x109

stored : (write sample (field_of code (trap_at 0x100)) (value_of code (trap_at 0x100))).1 ≡ true
unfolding write svm_stuff.Emu.Decode.reg_index svm_stuff.Emu.Decode.rm_index amdv_gpr load
    run_writes fresh
stored = refl

quiet :
    (p : List Answer)
    → may_change (field_of code (trap_at 0x100)) (decode_vmx code (switching p)) ≡ false
unfolding decode_vmx classify svm_stuff.Emu.Decode.operands
quiet p = refl

same_name : field_of code (trap_at 0x103) ≡ field_of code (trap_at 0x100)
unfolding svm_stuff.Emu.Decode.reg_index load amdv_gpr
same_name = refl

vmread-converse_example : ReadLater code switch (trap_at 0x100) (trap_at 0x103) bound 3 switching []
vmread-converse_example =
    vmread-converse code switch (trap_at 0x100) (trap_at 0x103) bound 3 switching [] vmwrite-Traps
      vmread-Traps same_name stored quiet

handle_ud-abstract_trap_example :
    seen_answer (handle_ud code switch (trap_at 0x106) bound)
    ≡ abstract_trap switch
        (translate_vmcs_to_vmcb sample)
        (trap_at 0x106)
        (seen bound)
        (decode_vmx code (trap_at 0x106))
handle_ud-abstract_trap_example = handle_ud-abstract_trap switch bound code (trap_at 0x106)

handle_ud-LaunchesAlike_example :
    LaunchesAlike code
      (some (λ pa g p. entered halting pa g p))
      bound
      (trap_at 0x106)
      (record (trap_at 0x106) { rcx = 7; rsi = 0x1000 })
handle_ud-LaunchesAlike_example =
    handle_ud-LaunchesAlike code (some (λ pa g p. entered halting pa g p)) bound zero_page
      (trap_at 0x106) (record (trap_at 0x106) { rcx = 7; rsi = 0x1000 }) refl for_vmlaunch
      for_vmlaunch vmlaunch-IsVmx vmlaunch-IsVmx
