-- ===== src/Examples/Emu.antt =====
-- Traps of VMWRITE RAX, RBX at 0x100, of VMREAD RCX, RAX at 0x103, of VMLAUNCH at 0x106, and of
-- VMPTRLD [RBX] at 0x109.
use svm_stuff.Base.{ℕ, ◌+◌, ◌≡◌, ◌==◌, refl, arith, true, false, none, some, if◌then◌else◌}
use svm_stuff.Vmx.Controls
use svm_stuff.Vmx.Shadow.{ShadowVmcs, read, write, max_fields}
use svm_stuff.Vmx.Shadow.Map.{lookup, field}
use svm_stuff.Vmx.Shadow.Refine.{view}
use svm_stuff.Trap.{SavedState64, load, amdv_gpr}
use svm_stuff.Emu.{VmxEmulator, Machine, unbound}
use svm_stuff.Emu.Decode.{Hde64s, VmxDecoded, classify, decode_vmx}
use svm_stuff.Emu.Decode.Classify
use svm_stuff.Emu.Decode.Classify.Manual.{Decides, classify-Decides}
use svm_stuff.Emu.Decode.Classify.{TakenFor, IsVmx, classify-TakenFor_iff, decode_vmx-IsVmx}
use svm_stuff.Emu.Launch.{vmlaunch_resume}
use svm_stuff.Emu.Handle.{handle_ud}
use svm_stuff.Emu.Handle.Laws.{Completed, handle_ud-Completed}
use svm_stuff.Emu.Handle.Fields.{Traps, field_of, vmwrite-dropped}
use svm_stuff.Emu.RoundTrip.{Disabled, vmlaunch_resume-Disabled}
use svm_stuff.Examples.Samples.{zero_page, sample, sample-IsValid, sample_count}

-- Opcode 0F `second`, with RAX in ModRM.reg and register `rm` in ModRM.rm.
abbrev instruction : ℕ → ℕ → Hde64s
instruction second rm = record {
  len = 3;
  error = false;
  p_rep = 0;
  p_66 = 0;
  rex_r = 0;
  rex_b = 0;
  opcode = 0x0F;
  opcode2 = second;
  modrm = 0xC0 + rm;
  modrm_mod = 3;
  modrm_reg = 0;
  modrm_rm = rm;
}

abbrev pub code : ℕ → Hde64s
code a =
    if a == 0x100
    then instruction 0x79 3
    else if a == 0x106
    then record (instruction 0x01 2) { modrm = 0xC2 }
    else if a == 0x109
    then record (instruction 0xC7 3) { modrm = 0x33; modrm_mod = 0; modrm_reg = 6 }
    else instruction 0x78 1

-- RAX names VMCS_GUEST_CR0, and RBX holds 5.
abbrev pub trap_at : ℕ → SavedState64
trap_at rip = record {
  rdi = 0;
  rsi = 0;
  rdx = 0;
  r10 = 0;
  r8 = 0;
  r9 = 0;
  cr2 = 0;
  r15 = 0;
  r14 = 0;
  r13 = 0;
  r12 = 0;
  r11 = 0;
  rbp = 0;
  rbx = 5;
  rcx = 0;
  rax = 0x6800;
  gs = 0;
  fs = 0;
  isf_pad = 0;
  isf = record {
    trapno = 6;
    cpuflag = 0;
    pad = 0;
    trapfn = 0;
    err = 0;
    rip = rip;
    cs = 8;
    rflags = 0x246;
    rsp = 0x9000;
    ss = 0x10;
  };
}

abbrev pub bound : Machine
bound = record {
  emu = record unbound {
    vmcs = sample;
    vmcb = 0x4000;
    vmcb_pa = 0x7000;
    svm_features = 8;
    guest_rax = 9;
  };
  pages = λ a. if a == 0x4000 then some zero_page else none;
}

abbrev full : Machine
full = record {
  emu = record unbound { vmcs = record { launched = false; count = 256; fields = λ i. field i 1 } };
  pages = λ a. none;
}

pub vmwrite-Traps : Traps code (trap_at 0x100) Controls.vmwrite
vmwrite-Traps = record {
  is_vmx = record {
    length = λ e. omega arith;
    no_error = refl;
    two_byte = refl;
    encodes = Classify.vmwrite refl;
  };
  registers = refl;
}

pub vmread-Traps : Traps code (trap_at 0x103) Controls.vmread
vmread-Traps = record {
  is_vmx = record {
    length = λ e. omega arith;
    no_error = refl;
    two_byte = refl;
    encodes = Classify.vmread refl;
  };
  registers = refl;
}

classify-Decides_example : Decides (instruction 0x79 3)
classify-Decides_example = classify-Decides (instruction 0x79 3)

handle_ud-Completed_example :
    Completed code (trap_at 0x103) bound (handle_ud code none (trap_at 0x103) bound)
handle_ud-Completed_example = handle_ud-Completed code (trap_at 0x103) bound (omega arith) none

abbrev decoded_vmwrite : VmxDecoded
decoded_vmwrite = record {
  op = Controls.vmwrite;
  field = 0x6800;
  src_value = 5;
  dst_reg = none;
  length = 3;
}

decode_example : decode_vmx code (trap_at 0x100) ≡ some decoded_vmwrite
unfolding decode_vmx classify svm_stuff.Emu.Decode.operands svm_stuff.Emu.Decode.reg_index
    svm_stuff.Emu.Decode.rm_index amdv_gpr load
decode_example = refl

vmlaunch_resume-Disabled_example :
    (reason : ℕ) × (m' : Machine) × (vmlaunch_resume none bound ≡ some (reason, m'))
    × Disabled bound m' reason
vmlaunch_resume-Disabled_example =
    vmlaunch_resume-Disabled bound zero_page (λ e. omega arith) refl sample-IsValid (omega arith)
      (omega (arith, sample_count))

absent_when_full : lookup (field_of code (trap_at 0x100)) (view (full.emu).vmcs) ≡ none
unfolding lookup view svm_stuff.Vmx.Shadow.Refine.slots svm_stuff.Emu.Decode.reg_index amdv_gpr load
absent_when_full = refl

vmwrite-dropped_example :
    (st1 : SavedState64) × (handle_ud code none (trap_at 0x100) full ≡ some (true, st1, full))
vmwrite-dropped_example =
    vmwrite-dropped code none (trap_at 0x100) full vmwrite-Traps (omega arith) absent_when_full
