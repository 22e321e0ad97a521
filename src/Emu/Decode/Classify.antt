-- ===== src/Emu/Decode/Classify.antt =====
-- Which bytes `decodeVmx` of src/kern_vmx_emu.cpp takes for an instruction. What the manual's table says
-- of it is in `Manual`.
pub mod Manual
use svm_stuff.Base.{ℕ, ◌≡◌, ◌≢◌, ◌↔◌, refl, arith, false, some, ◌==◌}
use svm_stuff.Vmx.Controls
use svm_stuff.Vmx.Controls.{VmxOpcode}
use svm_stuff.Trap.{SavedState64}
use svm_stuff.Emu.Decode.{Hde64s, VmxDecoded, classify, operands, decode_vmx}

-- The switch on the opcode as rules, prefixes and ModRM as far as it looks at them.
pub data TakenFor (hs : Hde64s) : VmxOpcode → Type 0 where
  vmread : hs.opcode2 ≡ 0x78 → TakenFor hs Controls.vmread
  vmwrite : hs.opcode2 ≡ 0x79 → TakenFor hs Controls.vmwrite
  vmlaunch : hs.opcode2 ≡ 0x01 → hs.modrm ≡ 0xC2 → TakenFor hs Controls.vmlaunch
  vmresume : hs.opcode2 ≡ 0x01 → hs.modrm ≡ 0xC3 → TakenFor hs Controls.vmresume
  vmxoff : hs.opcode2 ≡ 0x01 → hs.modrm ≡ 0xC4 → TakenFor hs Controls.vmxoff
  vmxon : hs.opcode2 ≡ 0xC7 → hs.modrm_reg ≡ 6 → hs.p_rep ≡ 0xF3 → TakenFor hs Controls.vmxon
  vmclear :
      hs.opcode2 ≡ 0xC7
      → hs.modrm_reg ≡ 6
      → hs.p_rep ≢ 0xF3
      → hs.p_66 ≡ 0x66
      → TakenFor hs Controls.vmclear
  vmptrld :
      hs.opcode2 ≡ 0xC7
      → hs.modrm_reg ≡ 6
      → hs.p_rep ≢ 0xF3
      → hs.p_66 ≢ 0x66
      → TakenFor hs Controls.vmptrld
  vmptrst : hs.opcode2 ≡ 0xC7 → hs.modrm_reg ≡ 7 → TakenFor hs Controls.vmptrst
  invept : hs.opcode2 ≡ 0x38 → hs.p_66 ≡ 0x66 → hs.modrm ≡ 0x80 → TakenFor hs Controls.invept
  invvpid : hs.opcode2 ≡ 0x38 → hs.p_66 ≡ 0x66 → hs.modrm ≡ 0x81 → TakenFor hs Controls.invvpid

classify-TakenFor : (hs : Hde64s) (op : VmxOpcode) → TakenFor hs op → classify hs ≡ some op
unfolding classify
classify-TakenFor hs op (vmread e) = ground arith
classify-TakenFor hs op (vmwrite e) = ground arith
classify-TakenFor hs op (vmlaunch e f) = ground arith
classify-TakenFor hs op (vmresume e f) = ground arith
classify-TakenFor hs op (vmxoff e f) = ground arith
classify-TakenFor hs op (vmxon e f g) = ground arith
classify-TakenFor hs op (vmclear e f g h) = ground arith
classify-TakenFor hs op (vmptrld e f g h) = ground arith
classify-TakenFor hs op (vmptrst e f) = ground arith
classify-TakenFor hs op (invept e f g) = ground arith
classify-TakenFor hs op (invvpid e f g) = ground arith

TakenFor-classify : (hs : Hde64s) (op : VmxOpcode) → classify hs ≡ some op → TakenFor hs op
unfolding classify
TakenFor-classify hs Controls.no_op h = absurd (ground arith)
TakenFor-classify hs Controls.vmread h = vmread (ground arith)
TakenFor-classify hs Controls.vmwrite h = vmwrite (ground arith)
TakenFor-classify hs Controls.vmptrld h =
    vmptrld (ground arith) (ground arith) (ground arith) (ground arith)
TakenFor-classify hs Controls.vmptrst h = vmptrst (ground arith) (ground arith)
TakenFor-classify hs Controls.vmclear h =
    vmclear (ground arith) (ground arith) (ground arith) (ground arith)
TakenFor-classify hs Controls.vmxon h = vmxon (ground arith) (ground arith) (ground arith)
TakenFor-classify hs Controls.vmlaunch h = vmlaunch (ground arith) (ground arith)
TakenFor-classify hs Controls.vmresume h = vmresume (ground arith) (ground arith)
TakenFor-classify hs Controls.vmxoff h = vmxoff (ground arith) (ground arith)
TakenFor-classify hs Controls.invept h = invept (ground arith) (ground arith) (ground arith)
TakenFor-classify hs Controls.invvpid h = invvpid (ground arith) (ground arith) (ground arith)

-- The rules and the switch say the same.
pub classify-TakenFor_iff :
    (hs : Hde64s) (op : VmxOpcode) → (classify hs ≡ some op) ↔ TakenFor hs op
classify-TakenFor_iff hs op = (TakenFor-classify hs op, classify-TakenFor hs op)

-- What the disassembler must report of an instruction for the decoder to accept it.
pub record IsVmx (hs : Hde64s) (op : VmxOpcode) : Type 0 where
  pub length : hs.len ≢ 0
  pub no_error : hs.error ≡ false
  pub two_byte : hs.opcode ≡ 0x0F
  pub encodes : TakenFor hs op

module _ (hde64_disasm : ℕ → Hde64s) (st : SavedState64) where
  abbrev hs : Hde64s
  hs = hde64_disasm (st.isf).rip

  pub decode_vmx-operands :
      (op : VmxOpcode) → IsVmx hs op → decode_vmx hde64_disasm st ≡ operands st hs op
  unfolding decode_vmx
  decode_vmx-operands op is =
      rw (classify-TakenFor hs op is.encodes, long, is.no_error, is.two_byte) refl
    where
      long : (hs.len == 0) ≡ false
      long = ground (arith, is.length)

  operands-op : (op : VmxOpcode) (d : VmxDecoded) → operands st hs op ≡ some d → d.op ≡ op
  unfolding operands
  operands-op Controls.vmread d h = ground arith
  operands-op Controls.vmwrite d h = ground arith
  operands-op _ d h = ground arith

  -- If an instruction is decoded at RIP, the disassembler reported no error and a length other than
  -- 0, and the bytes are 0F and an encoding of the operation reported.
  pub decode_vmx-IsVmx : (d : VmxDecoded) → decode_vmx hde64_disasm st ≡ some d → IsVmx hs d.op
  unfolding decode_vmx
  decode_vmx-IsVmx d h =
      let (op, found, rest) = instruction in
      record {
        length = ground arith;
        no_error = ground arith;
        two_byte = ground arith;
        encodes = TakenFor-classify hs d.op (rw (operands-op op d rest) found);
      }
    where
      instruction : (op : VmxOpcode) × (classify hs ≡ some op) × (operands st hs op ≡ some d)
      instruction = ground arith
