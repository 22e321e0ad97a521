-- ===== src/Emu/Decode.antt =====
-- `decodeVmx` of src/kern_vmx_emu.cpp. The disassembler `hde64_disasm` comes with Lilu: it is a
-- parameter, from an address to what it reports of the bytes there.
pub mod Classify
use svm_stuff.Base.{
  ℕ, ◌+◌, Bool, true, false, ◌&&◌, ◌||◌, not, Option, none, some, bit_or, ◌==◌, if◌then◌else◌, u8,
  u32,
}
use svm_stuff.Vmx.Controls
use svm_stuff.Vmx.Controls.{VmxOpcode}
use svm_stuff.Trap.{SavedState64, Slot, load, amdv_gpr}

-- The members of `hde64s` that the decoder reads, with the length that the call returns; `error`
-- says that F_ERROR is among the flags. All but that are bytes.
pub record Hde64s : Type 0 where
  pub len : ℕ
  pub error : Bool
  pub p_rep : ℕ
  pub p_66 : ℕ
  pub rex_r : ℕ
  pub rex_b : ℕ
  pub opcode : ℕ
  pub opcode2 : ℕ
  pub modrm : ℕ
  pub modrm_mod : ℕ
  pub modrm_reg : ℕ
  pub modrm_rm : ℕ

pub record VmxDecoded : Type 0 where
  pub op : VmxOpcode
  pub field : ℕ
  pub src_value : ℕ
  pub dst_reg : Option Slot
  pub length : ℕ

-- The `switch` on the second opcode byte, group by group.
unfoldable pub classify_01 : Hde64s → Option VmxOpcode
classify_01 hs =
    if hs.modrm == 0xC2
    then some Controls.vmlaunch
    else if hs.modrm == 0xC3
    then some Controls.vmresume
    else if hs.modrm == 0xC4
    then some Controls.vmxoff
    else none

unfoldable pub classify_c7 : Hde64s → Option VmxOpcode
classify_c7 hs =
    if hs.modrm_reg == 6
    then some (
        if hs.p_rep == 0xF3
        then Controls.vmxon
        else if hs.p_66 == 0x66
        then Controls.vmclear
        else Controls.vmptrld)
    else if hs.modrm_reg == 7
    then some Controls.vmptrst
    else none

unfoldable pub classify_38 : Hde64s → Option VmxOpcode
classify_38 hs =
    if (hs.p_66 == 0x66) && (hs.modrm == 0x80)
    then some Controls.invept
    else if (hs.p_66 == 0x66) && (hs.modrm == 0x81)
    then some Controls.invvpid
    else none

unfoldable pub classify : Hde64s → Option VmxOpcode
unfolding classify_01 classify_c7 classify_38
classify hs =
    if hs.opcode2 == 0x78
    then some Controls.vmread
    else if hs.opcode2 == 0x79
    then some Controls.vmwrite
    else if hs.opcode2 == 0x01
    then classify_01 hs
    else if hs.opcode2 == 0xC7
    then classify_c7 hs
    else if hs.opcode2 == 0x38
    then classify_38 hs
    else none

unfoldable pub reg_index : Hde64s → ℕ
reg_index hs = u8 (bit_or hs.modrm_reg (if hs.rex_r == 0 then 0 else 8))

unfoldable pub rm_index : Hde64s → ℕ
rm_index hs = u8 (bit_or hs.modrm_rm (if hs.rex_b == 0 then 0 else 8))

abbrev pub decoded : VmxOpcode → Hde64s → VmxDecoded
decoded op hs = record { op = op; field = 0; src_value = 0; dst_reg = none; length = u8 hs.len }

-- The operands: those of VMREAD and VMWRITE, which must be registers.
unfoldable pub operands : SavedState64 → Hde64s → VmxOpcode → Option VmxDecoded
operands st hs Controls.vmread =
    if hs.modrm_mod == 3
    then some (record (decoded Controls.vmread hs) {
      field = u32 (load (amdv_gpr (reg_index hs)) st);
      dst_reg = some (amdv_gpr (rm_index hs));
    })
    else none
operands st hs Controls.vmwrite =
    if hs.modrm_mod == 3
    then some (record (decoded Controls.vmwrite hs) {
      field = u32 (load (amdv_gpr (reg_index hs)) st);
      src_value = load (amdv_gpr (rm_index hs)) st;
    })
    else none
operands st hs op = some (decoded op hs)

-- `none` where the source returns false.
unfoldable pub decode_vmx : (ℕ → Hde64s) → SavedState64 → Option VmxDecoded
decode_vmx hde64_disasm st =
    let hs = hde64_disasm (st.isf).rip in
    if (hs.len == 0) || hs.error
    then none
    else if not (hs.opcode == 0x0F)
    then none
    else elim (classify hs) [ none ↦ none | some op ↦ operands st hs op ]
