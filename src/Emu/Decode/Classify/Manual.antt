-- ===== src/Emu/Decode/Classify/Manual.antt =====
-- The decoder of src/kern_vmx_emu.cpp against the table of encodings that the comments of `VmxOpcode` in
-- src/kern_vmx.hpp give, with the operands that the manual has for them.
use svm_stuff.Base.{ℕ, ◌≡◌, ◌≢◌, refl, arith, Option, none, some, ==_ne}
use svm_stuff.Vmx.Controls
use svm_stuff.Vmx.Controls.{VmxOpcode}
use svm_stuff.Emu.Decode.{Hde64s, classify}
use svm_stuff.Emu.Decode.Classify.{TakenFor, classify-TakenFor_iff}

-- The bytes behind 0F: "/6" and "/7" are ModRM.reg.
abbrev pub HasOpcode : Hde64s → VmxOpcode → Type 0
HasOpcode hs Controls.no_op = ⊥
HasOpcode hs Controls.vmread = hs.opcode2 ≡ 0x78
HasOpcode hs Controls.vmwrite = hs.opcode2 ≡ 0x79
HasOpcode hs Controls.vmptrld = (hs.opcode2 ≡ 0xC7) × (hs.modrm_reg ≡ 6)
HasOpcode hs Controls.vmptrst = (hs.opcode2 ≡ 0xC7) × (hs.modrm_reg ≡ 7)
HasOpcode hs Controls.vmclear = (hs.opcode2 ≡ 0xC7) × (hs.modrm_reg ≡ 6)
HasOpcode hs Controls.vmxon = (hs.opcode2 ≡ 0xC7) × (hs.modrm_reg ≡ 6)
HasOpcode hs Controls.vmlaunch = (hs.opcode2 ≡ 0x01) × (hs.modrm ≡ 0xC2)
HasOpcode hs Controls.vmresume = (hs.opcode2 ≡ 0x01) × (hs.modrm ≡ 0xC3)
HasOpcode hs Controls.vmxoff = (hs.opcode2 ≡ 0x01) × (hs.modrm ≡ 0xC4)
HasOpcode hs Controls.invept = (hs.opcode2 ≡ 0x38) × (hs.modrm ≡ 0x80)
HasOpcode hs Controls.invvpid = (hs.opcode2 ≡ 0x38) × (hs.modrm ≡ 0x81)

-- The prefix F3 or F2, and the prefix 66; 0 where there is to be none.
abbrev pub rep_of : VmxOpcode → ℕ
rep_of Controls.vmxon = 0xF3
rep_of _ = 0

abbrev pub operand_size_of : VmxOpcode → ℕ
operand_size_of Controls.vmclear = 0x66
operand_size_of Controls.invept = 0x66
operand_size_of Controls.invvpid = 0x66
operand_size_of _ = 0

-- An encoding of the table. The operand of the four instructions under opcode 0xC7 is in memory.
pub record Encodes (hs : Hde64s) (op : VmxOpcode) : Type 0 where
  pub bytes : HasOpcode hs op
  pub rep : hs.p_rep ≡ rep_of op
  pub operand_size : hs.p_66 ≡ operand_size_of op
  pub in_memory : hs.opcode2 ≡ 0xC7 → hs.modrm_mod ≢ 3

-- What the opcode switch makes of an instruction, and what it does not look at.
pub record Decides (hs : Hde64s) : Type 0 where
  pub recognises : (op : VmxOpcode) → Encodes hs op → classify hs ≡ some op
  pub has_opcode : (op : VmxOpcode) → classify hs ≡ some op → HasOpcode hs op
  pub rejects : ((op : VmxOpcode) → ¬ HasOpcode hs op) → classify hs ≡ none
  pub any_mode : (x : ℕ) → classify (record hs { modrm_mod = x }) ≡ classify hs
  pub any_prefix :
      (x y : ℕ)
      → hs.opcode2 ≢ 0xC7
      → hs.opcode2 ≢ 0x38
      → classify (record hs { p_rep = x; p_66 = y }) ≡ classify hs
  pub any_rep : (x : ℕ) → hs.opcode2 ≡ 0x38 → classify (record hs { p_rep = x }) ≡ classify hs
  pub repne :
      hs.opcode2 ≡ 0xC7
      → hs.modrm_reg ≡ 6
      → hs.p_rep ≡ 0xF2
      → hs.p_66 ≡ 0
      → classify hs ≡ some Controls.vmptrld

recognised : (hs : Hde64s) (op : VmxOpcode) → Encodes hs op → classify hs ≡ some op
unfolding classify
recognised hs Controls.no_op h = absurd h.bytes
recognised hs Controls.vmread h = ground (arith, h.bytes, h.rep, h.operand_size)
recognised hs Controls.vmwrite h = ground (arith, h.bytes, h.rep, h.operand_size)
recognised hs Controls.vmptrld h = ground (arith, h.bytes, h.rep, h.operand_size)
recognised hs Controls.vmptrst h = ground (arith, h.bytes, h.rep, h.operand_size)
recognised hs Controls.vmclear h = ground (arith, h.bytes, h.rep, h.operand_size)
recognised hs Controls.vmxon h = ground (arith, h.bytes, h.rep, h.operand_size)
recognised hs Controls.vmlaunch h = ground (arith, h.bytes, h.rep, h.operand_size)
recognised hs Controls.vmresume h = ground (arith, h.bytes, h.rep, h.operand_size)
recognised hs Controls.vmxoff h = ground (arith, h.bytes, h.rep, h.operand_size)
recognised hs Controls.invept h = ground (arith, h.bytes, h.rep, h.operand_size)
recognised hs Controls.invvpid h = ground (arith, h.bytes, h.rep, h.operand_size)

taken-HasOpcode : (hs : Hde64s) (op : VmxOpcode) → classify hs ≡ some op → HasOpcode hs op
taken-HasOpcode hs op h = by_rule op ((classify-TakenFor_iff hs op).0 h)
  where
    by_rule : (op : VmxOpcode) → TakenFor hs op → HasOpcode hs op
    by_rule op (TakenFor.vmread e) = e
    by_rule op (TakenFor.vmwrite e) = e
    by_rule op (TakenFor.vmlaunch e f) = (e, f)
    by_rule op (TakenFor.vmresume e f) = (e, f)
    by_rule op (TakenFor.vmxoff e f) = (e, f)
    by_rule op (TakenFor.vmxon e f g) = (e, f)
    by_rule op (TakenFor.vmclear e f g h) = (e, f)
    by_rule op (TakenFor.vmptrld e f g h) = (e, f)
    by_rule op (TakenFor.vmptrst e f) = (e, f)
    by_rule op (TakenFor.invept e f g) = (e, g)
    by_rule op (TakenFor.invvpid e f g) = (e, g)

-- Every encoding of the table is recognised. What is recognised has the opcode bytes of its
-- instruction, and what has those of none is rejected. But ModRM.mod makes no difference; prefixes make
-- none under an opcode other than 0xC7 and 0x38, and F3 or F2 none under 0x38; and 0xC7 /6 with an
-- F2 is taken for a VMPTRLD, which is to have no prefix.
pub classify-Decides : (hs : Hde64s) → Decides hs
unfolding classify
classify-Decides hs = record {
  recognises = recognised hs;
  has_opcode = taken-HasOpcode hs;
  rejects = λ h. split h (classify hs) refl;
  any_mode = λ x. refl;
  any_prefix = λ x y c7 c38. rw (==_ne _ _ c7, ==_ne _ _ c38) refl;
  any_rep = λ x e. rw e refl;
  repne = λ e f g h. ground arith;
}
  where
    split :
        ((op : VmxOpcode) → ¬ HasOpcode hs op)
        → (o : Option VmxOpcode) → classify hs ≡ o
        → classify hs ≡ none
    split h none e = e
    split h (some op) e = absurd (h op (taken-HasOpcode hs op e))
