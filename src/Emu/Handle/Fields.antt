-- ===== src/Emu/Handle/Fields.antt =====
-- VMWRITE and VMREAD through the #UD handler: what one stores the other loads.
use svm_stuff.Base.{
  ℕ, ◌%◌, ◌≤◌, ◌≡◌, refl, ap, ◌∙◌, arith, Bool, true, false, Option, none, some, ◌==◌, ==_self,
  if◌then◌else◌, u32, ◌&&◌,
}
use svm_stuff.Vmx.Controls
use svm_stuff.Vmx.Shadow.{ShadowVmcs, read, write, max_fields}
use svm_stuff.Vmx.Shadow.Map.{lookup}
use svm_stuff.Vmx.Shadow.Refine.{
  view, read-write, Outcome, updated, appended, dropped, write-Outcome,
}
use svm_stuff.Trap.{SavedState64, Slot, load, store, amdv_gpr}
use svm_stuff.Trap.Slots.{load-store}
use svm_stuff.Emu.{Machine, vmwrite, vmread}
use svm_stuff.Emu.Decode.{Hde64s, VmxDecoded, decoded, decode_vmx, operands, reg_index, rm_index}
use svm_stuff.Emu.Decode.Classify.{IsVmx, decode_vmx-operands}
use svm_stuff.Emu.Launch.{WorldSwitch}
use svm_stuff.Emu.Handle.{Handled, advance, with_emu, dispatch, complete, handle_ud}

-- Moving past the instruction leaves the registers alone.
pub load-advance :
    (a : Slot) (d : VmxDecoded) (st : SavedState64) → load a (advance d st) ≡ load a st
unfolding load advance
load-advance svm_stuff.Trap.rax d st = refl
load-advance _ d st = refl

load-store_same : (i v : ℕ) (st : SavedState64) → load (amdv_gpr i) (store (amdv_gpr i) v st) ≡ v
load-store_same i v st = load-store i i v st ∙ rw (==_self (i % 16)) refl

write-dropped :
    (s : ShadowVmcs) (e v : ℕ)
    → max_fields ≤ s.count
    → lookup e (view s) ≡ none
    → (write s e v).0 ≡ s
write-dropped s e v full absent = split (write s e v) (write-Outcome s e v)
  where
    split : (r : ShadowVmcs × Bool) → Outcome s e v r → r.0 ≡ s
    split r (updated w c l p) = absurd (p absent)
    split r (appended w c l p q) = absurd (omega arith)
    split r (dropped p q) = refl

-- The instruction at the trap is a VMREAD or VMWRITE between registers.
pub record Traps (hde64_disasm : ℕ → Hde64s) (st : SavedState64) (op : Controls.VmxOpcode)
    : Type 0 where
  pub is_vmx : IsVmx (hde64_disasm (st.isf).rip) op
  pub registers : (hde64_disasm (st.isf).rip).modrm_mod ≡ 3

module _ (hde64_disasm : ℕ → Hde64s) where
  -- The registers that hold the field's encoding, and the value read or to be written.
  abbrev pub field_reg : SavedState64 → Slot
  field_reg st = amdv_gpr (reg_index (hde64_disasm (st.isf).rip))

  abbrev pub value_reg : SavedState64 → Slot
  value_reg st = amdv_gpr (rm_index (hde64_disasm (st.isf).rip))

  -- VMWRITE stores the field in the shadow VMCS and changes no register; VMREAD loads it into the
  -- register named by ModRM.rm.
  abbrev pub after_vmwrite : SavedState64 → Machine → Machine
  after_vmwrite st m =
      with_emu m (vmwrite (u32 (load (field_reg st) st)) (load (value_reg st) st) m.emu).0

  abbrev pub vmread_frame : SavedState64 → Machine → SavedState64
  vmread_frame st m = store (value_reg st) (vmread (u32 (load (field_reg st) st)) m.emu) st

  abbrev pub step_length : Controls.VmxOpcode → SavedState64 → VmxDecoded
  step_length op st = decoded op (hde64_disasm (st.isf).rip)

  pub handle-decoded :
      (switch : Option WorldSwitch) (st : SavedState64) (m : Machine) (d : VmxDecoded) (r : Handled)
      → decode_vmx hde64_disasm st ≡ some d
      → dispatch switch d d.op st m ≡ some r
      → handle_ud hde64_disasm switch st m ≡ some (complete d r)
  unfolding handle_ud
  handle-decoded switch st m d r found done =
      ap
        (λ o. elim o [
          | none ↦ some (false, st, m)
          | some d ↦ elim (dispatch switch d d.op st m) [
            | none ↦ none
            | some r ↦ some (complete d r)
          ]
        ])
        found
      ∙ ap (λ o. elim o [ none ↦ none | some r ↦ some (complete d r) ]) done

  register_operands :
      (st : SavedState64) (op : Controls.VmxOpcode) (d : VmxDecoded)
      → Traps hde64_disasm st op
      → ((hde64_disasm (st.isf).rip).modrm_mod ≡ 3
          → operands st (hde64_disasm (st.isf).rip) op ≡ some d)
      → decode_vmx hde64_disasm st ≡ some d
  register_operands st op d t h = decode_vmx-operands hde64_disasm st op t.is_vmx ∙ h t.registers

  pub handle-vmwrite :
      (switch : Option WorldSwitch) (st : SavedState64) (m : Machine)
      → Traps hde64_disasm st Controls.vmwrite
      → handle_ud hde64_disasm switch st m
        ≡ some (true, advance (step_length Controls.vmwrite st) st, after_vmwrite st m)
  unfolding handle_ud dispatch operands advance
  handle-vmwrite switch st m t =
      handle-decoded switch st m
        (record (step_length Controls.vmwrite st) {
          field = u32 (load (field_reg st) st);
          src_value = load (value_reg st) st;
        })
        _ (register_operands st Controls.vmwrite _ t (λ is_reg. rw is_reg refl)) refl

  pub handle-vmread :
      (switch : Option WorldSwitch) (st : SavedState64) (m : Machine)
      → Traps hde64_disasm st Controls.vmread
      → handle_ud hde64_disasm switch st m
        ≡ some (true, advance (step_length Controls.vmread st) (vmread_frame st m), m)
  unfolding handle_ud dispatch operands advance
  handle-vmread switch st m t =
      handle-decoded switch st m
        (record (step_length Controls.vmread st) {
          field = u32 (load (field_reg st) st);
          dst_reg = some (value_reg st);
        })
        _ (register_operands st Controls.vmread _ t (λ is_reg. rw is_reg refl)) refl

  -- The registers as they are when the VMWRITE traps.
  abbrev pub field_of : SavedState64 → ℕ
  field_of st = u32 (load (field_reg st) st)

  abbrev pub value_of : SavedState64 → ℕ
  value_of st = load (value_reg st) st

  -- The register that a VMREAD names holds the field afterwards.
  pub load-vmread_frame :
      (st : SavedState64) (m : Machine)
      → load (value_reg st) (advance (step_length Controls.vmread st) (vmread_frame st m))
        ≡ read (m.emu).vmcs (field_of st)
  unfolding vmread
  load-vmread_frame st m =
      load-advance (value_reg st) (step_length Controls.vmread st) (vmread_frame st m)
      ∙ load-store_same (rm_index (hde64_disasm (st.isf).rip)) (read (m.emu).vmcs (field_of st)) st

  -- A VMWRITE and, at any later trap with the machine as it left it, a VMREAD are both emulated. If
  -- the two name one field and the store had room or held the field, the register that the VMREAD
  -- names then holds the value written, and if not what the field held before.
  pub vmread-vmwrite :
      (switch : Option WorldSwitch) (st st' : SavedState64) (m : Machine)
      → Traps hde64_disasm st Controls.vmwrite
      → Traps hde64_disasm st' Controls.vmread
      → (st1 st2 : SavedState64) × (m1 m2 : Machine) × (handle_ud hde64_disasm switch st m
          ≡ some (true, st1, m1))
        × (handle_ud hde64_disasm switch st' m1 ≡ some (true, st2, m2))
        × (load (value_reg st') st2 ≡ (
            if (write (m.emu).vmcs (field_of st) (value_of st)).1 && (field_of st == field_of st')
            then value_of st
            else read (m.emu).vmcs (field_of st')))
  unfolding vmwrite vmread
  vmread-vmwrite switch st st' m w r = (
    advance (step_length Controls.vmwrite st) st,
    advance (step_length Controls.vmread st') (vmread_frame st' (after_vmwrite st m)),
    after_vmwrite st m,
    after_vmwrite st m,
    handle-vmwrite switch st m w,
    handle-vmread switch st' (after_vmwrite st m) r,
    load-vmread_frame st' (after_vmwrite st m)
        ∙ read-write (m.emu).vmcs (field_of st') (field_of st) (value_of st),
  )

  -- A VMWRITE of a new field into a full store is reported as emulated all the same, and the
  -- machine is left as it was.
  pub vmwrite-dropped :
      (switch : Option WorldSwitch) (st : SavedState64) (m : Machine)
      → Traps hde64_disasm st Controls.vmwrite
      → max_fields ≤ ((m.emu).vmcs).count
      → lookup (field_of st) (view (m.emu).vmcs) ≡ none
      → (st1 : SavedState64) × (handle_ud hde64_disasm switch st m ≡ some (true, st1, m))
  unfolding vmwrite
  vmwrite-dropped switch st m w full absent = (
    advance (step_length Controls.vmwrite st) st,
    handle-vmwrite switch st m w
        ∙ ap
            (λ s. some (
              true,
              advance (step_length Controls.vmwrite st) st,
              with_emu m (record (m.emu) { vmcs = s }),
            ))
            (write-dropped (m.emu).vmcs (field_of st) (value_of st) full absent),
  )
