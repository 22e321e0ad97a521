-- ===== src/Sync/State.antt =====
-- The shadow VMCS after an exit.
use svm_stuff.Base.{
  ℕ, ◌-◌, ◌^◌, ◌≡◌, ◌≢◌, refl, ◌∙◌, none, some, List, [], ◌∷◌, arith, bit_and, if◌then◌else◌,
}
use svm_stuff.Vmcb.Page.{Page, vmcb_get64}
use svm_stuff.Vmcb.Layout
use svm_stuff.Vmcb.Segment.{get_selector, get_attrib, get_limit, get_base, get_member}
use svm_stuff.Vmx.Fields.{VmcsField, encoding}
use svm_stuff.Vmx.Shadow.{ShadowVmcs, read}
use svm_stuff.Vmx.Shadow.Writes.{last_write}
use svm_stuff.Segment.{svm_attrib_to_vmx_ar}
use svm_stuff.Exit.{svm_exit_to_vmx_reason}
use svm_stuff.Entry.{field, SegMap, k_segs}
use svm_stuff.Sync.{translate_vmcb_to_vmcs}
use svm_stuff.Sync.Writes.{
  state_writes, length_known, instr_length, length_field, HasRoom, sync-read, sync-read_length,
}

pub record RegistersSaved (p : Page) (t : ShadowVmcs) : Type 0 where
  pub cr0 : field t VmcsField.guest_cr0 ≡ vmcb_get64 p Layout.vmcb_cr0
  pub cr2 : field t VmcsField.guest_cr2 ≡ vmcb_get64 p Layout.vmcb_cr2
  pub cr3 : field t VmcsField.guest_cr3 ≡ vmcb_get64 p Layout.vmcb_cr3
  pub cr4 : field t VmcsField.guest_cr4 ≡ vmcb_get64 p Layout.vmcb_cr4
  pub rip : field t VmcsField.guest_rip ≡ vmcb_get64 p Layout.vmcb_rip
  pub rsp : field t VmcsField.guest_rsp ≡ vmcb_get64 p Layout.vmcb_rsp
  pub rflags : field t VmcsField.guest_rflags ≡ vmcb_get64 p Layout.vmcb_rflags
  pub efer :
      field t VmcsField.guest_ia32_efer
      ≡ bit_and (vmcb_get64 p Layout.vmcb_efer) (2 ^ 64 - 1 - 2 ^ 12)

pub record SegmentSaved (p : Page) (t : ShadowVmcs) (m : SegMap) : Type 0 where
  pub selector : field t m.sel_enc ≡ get_selector p m.vmcb_off
  pub limit : field t m.limit_enc ≡ get_limit p m.vmcb_off
  pub base : field t m.base_enc ≡ get_base p m.vmcb_off
  pub ar : field t m.ar_enc ≡ svm_attrib_to_vmx_ar (get_attrib p m.vmcb_off)

abbrev pub SegmentsSaved : Page → ShadowVmcs → List SegMap → Type 0
SegmentsSaved p t [] = Unit {0}
SegmentsSaved p t (m ∷ ms) = SegmentSaved p t m × SegmentsSaved p t ms

-- The exit: its reason, and the instruction length where NRIPS gives one.
pub record ExitSaved (p : Page) (n : ℕ) (s t : ShadowVmcs) : Type 0 where
  pub reason :
      field t VmcsField.vm_exit_reason
      ≡ svm_exit_to_vmx_reason (get_member Layout.exit_code p) (get_member Layout.exit_info_1 p)
  pub instr_len :
      field t VmcsField.vm_exit_instr_len
      ≡ (if length_known p n then instr_length p else field s VmcsField.vm_exit_instr_len)

module _ (p : Page) (s : ShadowVmcs) (n : ℕ) (room : HasRoom p n s) where
  saved :
      (f : VmcsField) {v : ℕ}
      → length_field ≢ encoding f
      → last_write (encoding f) (state_writes p) ≡ some v
      → field (translate_vmcb_to_vmcs p s n) f ≡ v
  saved f ne e = sync-read p s n (encoding f) room ne ∙ rw e

  -- Where the store has room for what an exit writes, the guest's registers are those of the VMCB
  -- afterwards, with SVME taken out of EFER.
  pub sync-RegistersSaved : RegistersSaved p (translate_vmcb_to_vmcs p s n)
  sync-RegistersSaved = record {
    cr0 = saved VmcsField.guest_cr0 (omega arith) refl;
    cr2 = saved VmcsField.guest_cr2 (omega arith) refl;
    cr3 = saved VmcsField.guest_cr3 (omega arith) refl;
    cr4 = saved VmcsField.guest_cr4 (omega arith) refl;
    rip = saved VmcsField.guest_rip (omega arith) refl;
    rsp = saved VmcsField.guest_rsp (omega arith) refl;
    rflags = saved VmcsField.guest_rflags (omega arith) refl;
    efer = saved VmcsField.guest_ia32_efer (omega arith) refl;
  }

  -- Where the store has room, the exit reason is the VMX reason for the exit code, and the
  -- instruction length is NRIP less RIP if NRIPS is there and NRIP is behind RIP, and as before if
  -- not.
  pub sync-ExitSaved : ExitSaved p n s (translate_vmcb_to_vmcs p s n)
  sync-ExitSaved = record {
    reason = saved VmcsField.vm_exit_reason (omega arith) refl;
    instr_len = sync-read_length p s n room;
  }

  -- A field that no exit writes.
  pub sync-untouched :
      (k : ℕ)
      → length_field ≢ k
      → last_write k (state_writes p) ≡ none
      → read (translate_vmcb_to_vmcs p s n) k ≡ read s k
  sync-untouched k ne e = sync-read p s n k room ne ∙ rw e

  segment_saved :
      (m : SegMap)
      → (length_field ≢ encoding m.sel_enc)
        × (length_field ≢ encoding m.limit_enc)
        × (length_field ≢ encoding m.base_enc)
        × (length_field ≢ encoding m.ar_enc)
      → last_write (encoding m.sel_enc) (state_writes p) ≡ some (get_selector p m.vmcb_off)
      → last_write (encoding m.limit_enc) (state_writes p) ≡ some (get_limit p m.vmcb_off)
      → last_write (encoding m.base_enc) (state_writes p) ≡ some (get_base p m.vmcb_off)
      → last_write (encoding m.ar_enc) (state_writes p)
        ≡ some (svm_attrib_to_vmx_ar (get_attrib p m.vmcb_off))
      → SegmentSaved p (translate_vmcb_to_vmcs p s n) m
  segment_saved m ne sel limit base ar = record {
    selector = saved m.sel_enc ne.0 sel;
    limit = saved m.limit_enc ne.1 limit;
    base = saved m.base_enc ne.2 base;
    ar = saved m.ar_enc ne.3 ar;
  }

  -- Where the store has room, each of the segments ES to TR comes back from its own slot, with its
  -- attributes in VMX's form.
  pub sync-SegmentsSaved : SegmentsSaved p (translate_vmcb_to_vmcs p s n) k_segs
  sync-SegmentsSaved = (
    segment_saved _ (omega arith) refl refl refl refl,
    (
      segment_saved _ (omega arith) refl refl refl refl,
      (
        segment_saved _ (omega arith) refl refl refl refl,
        (
          segment_saved _ (omega arith) refl refl refl refl,
          (
            segment_saved _ (omega arith) refl refl refl refl,
            (
              segment_saved _ (omega arith) refl refl refl refl,
              (
                segment_saved _ (omega arith) refl refl refl refl,
                (segment_saved _ (omega arith) refl refl refl refl, tt),
              ),
            ),
          ),
        ),
      ),
    ),
  )

-- What an exit does not bring back: the descriptor tables, the PAT and the event to inject stay
-- as they were in the shadow VMCS.
pub record NotRefreshed (s t : ShadowVmcs) : Type 0 where
  pub gdtr_base : field t VmcsField.guest_gdtr_base ≡ field s VmcsField.guest_gdtr_base
  pub gdtr_limit : field t VmcsField.guest_gdtr_limit ≡ field s VmcsField.guest_gdtr_limit
  pub idtr_base : field t VmcsField.guest_idtr_base ≡ field s VmcsField.guest_idtr_base
  pub idtr_limit : field t VmcsField.guest_idtr_limit ≡ field s VmcsField.guest_idtr_limit
  pub pat : field t VmcsField.guest_ia32_pat ≡ field s VmcsField.guest_ia32_pat
  pub entry_intr_info : field t VmcsField.vm_entry_intr_info ≡ field s VmcsField.vm_entry_intr_info
  pub entry_error :
      field t VmcsField.vm_entry_exception_error ≡ field s VmcsField.vm_entry_exception_error

-- Where the store has room, GDTR, IDTR, PAT and the VM-entry interruption information, its valid
-- bit and its error code included, stay as they were before the exit, whatever the VMCB holds.
pub sync-NotRefreshed :
    (p : Page) (s : ShadowVmcs) (n : ℕ)
    → HasRoom p n s
    → NotRefreshed s (translate_vmcb_to_vmcs p s n)
sync-NotRefreshed p s n room = record {
  gdtr_base = sync-untouched p s n room 0x6816 (omega arith) refl;
  gdtr_limit = sync-untouched p s n room 0x4810 (omega arith) refl;
  idtr_base = sync-untouched p s n room 0x6818 (omega arith) refl;
  idtr_limit = sync-untouched p s n room 0x4812 (omega arith) refl;
  pat = sync-untouched p s n room 0x2804 (omega arith) refl;
  entry_intr_info = sync-untouched p s n room 0x4016 (omega arith) refl;
  entry_error = sync-untouched p s n room 0x4018 (omega arith) refl;
}
