-- ===== src/Entry/Stores.antt =====
-- The translation as one sequence of stores.
use svm_stuff.Base.{
  ℕ, ◌+◌, ◌≡◌, Bool, List, [], ◌∷◌, ◌++◌, bit_and, bit_or, if◌then◌else◌, truthy, u16, u32,
  Bool-cases, inl, inr,
}
use svm_stuff.Vmcb.Page.{Page, vmcb_set64, set_bytes}
use svm_stuff.Vmcb.Constants
use svm_stuff.Vmcb.Segment.{set_selector, set_attrib, set_limit, set_base, set_member}
use svm_stuff.Vmcb.Stores.{Store, store, run}
use svm_stuff.Vmx.Fields.{VmcsField}
use svm_stuff.Vmx.Controls
use svm_stuff.Vmx.Shadow.{ShadowVmcs}
use svm_stuff.Segment.{vmx_ar_to_svm_attrib}
use svm_stuff.Entry.{
  field, SegMap, k_segs, load_segment, load_segments, load_tables, load_registers, pin_controls,
  cpu_controls, sec_controls, intercept_word, load_intercepts, npt_root, load_paging, load_asid,
  event_word, load_event, translate_vmcs_to_vmcb,
}

abbrev pub segment_stores : ShadowVmcs → SegMap → List Store
segment_stores s m =
    store m.vmcb_off 2 (u16 (field s m.sel_enc))
    ∷ store (m.vmcb_off + 4) 4 (u32 (field s m.limit_enc))
    ∷ store (m.vmcb_off + 8) 8 (field s m.base_enc)
    ∷ store (m.vmcb_off + 2) 2 (vmx_ar_to_svm_attrib (u32 (field s m.ar_enc)))
    ∷ []

abbrev pub all_segment_stores : ShadowVmcs → List SegMap → List Store
all_segment_stores s [] = []
all_segment_stores s (m ∷ ms) = segment_stores s m ++ all_segment_stores s ms

abbrev pub table_stores : ShadowVmcs → List Store
table_stores s =
    store 0x468 8 (field s VmcsField.guest_gdtr_base)
    ∷ store 0x464 4 (u32 (field s VmcsField.guest_gdtr_limit))
    ∷ store 0x488 8 (field s VmcsField.guest_idtr_base)
    ∷ store 0x484 4 (u32 (field s VmcsField.guest_idtr_limit))
    ∷ []

abbrev pub register_stores : ShadowVmcs → List Store
register_stores s =
    store 0x558 8 (field s VmcsField.guest_cr0)
    ∷ store 0x550 8 (field s VmcsField.guest_cr3)
    ∷ store 0x548 8 (field s VmcsField.guest_cr4)
    ∷ store 0x640 8 (field s VmcsField.guest_cr2)
    ∷ store 0x578 8 (field s VmcsField.guest_rip)
    ∷ store 0x5D8 8 (field s VmcsField.guest_rsp)
    ∷ store 0x570 8 (field s VmcsField.guest_rflags)
    ∷ store 0x668 8 (field s VmcsField.guest_ia32_pat)
    ∷ store 0x4D0 8 (bit_or (field s VmcsField.guest_ia32_efer) Constants.efer_svme)
    ∷ []

-- The three words of the control area that depend on tests.
abbrev pub paging_enabled : ShadowVmcs → Bool
paging_enabled s = truthy (bit_and (sec_controls s) Controls.sec_ctl_enable_ept)

abbrev pub vpid : ShadowVmcs → ℕ
vpid s =
    if truthy (bit_and (sec_controls s) Controls.sec_ctl_enable_vpid)
    then u32 (field s VmcsField.virtual_processor_id)
    else 0

abbrev pub asid : ShadowVmcs → ℕ
asid s = if truthy (vpid s) then vpid s else 1

abbrev pub event : ShadowVmcs → ℕ
event s =
    event_word (u32 (field s VmcsField.vm_entry_intr_info))
      (u32 (field s VmcsField.vm_entry_exception_error))

abbrev pub control_stores : ShadowVmcs → List Store
control_stores s =
    store 0x00C 4 (intercept_word (pin_controls s) (cpu_controls s))
    ∷ store 0x010 4 Constants.intercept2_vmrun
    ∷ store 0x008 4 (u32 (field s VmcsField.exception_bitmap))
    ∷ store 0x090 8 (if paging_enabled s then 1 else 0)
    ∷ store 0x0B0 8 (if paging_enabled s then npt_root s else 0)
    ∷ store 0x058 4 (asid s)
    ∷ store 0x0A8 8 (event s)
    ∷ []

abbrev pub entry_stores : ShadowVmcs → List Store
entry_stores s =
    all_segment_stores s k_segs ++ table_stores s ++ register_stores s ++ control_stores s

load_paging-run :
    (s : ShadowVmcs) (p : Page)
    → load_paging s p
      ≡ set_bytes 8
          (set_bytes 8 p 0x090 (if paging_enabled s then 1 else 0))
          0x0B0
          (if paging_enabled s then npt_root s else 0)
unfolding load_paging set_member
load_paging-run s p = elim (Bool-cases (paging_enabled s)) [ inl on ↦ rw on | inr off ↦ rw off ]

-- The translation makes these stores and no other.
pub translate-run :
    (s : ShadowVmcs) (p : Page) → translate_vmcs_to_vmcb s p ≡ run (entry_stores s) p
unfolding translate_vmcs_to_vmcb load_segments load_segment load_tables load_registers
    load_intercepts load_asid load_event set_member set_selector set_attrib set_limit set_base
    vmcb_set64 run
translate-run s p = rw load_paging-run
