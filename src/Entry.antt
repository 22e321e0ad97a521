-- ===== src/Entry.antt =====
-- `translateVmcsToVmcb` of src/kern_vmcs_vmcb.cpp: the VMCB for the next entry, from the shadow VMCS.
-- One function for each section of the source, in its order.
pub mod Stores
pub mod State
pub mod Named
pub mod Control
pub mod Injection
pub mod Order
pub mod Frame
use svm_stuff.Base.{
  ℕ, ◌-◌, ◌^◌, Bool, true, false, List, [], ◌∷◌, bit_and, bit_or, ◌==◌, not, if◌then◌else◌, truthy,
  u16, u32,
}
use svm_stuff.Vmcb.Page.{Page, vmcb_set64}
use svm_stuff.Vmcb.Constants
use svm_stuff.Vmcb.Layout
use svm_stuff.Vmcb.Segment.{set_selector, set_attrib, set_limit, set_base, set_member}
use svm_stuff.Vmcb.Event.{eventinj_make}
use svm_stuff.Vmx.Fields.{VmcsField, encoding}
use svm_stuff.Vmx.Controls
use svm_stuff.Vmx.Shadow.{ShadowVmcs, read}
use svm_stuff.Segment.{vmx_ar_to_svm_attrib}
use svm_stuff.Ept.{build_npt_from_ept}

-- `vmcs.read` at a named field.
abbrev pub field : ShadowVmcs → VmcsField → ℕ
field s f = read s (encoding f)

pub record SegMap : Type 0 where
  pub vmcb_off : ℕ
  pub sel_enc : VmcsField
  pub limit_enc : VmcsField
  pub base_enc : VmcsField
  pub ar_enc : VmcsField

abbrev seg_map : ℕ → VmcsField → VmcsField → VmcsField → VmcsField → SegMap
seg_map off sel limit base ar = record {
  vmcb_off = off;
  sel_enc = sel;
  limit_enc = limit;
  base_enc = base;
  ar_enc = ar;
}

abbrev pub k_segs : List SegMap
k_segs =
    seg_map Layout.vmcb_seg_es VmcsField.guest_es_selector VmcsField.guest_es_limit
      VmcsField.guest_es_base VmcsField.guest_es_ar
    ∷ seg_map Layout.vmcb_seg_cs VmcsField.guest_cs_selector VmcsField.guest_cs_limit
        VmcsField.guest_cs_base VmcsField.guest_cs_ar
    ∷ seg_map Layout.vmcb_seg_ss VmcsField.guest_ss_selector VmcsField.guest_ss_limit
        VmcsField.guest_ss_base VmcsField.guest_ss_ar
    ∷ seg_map Layout.vmcb_seg_ds VmcsField.guest_ds_selector VmcsField.guest_ds_limit
        VmcsField.guest_ds_base VmcsField.guest_ds_ar
    ∷ seg_map Layout.vmcb_seg_fs VmcsField.guest_fs_selector VmcsField.guest_fs_limit
        VmcsField.guest_fs_base VmcsField.guest_fs_ar
    ∷ seg_map Layout.vmcb_seg_gs VmcsField.guest_gs_selector VmcsField.guest_gs_limit
        VmcsField.guest_gs_base VmcsField.guest_gs_ar
    ∷ seg_map Layout.vmcb_seg_ldtr VmcsField.guest_ldtr_selector VmcsField.guest_ldtr_limit
        VmcsField.guest_ldtr_base VmcsField.guest_ldtr_ar
    ∷ seg_map Layout.vmcb_seg_tr VmcsField.guest_tr_selector VmcsField.guest_tr_limit
        VmcsField.guest_tr_base VmcsField.guest_tr_ar
    ∷ []

unfoldable pub load_segment : ShadowVmcs → SegMap → Page → Page
load_segment s m p =
    let p = set_selector p m.vmcb_off (u16 (field s m.sel_enc)) in
    let p = set_limit p m.vmcb_off (u32 (field s m.limit_enc)) in
    let p = set_base p m.vmcb_off (field s m.base_enc) in
    set_attrib p m.vmcb_off (vmx_ar_to_svm_attrib (u32 (field s m.ar_enc)))

unfoldable pub load_segments : ShadowVmcs → List SegMap → Page → Page
load_segments s [] p = p
load_segments s (m ∷ ms) p = load_segments s ms (load_segment s m p)

-- GDTR and IDTR have a base and a limit only.
unfoldable pub load_tables : ShadowVmcs → Page → Page
load_tables s p =
    let p = set_base p Layout.vmcb_seg_gdtr (field s VmcsField.guest_gdtr_base) in
    let p = set_limit p Layout.vmcb_seg_gdtr (u32 (field s VmcsField.guest_gdtr_limit)) in
    let p = set_base p Layout.vmcb_seg_idtr (field s VmcsField.guest_idtr_base) in
    set_limit p Layout.vmcb_seg_idtr (u32 (field s VmcsField.guest_idtr_limit))

unfoldable pub load_registers : ShadowVmcs → Page → Page
load_registers s p =
    let p = vmcb_set64 p Layout.vmcb_cr0 (field s VmcsField.guest_cr0) in
    let p = vmcb_set64 p Layout.vmcb_cr3 (field s VmcsField.guest_cr3) in
    let p = vmcb_set64 p Layout.vmcb_cr4 (field s VmcsField.guest_cr4) in
    let p = vmcb_set64 p Layout.vmcb_cr2 (field s VmcsField.guest_cr2) in
    let p = vmcb_set64 p Layout.vmcb_rip (field s VmcsField.guest_rip) in
    let p = vmcb_set64 p Layout.vmcb_rsp (field s VmcsField.guest_rsp) in
    let p = vmcb_set64 p Layout.vmcb_rflags (field s VmcsField.guest_rflags) in
    let p = vmcb_set64 p Layout.vmcb_gpat (field s VmcsField.guest_ia32_pat) in
    vmcb_set64 p Layout.vmcb_efer (bit_or (field s VmcsField.guest_ia32_efer) Constants.efer_svme)

-- The locals `pin`, `cpu` and `sec`.
unfoldable pub pin_controls : ShadowVmcs → ℕ
pin_controls s = u32 (field s VmcsField.pin_exec_control)

unfoldable pub cpu_controls : ShadowVmcs → ℕ
cpu_controls s = u32 (field s VmcsField.cpu_exec_control)

unfoldable pub sec_controls : ShadowVmcs → ℕ
sec_controls s =
    if truthy (bit_and (cpu_controls s) Controls.cpu_ctl_secondary_ctls)
    then u32 (field s VmcsField.secondary_exec_ctl)
    else 0

unfoldable pub intercept_word : ℕ → ℕ → ℕ
intercept_word pin cpu =
    let intercept1 : ℕ = 0 in
    let intercept1 =
      if truthy (bit_and pin Controls.pin_ctl_ext_intr_exiting)
      then bit_or intercept1 Constants.intercept_intr
      else intercept1 in
    if truthy (bit_and cpu Controls.cpu_ctl_hlt_exiting)
    then bit_or intercept1 Constants.intercept_hlt
    else intercept1

unfoldable pub load_intercepts : ShadowVmcs → Page → Page
load_intercepts s p =
    let p = set_member Layout.intercept_1 p (intercept_word (pin_controls s) (cpu_controls s)) in
    let p = set_member Layout.intercept_2 p Constants.intercept2_vmrun in
    set_member Layout.intercept_exceptions p (u32 (field s VmcsField.exception_bitmap))

-- N_CR3: the rebuilt tables, or the EPT root where none were built.
unfoldable pub npt_root : ShadowVmcs → ℕ
npt_root s =
    let npt = build_npt_from_ept (field s VmcsField.ept_pointer) in
    if truthy npt then npt else bit_and (field s VmcsField.ept_pointer) (2 ^ 64 - 1 - 0xFFF)

unfoldable pub load_paging : ShadowVmcs → Page → Page
load_paging s p =
    if truthy (bit_and (sec_controls s) Controls.sec_ctl_enable_ept)
    then (let p = set_member Layout.np_enable p 1 in set_member Layout.nested_cr3 p (npt_root s))
    else (let p = set_member Layout.np_enable p 0 in set_member Layout.nested_cr3 p 0)

unfoldable pub load_asid : ShadowVmcs → Page → Page
load_asid s p =
    let vpid =
      if truthy (bit_and (sec_controls s) Controls.sec_ctl_enable_vpid)
      then u32 (field s VmcsField.virtual_processor_id)
      else 0 in
    set_member Layout.guest_asid p (if truthy vpid then vpid else 1)

-- The `switch` on the type of the event.
unfoldable pub svm_event_type : ℕ → ℕ
svm_event_type t =
    if t == Controls.vmx_intr_type_ext
    then Constants.eventinj_type_intr
    else if t == Controls.vmx_intr_type_nmi
    then Constants.eventinj_type_nmi
    else if t == Controls.vmx_intr_type_sw_int
    then Constants.eventinj_type_soft
    else Constants.eventinj_type_except

unfoldable pub event_word : ℕ → ℕ → ℕ
event_word entry_info err_code =
    if truthy (bit_and entry_info Controls.vmx_entry_intr_valid)
    then eventinj_make (Controls.vmx_entry_vector entry_info)
        (svm_event_type (Controls.vmx_entry_type entry_info))
        (truthy (bit_and entry_info Controls.vmx_entry_intr_deliver_ec)) err_code
    else 0

unfoldable pub load_event : ShadowVmcs → Page → Page
load_event s p = vmcb_set64 p Layout.vmcb_ctl_eventinj (
    event_word (u32 (field s VmcsField.vm_entry_intr_info))
      (u32 (field s VmcsField.vm_entry_exception_error)))

unfoldable pub translate_vmcs_to_vmcb : ShadowVmcs → Page → Page
translate_vmcs_to_vmcb s p =
    let p = load_segments s k_segs p in
    let p = load_tables s p in
    let p = load_registers s p in
    let p = load_intercepts s p in
    let p = load_paging s p in let p = load_asid s p in load_event s p
