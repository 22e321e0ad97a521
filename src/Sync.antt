-- ===== src/Sync.antt =====
-- `translateVmcbToVmcs` of src/kern_vmcs_vmcb.cpp: guest state and exit information of the VMCB, back
-- into the shadow VMCS. The source ignores what each `write` returns.
pub mod Writes
pub mod State
pub mod Valid
pub mod Fields
pub mod Room
use svm_stuff.Base.{ℕ, ◌-◌, ◌^◌, ◌&&◌, List, [], ◌∷◌, bit_and, ltb, if◌then◌else◌, truthy}
use svm_stuff.Vmcb.Page.{Page, vmcb_get64}
use svm_stuff.Vmcb.Constants
use svm_stuff.Vmcb.Layout
use svm_stuff.Vmcb.Segment.{get_selector, get_attrib, get_limit, get_base, get_member}
use svm_stuff.Vmx.Fields.{VmcsField, encoding}
use svm_stuff.Vmx.Shadow.{ShadowVmcs, write}
use svm_stuff.Segment.{svm_attrib_to_vmx_ar}
use svm_stuff.Exit.{svm_exit_to_vmx_reason}
use svm_stuff.Entry.{SegMap, k_segs}

abbrev pub put : VmcsField → ℕ → ShadowVmcs → ShadowVmcs
put f v s = (write s (encoding f) v).0

unfoldable pub save_registers : Page → ShadowVmcs → ShadowVmcs
save_registers p s =
    let s = put VmcsField.guest_cr0 (vmcb_get64 p Layout.vmcb_cr0) s in
    let s = put VmcsField.guest_cr3 (vmcb_get64 p Layout.vmcb_cr3) s in
    let s = put VmcsField.guest_cr4 (vmcb_get64 p Layout.vmcb_cr4) s in
    let s = put VmcsField.guest_cr2 (vmcb_get64 p Layout.vmcb_cr2) s in
    let s = put VmcsField.guest_rip (vmcb_get64 p Layout.vmcb_rip) s in
    let s = put VmcsField.guest_rsp (vmcb_get64 p Layout.vmcb_rsp) s in
    let s = put VmcsField.guest_rflags (vmcb_get64 p Layout.vmcb_rflags) s in
    put VmcsField.guest_ia32_efer
      (bit_and (vmcb_get64 p Layout.vmcb_efer) (2 ^ 64 - 1 - Constants.efer_svme)) s

unfoldable pub save_segment : Page → SegMap → ShadowVmcs → ShadowVmcs
save_segment p m s =
    let s = put m.sel_enc (get_selector p m.vmcb_off) s in
    let s = put m.limit_enc (get_limit p m.vmcb_off) s in
    let s = put m.base_enc (get_base p m.vmcb_off) s in
    put m.ar_enc (svm_attrib_to_vmx_ar (get_attrib p m.vmcb_off)) s

unfoldable pub save_segments : Page → List SegMap → ShadowVmcs → ShadowVmcs
save_segments p [] s = s
save_segments p (m ∷ ms) s = save_segments p ms (save_segment p m s)

unfoldable pub save_reason : Page → ShadowVmcs → ShadowVmcs
save_reason p s =
    put VmcsField.vm_exit_reason
      (svm_exit_to_vmx_reason (get_member Layout.exit_code p) (get_member Layout.exit_info_1 p)) s

-- With NRIPS the CPU records the next RIP, which gives the length of the instruction.
unfoldable pub save_length : Page → ℕ → ShadowVmcs → ShadowVmcs
save_length p svm_features s =
    if truthy (bit_and svm_features Constants.svm_feature_nrips)
    then (let nrip = vmcb_get64 p Layout.vmcb_ctl_nrip in
        let rip = vmcb_get64 p Layout.vmcb_rip in
        if ltb rip nrip then put VmcsField.vm_exit_instr_len (nrip - rip) s else s)
    else s

unfoldable pub translate_vmcb_to_vmcs : Page → ShadowVmcs → ℕ → ShadowVmcs
translate_vmcb_to_vmcs p s svm_features =
    let s = save_registers p s in
    let s = save_segments p k_segs s in let s = save_reason p s in save_length p svm_features s
