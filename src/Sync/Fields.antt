-- ===== src/Sync/Fields.antt =====
-- Every field of the enumeration after an exit: from the VMCB, or as it was.
use svm_stuff.Base.{ℕ, ◌-◌, ◌^◌, ◌≡◌, arith, bit_and, if◌then◌else◌}
use svm_stuff.Vmcb.Page.{Page, vmcb_get64}
use svm_stuff.Vmcb.Layout
use svm_stuff.Vmcb.Segment.{get_selector, get_attrib, get_limit, get_base, get_member}
use svm_stuff.Vmx.Fields.{VmcsField, encoding}
use svm_stuff.Vmx.Shadow.{ShadowVmcs, read}
use svm_stuff.Segment.{svm_attrib_to_vmx_ar}
use svm_stuff.Exit.{svm_exit_to_vmx_reason}
use svm_stuff.Sync.{translate_vmcb_to_vmcs}
use svm_stuff.Sync.Writes.{HasRoom, length_known, instr_length, sync-read, sync-read_length}

-- The value of a field that was `old`.
abbrev pub exit_value : Page → ℕ → VmcsField → ℕ → ℕ
exit_value p n VmcsField.guest_cr0 old = vmcb_get64 p Layout.vmcb_cr0
exit_value p n VmcsField.guest_cr2 old = vmcb_get64 p Layout.vmcb_cr2
exit_value p n VmcsField.guest_cr3 old = vmcb_get64 p Layout.vmcb_cr3
exit_value p n VmcsField.guest_cr4 old = vmcb_get64 p Layout.vmcb_cr4
exit_value p n VmcsField.guest_rip old = vmcb_get64 p Layout.vmcb_rip
exit_value p n VmcsField.guest_rsp old = vmcb_get64 p Layout.vmcb_rsp
exit_value p n VmcsField.guest_rflags old = vmcb_get64 p Layout.vmcb_rflags
exit_value p n VmcsField.guest_ia32_efer old =
    bit_and (vmcb_get64 p Layout.vmcb_efer) (2 ^ 64 - 1 - 2 ^ 12)
exit_value p n VmcsField.vm_exit_reason old =
    svm_exit_to_vmx_reason (get_member Layout.exit_code p) (get_member Layout.exit_info_1 p)
exit_value p n VmcsField.vm_exit_instr_len old = if length_known p n then instr_length p else old
exit_value p n VmcsField.guest_es_selector old = get_selector p Layout.vmcb_seg_es
exit_value p n VmcsField.guest_es_limit old = get_limit p Layout.vmcb_seg_es
exit_value p n VmcsField.guest_es_base old = get_base p Layout.vmcb_seg_es
exit_value p n VmcsField.guest_es_ar old = svm_attrib_to_vmx_ar (get_attrib p Layout.vmcb_seg_es)
exit_value p n VmcsField.guest_cs_selector old = get_selector p Layout.vmcb_seg_cs
exit_value p n VmcsField.guest_cs_limit old = get_limit p Layout.vmcb_seg_cs
exit_value p n VmcsField.guest_cs_base old = get_base p Layout.vmcb_seg_cs
exit_value p n VmcsField.guest_cs_ar old = svm_attrib_to_vmx_ar (get_attrib p Layout.vmcb_seg_cs)
exit_value p n VmcsField.guest_ss_selector old = get_selector p Layout.vmcb_seg_ss
exit_value p n VmcsField.guest_ss_limit old = get_limit p Layout.vmcb_seg_ss
exit_value p n VmcsField.guest_ss_base old = get_base p Layout.vmcb_seg_ss
exit_value p n VmcsField.guest_ss_ar old = svm_attrib_to_vmx_ar (get_attrib p Layout.vmcb_seg_ss)
exit_value p n VmcsField.guest_ds_selector old = get_selector p Layout.vmcb_seg_ds
exit_value p n VmcsField.guest_ds_limit old = get_limit p Layout.vmcb_seg_ds
exit_value p n VmcsField.guest_ds_base old = get_base p Layout.vmcb_seg_ds
exit_value p n VmcsField.guest_ds_ar old = svm_attrib_to_vmx_ar (get_attrib p Layout.vmcb_seg_ds)
exit_value p n VmcsField.guest_fs_selector old = get_selector p Layout.vmcb_seg_fs
exit_value p n VmcsField.guest_fs_limit old = get_limit p Layout.vmcb_seg_fs
exit_value p n VmcsField.guest_fs_base old = get_base p Layout.vmcb_seg_fs
exit_value p n VmcsField.guest_fs_ar old = svm_attrib_to_vmx_ar (get_attrib p Layout.vmcb_seg_fs)
exit_value p n VmcsField.guest_gs_selector old = get_selector p Layout.vmcb_seg_gs
exit_value p n VmcsField.guest_gs_limit old = get_limit p Layout.vmcb_seg_gs
exit_value p n VmcsField.guest_gs_base old = get_base p Layout.vmcb_seg_gs
exit_value p n VmcsField.guest_gs_ar old = svm_attrib_to_vmx_ar (get_attrib p Layout.vmcb_seg_gs)
exit_value p n VmcsField.guest_ldtr_selector old = get_selector p Layout.vmcb_seg_ldtr
exit_value p n VmcsField.guest_ldtr_limit old = get_limit p Layout.vmcb_seg_ldtr
exit_value p n VmcsField.guest_ldtr_base old = get_base p Layout.vmcb_seg_ldtr
exit_value p n VmcsField.guest_ldtr_ar old =
    svm_attrib_to_vmx_ar (get_attrib p Layout.vmcb_seg_ldtr)
exit_value p n VmcsField.guest_tr_selector old = get_selector p Layout.vmcb_seg_tr
exit_value p n VmcsField.guest_tr_limit old = get_limit p Layout.vmcb_seg_tr
exit_value p n VmcsField.guest_tr_base old = get_base p Layout.vmcb_seg_tr
exit_value p n VmcsField.guest_tr_ar old = svm_attrib_to_vmx_ar (get_attrib p Layout.vmcb_seg_tr)
exit_value p n f old = old

-- Where the store has room, every field of the enumeration is as `exit_value` tells after an exit:
-- nine fields and the eight segments come from the VMCB, the instruction length if it is known, and
-- every other field is as it was.
pub sync-exit_value :
    (p : Page) (s : ShadowVmcs) (n : ℕ) (f : VmcsField)
    → HasRoom p n s
    → read (translate_vmcb_to_vmcs p s n) (encoding f) ≡ exit_value p n f (read s (encoding f))
sync-exit_value p s n VmcsField.vm_exit_instr_len room = sync-read_length p s n room
sync-exit_value p s n VmcsField.guest_cr0 room = sync-read p s n _ room (omega arith)
sync-exit_value p s n f room = sync-read p s n (encoding f) room (omega arith)
