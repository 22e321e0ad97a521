-- ===== src/Vmx/Fields.antt =====
-- The VMCS field encodings of src/kern_vmx.hpp. The stores take any `uint32_t`; the enumeration names
-- those that the translation uses.
use svm_stuff.Base.{ℕ}

pub data VmcsField : Type 0 where
  virtual_processor_id : VmcsField
  guest_es_selector : VmcsField
  guest_cs_selector : VmcsField
  guest_ss_selector : VmcsField
  guest_ds_selector : VmcsField
  guest_fs_selector : VmcsField
  guest_gs_selector : VmcsField
  guest_ldtr_selector : VmcsField
  guest_tr_selector : VmcsField
  io_bitmap_a : VmcsField
  msr_bitmap : VmcsField
  link_pointer : VmcsField
  ept_pointer : VmcsField
  guest_ia32_pat : VmcsField
  guest_ia32_efer : VmcsField
  pin_exec_control : VmcsField
  cpu_exec_control : VmcsField
  exception_bitmap : VmcsField
  vm_exit_controls : VmcsField
  vm_entry_controls : VmcsField
  vm_entry_intr_info : VmcsField
  vm_entry_exception_error : VmcsField
  vm_entry_instr_len : VmcsField
  secondary_exec_ctl : VmcsField
  vm_exit_reason : VmcsField
  vm_exit_intr_info : VmcsField
  vm_exit_intr_error : VmcsField
  idt_vectoring_info : VmcsField
  vm_exit_instr_len : VmcsField
  guest_es_limit : VmcsField
  guest_cs_limit : VmcsField
  guest_ss_limit : VmcsField
  guest_ds_limit : VmcsField
  guest_fs_limit : VmcsField
  guest_gs_limit : VmcsField
  guest_ldtr_limit : VmcsField
  guest_tr_limit : VmcsField
  guest_gdtr_limit : VmcsField
  guest_idtr_limit : VmcsField
  guest_es_ar : VmcsField
  guest_cs_ar : VmcsField
  guest_ss_ar : VmcsField
  guest_ds_ar : VmcsField
  guest_fs_ar : VmcsField
  guest_gs_ar : VmcsField
  guest_ldtr_ar : VmcsField
  guest_tr_ar : VmcsField
  guest_interruptibility : VmcsField
  guest_cr0 : VmcsField
  guest_cr3 : VmcsField
  guest_cr4 : VmcsField
  guest_es_base : VmcsField
  guest_cs_base : VmcsField
  guest_ss_base : VmcsField
  guest_ds_base : VmcsField
  guest_fs_base : VmcsField
  guest_gs_base : VmcsField
  guest_ldtr_base : VmcsField
  guest_tr_base : VmcsField
  guest_gdtr_base : VmcsField
  guest_idtr_base : VmcsField
  guest_rsp : VmcsField
  guest_rip : VmcsField
  guest_rflags : VmcsField
  guest_cr2 : VmcsField

abbrev pub encoding : VmcsField → ℕ
encoding virtual_processor_id = 0x0000
encoding guest_es_selector = 0x0800
encoding guest_cs_selector = 0x0802
encoding guest_ss_selector = 0x0804
encoding guest_ds_selector = 0x0806
encoding guest_fs_selector = 0x0808
encoding guest_gs_selector = 0x080A
encoding guest_ldtr_selector = 0x080C
encoding guest_tr_selector = 0x080E
encoding io_bitmap_a = 0x2000
encoding msr_bitmap = 0x2004
encoding link_pointer = 0x2800
encoding ept_pointer = 0x201A
encoding guest_ia32_pat = 0x2804
encoding guest_ia32_efer = 0x2806
encoding pin_exec_control = 0x4000
encoding cpu_exec_control = 0x4002
encoding exception_bitmap = 0x4004
encoding vm_exit_controls = 0x400C
encoding vm_entry_controls = 0x4012
encoding vm_entry_intr_info = 0x4016
encoding vm_entry_exception_error = 0x4018
encoding vm_entry_instr_len = 0x401A
encoding secondary_exec_ctl = 0x401E
encoding vm_exit_reason = 0x4402
encoding vm_exit_intr_info = 0x4404
encoding vm_exit_intr_error = 0x4406
encoding idt_vectoring_info = 0x4408
encoding vm_exit_instr_len = 0x440C
encoding guest_es_limit = 0x4800
encoding guest_cs_limit = 0x4802
encoding guest_ss_limit = 0x4804
encoding guest_ds_limit = 0x4806
encoding guest_fs_limit = 0x4808
encoding guest_gs_limit = 0x480A
encoding guest_ldtr_limit = 0x480C
encoding guest_tr_limit = 0x480E
encoding guest_gdtr_limit = 0x4810
encoding guest_idtr_limit = 0x4812
encoding guest_es_ar = 0x4814
encoding guest_cs_ar = 0x4816
encoding guest_ss_ar = 0x4818
encoding guest_ds_ar = 0x481A
encoding guest_fs_ar = 0x481C
encoding guest_gs_ar = 0x481E
encoding guest_ldtr_ar = 0x4820
encoding guest_tr_ar = 0x4822
encoding guest_interruptibility = 0x4824
encoding guest_cr0 = 0x6800
encoding guest_cr3 = 0x6802
encoding guest_cr4 = 0x6804
encoding guest_es_base = 0x6806
encoding guest_cs_base = 0x6808
encoding guest_ss_base = 0x680A
encoding guest_ds_base = 0x680C
encoding guest_fs_base = 0x680E
encoding guest_gs_base = 0x6810
encoding guest_ldtr_base = 0x6812
encoding guest_tr_base = 0x6814
encoding guest_gdtr_base = 0x6816
encoding guest_idtr_base = 0x6818
encoding guest_rsp = 0x681C
encoding guest_rip = 0x681E
encoding guest_rflags = 0x6820
encoding guest_cr2 = 0x6822
