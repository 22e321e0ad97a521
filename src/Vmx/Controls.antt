-- ===== src/Vmx/Controls.antt =====
-- The VMX execution controls, interruption types, exit reasons and opcodes of src/kern_vmx.hpp.
use svm_stuff.Base.{ℕ, ◌^◌, bit_and, u8, ◌>>>◌}

-- Primary, pin-based and secondary controls.
abbrev pub cpu_ctl_hlt_exiting : ℕ
cpu_ctl_hlt_exiting = 2 ^ 7

abbrev pub cpu_ctl_cr3_load_exiting : ℕ
cpu_ctl_cr3_load_exiting = 2 ^ 15

abbrev pub cpu_ctl_cr3_store_exiting : ℕ
cpu_ctl_cr3_store_exiting = 2 ^ 16

abbrev pub cpu_ctl_use_io_bitmaps : ℕ
cpu_ctl_use_io_bitmaps = 2 ^ 25

abbrev pub cpu_ctl_use_msr_bitmap : ℕ
cpu_ctl_use_msr_bitmap = 2 ^ 28

abbrev pub cpu_ctl_secondary_ctls : ℕ
cpu_ctl_secondary_ctls = 2 ^ 31

abbrev pub pin_ctl_ext_intr_exiting : ℕ
pin_ctl_ext_intr_exiting = 2 ^ 0

abbrev pub pin_ctl_nmi_exiting : ℕ
pin_ctl_nmi_exiting = 2 ^ 3

abbrev pub sec_ctl_enable_ept : ℕ
sec_ctl_enable_ept = 2 ^ 1

abbrev pub sec_ctl_enable_vpid : ℕ
sec_ctl_enable_vpid = 2 ^ 5

abbrev pub sec_ctl_unrestricted : ℕ
sec_ctl_unrestricted = 2 ^ 7

abbrev pub vmx_entry_intr_valid : ℕ
vmx_entry_intr_valid = 2 ^ 31

abbrev pub vmx_entry_intr_deliver_ec : ℕ
vmx_entry_intr_deliver_ec = 2 ^ 11

unfoldable pub vmx_entry_vector : ℕ → ℕ
vmx_entry_vector f = u8 (bit_and f 0xFF)

unfoldable pub vmx_entry_type : ℕ → ℕ
vmx_entry_type f = bit_and (f >>> 8) 0x7

abbrev pub vmx_intr_type_ext : ℕ
vmx_intr_type_ext = 0

abbrev pub vmx_intr_type_nmi : ℕ
vmx_intr_type_nmi = 2

abbrev pub vmx_intr_type_hw_excep : ℕ
vmx_intr_type_hw_excep = 3

abbrev pub vmx_intr_type_sw_int : ℕ
vmx_intr_type_sw_int = 4

abbrev pub vmx_intr_type_priv_sw : ℕ
vmx_intr_type_priv_sw = 5

abbrev pub vmx_intr_type_sw_excep : ℕ
vmx_intr_type_sw_excep = 6

pub data VmxExitReason : Type 0 where
  exception_nmi : VmxExitReason
  external_interrupt : VmxExitReason
  triple_fault : VmxExitReason
  cpuid : VmxExitReason
  hlt : VmxExitReason
  vmcall : VmxExitReason
  cr_access : VmxExitReason
  io_instruction : VmxExitReason
  rdmsr : VmxExitReason
  wrmsr : VmxExitReason
  ept_violation : VmxExitReason
  ept_misconfig : VmxExitReason
  unknown : VmxExitReason

abbrev pub reason_code : VmxExitReason → ℕ
reason_code exception_nmi = 0
reason_code external_interrupt = 1
reason_code triple_fault = 2
reason_code cpuid = 10
reason_code hlt = 12
reason_code vmcall = 18
reason_code cr_access = 28
reason_code io_instruction = 30
reason_code rdmsr = 31
reason_code wrmsr = 32
reason_code ept_violation = 48
reason_code ept_misconfig = 49
reason_code unknown = 0xFFFFFFFF

-- The VMX instructions.
pub data VmxOpcode : Type 0 where
  no_op : VmxOpcode
  vmread : VmxOpcode
  vmwrite : VmxOpcode
  vmptrld : VmxOpcode
  vmptrst : VmxOpcode
  vmclear : VmxOpcode
  vmxon : VmxOpcode
  vmlaunch : VmxOpcode
  vmresume : VmxOpcode
  vmxoff : VmxOpcode
  invept : VmxOpcode
  invvpid : VmxOpcode
