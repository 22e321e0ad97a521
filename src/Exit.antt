-- ===== src/Exit.antt =====
-- `svmExitToVmxReason` of src/kern_vmcs_vmcb.cpp: from the SVM exit code to the VMX exit reason.
pub mod Analogue
use svm_stuff.Base.{ℕ, ◌&&◌, bit_and, leb, ◌==◌, if◌then◌else◌, truthy}
use svm_stuff.Vmcb.Constants.{
  vmexit_excp_base, vmexit_excp_last, vmexit_intr, vmexit_nmi, vmexit_cpuid, vmexit_hlt,
  vmexit_ioio, vmexit_msr, vmexit_vmmcall, vmexit_npf,
}
use svm_stuff.Vmx.Controls.{
  VmxExitReason, reason_code, exception_nmi, external_interrupt, cpuid, hlt, vmcall, io_instruction,
  rdmsr, wrmsr, ept_violation, unknown,
}

-- The `switch`, whose cases are distinct constants.
unfoldable pub exit_reason : ℕ → ℕ → VmxExitReason
exit_reason svm_exit_code exit_info_1 =
    if svm_exit_code == vmexit_cpuid
    then cpuid
    else if svm_exit_code == vmexit_hlt
    then hlt
    else if svm_exit_code == vmexit_vmmcall
    then vmcall
    else if svm_exit_code == vmexit_ioio
    then io_instruction
    else if svm_exit_code == vmexit_msr
    then (if truthy (bit_and exit_info_1 1) then wrmsr else rdmsr)
    else if svm_exit_code == vmexit_intr
    then external_interrupt
    else if svm_exit_code == vmexit_nmi
    then exception_nmi
    else if svm_exit_code == vmexit_npf
    then ept_violation
    else if leb vmexit_excp_base svm_exit_code && leb svm_exit_code vmexit_excp_last
    then exception_nmi
    else unknown

-- An enumerator is returned as its `uint32_t`.
unfoldable pub svm_exit_to_vmx_reason : ℕ → ℕ → ℕ
unfolding exit_reason
svm_exit_to_vmx_reason svm_exit_code exit_info_1 =
    reason_code (exit_reason svm_exit_code exit_info_1)
