-- ===== src/Segment.antt =====
-- Segment access rights, src/kern_vmcs_vmcb.cpp: the 32-bit VMX form and the 12-bit SVM form.
pub mod Rights
use svm_stuff.Base.{ℕ, ◌^◌, bit_and, bit_or, ◌==◌, if◌then◌else◌, truthy, u16, ◌<<<◌, ◌>>>◌}

unfoldable pub vmx_ar_to_svm_attrib : ℕ → ℕ
vmx_ar_to_svm_attrib ar =
    if truthy (bit_and ar (2 ^ 16))
    then 0
    else u16 (bit_or (bit_and ar 0xFF) (bit_and (ar >>> 4) 0xF00))

unfoldable pub svm_attrib_to_vmx_ar : ℕ → ℕ
svm_attrib_to_vmx_ar attrib =
    if bit_and attrib 0x80 == 0
    then 2 ^ 16
    else bit_or (bit_and attrib 0xFF) (bit_and attrib 0xF00 <<< 4)
