-- ===== src/Examples/Samples.antt =====
-- A shadow VMCS as a hypervisor sets it up, and a VMCB page.
use svm_stuff.Base.{◌≡◌, refl, List, [], ◌∷◌, arith}
use svm_stuff.Vmcb.Page.{Page, IsBytes}
use svm_stuff.Vmx.Fields.{VmcsField}
use svm_stuff.Vmx.Shadow.{Field, ShadowVmcs, fresh, write}
use svm_stuff.Vmx.Shadow.Invariant.{IsValid, fresh-IsValid}
use svm_stuff.Vmx.Shadow.Writes.{run_writes, run_writes-IsValid}
use svm_stuff.Sync.Writes.{entry}

abbrev pub zero_page : Page
zero_page a = 0

pub zero_page-IsBytes : IsBytes zero_page
zero_page-IsBytes a = omega arith

-- A 64-bit guest with EPT, VPID 7 and HLT exiting; a page fault is to be injected.
abbrev pub sample_writes : List Field
sample_writes =
    entry VmcsField.guest_cr0 0x80050033
    ∷ entry VmcsField.guest_cr3 0x1000
    ∷ entry VmcsField.guest_rip 0xFFFFFF8000200000
    ∷ entry VmcsField.guest_rflags 0x202
    ∷ entry VmcsField.guest_ia32_efer 0xD01
    ∷ entry VmcsField.guest_cs_selector 0x8
    ∷ entry VmcsField.guest_cs_limit 0xFFFFFFFF
    ∷ entry VmcsField.guest_cs_ar 0xA09B
    ∷ entry VmcsField.guest_ldtr_ar 0x10000
    ∷ entry VmcsField.guest_gdtr_base 0x5000
    ∷ entry VmcsField.pin_exec_control 0x1
    ∷ entry VmcsField.cpu_exec_control 0x80000080
    ∷ entry VmcsField.secondary_exec_ctl 0x22
    ∷ entry VmcsField.virtual_processor_id 7
    ∷ entry VmcsField.ept_pointer 0x7F01E
    ∷ entry VmcsField.vm_entry_intr_info 0x80000B0E
    ∷ entry VmcsField.vm_entry_exception_error 2
    ∷ []

abbrev pub sample : ShadowVmcs
unfolding run_writes write fresh
sample = run_writes sample_writes fresh

pub sample-IsValid : IsValid sample
unfolding run_writes write fresh
sample-IsValid = run_writes-IsValid sample_writes fresh (omega arith) fresh-IsValid

pub sample_count : sample.count ≡ 17
unfolding run_writes write fresh
sample_count = refl
