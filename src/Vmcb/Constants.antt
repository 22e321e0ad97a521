-- ===== src/Vmcb/Constants.antt =====
-- The constants of src/SVM.h, in its order. A bit `1u << k` is `2 ^ k`; VMEXIT_INVALID, -1, is the
-- `uint64_t` that the exit code is compared as.
use svm_stuff.Base.{ℕ, ◌-◌, ◌^◌}

abbrev pub cpuid_vendor : ℕ
cpuid_vendor = 0x00000000

abbrev pub cpuid_ext_max : ℕ
cpuid_ext_max = 0x80000000

abbrev pub cpuid_ext_features : ℕ
cpuid_ext_features = 0x80000001

abbrev pub cpuid_svm_features : ℕ
cpuid_svm_features = 0x8000000A

abbrev pub cpuid_ecx_svm : ℕ
cpuid_ecx_svm = 2 ^ 2

abbrev pub svm_feature_np : ℕ
svm_feature_np = 2 ^ 0

abbrev pub svm_feature_lbrvirt : ℕ
svm_feature_lbrvirt = 2 ^ 1

abbrev pub svm_feature_svml : ℕ
svm_feature_svml = 2 ^ 2

abbrev pub svm_feature_nrips : ℕ
svm_feature_nrips = 2 ^ 3

abbrev pub svm_feature_tscrate : ℕ
svm_feature_tscrate = 2 ^ 4

abbrev pub svm_feature_vmcbclean : ℕ
svm_feature_vmcbclean = 2 ^ 5

abbrev pub svm_feature_flushbyasid : ℕ
svm_feature_flushbyasid = 2 ^ 6

abbrev pub svm_feature_decodeassist : ℕ
svm_feature_decodeassist = 2 ^ 7

abbrev pub svm_feature_pausefilter : ℕ
svm_feature_pausefilter = 2 ^ 10

abbrev pub msr_efer : ℕ
msr_efer = 0xC0000080

abbrev pub efer_svme : ℕ
efer_svme = 2 ^ 12

abbrev pub msr_vm_cr : ℕ
msr_vm_cr = 0xC0010114

abbrev pub vm_cr_dpd : ℕ
vm_cr_dpd = 2 ^ 0

abbrev pub vm_cr_r_init : ℕ
vm_cr_r_init = 2 ^ 1

abbrev pub vm_cr_dis_a20m : ℕ
vm_cr_dis_a20m = 2 ^ 2

abbrev pub vm_cr_lock : ℕ
vm_cr_lock = 2 ^ 3

abbrev pub vm_cr_svmdis : ℕ
vm_cr_svmdis = 2 ^ 4

abbrev pub msr_vm_hsave_pa : ℕ
msr_vm_hsave_pa = 0xC0010117

abbrev pub intercept_intr : ℕ
intercept_intr = 2 ^ 0

abbrev pub intercept_cpuid : ℕ
intercept_cpuid = 2 ^ 18

abbrev pub intercept_hlt : ℕ
intercept_hlt = 2 ^ 24

abbrev pub intercept2_vmrun : ℕ
intercept2_vmrun = 2 ^ 0

abbrev pub intercept2_vmmcall : ℕ
intercept2_vmmcall = 2 ^ 1

abbrev pub vmexit_excp_base : ℕ
vmexit_excp_base = 0x040

abbrev pub vmexit_excp_last : ℕ
vmexit_excp_last = 0x05F

abbrev pub vmexit_intr : ℕ
vmexit_intr = 0x060

abbrev pub vmexit_nmi : ℕ
vmexit_nmi = 0x061

abbrev pub vmexit_cpuid : ℕ
vmexit_cpuid = 0x072

abbrev pub vmexit_hlt : ℕ
vmexit_hlt = 0x078

abbrev pub vmexit_ioio : ℕ
vmexit_ioio = 0x07B

abbrev pub vmexit_msr : ℕ
vmexit_msr = 0x07C

abbrev pub vmexit_vmmcall : ℕ
vmexit_vmmcall = 0x081

abbrev pub vmexit_npf : ℕ
vmexit_npf = 0x400

abbrev pub vmexit_invalid : ℕ
vmexit_invalid = 2 ^ 64 - 1

abbrev pub eventinj_type_intr : ℕ
eventinj_type_intr = 0

abbrev pub eventinj_type_nmi : ℕ
eventinj_type_nmi = 2

abbrev pub eventinj_type_except : ℕ
eventinj_type_except = 3

abbrev pub eventinj_type_soft : ℕ
eventinj_type_soft = 4

abbrev pub eventinj_ev : ℕ
eventinj_ev = 2 ^ 11

abbrev pub eventinj_valid : ℕ
eventinj_valid = 2 ^ 31
