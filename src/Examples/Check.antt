-- ===== src/Examples/Check.antt =====
-- The check of tests/svmcheck.c on a processor with SVM.
use svm_stuff.Base.{
  ℕ, ◌≡◌, refl, arith, ◌&&◌, ◌||◌, not, Option, none, some, ◌==◌, if◌then◌else◌, ltb, truthy,
  bit_and,
}
use svm_stuff.Vmcb.Constants
use svm_stuff.Backend.{CpuidRegs, detect, initial}
use svm_stuff.Check.{svmcheck, same_string, check_leaves, check_flags, ex_ok}
use svm_stuff.Check.Agrees.{max_leaf, IsGetCpuid, HasVendor, learned, svmcheck-detect}
use svm_stuff.Examples.Backend.{hardware, boot_system}

abbrev get_cpuid : ℕ → Option CpuidRegs
get_cpuid leaf =
    if (max_leaf hardware leaf == 0) || ltb (max_leaf hardware leaf) leaf
    then none
    else some (hardware.cpuid leaf 0)

get_cpuid-IsGetCpuid : IsGetCpuid hardware get_cpuid
get_cpuid-IsGetCpuid = record { reports = λ leaf. refl }

passes : (svmcheck get_cpuid).exit_code ≡ ex_ok
unfolding svmcheck same_string check_leaves check_flags
passes = refl

hardware-HasVendor : HasVendor (hardware.cpuid 0 0)
hardware-HasVendor = record { b = omega arith; c = omega arith; d = omega arith }

svmcheck-detect_example :
    ((detect hardware boot_system initial).1 ≡ (
      ((svmcheck get_cpuid).exit_code == 0)
      && not (truthy (bit_and (boot_system.msr Constants.msr_vm_cr) Constants.vm_cr_svmdis))))
    × ((detect hardware boot_system initial).0
        ≡ learned hardware get_cpuid get_cpuid-IsGetCpuid (svmcheck get_cpuid).summary initial)
svmcheck-detect_example =
    svmcheck-detect hardware get_cpuid get_cpuid-IsGetCpuid boot_system initial hardware-HasVendor
      (omega arith)
