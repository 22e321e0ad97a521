-- ===== src/Check.antt =====
-- tests/svmcheck.c: the program that reports SVM from user space, next to `SvmBackend::detect`.
-- `__get_cpuid` comes with the compiler: it is a parameter, from a leaf to the registers, or to
-- `none` where it returns 0. What is printed is the report; the names and notes are left out.
pub mod Agrees
use mathlib.Core.Option
use svm_stuff.Base.{
  ℕ, ◌/◌, ◌%◌, ◌^◌, Bool, true, false, ◌&&◌, ◌||◌, not, Option, none, some, List, [], ◌∷◌, ◌++◌,
  bit_and, ◌==◌, if◌then◌else◌, ltb, truthy,
}
use svm_stuff.Backend.{CpuidRegs}

abbrev pub ex_ok : ℕ
ex_ok = 0

abbrev pub ex_not_amd : ℕ
ex_not_amd = 1

abbrev pub ex_no_svm : ℕ
ex_no_svm = 2

abbrev pub ex_no_leaf : ℕ
ex_no_leaf = 3

-- The bits of the feature table, in its order.
abbrev pub k_features : List ℕ
k_features = 0 ∷ 1 ∷ 2 ∷ 3 ∷ 4 ∷ 5 ∷ 6 ∷ 7 ∷ 10 ∷ 12 ∷ 13 ∷ 15 ∷ 16 ∷ []

-- What the program prints of a processor with SVM.
pub record Summary : Type 0 where
  pub rev : ℕ
  pub asids : ℕ
  pub edx : ℕ
  pub features : List Bool
  pub np : Bool
  pub nrips : Bool

pub record Report : Type 0 where
  pub exit_code : ℕ
  pub summary : Option Summary

-- Four characters as `memcpy` takes them from a register.
abbrev pub chars : ℕ → List ℕ
chars w = w % 2 ^ 8 ∷ w / 2 ^ 8 % 2 ^ 8 ∷ w / 2 ^ 16 % 2 ^ 8 ∷ w / 2 ^ 24 % 2 ^ 8 ∷ []

abbrev pub vendor : CpuidRegs → List ℕ
vendor r = chars r.b ++ chars r.d ++ chars r.c ++ 0 ∷ []

-- "AuthenticAMD"
abbrev pub amd : List ℕ
amd = 0x41 ∷ 0x75 ∷ 0x74 ∷ 0x68 ∷ 0x65 ∷ 0x6E ∷ 0x74 ∷ 0x69 ∷ 0x63 ∷ 0x41 ∷ 0x4D ∷ 0x44 ∷ 0 ∷ []

-- `strcmp` is 0: equal up to the first NUL.
unfoldable pub same_string : List ℕ → List ℕ → Bool
same_string (a ∷ s) (b ∷ t) = (a == b) && ((a == 0) || same_string s t)
same_string _ _ = false

abbrev pub features_on : ℕ → List ℕ → List Bool
features_on edx [] = []
features_on edx (k ∷ ks) = truthy (bit_and (edx / 2 ^ k) 1) ∷ features_on edx ks

abbrev pub summarise : CpuidRegs → Summary
summarise r = record {
  rev = bit_and r.a 0xFF;
  asids = r.b;
  edx = r.d;
  features = features_on r.d k_features;
  np = truthy (bit_and r.d (2 ^ 0));
  nrips = truthy (bit_and r.d (2 ^ 3));
}

abbrev pub failure : ℕ → Report
failure code = record { exit_code = code; summary = none }

-- The last two calls do not look at the result: a leaf that is not there leaves the registers.
unfoldable pub check_flags : (ℕ → Option CpuidRegs) → CpuidRegs → Report
check_flags get_cpuid r =
    let r = Option.get_or (get_cpuid 0x80000001) r in
    if not (truthy (bit_and r.c (2 ^ 2)))
    then failure ex_no_svm
    else let r = Option.get_or (get_cpuid 0x8000000A) r in
      record { exit_code = ex_ok; summary = some (summarise r) }

unfoldable pub check_leaves : (ℕ → Option CpuidRegs) → Report
unfolding check_flags
check_leaves get_cpuid = elim (get_cpuid 0x80000000) [
  | none ↦ failure ex_no_leaf
  | some r ↦ if ltb r.a 0x8000000A then failure ex_no_leaf else check_flags get_cpuid r
]

unfoldable pub svmcheck : (ℕ → Option CpuidRegs) → Report
unfolding same_string check_leaves
svmcheck get_cpuid = elim (get_cpuid 0) [
  | none ↦ failure ex_not_amd
  | some r ↦ if not (same_string (vendor r) amd) then failure ex_not_amd else check_leaves get_cpuid
]
