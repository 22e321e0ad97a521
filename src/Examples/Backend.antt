-- ===== src/Examples/Backend.antt =====
-- A processor with SVM and an allocator that has pages.
use svm_stuff.Base.{
  ℕ, ◌+◌, ◌*◌, ◌%◌, ◌≡◌, ◌↔◌, refl, sym, ap, ◌∙◌, arith, true, none, some, [], ◌==◌, if◌then◌else◌,
  ==_ne,
}
use svm_stuff.Backend.{
  CpuidRegs, Descriptor, Platform, System, initial, detect, alloc_contiguous_page, keep_page,
  enable, enable_svme, enable_vmcb,
}
use svm_stuff.Backend.Laws.{Supported, detect_iff}
use svm_stuff.Backend.Power.{IsPlatform, Enabled, enable-Enabled}
use svm_stuff.Backend.Processors.{
  Processors, Elsewhere, enable_on, disable_on, disable_on-Elsewhere,
}

abbrev amd : ℕ → ℕ → CpuidRegs
amd leaf subleaf =
    if leaf == 0
    then record { a = 0xD; b = 0x68747541; c = 0x444D4163; d = 0x69746E65 }
    else if leaf == 0x80000000
    then record { a = 0x8000001F; b = 0; c = 0; d = 0 }
    else record { a = 1; b = 0x8000; c = 4; d = 9 }

abbrev page : ℕ → Descriptor
page n = record {
  id = n;
  prepared = true;
  pa = 0x7000 + n * 0x1000;
  seg = 0x1000;
  va = 0x9000 + n * 0x1000;
}

abbrev pub hardware : Platform
hardware = record {
  cpuid = amd;
  wrmsr = λ r v msr r'. if r' == r then v else msr r';
  allocate = λ n. some (page n);
}

abbrev pub boot_system : System
boot_system = record { msr = λ r. 0; pages = λ a. none; allocations = 0; live = [] }

pub hardware-IsPlatform : IsPlatform hardware
hardware-IsPlatform = record {
  other_msr = λ r v r' msr ne. rw (==_ne r' r ne) refl;
  keeps_hsave = λ v msr whole. refl;
  takes_efer = λ v msr clear. refl;
  aligned = λ n d e. ap (λ o. elim o [ none ↦ 0 | some d ↦ d.pa % 0x1000 ]) (sym e) ∙ omega arith;
}

detect_iff_example :
    ((detect hardware boot_system initial).1 ≡ true) ↔ Supported hardware boot_system
detect_iff_example = detect_iff hardware boot_system initial

enable-Enabled_example : Enabled hardware boot_system initial (enable hardware boot_system initial)
enable-Enabled_example = enable-Enabled hardware hardware-IsPlatform boot_system initial refl refl

pub enables : (enable hardware boot_system initial).2 ≡ true
unfolding enable enable_svme enable_vmcb alloc_contiguous_page keep_page
enables = refl

-- No processor has SVM on.
abbrev processors : Processors
processors = record { msrs = λ i r. 0; pages = λ a. none; allocations = 0; live = [] }

disable_on-Elsewhere_example :
    Elsewhere processors
      (enable_on hardware 0 processors initial).0
      (disable_on hardware 1
        (enable_on hardware 0 processors initial).0
        (enable_on hardware 0 processors initial).1).0
      0
      1
disable_on-Elsewhere_example =
    disable_on-Elsewhere hardware hardware-IsPlatform processors initial 0 1 refl refl enables
      (λ e. omega arith)
