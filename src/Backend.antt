-- ===== src/Backend.antt =====
-- src/kern_svm.hpp and src/kern_svm.cpp: finding SVM on the processor and switching it on and off.
-- CPUID, the write of an MSR and IOKit's memory are not in the repository: they are parameters.
pub mod Laws
pub mod Outcomes
pub mod Power
pub mod Off
pub mod Bytes
pub mod Processors
use svm_stuff.Base.{
  ℕ, suc, ◌-◌, ◌^◌, Bool, true, false, ◌||◌, not, Option, none, some, List, [], ◌∷◌, bit_and,
  bit_or, ◌==◌, if◌then◌else◌, ltb, truthy,
}
use svm_stuff.Vmcb.Page.{Page}
use svm_stuff.Vmcb.Constants
use svm_stuff.Vmcb.Layout
use svm_stuff.Vmcb.Segment.{set_member}

-- What CPUID leaves in EAX to EDX.
pub record CpuidRegs : Type 0 where
  pub a : ℕ
  pub b : ℕ
  pub c : ℕ
  pub d : ℕ

-- An `IOBufferMemoryDescriptor` as IOKit reports on it: whether `prepare` succeeds, the first
-- physical segment with its length, and the address in the kernel.
pub record Descriptor : Type 0 where
  pub id : ℕ
  pub prepared : Bool
  pub pa : ℕ
  pub seg : ℕ
  pub va : ℕ

-- The processor and IOKit. `allocate n` is the answer to the allocation number `n`.
pub record Platform : Type 0 where
  pub cpuid : ℕ → ℕ → CpuidRegs
  pub wrmsr : ℕ → ℕ → (ℕ → ℕ) → ℕ → ℕ
  pub allocate : ℕ → Option Descriptor

-- What the backend's calls change: the MSRs of the processor, the pages of memory, how many
-- allocations were made, and the descriptors not released.
pub record System : Type 0 where
  pub msr : ℕ → ℕ
  pub pages : ℕ → Option Page
  pub allocations : ℕ
  pub live : List Descriptor

pub record SvmBackend : Type 0 where
  pub hsave_desc : Option Descriptor
  pub vmcb_desc : Option Descriptor
  pub hsave_pa : ℕ
  pub vmcb : ℕ
  pub vmcb_pa : ℕ
  pub enabled : Bool
  pub svm_revision : ℕ
  pub num_asids : ℕ
  pub svm_features : ℕ

-- A new object.
abbrev pub initial : SvmBackend
initial = record {
  hsave_desc = none;
  vmcb_desc = none;
  hsave_pa = 0;
  vmcb = 0;
  vmcb_pa = 0;
  enabled = false;
  svm_revision = 0;
  num_asids = 0;
  svm_features = 0;
}

-- EBX, EDX and ECX spell the vendor.
abbrev pub vendor_differs : CpuidRegs → Bool
vendor_differs r = (not (r.b == 0x68747541) || not (r.d == 0x69746E65)) || not (r.c == 0x444D4163)

unfoldable pub detect : Platform → System → SvmBackend → SvmBackend × Bool
detect hw y k =
    if vendor_differs (hw.cpuid Constants.cpuid_vendor 0)
    then (k, false)
    else if ltb (hw.cpuid Constants.cpuid_ext_max 0).a Constants.cpuid_svm_features
    then (k, false)
    else if not
        (truthy (bit_and (hw.cpuid Constants.cpuid_ext_features 0).c Constants.cpuid_ecx_svm))
    then (k, false)
    else let r = hw.cpuid Constants.cpuid_svm_features 0 in
      let k = record k { svm_revision = bit_and r.a 0xFF; num_asids = r.b; svm_features = r.d } in
      (k, not (truthy (bit_and (y.msr Constants.msr_vm_cr) Constants.vm_cr_svmdis)))

abbrev pub set_page : (ℕ → Option Page) → ℕ → Option Page → ℕ → Option Page
set_page pages a p b = if b == a then p else pages b

-- `release`: the descriptor is no longer live, and its memory is gone.
abbrev pub remove : ℕ → List Descriptor → List Descriptor
remove id [] = []
remove id (d ∷ ds) = if d.id == id then ds else d ∷ remove id ds

unfoldable pub release : Descriptor → System → System
release d y = record y { live = remove d.id y.live; pages = set_page y.pages d.va none }

-- A descriptor that is not prepared, or whose memory is no whole page, is released again.
unfoldable pub keep_page : Descriptor → System → System × Option Descriptor
keep_page d y =
    if not d.prepared
    then (release d y, none)
    else if ((d.pa == 0) || (d.va == 0)) || ltb d.seg Layout.vmcb_size
    then (release d y, none)
    else (record y { pages = set_page y.pages d.va (some (λ a. 0)) }, some d)

-- `none` where the source returns a null pointer.
unfoldable pub alloc_contiguous_page : Platform → System → System × Option Descriptor
alloc_contiguous_page hw y =
    let called = record y { allocations = suc y.allocations } in
    elim (hw.allocate y.allocations) [
      | none ↦ (called, none)
      | some d ↦ keep_page d (record called { live = d ∷ y.live })
    ]

abbrev pub wrmsr64 : Platform → ℕ → ℕ → System → System
wrmsr64 hw r v y = record y { msr = hw.wrmsr r v y.msr }

-- `complete` and `release` through a pointer that may be null.
abbrev pub release_desc : Option Descriptor → System → System
release_desc none y = y
release_desc (some d) y = release d y

unfoldable pub switch_off : Platform → System → System
switch_off hw y =
    let y =
      wrmsr64 hw Constants.msr_efer
        (bit_and (y.msr Constants.msr_efer) (2 ^ 64 - 1 - Constants.efer_svme)) y in
    wrmsr64 hw Constants.msr_vm_hsave_pa 0 y

unfoldable pub disable : Platform → System → SvmBackend → System × SvmBackend
disable hw y k =
    let y = if k.enabled then switch_off hw y else y in
    let y = release_desc k.hsave_desc (release_desc k.vmcb_desc y) in
    (
      y,
      record k {
        hsave_desc = none;
        vmcb_desc = none;
        hsave_pa = 0;
        vmcb = 0;
        vmcb_pa = 0;
        enabled = false;
      },
    )

-- The VMCB as it is first set up.
abbrev pub first_vmcb : Page → Page
first_vmcb p =
    let p =
      set_member Layout.intercept_1 p (bit_or Constants.intercept_cpuid Constants.intercept_hlt) in
    let p =
      set_member Layout.intercept_2 p
        (bit_or Constants.intercept2_vmrun Constants.intercept2_vmmcall) in
    set_member Layout.guest_asid p 1

-- From the allocation of the VMCB on.
unfoldable pub enable_vmcb : Platform → System → SvmBackend → System × SvmBackend × Bool
enable_vmcb hw y k =
    let (y, answer) = alloc_contiguous_page hw y in
    elim answer [
      | none ↦ let off = disable hw y (record k { vmcb = 0 }) in (off.0, off.1, false)
      | some d ↦ (
        record y { pages = set_page y.pages d.va (some (first_vmcb (λ a. 0))) },
        record k { vmcb_desc = some d; vmcb = d.va; vmcb_pa = d.pa; enabled = true },
        true,
      )
    ]

-- From the write of EFER on.
unfoldable pub enable_svme : Platform → System → SvmBackend → System × SvmBackend × Bool
enable_svme hw y k =
    let y =
      wrmsr64 hw Constants.msr_efer (bit_or (y.msr Constants.msr_efer) Constants.efer_svme) y in
    if truthy (bit_and (y.msr Constants.msr_efer) Constants.efer_svme)
    then enable_vmcb hw (wrmsr64 hw Constants.msr_vm_hsave_pa k.hsave_pa y) k
    else (y, k, false)

unfoldable pub enable : Platform → System → SvmBackend → System × SvmBackend × Bool
enable hw y k =
    let (y, answer) = alloc_contiguous_page hw y in
    elim answer [
      | none ↦ (y, k, false)
      | some d ↦ enable_svme hw y (record k { hsave_desc = some d; hsave_pa = d.pa })
    ]
