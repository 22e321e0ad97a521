-- ===== src/Backend/Outcomes.antt =====
-- How `SvmBackend::enable` of src/kern_svm.cpp can end, by what IOKit and the processor answer.
use svm_stuff.Base.{
  suc, ◌+◌, [], ℕ, ◌/◌, ◌%◌, ◌^◌, ◌≡◌, ◌≢◌, refl, ◌∙◌, arith, Bool, true, false, none, some, ◌∷◌,
  bit_or,
}
use svm_stuff.Vmcb.Constants.{msr_efer, msr_vm_hsave_pa}
use svm_stuff.Backend.{Descriptor, Platform, System, SvmBackend, first_vmcb}
use svm_stuff.Vmcb.Page.{Page, get_bytes, set_bytes-Outside}
use svm_stuff.Vmcb.Segment.{set_member}
use svm_stuff.Vmcb.Stores.Ranges.{in_ranges, in_ranges-Outside}
use svm_stuff.Backend.Laws.{Gives, Refuses, NotOffered}

-- What the manual says of the MSRs and IOKit of the memory: a write changes no other MSR,
-- VM_HSAVE_PA keeps the address of a page, EFER takes a value without SVME as it is, and memory
-- allocated with the mask of a page starts at a page.
pub record IsPlatform (hw : Platform) : Type 0 where
  pub other_msr : (r v r' : ℕ) (msr : ℕ → ℕ) → r' ≢ r → hw.wrmsr r v msr r' ≡ msr r'
  pub keeps_hsave :
      (v : ℕ) (msr : ℕ → ℕ) → v % 0x1000 ≡ 0 → hw.wrmsr msr_vm_hsave_pa v msr msr_vm_hsave_pa ≡ v
  pub takes_efer : (v : ℕ) (msr : ℕ → ℕ) → v / 2 ^ 12 % 2 ≡ 0 → hw.wrmsr msr_efer v msr msr_efer ≡ v
  pub aligned : (n : ℕ) (d : Descriptor) → hw.allocate n ≡ some d → d.pa % 0x1000 ≡ 0

abbrev pub svme : System → ℕ
svme y = y.msr msr_efer / 2 ^ 12 % 2

-- The VMCB as it is first set up: intercepts of CPUID (bit 18), HLT (bit 24), VMRUN and VMMCALL (bits 0
-- and 1), ASID 1, and 0 in all other bytes.
pub record IsFirstVmcb (p : Page) : Type 0 where
  pub intercept_1 : get_bytes 4 p 0x00C ≡ 2 ^ 18 + 2 ^ 24
  pub intercept_2 : get_bytes 4 p 0x010 ≡ 2 ^ 0 + 2 ^ 1
  pub asid : get_bytes 4 p 0x058 ≡ 1
  pub rest : (a : ℕ) → in_ranges a ((0x00C, 8) ∷ (0x058, 4) ∷ []) ≡ false → p a ≡ 0

first_vmcb_rest :
    (a : ℕ) → in_ranges a ((0x00C, 8) ∷ (0x058, 4) ∷ []) ≡ false → first_vmcb (λ a. 0) a ≡ 0
unfolding set_member
first_vmcb_rest a free =
    let first = in_ranges-Outside a (0x00C, 8) ((0x058, 4) ∷ []) free in
    let second = in_ranges-Outside a (0x058, 4) [] first.1 in
    set_bytes-Outside 4 _ 0x058 1 a second.0
    ∙ set_bytes-Outside 4 _ 0x010 3 a (ground (arith, first.0))
    ∙ set_bytes-Outside 4 (λ a. 0) 0x00C (2 ^ 18 + 2 ^ 24) a (ground (arith, first.0))

pub first_vmcb-IsFirstVmcb : IsFirstVmcb (first_vmcb (λ a. 0))
unfolding set_member get_bytes svm_stuff.Vmcb.Page.set_bytes svm_stuff.Vmcb.Page.put
first_vmcb-IsFirstVmcb = record {
  intercept_1 = refl;
  intercept_2 = refl;
  asid = refl;
  rest = first_vmcb_rest;
}

module _ (hw : Platform) (y : System) where
  -- EFER once it is written with SVME set.
  abbrev pub efer_written : ℕ
  efer_written = hw.wrmsr msr_efer (bit_or (y.msr msr_efer) (2 ^ 12)) y.msr msr_efer

  abbrev pub sticks : ℕ
  sticks = efer_written / 2 ^ 12 % 2

  -- No MSR but EFER and VM_HSAVE_PA is changed, and no page but those that the two requests are
  -- answered with.
  pub record Spares (y' : System) : Type 0 where
    pub efer : y'.msr msr_efer ≡ efer_written
    pub msrs : (r : ℕ) → r ≢ msr_efer → r ≢ msr_vm_hsave_pa → y'.msr r ≡ y.msr r
    pub pages :
        (a : ℕ)
        → NotOffered hw y.allocations a
        → NotOffered hw (suc y.allocations) a
        → y'.pages a ≡ y.pages a

  -- SVM is on: both requests gave a page, and SVME sticks.
  pub record SwitchesOn (k : SvmBackend) (y' : System) (k' : SvmBackend) (h v : Descriptor)
      : Type 0 where
    pub save_area : Gives hw y.allocations h
    pub stays : sticks ≡ 1
    pub vmcb : Gives hw (suc y.allocations) v
    pub spares : Spares y'
    pub save_page : h.va ≢ v.va → y'.pages h.va ≡ some (λ a. 0)
    pub first : IsFirstVmcb (first_vmcb (λ a. 0))
    pub backend : k' ≡ record k {
      hsave_desc = some h;
      vmcb_desc = some v;
      hsave_pa = h.pa;
      vmcb = v.va;
      vmcb_pa = v.pa;
      enabled = true;
    }

  -- There is no page for the save area.
  pub record LacksSave (y' : System) : Type 0 where
    pub refused : Refuses hw y.allocations
    pub pages : (a : ℕ) → NotOffered hw y.allocations a → y'.pages a ≡ y.pages a

  -- SVME does not stick.
  pub record LosesSvme (k : SvmBackend) (y' : System) (k' : SvmBackend) (h : Descriptor)
      : Type 0 where
    pub save_area : Gives hw y.allocations h
    pub lost : sticks ≡ 0
    pub efer : y'.msr msr_efer ≡ efer_written
    pub msrs : (r : ℕ) → r ≢ msr_efer → y'.msr r ≡ y.msr r
    pub pages : (a : ℕ) → NotOffered hw y.allocations a → y'.pages a ≡ y.pages a
    pub save_page : y'.pages h.va ≡ some (λ a. 0)
    pub backend : k' ≡ record k { hsave_desc = some h; hsave_pa = h.pa }

  -- There is no page for the VMCB.
  pub record LacksVmcb (k : SvmBackend) (y' : System) (k' : SvmBackend) (h : Descriptor)
      : Type 0 where
    pub save_area : Gives hw y.allocations h
    pub stays : sticks ≡ 1
    pub refused : Refuses hw (suc y.allocations)
    pub spares : Spares y'
    pub backend : k' ≡ record k {
      hsave_desc = none;
      vmcb_desc = none;
      hsave_pa = 0;
      vmcb = 0;
      vmcb_pa = 0;
      enabled = false;
    }

-- How `enable` ends for a backend that is off.
pub data Enabled (hw : Platform) (y : System) (k : SvmBackend)
    : System × SvmBackend × Bool → Type 0 where
  -- SVM is on; the two pages are held, and the VMCB is the first one.
  on :
      {y' : System} {k' : SvmBackend} (h v : Descriptor)
      → svme y' ≡ 1
      → y'.msr msr_vm_hsave_pa ≡ h.pa
      → y'.live ≡ v ∷ h ∷ y.live
      → y'.pages v.va ≡ some (first_vmcb (λ a. 0))
      → v.va ≢ 0
      → (k'.enabled ≡ true)
        × (k'.hsave_desc ≡ some h)
        × (k'.vmcb_desc ≡ some v)
        × (k'.vmcb ≡ v.va)
        × (k'.vmcb_pa ≡ v.pa)
        × (k'.hsave_pa ≡ h.pa)
      → SwitchesOn hw y k y' k' h v
      → Enabled hw y k (y', k', true)
  -- Nothing is held or written.
  no_hsave :
      {y' : System}
      → y'.live ≡ y.live
      → y'.msr ≡ y.msr
      → LacksSave hw y y'
      → Enabled hw y k (y', k, false)
  -- The save area is held though SVM is off.
  not_stuck :
      {y' : System} {k' : SvmBackend} (h : Descriptor)
      → svme y' ≡ 0
      → y'.live ≡ h ∷ y.live
      → (k'.enabled ≡ false) × (k'.hsave_desc ≡ some h)
      → LosesSvme hw y k y' k' h
      → Enabled hw y k (y', k', false)
  -- Both pages are given back, but SVM is on, with the page that was the save area.
  no_vmcb :
      {y' : System} {k' : SvmBackend} (h : Descriptor)
      → svme y' ≡ 1
      → y'.msr msr_vm_hsave_pa ≡ h.pa
      → y'.live ≡ y.live
      → (y'.pages h.va ≡ none)
      → (k'.enabled ≡ false) × (k'.vmcb ≡ 0) × (k'.hsave_desc ≡ none)
      → LacksVmcb hw y k y' k' h
      → Enabled hw y k (y', k', false)
