-- ===== src/Entry/Frame.antt =====
-- What `translateVmcsToVmcb` of src/kern_vmcs_vmcb.cpp leaves in the VMCB as it was.
use svm_stuff.Base.{ℕ, ◌≡◌, refl, sym, ◌∙◌, arith, false, List, [], ◌∷◌}
use svm_stuff.Vmcb.Stores.Ranges.{in_ranges, run-all_inside}
use svm_stuff.Entry.Stores.{entry_stores, translate-run}
use svm_stuff.Vmcb.Page.{Page, get_bytes, vmcb_get8, vmcb_get64}
use svm_stuff.Vmcb.Layout
use svm_stuff.Vmcb.Segment.{get_selector, get_attrib, get_member}
use svm_stuff.Vmx.Shadow.{ShadowVmcs}
use svm_stuff.Entry.{translate_vmcs_to_vmcb}
use svm_stuff.Entry.State.{translate-untouched}

-- The bytes that the guest state and the controls of VMX have in the VMCB: the intercepts of
-- exceptions and both words, the ASID, np_enable, EVENTINJ with N_CR3 behind it, the slots ES to GS, base
-- and limit of GDTR, LDTR, base and limit of IDTR with TR behind it, EFER, CR4 to CR0, RFLAGS and
-- RIP, RSP, CR2, PAT.
abbrev pub loaded_ranges : List (ℕ × ℕ)
loaded_ranges =
    (0x008, 12)
    ∷ (0x058, 4)
    ∷ (0x090, 8)
    ∷ (0x0A8, 16)
    ∷ (0x400, 0x60)
    ∷ (0x464, 0x1C)
    ∷ (0x484, 0x1C)
    ∷ (0x4D0, 8)
    ∷ (0x548, 24)
    ∷ (0x570, 16)
    ∷ (0x5D8, 8)
    ∷ (0x640, 8)
    ∷ (0x668, 8)
    ∷ []

-- `q` has of `p` every byte outside of those; so the CPL, the debug registers, RAX, the registers that only VMLOAD and VMSAVE move, the
-- selectors and rights of GDTR and IDTR, the permission maps, the offset of the TSC and the interrupt
-- shadow.
pub record NotLoaded (p q : Page) : Type 0 where
  pub elsewhere : (a : ℕ) → in_ranges a loaded_ranges ≡ false → q a ≡ p a
  pub cpl : vmcb_get8 q Layout.vmcb_cpl ≡ vmcb_get8 p Layout.vmcb_cpl
  pub dr6 : vmcb_get64 q Layout.vmcb_dr6 ≡ vmcb_get64 p Layout.vmcb_dr6
  pub dr7 : vmcb_get64 q Layout.vmcb_dr7 ≡ vmcb_get64 p Layout.vmcb_dr7
  pub rax : vmcb_get64 q Layout.vmcb_rax ≡ vmcb_get64 p Layout.vmcb_rax
  pub star : vmcb_get64 q Layout.vmcb_star ≡ vmcb_get64 p Layout.vmcb_star
  pub lstar : vmcb_get64 q Layout.vmcb_lstar ≡ vmcb_get64 p Layout.vmcb_lstar
  pub cstar : vmcb_get64 q Layout.vmcb_cstar ≡ vmcb_get64 p Layout.vmcb_cstar
  pub sfmask : vmcb_get64 q Layout.vmcb_sfmask ≡ vmcb_get64 p Layout.vmcb_sfmask
  pub kgsbase : vmcb_get64 q Layout.vmcb_kgsbase ≡ vmcb_get64 p Layout.vmcb_kgsbase
  pub sysentcs : vmcb_get64 q Layout.vmcb_sysentcs ≡ vmcb_get64 p Layout.vmcb_sysentcs
  pub sysentesp : vmcb_get64 q Layout.vmcb_sysentesp ≡ vmcb_get64 p Layout.vmcb_sysentesp
  pub sysenteip : vmcb_get64 q Layout.vmcb_sysenteip ≡ vmcb_get64 p Layout.vmcb_sysenteip
  pub gdtr_selector : get_selector q Layout.vmcb_seg_gdtr ≡ get_selector p Layout.vmcb_seg_gdtr
  pub gdtr_attrib : get_attrib q Layout.vmcb_seg_gdtr ≡ get_attrib p Layout.vmcb_seg_gdtr
  pub idtr_selector : get_selector q Layout.vmcb_seg_idtr ≡ get_selector p Layout.vmcb_seg_idtr
  pub idtr_attrib : get_attrib q Layout.vmcb_seg_idtr ≡ get_attrib p Layout.vmcb_seg_idtr
  pub iopm : get_member Layout.iopm_base_pa q ≡ get_member Layout.iopm_base_pa p
  pub msrpm : get_member Layout.msrpm_base_pa q ≡ get_member Layout.msrpm_base_pa p
  pub tsc : get_member Layout.tsc_offset q ≡ get_member Layout.tsc_offset p
  pub shadow : get_member Layout.interrupt_shadow q ≡ get_member Layout.interrupt_shadow p

one_byte : (p : Page) (a : ℕ) → get_bytes 1 p a ≡ vmcb_get8 p a
unfolding get_bytes vmcb_get8
one_byte p a = omega arith

-- Whatever the shadow VMCS holds, the translation writes to the VMCB only in the bytes of
-- `loaded_ranges`. So it leaves as they were the CPL, which VMRUN takes from there, DR6 and DR7, RAX,
-- the MSRs of SYSCALL and SYSENTER, KernelGSBase, the selectors and rights of GDTR and IDTR, the bases of the
-- permission maps, the offset of the TSC, and the interrupt shadow.
pub translate-NotLoaded : (s : ShadowVmcs) (p : Page) → NotLoaded p (translate_vmcs_to_vmcb s p)
unfolding vmcb_get64 get_selector get_attrib get_member
translate-NotLoaded s p = record {
  elsewhere =
      λ a free. rw translate-run (run-all_inside (entry_stores s) loaded_ranges p a refl free);
  cpl =
      sym (one_byte (translate_vmcs_to_vmcb s p) 0x4CB)
      ∙ translate-untouched s p 1 0x4CB refl
      ∙ one_byte p 0x4CB;
  dr6 = translate-untouched s p 8 0x568 refl;
  dr7 = translate-untouched s p 8 0x560 refl;
  rax = translate-untouched s p 8 0x5F8 refl;
  star = translate-untouched s p 8 0x600 refl;
  lstar = translate-untouched s p 8 0x608 refl;
  cstar = translate-untouched s p 8 0x610 refl;
  sfmask = translate-untouched s p 8 0x618 refl;
  kgsbase = translate-untouched s p 8 0x620 refl;
  sysentcs = translate-untouched s p 8 0x628 refl;
  sysentesp = translate-untouched s p 8 0x630 refl;
  sysenteip = translate-untouched s p 8 0x638 refl;
  gdtr_selector = translate-untouched s p 2 0x460 refl;
  gdtr_attrib = translate-untouched s p 2 0x462 refl;
  idtr_selector = translate-untouched s p 2 0x480 refl;
  idtr_attrib = translate-untouched s p 2 0x482 refl;
  iopm = translate-untouched s p 8 0x040 refl;
  msrpm = translate-untouched s p 8 0x048 refl;
  tsc = translate-untouched s p 8 0x050 refl;
  shadow = translate-untouched s p 8 0x068 refl;
}
