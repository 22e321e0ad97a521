-- ===== src/Backend/Off.antt =====
-- Switching SVM off after it was switched on.
use svm_stuff.Base.{
  ℕ, ◌-◌, ◌/◌, ◌%◌, ◌^◌, ◌≡◌, ◌∷◌, refl, sym, subst, ap, ◌∙◌, arith, Bool, true, false, Option,
  none, some, bit_and, ◌==◌, if◌then◌else◌, ==_self,
}
use svm_stuff.Bits.{bit_and_bit, bit_and_complement}
use svm_stuff.Vmcb.Constants.{msr_efer, msr_vm_hsave_pa, efer_svme}
use svm_stuff.Backend.{
  Descriptor, Platform, System, SvmBackend, release, disable, switch_off, enable, remove,
}
use svm_stuff.Vmcb.Page.{Page}
use svm_stuff.Backend.Power.{
  IsPlatform, svme, Enabled, on, no_hsave, not_stuck, no_vmcb, enable-Enabled,
}

-- SVM is off, and nothing is held but what was at first.
pub record SwitchedOff (y0 y : System) (vmcb : ℕ) (k : SvmBackend) : Type 0 where
  pub svme_clear : svme y ≡ 0
  pub no_save_area : y.msr msr_vm_hsave_pa ≡ 0
  pub live : y.live ≡ y0.live
  pub vmcb_gone : y.pages vmcb ≡ none
  pub enabled : k.enabled ≡ false
  pub no_vmcb_pointer : k.vmcb ≡ 0
  pub no_descriptors : (k.hsave_desc ≡ none) × (k.vmcb_desc ≡ none)

svme_cleared : (x : ℕ) → bit_and x (2 ^ 64 - 1 - efer_svme) / 2 ^ 12 % 2 ≡ 0
svme_cleared x = omega (arith, bit_and_bit 12 x, bit_and_complement 64 x (2 ^ 12))

-- A page that one release or another takes away.
pages_off :
    (b : Bool) (h v : Descriptor) (pages : ℕ → Option Page)
    → (if b then none else (if v.va == v.va then none else pages v.va)) ≡ none
pages_off true h v pages = refl
pages_off false h v pages = rw (==_self v.va) refl

module _ (hw : Platform) (is : IsPlatform hw) where
  abbrev efer_written : System → ℕ
  efer_written y = bit_and (y.msr msr_efer) (2 ^ 64 - 1 - efer_svme)

  switch_off-svme : (y : System) → svme (switch_off hw y) ≡ 0
  unfolding switch_off
  switch_off-svme y =
      ap (λ x. x / 2 ^ 12 % 2)
        (is.other_msr msr_vm_hsave_pa 0 msr_efer (hw.wrmsr msr_efer (efer_written y) y.msr)
            (omega arith)
          ∙ is.takes_efer (efer_written y) y.msr (svme_cleared (y.msr msr_efer)))
      ∙ svme_cleared (y.msr msr_efer)

  switch_off-hsave : (y : System) → (switch_off hw y).msr msr_vm_hsave_pa ≡ 0
  unfolding switch_off
  switch_off-hsave y = is.keeps_hsave 0 (hw.wrmsr msr_efer (efer_written y) y.msr) (omega arith)

  -- `disable` of a backend that is on and holds two pages.
  pub disable-SwitchedOff :
      (y0 y : System) (k : SvmBackend) (h v : Descriptor)
      → k.enabled ≡ true
      → k.hsave_desc ≡ some h
      → k.vmcb_desc ≡ some v
      → y.live ≡ v ∷ h ∷ y0.live
      → SwitchedOff y0 (disable hw y k).0 v.va (disable hw y k).1
  unfolding disable release switch_off
  disable-SwitchedOff y0 y k h v e eh ev l =
      rw (e, eh, ev)
        (record {
          svme_clear = switch_off-svme y;
          no_save_area = switch_off-hsave y;
          live =
              ap (λ ds. remove h.id (remove v.id ds)) l
              ∙ rw (==_self v.id) (rw (==_self h.id) refl);
          vmcb_gone = pages_off (v.va == h.va) h v y.pages;
          enabled = refl;
          no_vmcb_pointer = refl;
          no_descriptors = (refl, refl);
        })

  Enabled-SwitchedOff :
      (y0 : System) (k0 : SvmBackend) (r : System × SvmBackend × Bool)
      → Enabled hw y0 k0 r
      → r.2 ≡ true
      → SwitchedOff y0 (disable hw r.0 r.1).0 (r.1).vmcb (disable hw r.0 r.1).1
  Enabled-SwitchedOff y0 k0 r (on {y'} {k'} h v s p l g z (e, eh, ev, eb, ea, ep) w) t =
      subst (λ a. SwitchedOff y0 (disable hw y' k').0 a (disable hw y' k').1) (sym eb)
        (disable-SwitchedOff y0 y' k' h v e eh ev l)
  Enabled-SwitchedOff y0 k0 r (no_hsave l m w) t = cc
  Enabled-SwitchedOff y0 k0 r (not_stuck h s l e w) t = cc
  Enabled-SwitchedOff y0 k0 r (no_vmcb h s p l g e w) t = cc

  -- On hardware and with an allocator that do what their manuals say, `disable` after an `enable` that returned true, of a backend that was off
  -- and held no VMCB, clears SVME and VM_HSAVE_PA, gives back both pages, and leaves no pointer to
  -- them in the backend.
  pub disable-enable :
      (y0 : System) (k0 : SvmBackend)
      → k0.enabled ≡ false
      → k0.vmcb_desc ≡ none
      → (enable hw y0 k0).2 ≡ true
      → SwitchedOff y0
          (disable hw (enable hw y0 k0).0 (enable hw y0 k0).1).0
          ((enable hw y0 k0).1).vmcb
          (disable hw (enable hw y0 k0).0 (enable hw y0 k0).1).1
  disable-enable y0 k0 off unset t =
      Enabled-SwitchedOff y0 k0 (enable hw y0 k0) (enable-Enabled hw is y0 k0 off unset) t
