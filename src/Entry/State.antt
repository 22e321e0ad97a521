-- ===== src/Entry/State.antt =====
-- The guest state in the VMCB after the translation.
use svm_stuff.Base.{
  ℕ, ◌+◌, ◌/◌, ◌%◌, ◌^◌, ◌≤◌, ◌<◌, ◌≡◌, refl, List, [], ◌∷◌, arith, bit_or, u16, u32,
}
use svm_stuff.Bits.{bit_or_bit}
use svm_stuff.Vmcb.Page.{Page, IsBytes, get_bytes, vmcb_get64}
use svm_stuff.Vmcb.Layout
use svm_stuff.Vmcb.Segment.{get_selector, get_attrib, get_limit, get_base}
use svm_stuff.Vmcb.Stores.{
  hit, untouched, last_store, run-hit, run-untouched, run-IsBytes, run-within,
}
use svm_stuff.Vmx.Fields.{VmcsField, encoding}
use svm_stuff.Vmx.Shadow.{ShadowVmcs}
use svm_stuff.Vmx.Shadow.Invariant.{IsValid, read-lt}
use svm_stuff.Segment.{vmx_ar_to_svm_attrib}
use svm_stuff.Segment.Rights.{vmx_ar_to_svm_attrib-lt}
use svm_stuff.Entry.{field, SegMap, k_segs, translate_vmcs_to_vmcb}
use svm_stuff.Entry.Stores.{entry_stores, translate-run}

module _ (s : ShadowVmcs) (p : Page) where
  pub translate-hit :
      (n at : ℕ) {v : ℕ}
      → last_store n at (entry_stores s) ≡ hit v
      → v < 256 ^ n
      → get_bytes n (translate_vmcs_to_vmcb s p) at ≡ v
  translate-hit n at e fits = rw translate-run (run-hit n at (entry_stores s) p e fits)

  pub translate-untouched :
      (n at : ℕ)
      → last_store n at (entry_stores s) ≡ untouched
      → get_bytes n (translate_vmcs_to_vmcb s p) at ≡ get_bytes n p at
  translate-untouched n at e = rw translate-run (run-untouched n at (entry_stores s) p e)

  pub translate-IsBytes : IsBytes p → IsBytes (translate_vmcs_to_vmcb s p)
  translate-IsBytes h = rw translate-run (run-IsBytes (entry_stores s) p h)

  -- The translation writes no byte from offset 0x1000 on, behind the VMCB's page.
  pub translate-in_page : (a : ℕ) → 0x1000 ≤ a → translate_vmcs_to_vmcb s p a ≡ p a
  translate-in_page a h = rw translate-run (run-within 0x1000 (entry_stores s) p a refl h)

-- The registers that VMRUN loads.
pub record RegistersLoaded (s : ShadowVmcs) (q : Page) : Type 0 where
  pub cr0 : vmcb_get64 q Layout.vmcb_cr0 ≡ field s VmcsField.guest_cr0
  pub cr2 : vmcb_get64 q Layout.vmcb_cr2 ≡ field s VmcsField.guest_cr2
  pub cr3 : vmcb_get64 q Layout.vmcb_cr3 ≡ field s VmcsField.guest_cr3
  pub cr4 : vmcb_get64 q Layout.vmcb_cr4 ≡ field s VmcsField.guest_cr4
  pub rip : vmcb_get64 q Layout.vmcb_rip ≡ field s VmcsField.guest_rip
  pub rsp : vmcb_get64 q Layout.vmcb_rsp ≡ field s VmcsField.guest_rsp
  pub rflags : vmcb_get64 q Layout.vmcb_rflags ≡ field s VmcsField.guest_rflags
  pub pat : vmcb_get64 q Layout.vmcb_gpat ≡ field s VmcsField.guest_ia32_pat
  pub efer : vmcb_get64 q Layout.vmcb_efer ≡ bit_or (field s VmcsField.guest_ia32_efer) (2 ^ 12)
  pub svme : vmcb_get64 q Layout.vmcb_efer / 2 ^ 12 % 2 ≡ 1
  pub gdtr_base : get_base q Layout.vmcb_seg_gdtr ≡ field s VmcsField.guest_gdtr_base
  pub gdtr_limit : get_limit q Layout.vmcb_seg_gdtr ≡ u32 (field s VmcsField.guest_gdtr_limit)
  pub idtr_base : get_base q Layout.vmcb_seg_idtr ≡ field s VmcsField.guest_idtr_base
  pub idtr_limit : get_limit q Layout.vmcb_seg_idtr ≡ u32 (field s VmcsField.guest_idtr_limit)

pub record SegmentLoaded (s : ShadowVmcs) (q : Page) (m : SegMap) : Type 0 where
  pub selector : get_selector q m.vmcb_off ≡ u16 (field s m.sel_enc)
  pub limit : get_limit q m.vmcb_off ≡ u32 (field s m.limit_enc)
  pub base : get_base q m.vmcb_off ≡ field s m.base_enc
  pub attrib : get_attrib q m.vmcb_off ≡ vmx_ar_to_svm_attrib (u32 (field s m.ar_enc))

abbrev pub SegmentsLoaded : ShadowVmcs → Page → List SegMap → Type 0
SegmentsLoaded s q [] = Unit {0}
SegmentsLoaded s q (m ∷ ms) = SegmentLoaded s q m × SegmentsLoaded s q ms

efer_fits : (x : ℕ) → x < 2 ^ 64 → bit_or x (2 ^ 12) < 2 ^ 64
efer_fits x h = omega (arith, bit_or_bit 12 x)

module _ (s : ShadowVmcs) (p : Page) (valid : IsValid s) where
  word : (f : VmcsField) → field s f < 2 ^ 64
  word f = read-lt s (encoding f) valid

  -- From a valid shadow VMCS, the control registers, RIP, RSP, RFLAGS, PAT and the descriptor
  -- tables of the VMCB are the guest's; EFER is the guest's with SVME set, which VMRUN requires.
  pub translate-RegistersLoaded : RegistersLoaded s (translate_vmcs_to_vmcb s p)
  unfolding vmcb_get64 get_base get_limit
  translate-RegistersLoaded = record {
    cr0 = translate-hit s p 8 0x558 refl (word VmcsField.guest_cr0);
    cr2 = translate-hit s p 8 0x640 refl (word VmcsField.guest_cr2);
    cr3 = translate-hit s p 8 0x550 refl (word VmcsField.guest_cr3);
    cr4 = translate-hit s p 8 0x548 refl (word VmcsField.guest_cr4);
    rip = translate-hit s p 8 0x578 refl (word VmcsField.guest_rip);
    rsp = translate-hit s p 8 0x5D8 refl (word VmcsField.guest_rsp);
    rflags = translate-hit s p 8 0x570 refl (word VmcsField.guest_rflags);
    pat = translate-hit s p 8 0x668 refl (word VmcsField.guest_ia32_pat);
    efer = efer_loaded;
    svme = rw efer_loaded (omega (arith, bit_or_bit 12 (field s VmcsField.guest_ia32_efer)));
    gdtr_base = translate-hit s p 8 0x468 refl (word VmcsField.guest_gdtr_base);
    gdtr_limit = translate-hit s p 4 0x464 refl (omega arith);
    idtr_base = translate-hit s p 8 0x488 refl (word VmcsField.guest_idtr_base);
    idtr_limit = translate-hit s p 4 0x484 refl (omega arith);
  }
    where
      efer_loaded :
          vmcb_get64 (translate_vmcs_to_vmcb s p) Layout.vmcb_efer
          ≡ bit_or (field s VmcsField.guest_ia32_efer) (2 ^ 12)
      efer_loaded =
          translate-hit s p 8 0x4D0 refl
            (efer_fits (field s VmcsField.guest_ia32_efer) (word VmcsField.guest_ia32_efer))

  segment_loaded :
      (m : SegMap)
      → last_store 2 m.vmcb_off (entry_stores s) ≡ hit (u16 (field s m.sel_enc))
      → last_store 4 (m.vmcb_off + 4) (entry_stores s) ≡ hit (u32 (field s m.limit_enc))
      → last_store 8 (m.vmcb_off + 8) (entry_stores s) ≡ hit (field s m.base_enc)
      → last_store 2 (m.vmcb_off + 2) (entry_stores s)
        ≡ hit (vmx_ar_to_svm_attrib (u32 (field s m.ar_enc)))
      → SegmentLoaded s (translate_vmcs_to_vmcb s p) m
  unfolding get_selector get_attrib get_limit get_base
  segment_loaded m sel limit base ar = record {
    selector = translate-hit s p 2 m.vmcb_off sel (omega arith);
    limit = translate-hit s p 4 (m.vmcb_off + 4) limit (omega arith);
    base = translate-hit s p 8 (m.vmcb_off + 8) base (word m.base_enc);
    attrib =
        translate-hit s p 2 (m.vmcb_off + 2) ar
          (omega (arith, vmx_ar_to_svm_attrib-lt (u32 (field s m.ar_enc))));
  }

  -- Every row of the table `k_segs` is loaded.
  pub translate-k_segs : SegmentsLoaded s (translate_vmcs_to_vmcb s p) k_segs
  translate-k_segs = (
    segment_loaded _ refl refl refl refl,
    (
      segment_loaded _ refl refl refl refl,
      (
        segment_loaded _ refl refl refl refl,
        (
          segment_loaded _ refl refl refl refl,
          (
            segment_loaded _ refl refl refl refl,
            (
              segment_loaded _ refl refl refl refl,
              (segment_loaded _ refl refl refl refl, (segment_loaded _ refl refl refl refl, tt)),
            ),
          ),
        ),
      ),
    ),
  )
