-- ===== src/Emu/Entered/Given.antt =====
-- The VMCB as `vmlaunchResume` of src/kern_vmx_emu.cpp hands it to the world switch.
use svm_stuff.Base.{ℕ, ◌+◌, ◌/◌, ◌%◌, ◌^◌, ◌≤◌, ◌<◌, ◌≡◌, ◌∙◌, ap, List, [], ◌∷◌, arith, inl, inr}
use svm_stuff.Vmcb.Page.{
  Page, vmcb_get64, vmcb_set64, get_bytes-set_bytes, get_bytes-set_bytes-Apart,
}
use svm_stuff.Vmcb.Layout
use svm_stuff.Vmcb.Segment.{get_selector, get_attrib, get_limit, get_base}
use svm_stuff.Vmx.Shadow.{ShadowVmcs}
use svm_stuff.Vmx.Shadow.Invariant.{IsValid}
use svm_stuff.Entry.{SegMap, k_segs}
use svm_stuff.Entry.State.{
  RegistersLoaded, SegmentLoaded, SegmentsLoaded, translate-RegistersLoaded, translate-k_segs,
}
use svm_stuff.Entry.Named.{SegmentRegister, IsLoaded, k_segs-IsLoaded}
use svm_stuff.Emu.{VmxEmulator}
use svm_stuff.Emu.Launch.{prepare}

-- What the VMCB holds of the guest when the world switch gets it.
pub record Handed (e : VmxEmulator) (q : Page) : Type 0 where
  pub registers : RegistersLoaded e.vmcs q
  pub segments : SegmentsLoaded e.vmcs q k_segs
  pub by_name : (r : SegmentRegister) → IsLoaded e.vmcs q r
  pub rax : vmcb_get64 q Layout.vmcb_rax ≡ e.guest_rax

-- Guest RAX lies behind the segments, and apart from the other registers.
module _ (s : ShadowVmcs) (q : Page) (v : ℕ) where
  abbrev with_rax : Page
  with_rax = vmcb_set64 q Layout.vmcb_rax v

  registers_apart : RegistersLoaded s q → RegistersLoaded s with_rax
  unfolding vmcb_set64 vmcb_get64 get_base get_limit
  registers_apart r = record {
    cr0 = get_bytes-set_bytes-Apart 8 8 q 0x5F8 v 0x558 (inr (omega arith)) ∙ r.cr0;
    cr2 = get_bytes-set_bytes-Apart 8 8 q 0x5F8 v 0x640 (inl (omega arith)) ∙ r.cr2;
    cr3 = get_bytes-set_bytes-Apart 8 8 q 0x5F8 v 0x550 (inr (omega arith)) ∙ r.cr3;
    cr4 = get_bytes-set_bytes-Apart 8 8 q 0x5F8 v 0x548 (inr (omega arith)) ∙ r.cr4;
    rip = get_bytes-set_bytes-Apart 8 8 q 0x5F8 v 0x578 (inr (omega arith)) ∙ r.rip;
    rsp = get_bytes-set_bytes-Apart 8 8 q 0x5F8 v 0x5D8 (inr (omega arith)) ∙ r.rsp;
    rflags = get_bytes-set_bytes-Apart 8 8 q 0x5F8 v 0x570 (inr (omega arith)) ∙ r.rflags;
    pat = get_bytes-set_bytes-Apart 8 8 q 0x5F8 v 0x668 (inl (omega arith)) ∙ r.pat;
    efer = efer_apart ∙ r.efer;
    svme = ap (λ x. x / 2 ^ 12 % 2) efer_apart ∙ r.svme;
    gdtr_base = get_bytes-set_bytes-Apart 8 8 q 0x5F8 v 0x468 (inr (omega arith)) ∙ r.gdtr_base;
    gdtr_limit = get_bytes-set_bytes-Apart 8 4 q 0x5F8 v 0x464 (inr (omega arith)) ∙ r.gdtr_limit;
    idtr_base = get_bytes-set_bytes-Apart 8 8 q 0x5F8 v 0x488 (inr (omega arith)) ∙ r.idtr_base;
    idtr_limit = get_bytes-set_bytes-Apart 8 4 q 0x5F8 v 0x484 (inr (omega arith)) ∙ r.idtr_limit;
  }
    where
      efer_apart : vmcb_get64 with_rax Layout.vmcb_efer ≡ vmcb_get64 q Layout.vmcb_efer
      efer_apart = get_bytes-set_bytes-Apart 8 8 q 0x5F8 v 0x4D0 (inr (omega arith))

  segment_apart :
      (m : SegMap) → m.vmcb_off + 16 ≤ 0x5F8 → SegmentLoaded s q m → SegmentLoaded s with_rax m
  unfolding vmcb_set64 get_selector get_attrib get_limit get_base
  segment_apart m h r = record {
    selector = get_bytes-set_bytes-Apart 8 2 q 0x5F8 v m.vmcb_off (inr (omega arith)) ∙ r.selector;
    limit = get_bytes-set_bytes-Apart 8 4 q 0x5F8 v (m.vmcb_off + 4) (inr (omega arith)) ∙ r.limit;
    base = get_bytes-set_bytes-Apart 8 8 q 0x5F8 v (m.vmcb_off + 8) (inr (omega arith)) ∙ r.base;
    attrib =
        get_bytes-set_bytes-Apart 8 2 q 0x5F8 v (m.vmcb_off + 2) (inr (omega arith)) ∙ r.attrib;
  }

  -- Every slot ends before RAX.
  abbrev Before : List SegMap → Type 0
  Before [] = Unit {0}
  Before (m ∷ ms) = (m.vmcb_off + 16 ≤ 0x5F8) × Before ms

  segments_apart :
      (ms : List SegMap) → Before ms → SegmentsLoaded s q ms → SegmentsLoaded s with_rax ms
  segments_apart [] h r = tt
  segments_apart (m ∷ ms) h r = (segment_apart m h.0 r.0, segments_apart ms h.1 r.1)

pub prepare-Handed :
    (e : VmxEmulator) (p : Page) → IsValid e.vmcs → e.guest_rax < 2 ^ 64 → Handed e (prepare e p)
unfolding prepare vmcb_get64 vmcb_set64
prepare-Handed e p valid small =
    let segments =
      segments_apart e.vmcs _ e.guest_rax k_segs (omega arith) (translate-k_segs e.vmcs p valid) in
    record {
      registers = registers_apart e.vmcs _ e.guest_rax (translate-RegistersLoaded e.vmcs p valid);
      segments = segments;
      by_name = k_segs-IsLoaded e.vmcs _ segments;
      rax = get_bytes-set_bytes 8 _ 0x5F8 e.guest_rax (omega arith);
    }
