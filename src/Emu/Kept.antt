-- ===== src/Emu/Kept.antt =====
-- The guest state of two shadow VMCSs compared, as a round through the VMCB relates them.
use svm_stuff.Base.{
  ℕ, ◌+◌, ◌/◌, ◌%◌, ◌^◌, ◌*◌, ◌≡◌, Bool, List, [], ◌∷◌, arith, if◌then◌else◌, u16, u32, ◌==◌, ◌&&◌,
}
use svm_stuff.Vmx.Fields.{VmcsField}
use svm_stuff.Vmx.Shadow.{ShadowVmcs, read, set_launched}
use svm_stuff.Segment.{vmx_ar_to_svm_attrib, svm_attrib_to_vmx_ar}
use svm_stuff.Segment.Rights.{digits_at, unusable, ar_round_trip}
use svm_stuff.Entry.{field, SegMap, k_segs}

-- A segment before and after: its base is kept, selector and limit are cut to their widths, and
-- the access rights are those of `ar_round_trip`.
pub record SegmentKept (s t : ShadowVmcs) (m : SegMap) : Type 0 where
  pub selector : field t m.sel_enc ≡ u16 (field s m.sel_enc)
  pub limit : field t m.limit_enc ≡ u32 (field s m.limit_enc)
  pub base : field t m.base_enc ≡ field s m.base_enc
  pub ar : field t m.ar_enc ≡ (
      if (unusable (field s m.ar_enc) == 0) && (digits_at (field s m.ar_enc) 7 1 == 1)
      then digits_at (field s m.ar_enc) 0 8 + digits_at (field s m.ar_enc) 12 4 * 2 ^ 12
      else 2 ^ 16)

abbrev pub SegmentsKept : ShadowVmcs → ShadowVmcs → List SegMap → Type 0
SegmentsKept s t [] = Unit {0}
SegmentsKept s t (m ∷ ms) = SegmentKept s t m × SegmentsKept s t ms

pub record GuestKept (s t : ShadowVmcs) : Type 0 where
  pub cr0 : field t VmcsField.guest_cr0 ≡ field s VmcsField.guest_cr0
  pub cr2 : field t VmcsField.guest_cr2 ≡ field s VmcsField.guest_cr2
  pub cr3 : field t VmcsField.guest_cr3 ≡ field s VmcsField.guest_cr3
  pub cr4 : field t VmcsField.guest_cr4 ≡ field s VmcsField.guest_cr4
  pub rip : field t VmcsField.guest_rip ≡ field s VmcsField.guest_rip
  pub rsp : field t VmcsField.guest_rsp ≡ field s VmcsField.guest_rsp
  pub rflags : field t VmcsField.guest_rflags ≡ field s VmcsField.guest_rflags
  -- EFER without SVME
  pub efer :
      field t VmcsField.guest_ia32_efer + field s VmcsField.guest_ia32_efer / 2 ^ 12 % 2 * 2 ^ 12
      ≡ field s VmcsField.guest_ia32_efer
  pub segments : SegmentsKept s t k_segs

-- The launch flag is no field.
pub SegmentsKept-set_launched :
    (s t : ShadowVmcs) (v : Bool) (ms : List SegMap)
    → SegmentsKept s t ms
    → SegmentsKept s (set_launched t v) ms
unfolding read set_launched
SegmentsKept-set_launched s t v [] h = tt
SegmentsKept-set_launched s t v (m ∷ ms) h = (
  record { selector = h.0.selector; limit = h.0.limit; base = h.0.base; ar = h.0.ar },
  SegmentsKept-set_launched s t v ms h.1,
)

pub GuestKept-set_launched :
    (s t : ShadowVmcs) (v : Bool) → GuestKept s t → GuestKept s (set_launched t v)
unfolding read set_launched
GuestKept-set_launched s t v g = record {
  cr0 = g.cr0;
  cr2 = g.cr2;
  cr3 = g.cr3;
  cr4 = g.cr4;
  rip = g.rip;
  rsp = g.rsp;
  rflags = g.rflags;
  efer = g.efer;
  segments = SegmentsKept-set_launched s t v k_segs g.segments;
}

pub cut_ar :
    (x : ℕ)
    → svm_attrib_to_vmx_ar (vmx_ar_to_svm_attrib (u32 x)) ≡ (
        if (unusable x == 0) && (digits_at x 7 1 == 1)
        then digits_at x 0 8 + digits_at x 12 4 * 2 ^ 12
        else 2 ^ 16)
cut_ar x =
    let bit16 : unusable (u32 x) ≡ unusable x = omega arith in
    let bit7 : digits_at (u32 x) 7 1 ≡ digits_at x 7 1 = omega arith in
    let low : digits_at (u32 x) 0 8 ≡ digits_at x 0 8 = omega arith in
    let high : digits_at (u32 x) 12 4 ≡ digits_at x 12 4 = omega arith in
    rw (bit16, bit7, low, high) at (ar_round_trip (u32 x))
