-- ===== src/Entry/Named.antt =====
-- The segments of the VMCB after `translateVmcsToVmcb`, register by register, told without the table
-- `kSegs` of src/kern_vmcs_vmcb.cpp.
use svm_stuff.Base.{ℕ, ◌+◌, ◌%◌, ◌^◌, ◌≡◌, ◌∙◌, ap, ◌==◌, if◌then◌else◌, u16, u32}
use svm_stuff.Vmcb.Page.{Page, get_bytes}
use svm_stuff.Vmcb.Segment.{get_selector, get_attrib, get_limit, get_base}
use svm_stuff.Vmx.Fields.{VmcsField}
use svm_stuff.Vmx.Shadow.{ShadowVmcs}
use svm_stuff.Vmx.Shadow.Invariant.{IsValid}
use svm_stuff.Segment.{vmx_ar_to_svm_attrib}
use svm_stuff.Segment.Rights.{
  svm_rights, vmx_rights, unusable, no_rights, svm_rights-vmx_ar_to_svm_attrib,
}
use svm_stuff.Entry.{field, k_segs, translate_vmcs_to_vmcb}
use svm_stuff.Entry.State.{SegmentsLoaded, translate-k_segs}

pub data SegmentRegister : Type 0 where
  es cs ss ds fs gs ldtr tr : SegmentRegister

-- Where the manual has the register in the VMCB.
abbrev pub slot_of : SegmentRegister → ℕ
slot_of es = 0x400
slot_of cs = 0x410
slot_of ss = 0x420
slot_of ds = 0x430
slot_of fs = 0x440
slot_of gs = 0x450
slot_of ldtr = 0x470
slot_of tr = 0x490

-- Its fields in the VMCS.
abbrev pub selector_of : SegmentRegister → VmcsField
selector_of es = VmcsField.guest_es_selector
selector_of cs = VmcsField.guest_cs_selector
selector_of ss = VmcsField.guest_ss_selector
selector_of ds = VmcsField.guest_ds_selector
selector_of fs = VmcsField.guest_fs_selector
selector_of gs = VmcsField.guest_gs_selector
selector_of ldtr = VmcsField.guest_ldtr_selector
selector_of tr = VmcsField.guest_tr_selector

abbrev pub limit_of : SegmentRegister → VmcsField
limit_of es = VmcsField.guest_es_limit
limit_of cs = VmcsField.guest_cs_limit
limit_of ss = VmcsField.guest_ss_limit
limit_of ds = VmcsField.guest_ds_limit
limit_of fs = VmcsField.guest_fs_limit
limit_of gs = VmcsField.guest_gs_limit
limit_of ldtr = VmcsField.guest_ldtr_limit
limit_of tr = VmcsField.guest_tr_limit

abbrev pub base_of : SegmentRegister → VmcsField
base_of es = VmcsField.guest_es_base
base_of cs = VmcsField.guest_cs_base
base_of ss = VmcsField.guest_ss_base
base_of ds = VmcsField.guest_ds_base
base_of fs = VmcsField.guest_fs_base
base_of gs = VmcsField.guest_gs_base
base_of ldtr = VmcsField.guest_ldtr_base
base_of tr = VmcsField.guest_tr_base

abbrev pub rights_of : SegmentRegister → VmcsField
rights_of es = VmcsField.guest_es_ar
rights_of cs = VmcsField.guest_cs_ar
rights_of ss = VmcsField.guest_ss_ar
rights_of ds = VmcsField.guest_ds_ar
rights_of fs = VmcsField.guest_fs_ar
rights_of gs = VmcsField.guest_gs_ar
rights_of ldtr = VmcsField.guest_ldtr_ar
rights_of tr = VmcsField.guest_tr_ar

-- A slot has the selector, the attributes in two bytes, the limit in four and the base in eight.
pub record IsLoaded (s : ShadowVmcs) (q : Page) (r : SegmentRegister) : Type 0 where
  pub selector : get_bytes 2 q (slot_of r) ≡ field s (selector_of r) % 2 ^ 16
  pub limit : get_bytes 4 q (slot_of r + 4) ≡ field s (limit_of r) % 2 ^ 32
  pub base : get_bytes 8 q (slot_of r + 8) ≡ field s (base_of r)
  pub rights : svm_rights (get_bytes 2 q (slot_of r + 2)) ≡ (
      if unusable (field s (rights_of r) % 2 ^ 32) == 1
      then no_rights
      else vmx_rights (field s (rights_of r) % 2 ^ 32))

module _ (s : ShadowVmcs) (q : Page) where
  loaded :
      (r : SegmentRegister)
      → get_bytes 2 q (slot_of r) ≡ u16 (field s (selector_of r))
      → get_bytes 4 q (slot_of r + 4) ≡ u32 (field s (limit_of r))
      → get_bytes 8 q (slot_of r + 8) ≡ field s (base_of r)
      → get_bytes 2 q (slot_of r + 2) ≡ vmx_ar_to_svm_attrib (u32 (field s (rights_of r)))
      → IsLoaded s q r
  loaded r sel lim base ar = record {
    selector = sel;
    limit = lim;
    base = base;
    rights = ap svm_rights ar ∙ svm_rights-vmx_ar_to_svm_attrib (u32 (field s (rights_of r)));
  }

  pub k_segs-IsLoaded : SegmentsLoaded s q k_segs → (r : SegmentRegister) → IsLoaded s q r
  unfolding get_selector get_attrib get_limit get_base
  k_segs-IsLoaded h es = let g = h.0 in loaded es g.selector g.limit g.base g.attrib
  k_segs-IsLoaded h cs = let g = h.1.0 in loaded cs g.selector g.limit g.base g.attrib
  k_segs-IsLoaded h ss = let g = h.1.1.0 in loaded ss g.selector g.limit g.base g.attrib
  k_segs-IsLoaded h ds = let g = h.1.1.1.0 in loaded ds g.selector g.limit g.base g.attrib
  k_segs-IsLoaded h fs = let g = h.1.1.1.1.0 in loaded fs g.selector g.limit g.base g.attrib
  k_segs-IsLoaded h gs = let g = h.1.1.1.1.1.0 in loaded gs g.selector g.limit g.base g.attrib
  k_segs-IsLoaded h ldtr = let g = h.1.1.1.1.1.1.0 in loaded ldtr g.selector g.limit g.base g.attrib
  k_segs-IsLoaded h tr = let g = h.1.1.1.1.1.1.1.0 in loaded tr g.selector g.limit g.base g.attrib

-- From a valid shadow VMCS, each of the segment registers ES, CS, SS, DS, FS, GS, LDTR and TR is
-- loaded from its own fields into its own slot: the selector and the limit cut to their widths, the
-- base, and, field by field, the access rights; an unusable segment has none.
pub translate-SegmentsLoaded :
    (s : ShadowVmcs) (p : Page)
    → IsValid s
    → (r : SegmentRegister) → IsLoaded s (translate_vmcs_to_vmcb s p) r
translate-SegmentsLoaded s p valid =
    k_segs-IsLoaded s (translate_vmcs_to_vmcb s p) (translate-k_segs s p valid)
