-- ===== src/Emu/Resumed.antt =====
-- What a launch of src/kern_vmx_emu.cpp hands over, against the exit before it.
pub mod Next
pub mod Loop
use svm_stuff.Base.{
  ℕ, ◌+◌, ◌%◌, ◌-◌, ◌^◌, ◌≤◌, ◌<◌, ◌≡◌, ◌≢◌, refl, sym, ap, ◌∙◌, arith, some, List, [], ◌∷◌,
  bit_and, bit_or, ◌==◌, if◌then◌else◌, u16, u32, inr, ==_ne, ==_self,
}
use svm_stuff.Bits.{bit_and_complement, bit_or_bit, bit_and_bit}
use svm_stuff.Vmcb.Page.{
  Page, IsBytes, vmcb_get64, vmcb_set64, get_bytes-lt, get_bytes-set_bytes-Apart,
}
use svm_stuff.Vmcb.Layout
use svm_stuff.Vmcb.Segment.{get_selector, get_attrib, get_limit, get_base}
use svm_stuff.Vmx.Shadow.{ShadowVmcs, set_launched}
use svm_stuff.Segment.Rights.{svm_rights, slot_round_trip}
use svm_stuff.Entry.{SegMap, k_segs, translate_vmcs_to_vmcb}
use svm_stuff.Entry.Stores.{event}
use svm_stuff.Entry.State.{SegmentLoaded, SegmentsLoaded}
use svm_stuff.Entry.Injection.{translate-eventinj}
use svm_stuff.Sync.State.{SegmentSaved, SegmentsSaved, NotRefreshed}
use svm_stuff.Vmx.Shadow.Refine.{view}
use svm_stuff.Vmx.Shadow.Room.{RoomFor}
use svm_stuff.Sync.Room.{exit_fields, HasRoom-RoomFor, sync-RoomFor}
use svm_stuff.Emu.{GuestGprs, VmxEmulator, Machine}
use svm_stuff.Emu.Launch.{WorldSwitch, prepare, enter_guest, finish, run_guest, vmlaunch_resume}
use svm_stuff.Emu.Entered.{Handed, Kept, prepare-Handed, finish-Kept}
use svm_stuff.Emu.Trace.{IsSound, KeepsBytes, prepare-IsBytes, run_guest-IsSound}

-- A slot of the page `q` that an exit left, and of the page `r` of the next launch. The rights of a
-- segment that is not present are gone.
pub record SegmentResumed (q r : Page) (m : SegMap) : Type 0 where
  pub selector : get_selector r m.vmcb_off ≡ get_selector q m.vmcb_off
  pub limit : get_limit r m.vmcb_off ≡ get_limit q m.vmcb_off
  pub base : get_base r m.vmcb_off ≡ get_base q m.vmcb_off
  pub attrib : get_attrib r m.vmcb_off ≡ (
      if (svm_rights (get_attrib q m.vmcb_off)).present == 1
      then get_attrib q m.vmcb_off % 2 ^ 12
      else 0)

abbrev pub SegmentsResumed : Page → Page → List SegMap → Type 0
SegmentsResumed q r [] = Unit {0}
SegmentsResumed q r (m ∷ ms) = SegmentResumed q r m × SegmentsResumed q r ms

-- The page `r` of a launch after the launch of `given` that left `q`: what the exit brings, and what
-- is again as it was in `given`.
pub record Resumed (given q r : Page) : Type 0 where
  pub cr0 : vmcb_get64 r Layout.vmcb_cr0 ≡ vmcb_get64 q Layout.vmcb_cr0
  pub cr2 : vmcb_get64 r Layout.vmcb_cr2 ≡ vmcb_get64 q Layout.vmcb_cr2
  pub cr3 : vmcb_get64 r Layout.vmcb_cr3 ≡ vmcb_get64 q Layout.vmcb_cr3
  pub cr4 : vmcb_get64 r Layout.vmcb_cr4 ≡ vmcb_get64 q Layout.vmcb_cr4
  pub rip : vmcb_get64 r Layout.vmcb_rip ≡ vmcb_get64 q Layout.vmcb_rip
  pub rsp : vmcb_get64 r Layout.vmcb_rsp ≡ vmcb_get64 q Layout.vmcb_rsp
  pub rflags : vmcb_get64 r Layout.vmcb_rflags ≡ vmcb_get64 q Layout.vmcb_rflags
  pub rax : vmcb_get64 r Layout.vmcb_rax ≡ vmcb_get64 q Layout.vmcb_rax
  pub efer : vmcb_get64 r Layout.vmcb_efer ≡ bit_or (vmcb_get64 q Layout.vmcb_efer) (2 ^ 12)
  pub segments : SegmentsResumed q r k_segs
  pub gdtr_base : get_base r Layout.vmcb_seg_gdtr ≡ get_base given Layout.vmcb_seg_gdtr
  pub gdtr_limit : get_limit r Layout.vmcb_seg_gdtr ≡ get_limit given Layout.vmcb_seg_gdtr
  pub idtr_base : get_base r Layout.vmcb_seg_idtr ≡ get_base given Layout.vmcb_seg_idtr
  pub idtr_limit : get_limit r Layout.vmcb_seg_idtr ≡ get_limit given Layout.vmcb_seg_idtr
  pub pat : vmcb_get64 r Layout.vmcb_gpat ≡ vmcb_get64 given Layout.vmcb_gpat
  pub eventinj : vmcb_get64 r Layout.vmcb_ctl_eventinj ≡ vmcb_get64 given Layout.vmcb_ctl_eventinj

-- SVME is taken out and set again.
svme_lem :
    (x : ℕ) → x < 2 ^ 64 → bit_or (bit_and x (2 ^ 64 - 1 - 2 ^ 12)) (2 ^ 12) ≡ bit_or x (2 ^ 12)
svme_lem x h = omega (
  arith,
  bit_or_bit 12 x,
  bit_or_bit 12 (bit_and x (2 ^ 64 - 1 - 2 ^ 12)),
  bit_and_bit 12 x,
  bit_and_complement 64 x (2 ^ 12),
)

segment-Resumed :
    (q r : Page) (t : ShadowVmcs) (m : SegMap)
    → IsBytes q
    → SegmentSaved q t m
    → SegmentLoaded t r m
    → SegmentResumed q r m
unfolding get_selector get_attrib get_limit get_base
segment-Resumed q r t m bytes s l =
    let sel = get_bytes-lt 2 q m.vmcb_off bytes in
    let lim = get_bytes-lt 4 q (m.vmcb_off + 4) bytes in
    record {
      selector = l.selector ∙ ap u16 s.selector ∙ omega (arith, sel);
      limit = l.limit ∙ ap u32 s.limit ∙ omega (arith, lim);
      base = l.base ∙ s.base;
      attrib = l.attrib ∙ rw s.ar (slot_round_trip (get_attrib q m.vmcb_off));
    }

segments-Resumed :
    (q r : Page) (t : ShadowVmcs) (ms : List SegMap)
    → IsBytes q
    → SegmentsSaved q t ms
    → SegmentsLoaded t r ms
    → SegmentsResumed q r ms
segments-Resumed q r t [] bytes s l = tt
segments-Resumed q r t (m ∷ ms) bytes s l =
    (segment-Resumed q r t m bytes s.0 l.0, segments-Resumed q r t ms bytes s.1 l.1)

pub prepare-eventinj :
    (e : VmxEmulator) (p : Page) → vmcb_get64 (prepare e p) Layout.vmcb_ctl_eventinj ≡ event e.vmcs
unfolding prepare vmcb_get64 vmcb_set64
prepare-eventinj e p =
    get_bytes-set_bytes-Apart 8 8 (translate_vmcs_to_vmcb e.vmcs p) 0x5F8 e.guest_rax 0x0A8
      (inr (omega arith))
    ∙ translate-eventinj e.vmcs p

pub event-stale : (s t : ShadowVmcs) → NotRefreshed s t → event t ≡ event s
event-stale s t n = rw (n.entry_intr_info, n.entry_error) refl

-- What one launch keeps is what the next one hands over.
pub Kept-Resumed :
    (e e' : VmxEmulator) (given q r : Page)
    → IsBytes q
    → Handed e given
    → Kept e e' q
    → Handed e' r
    → vmcb_get64 r Layout.vmcb_ctl_eventinj ≡ vmcb_get64 given Layout.vmcb_ctl_eventinj
    → Resumed given q r
unfolding vmcb_get64
Kept-Resumed e e' given q r bytes h k h' ev =
    let old = h.registers in
    let new = h'.registers in
    let saved = k.registers in
    record {
      cr0 = new.cr0 ∙ saved.cr0;
      cr2 = new.cr2 ∙ saved.cr2;
      cr3 = new.cr3 ∙ saved.cr3;
      cr4 = new.cr4 ∙ saved.cr4;
      rip = new.rip ∙ saved.rip;
      rsp = new.rsp ∙ saved.rsp;
      rflags = new.rflags ∙ saved.rflags;
      rax = h'.rax ∙ k.rax;
      efer =
          new.efer
          ∙ ap (λ x. bit_or x (2 ^ 12)) saved.efer
          ∙ svme_lem _ (get_bytes-lt 8 q 0x4D0 bytes);
      segments = segments-Resumed q r e'.vmcs k_segs bytes k.segments h'.segments;
      gdtr_base = new.gdtr_base ∙ (k.stale).gdtr_base ∙ sym old.gdtr_base;
      gdtr_limit = new.gdtr_limit ∙ ap u32 (k.stale).gdtr_limit ∙ sym old.gdtr_limit;
      idtr_base = new.idtr_base ∙ (k.stale).idtr_base ∙ sym old.idtr_base;
      idtr_limit = new.idtr_limit ∙ ap u32 (k.stale).idtr_limit ∙ sym old.idtr_limit;
      pat = new.pat ∙ (k.stale).pat ∙ sym old.pat;
      eventinj = ev;
    }
