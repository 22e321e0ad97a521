-- ===== src/Emu/RoundTrip.antt =====
-- VMLAUNCH with the world switch compiled out: the guest's state on its way into the VMCB and back.
use svm_stuff.Base.{
  ℕ, ◌-◌, ◌+◌, ◌/◌, ◌%◌, ◌^◌, ◌*◌, ◌≤◌, ◌<◌, ◌≡◌, ◌≢◌, refl, ◌∙◌, ap, true, none, some, List, [],
  ◌∷◌, ◌++◌, arith, bit_or, u16, u32, ==_ne,
}
use svm_stuff.Bits.{bit_and_complement, bit_or_bit, bit_and_bit}
use svm_stuff.Vmcb.Page.{Page, vmcb_get64, vmcb_set64, get_bytes}
use svm_stuff.Vmcb.Layout
use svm_stuff.Vmcb.Segment.{get_selector, get_attrib, get_limit, get_base, get_member, set_member}
use svm_stuff.Vmcb.Stores.{Store, store, run, hit, last_store, run-append, run-hit}
use svm_stuff.Vmx.Fields.{VmcsField, encoding}
use svm_stuff.Vmx.Shadow.{ShadowVmcs, read, set_launched}
use svm_stuff.Vmx.Shadow.Invariant.{IsValid, read-lt}
use svm_stuff.Segment.{vmx_ar_to_svm_attrib}
use svm_stuff.Segment.Rights.{vmx_ar_to_svm_attrib-lt}
use svm_stuff.Exit.{svm_exit_to_vmx_reason, exit_reason}
use svm_stuff.Entry.{field, SegMap, k_segs}
use svm_stuff.Entry.Stores.{entry_stores, translate-run}
use svm_stuff.Sync.{translate_vmcb_to_vmcs}
use svm_stuff.Sync.Writes.{HasRoom}
use svm_stuff.Sync.State.{
  RegistersSaved, SegmentSaved, SegmentsSaved, sync-RegistersSaved, sync-SegmentsSaved,
  sync-ExitSaved,
}
use svm_stuff.Sync.Valid.{HasRoom-of_count}
use svm_stuff.Emu.{VmxEmulator, Machine}
use svm_stuff.Emu.Launch.{prepare, enter_guest, finish, run_guest, vmlaunch_resume}
use svm_stuff.Emu.Kept.{SegmentKept, SegmentsKept, GuestKept, GuestKept-set_launched, cut_ar}

-- The stores into the VMCB, RAX and the invalid exit code included.
abbrev disabled_stores : VmxEmulator → List Store
disabled_stores e =
    entry_stores e.vmcs ++ store 0x5F8 8 e.guest_rax ∷ store 0x070 8 (2 ^ 64 - 1) ∷ []

abbrev pub exit_page : VmxEmulator → Page → Page
exit_page e p = (enter_guest none e (prepare e p)).0

exit_page-run : (e : VmxEmulator) (p : Page) → exit_page e p ≡ run (disabled_stores e) p
unfolding enter_guest prepare set_member vmcb_set64 run
exit_page-run e p =
    rw
      (run-append (entry_stores e.vmcs)
        (store 0x5F8 8 e.guest_rax ∷ store 0x070 8 (2 ^ 64 - 1) ∷ []) p)
      (rw translate-run)

exit-hit :
    (e : VmxEmulator) (p : Page) (n at : ℕ) {v : ℕ}
    → last_store n at (disabled_stores e) ≡ hit v
    → v < 256 ^ n
    → get_bytes n (exit_page e p) at ≡ v
exit-hit e p n at h fits = rw (exit_page-run e p) (run-hit n at (disabled_stores e) p h fits)

module _ (e : VmxEmulator) (p : Page) (valid : IsValid e.vmcs) (rax : e.guest_rax < 2 ^ 64)
    (few : (e.vmcs).count ≤ 214) where
  abbrev after : ShadowVmcs
  after = translate_vmcb_to_vmcs (exit_page e p) e.vmcs e.svm_features

  word : (f : VmcsField) → field e.vmcs f < 2 ^ 64
  word f = read-lt e.vmcs (encoding f) valid

  room : HasRoom (exit_page e p) e.svm_features e.vmcs
  room = HasRoom-of_count (exit_page e p) e.svm_features e.vmcs few

  registers : RegistersSaved (exit_page e p) after
  registers = sync-RegistersSaved (exit_page e p) e.vmcs e.svm_features room

  register_kept :
      (off : ℕ) (f : VmcsField)
      → last_store 8 off (disabled_stores e) ≡ hit (field e.vmcs f)
      → vmcb_get64 (exit_page e p) off ≡ field e.vmcs f
  unfolding vmcb_get64
  register_kept off f h = exit-hit e p 8 off h (word f)

  segment_kept :
      (m : SegMap)
      → SegmentSaved (exit_page e p) after m
      → last_store 2 m.vmcb_off (disabled_stores e) ≡ hit (u16 (field e.vmcs m.sel_enc))
      → last_store 4 (m.vmcb_off + 4) (disabled_stores e) ≡ hit (u32 (field e.vmcs m.limit_enc))
      → last_store 8 (m.vmcb_off + 8) (disabled_stores e) ≡ hit (field e.vmcs m.base_enc)
      → last_store 2 (m.vmcb_off + 2) (disabled_stores e)
        ≡ hit (vmx_ar_to_svm_attrib (u32 (field e.vmcs m.ar_enc)))
      → SegmentKept e.vmcs after m
  unfolding get_selector get_attrib get_limit get_base
  segment_kept m is sel limit base ar = record {
    selector = is.selector ∙ exit-hit e p 2 m.vmcb_off sel (omega arith);
    limit = is.limit ∙ exit-hit e p 4 (m.vmcb_off + 4) limit (omega arith);
    base = is.base ∙ exit-hit e p 8 (m.vmcb_off + 8) base (word m.base_enc);
    ar =
        is.ar
        ∙ rw
            (exit-hit e p 2 (m.vmcb_off + 2) ar
              (omega (arith, vmx_ar_to_svm_attrib-lt (u32 (field e.vmcs m.ar_enc)))))
            (cut_ar (field e.vmcs m.ar_enc));
  }

  segments_kept : SegmentsSaved (exit_page e p) after k_segs → SegmentsKept e.vmcs after k_segs
  segments_kept is = (
    segment_kept _ is.0 refl refl refl refl,
    (
      segment_kept _ is.1.0 refl refl refl refl,
      (
        segment_kept _ is.1.1.0 refl refl refl refl,
        (
          segment_kept _ is.1.1.1.0 refl refl refl refl,
          (
            segment_kept _ is.1.1.1.1.0 refl refl refl refl,
            (
              segment_kept _ is.1.1.1.1.1.0 refl refl refl refl,
              (
                segment_kept _ is.1.1.1.1.1.1.0 refl refl refl refl,
                (segment_kept _ is.1.1.1.1.1.1.1.0 refl refl refl refl, tt),
              ),
            ),
          ),
        ),
      ),
    ),
  )

  efer_kept :
      field after VmcsField.guest_ia32_efer
        + field e.vmcs VmcsField.guest_ia32_efer / 2 ^ 12 % 2 * 2 ^ 12
      ≡ field e.vmcs VmcsField.guest_ia32_efer
  unfolding vmcb_get64
  efer_kept =
      let x = field e.vmcs VmcsField.guest_ia32_efer in
      let small = word VmcsField.guest_ia32_efer in
      let loaded : vmcb_get64 (exit_page e p) Layout.vmcb_efer ≡ bit_or x (2 ^ 12) =
        exit-hit e p 8 0x4D0 refl (omega (arith, bit_or_bit 12 x)) in
      rw (registers.efer, loaded)
        (omega (
          arith,
          bit_or_bit 12 x,
          bit_and_bit 12 (bit_or x (2 ^ 12)),
          bit_and_complement 64 (bit_or x (2 ^ 12)) (2 ^ 12),
        ))

  pub guest_kept : GuestKept e.vmcs after
  guest_kept = record {
    cr0 = registers.cr0 ∙ register_kept 0x558 VmcsField.guest_cr0 refl;
    cr2 = registers.cr2 ∙ register_kept 0x640 VmcsField.guest_cr2 refl;
    cr3 = registers.cr3 ∙ register_kept 0x550 VmcsField.guest_cr3 refl;
    cr4 = registers.cr4 ∙ register_kept 0x548 VmcsField.guest_cr4 refl;
    rip = registers.rip ∙ register_kept 0x578 VmcsField.guest_rip refl;
    rsp = registers.rsp ∙ register_kept 0x5D8 VmcsField.guest_rsp refl;
    rflags = registers.rflags ∙ register_kept 0x570 VmcsField.guest_rflags refl;
    efer = efer_kept;
    segments = segments_kept (sync-SegmentsSaved (exit_page e p) e.vmcs e.svm_features room);
  }

  -- The exit code -1 has no VMX analogue.
  reason_unknown : field after VmcsField.vm_exit_reason ≡ 0xFFFFFFFF
  unfolding get_member svm_exit_to_vmx_reason exit_reason
  reason_unknown =
      (sync-ExitSaved (exit_page e p) e.vmcs e.svm_features room).reason
      ∙ rw (exit-hit e p 8 0x070 refl (omega arith)) refl

  rax_kept : vmcb_get64 (exit_page e p) Layout.vmcb_rax ≡ e.guest_rax
  unfolding vmcb_get64
  rax_kept = exit-hit e p 8 0x5F8 refl rax

-- How a launch with the world switch compiled out ends.
pub record Disabled (m m' : Machine) (reason : ℕ) : Type 0 where
  pub reason_is : reason ≡ 0xFFFFFFFF
  pub guest : GuestKept (m.emu).vmcs (m'.emu).vmcs
  pub rax : (m'.emu).guest_rax ≡ (m.emu).guest_rax
  pub gprs : (m'.emu).gprs ≡ (m.emu).gprs
  pub launched : ((m'.emu).vmcs).launched ≡ true
  pub other_pages : (a : ℕ) → a ≢ (m.emu).vmcb → m'.pages a ≡ m.pages a

-- With the world switch compiled out, a VMCB bound that is allocated, a valid shadow VMCS of at
-- most 214 fields and a 64-bit RAX: a launch returns EXIT_UNKNOWN, with the shadow VMCS marked as
-- launched, the guest's registers as they were, its segments as they were but for what the two
-- formats cannot both hold (`GuestKept`), and no page changed but the VMCB.
pub vmlaunch_resume-Disabled :
    (m : Machine) (p : Page)
    → (m.emu).vmcb ≢ 0
    → m.pages (m.emu).vmcb ≡ some p
    → IsValid (m.emu).vmcs
    → (m.emu).guest_rax < 2 ^ 64
    → ((m.emu).vmcs).count ≤ 214
    → (reason : ℕ) × (m' : Machine) × (vmlaunch_resume none m ≡ some (reason, m'))
      × Disabled m m' reason
unfolding vmlaunch_resume run_guest finish set_launched read enter_guest
vmlaunch_resume-Disabled m p bound here valid rax few = (
  (run_guest none m p).0,
  (run_guest none m p).1,
  rw (==_ne (m.emu).vmcb 0 bound, here),
  record {
    reason_is = ap u32 (reason_unknown m.emu p valid rax few);
    guest =
        GuestKept-set_launched (m.emu).vmcs
          (translate_vmcb_to_vmcs (exit_page m.emu p) (m.emu).vmcs (m.emu).svm_features) true
          (guest_kept m.emu p valid rax few);
    rax = rax_kept m.emu p valid rax few;
    gprs = refl;
    launched = refl;
    other_pages = λ a ne. rw (==_ne a (m.emu).vmcb ne);
  },
)
