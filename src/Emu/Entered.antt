-- ===== src/Emu/Entered.antt =====
-- `vmlaunchResume` of src/kern_vmx_emu.cpp with the world switch: what the guest is entered with, and what is
-- kept of its exit.
pub mod Given
use svm_stuff.Base.{
  ℕ, ◌+◌, ◌/◌, ◌%◌, ◌^◌, ◌≤◌, ◌<◌, ◌≡◌, ◌≢◌, refl, ◌∙◌, ap, true, Bool, some, List, [], ◌∷◌, arith,
  ◌==◌, if◌then◌else◌, u32, inl, inr, ==_ne,
}
use svm_stuff.Vmcb.Page.{
  Page, vmcb_get64, vmcb_set64, get_bytes-set_bytes, get_bytes-set_bytes-Apart,
}
use svm_stuff.Vmcb.Layout
use svm_stuff.Vmcb.Segment.{get_selector, get_attrib, get_limit, get_base, get_member}
use svm_stuff.Vmx.Fields.{VmcsField}
use svm_stuff.Vmx.Shadow.{ShadowVmcs, read, set_launched}
use svm_stuff.Vmx.Shadow.Invariant.{IsValid}
use svm_stuff.Exit.{svm_exit_to_vmx_reason}
use svm_stuff.Entry.{field, SegMap, k_segs}
use svm_stuff.Entry.State.{
  RegistersLoaded, SegmentLoaded, SegmentsLoaded, translate-RegistersLoaded, translate-k_segs,
}
use svm_stuff.Sync.{translate_vmcb_to_vmcs}
use svm_stuff.Sync.Writes.{HasRoom}
use svm_stuff.Sync.State.{
  RegistersSaved, SegmentsSaved, ExitSaved, NotRefreshed, sync-NotRefreshed, sync-RegistersSaved,
  sync-SegmentsSaved, sync-ExitSaved,
}
use svm_stuff.Sync.Fields.{exit_value, sync-exit_value}
use svm_stuff.Sync.Valid.{HasRoom-of_count, svm_exit_to_vmx_reason-lt}
use svm_stuff.Emu.{GuestGprs, VmxEmulator, Machine}
use svm_stuff.Emu.Launch.{WorldSwitch, prepare, enter_guest, finish, run_guest, vmlaunch_resume}
pub use svm_stuff.Emu.Entered.Given.{Handed, prepare-Handed}

-- What is kept of an exit: the guest's state and the exit in the shadow VMCS, RAX beside it.
pub record Kept (e e' : VmxEmulator) (q : Page) : Type 0 where
  pub registers : RegistersSaved q e'.vmcs
  pub segments : SegmentsSaved q e'.vmcs k_segs
  pub exit : ExitSaved q e.svm_features e.vmcs e'.vmcs
  pub values : (f : VmcsField) → field e'.vmcs f ≡ exit_value q e.svm_features f (field e.vmcs f)
  pub stale : NotRefreshed e.vmcs e'.vmcs
  pub rax : e'.guest_rax ≡ vmcb_get64 q Layout.vmcb_rax
  pub launched : (e'.vmcs).launched ≡ true

-- The launch flag is no field.
segments_launched :
    (q : Page) (t : ShadowVmcs) (v : Bool) (ms : List SegMap)
    → SegmentsSaved q t ms
    → SegmentsSaved q (set_launched t v) ms
unfolding set_launched read
segments_launched q t v [] h = tt
segments_launched q t v (m ∷ ms) h = (
  record { selector = h.0.selector; limit = h.0.limit; base = h.0.base; ar = h.0.ar },
  segments_launched q t v ms h.1,
)

pub finish-Kept :
    (e : VmxEmulator) (q : Page) (g : GuestGprs)
    → HasRoom q e.svm_features e.vmcs
    → Kept e (finish e (q, g)) q
unfolding finish set_launched read
finish-Kept e q g room = record {
  registers = record {
    cr0 = registers.cr0;
    cr2 = registers.cr2;
    cr3 = registers.cr3;
    cr4 = registers.cr4;
    rip = registers.rip;
    rsp = registers.rsp;
    rflags = registers.rflags;
    efer = registers.efer;
  };
  segments = segments_launched q _ true k_segs (sync-SegmentsSaved q e.vmcs e.svm_features room);
  exit = record { reason = exit.reason; instr_len = exit.instr_len };
  values = λ f. sync-exit_value q e.vmcs e.svm_features f room;
  stale = record {
    gdtr_base = stale.gdtr_base;
    gdtr_limit = stale.gdtr_limit;
    idtr_base = stale.idtr_base;
    idtr_limit = stale.idtr_limit;
    pat = stale.pat;
    entry_intr_info = stale.entry_intr_info;
    entry_error = stale.entry_error;
  };
  rax = refl;
  launched = refl;
}
  where
    stale : NotRefreshed e.vmcs (translate_vmcb_to_vmcs q e.vmcs e.svm_features)
    stale = sync-NotRefreshed q e.vmcs e.svm_features room

    registers : RegistersSaved q (translate_vmcb_to_vmcs q e.vmcs e.svm_features)
    registers = sync-RegistersSaved q e.vmcs e.svm_features room

    exit : ExitSaved q e.svm_features e.vmcs (translate_vmcb_to_vmcs q e.vmcs e.svm_features)
    exit = sync-ExitSaved q e.vmcs e.svm_features room

finish-gprs : (e : VmxEmulator) (q : Page) (g : GuestGprs) → (finish e (q, g)).gprs ≡ g
unfolding finish
finish-gprs e q g = refl

cut_reason :
    (code info : ℕ) → u32 (svm_exit_to_vmx_reason code info) ≡ svm_exit_to_vmx_reason code info
cut_reason code info = omega (arith, svm_exit_to_vmx_reason-lt code info)

-- A launch that enters the guest by `switch`, from `m` to `m'`.
pub record Entered (switch : WorldSwitch) (m m' : Machine) (reason : ℕ) (given : Page)
    : Type 0 where
  pub handed : Handed m.emu given
  pub kept : Kept m.emu m'.emu (switch (m.emu).vmcb_pa (m.emu).gprs given).0
  pub gprs : (m'.emu).gprs ≡ (switch (m.emu).vmcb_pa (m.emu).gprs given).1
  pub reason_is :
      reason
      ≡ svm_exit_to_vmx_reason
          (get_member Layout.exit_code (switch (m.emu).vmcb_pa (m.emu).gprs given).0)
          (get_member Layout.exit_info_1 (switch (m.emu).vmcb_pa (m.emu).gprs given).0)
  pub pages :
      (a : ℕ)
      → m'.pages a ≡ (
          if a == (m.emu).vmcb
          then some (switch (m.emu).vmcb_pa (m.emu).gprs given).0
          else m.pages a)

-- With a world switch, a VMCB bound that is allocated, a valid shadow VMCS of at most 214 fields
-- and a 64-bit RAX, a launch hands the switch the VMCB's physical address, the guest's registers
-- and a VMCB that holds the guest's state and RAX. It keeps the state and the exit that the VMCB
-- left there tells of, RAX and the other registers, keeps every other field as it was, and returns
-- that exit's reason. The code here writes to no page but the VMCB.
pub vmlaunch_resume-Entered :
    (switch : WorldSwitch) (m : Machine) (p : Page)
    → (m.emu).vmcb ≢ 0
    → m.pages (m.emu).vmcb ≡ some p
    → IsValid (m.emu).vmcs
    → (m.emu).guest_rax < 2 ^ 64
    → ((m.emu).vmcs).count ≤ 214
    → (reason : ℕ) × (m' : Machine) × (given : Page) × (vmlaunch_resume (some switch) m
        ≡ some (reason, m'))
      × Entered switch m m' reason given
unfolding vmlaunch_resume run_guest enter_guest
vmlaunch_resume-Entered switch m p bound here valid rax few = (
  (run_guest (some switch) m p).0,
  (run_guest (some switch) m p).1,
  given,
  rw (==_ne (m.emu).vmcb 0 bound, here),
  record {
    handed = prepare-Handed m.emu p valid rax;
    kept = kept;
    gprs = gprs_kept;
    reason_is =
        ap u32 kept.exit.reason
        ∙ cut_reason (get_member Layout.exit_code exit.0) (get_member Layout.exit_info_1 exit.0);
    pages = λ a. refl;
  },
)
  where
    given : Page
    given = prepare m.emu p

    exit : Page × GuestGprs
    exit = switch (m.emu).vmcb_pa (m.emu).gprs given

    kept : Kept m.emu (finish m.emu exit) exit.0
    kept =
        finish-Kept m.emu exit.0 exit.1
          (HasRoom-of_count exit.0 (m.emu).svm_features (m.emu).vmcs few)

    gprs_kept : (finish m.emu exit).gprs ≡ exit.1
    gprs_kept = finish-gprs m.emu exit.0 exit.1
