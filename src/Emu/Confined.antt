-- ===== src/Emu/Confined.antt =====
-- What a launch of src/kern_vmx_emu.cpp can reach in the machine; `Traps` is about sequences of traps.
pub mod Traps
use svm_stuff.Base.{
  ℕ, zero, suc, List, ◌∷◌, ◌≤◌, ◌≡◌, ◌≢◌, refl, sym, ◌∙◌, subst, arith, true, false, Option, none,
  some, ◌==◌, Bool-cases, inl, inr, ==_ne, ==_self,
}
use svm_stuff.Vmcb.Page.{Page, vmcb_set64, set_bytes-Outside}
use svm_stuff.Vmcb.Constants
use svm_stuff.Vmcb.Segment.{set_member}
use svm_stuff.Vmx.Controls
use svm_stuff.Vmx.Controls.{VmxOpcode}
use svm_stuff.Vmx.Shadow.{max_fields}
use svm_stuff.Vmx.Shadow.Bounds.{
  InArray, same-InArray, InArray-trans, write-InArray, run_writes-InArray, set_launched-InArray,
}
use svm_stuff.Trap.{SavedState64}
use svm_stuff.Entry.State.{translate-in_page}
use svm_stuff.Sync.Writes.{sync_writes, sync-run}
use svm_stuff.Emu.{GuestGprs, VmxEmulator, Machine, vmxon, vmxoff, vmptrld, vmclear, vmwrite}
use svm_stuff.Emu.Decode.{Hde64s, VmxDecoded}
use svm_stuff.Emu.Launch.{WorldSwitch, prepare, enter_guest, finish, run_guest, vmlaunch_resume}
use svm_stuff.Emu.Handle.{Handled, dispatch, handle_ud, with_emu}
use svm_stuff.Emu.Talk.{Answer, Client, converse}
use svm_stuff.Emu.Handle.Cases.{launch_end, completed, handle_ud_cases}

-- A page that is there stays there, and the bytes behind it stay as they are.
pub data InPage : Option Page → Option Page → Type 0 where
  absent : InPage none none
  kept : {p q : Page} → ((a : ℕ) → 0x1000 ≤ a → q a ≡ p a) → InPage (some p) (some q)

-- A world switch that writes to the VMCB's page alone.
abbrev pub StaysInPage : Option WorldSwitch → Type 0
StaysInPage none = Unit {0}
StaysInPage (some switch) =
    (pa : ℕ) (g : GuestGprs) (p : Page) (a : ℕ) → 0x1000 ≤ a → (switch pa g p).0 a ≡ p a

-- The VMCB that is bound, if any, is allocated.
abbrev pub HasPage : Machine → Type 0
HasPage m = (m.emu).vmcb ≢ 0 → m.pages (m.emu).vmcb ≢ none

pub record Confined (m m' : Machine) : Type 0 where
  pub vmcs : InArray (m.emu).vmcs (m'.emu).vmcs
  pub same_vmcb : (m'.emu).vmcb ≡ (m.emu).vmcb
  pub same_vmcb_pa : (m'.emu).vmcb_pa ≡ (m.emu).vmcb_pa
  pub same_features : (m'.emu).svm_features ≡ (m.emu).svm_features
  pub own_page : InPage (m.pages (m.emu).vmcb) (m'.pages (m.emu).vmcb)
  pub other_pages : (b : ℕ) → b ≢ (m.emu).vmcb → m'.pages b ≡ m.pages b

same-InPage : (o : Option Page) → InPage o o
same-InPage none = absent
same-InPage (some p) = kept (λ a h. refl)

InPage-trans : {o o' o'' : Option Page} → InPage o o' → InPage o' o'' → InPage o o''
InPage-trans absent k = k
InPage-trans (kept h) (kept k) = kept (λ a b. k a b ∙ h a b)

pub with_emu-Confined :
    (m : Machine) (e : VmxEmulator)
    → InArray (m.emu).vmcs e.vmcs
    → e.vmcb ≡ (m.emu).vmcb
    → e.vmcb_pa ≡ (m.emu).vmcb_pa
    → e.svm_features ≡ (m.emu).svm_features
    → Confined m (with_emu m e)
with_emu-Confined m e h v pa n = record {
  vmcs = h;
  same_vmcb = v;
  same_vmcb_pa = pa;
  same_features = n;
  own_page = same-InPage (m.pages (m.emu).vmcb);
  other_pages = λ b ne. refl;
}

pub Confined-trans : {m m' m'' : Machine} → Confined m m' → Confined m' m'' → Confined m m''
Confined-trans {m} {m'} {m''} h k = record {
  vmcs = InArray-trans h.vmcs k.vmcs;
  same_vmcb = k.same_vmcb ∙ h.same_vmcb;
  same_vmcb_pa = k.same_vmcb_pa ∙ h.same_vmcb_pa;
  same_features = k.same_features ∙ h.same_features;
  own_page =
      InPage-trans h.own_page
        (subst (λ v. InPage (m'.pages v) (m''.pages v)) h.same_vmcb k.own_page);
  other_pages =
      λ b ne. k.other_pages b (subst (λ v. b ≢ v) (sym h.same_vmcb) ne) ∙ h.other_pages b ne;
}

prepare-in_page : (e : VmxEmulator) (p : Page) (a : ℕ) → 0x1000 ≤ a → prepare e p a ≡ p a
unfolding prepare vmcb_set64
prepare-in_page e p a h =
    set_bytes-Outside 8 _ 0x5F8 e.guest_rax a (inr (omega arith)) ∙ translate-in_page e.vmcs p a h

-- The page after the exit.
enter_guest-in_page :
    (switch : Option WorldSwitch) (e : VmxEmulator) (p : Page)
    → StaysInPage switch
    → (a : ℕ) → 0x1000 ≤ a
    → (enter_guest switch e (prepare e p)).0 a ≡ p a
unfolding enter_guest set_member
enter_guest-in_page none e p k a h =
    set_bytes-Outside 8 (prepare e p) 0x070 Constants.vmexit_invalid a (inr (omega arith))
    ∙ prepare-in_page e p a h
enter_guest-in_page (some switch) e p k a h =
    k e.vmcb_pa e.gprs (prepare e p) a h ∙ prepare-in_page e p a h

run_guest-Confined :
    (switch : Option WorldSwitch) (m : Machine) (p : Page)
    → StaysInPage switch
    → m.pages (m.emu).vmcb ≡ some p
    → ((m.emu).vmcs).count ≤ max_fields
    → Confined m (run_guest switch m p).1
unfolding run_guest finish
run_guest-Confined switch m p k here few = record {
  vmcs = set_launched-InArray (m.emu).vmcs _ true (
      subst (InArray (m.emu).vmcs) (sym (sync-run exit (m.emu).vmcs (m.emu).svm_features))
        (run_writes-InArray (sync_writes exit (m.emu).svm_features) (m.emu).vmcs few));
  same_vmcb = refl;
  same_vmcb_pa = refl;
  same_features = refl;
  own_page = rw (here, ==_self (m.emu).vmcb) (kept (enter_guest-in_page switch m.emu p k));
  other_pages = λ b ne. rw (==_ne b (m.emu).vmcb ne) refl;
}
  where
    exit : Page
    exit = (enter_guest switch m.emu (prepare m.emu p)).0

InPage-some : {o o' : Option Page} → InPage o o' → o ≢ none → o' ≢ none
InPage-some absent h = h
InPage-some (kept k) h = λ e. cc

pub HasPage-Confined : {m m' : Machine} → Confined m m' → HasPage m → HasPage m'
HasPage-Confined {m} {m'} h has =
    subst (λ v. v ≢ 0 → m'.pages v ≢ none) (sym h.same_vmcb)
      (λ bound. InPage-some h.own_page (has bound))

-- The machine that a launch, a dispatch or the handler ends with, if it does not fault.
abbrev pub EndsConfined : Machine → Option Handled → Type 0
EndsConfined m none = ¬ HasPage m
EndsConfined m (some (b, st, m')) = Confined m m'

pub same-Confined : (m : Machine) → ((m.emu).vmcs).count ≤ max_fields → Confined m m
same-Confined m few = with_emu-Confined m m.emu (same-InArray (m.emu).vmcs few) refl refl refl

pub launch-Confined :
    (switch : Option WorldSwitch) (st : SavedState64) (m : Machine)
    → StaysInPage switch
    → ((m.emu).vmcs).count ≤ max_fields
    → EndsConfined m (launch_end st (vmlaunch_resume switch m))
unfolding vmlaunch_resume
launch-Confined switch st m k few = elim (Bool-cases ((m.emu).vmcb == 0)) [
  | inl unbound ↦ rw unbound (same-Confined m few)
  | inr bound ↦ rw bound (split bound (m.pages (m.emu).vmcb) refl)
]
  where
    split :
        ((m.emu).vmcb == 0) ≡ false
        → (o : Option Page) → m.pages (m.emu).vmcb ≡ o
        → EndsConfined m
            (launch_end st (elim o [ none ↦ none | some p ↦ some (run_guest switch m p) ]))
    split bound none e = λ has. has (λ z. absurd (ground (arith, bound, z))) e
    split bound (some p) e = run_guest-Confined switch m p k e few
