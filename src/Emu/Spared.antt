-- ===== src/Emu/Spared.antt =====
-- What the launches of src/kern_vmx_emu.cpp leave alone in the VMCB: the bytes that neither the translation
-- nor the store of RAX nor the exit code writes, nor the world switch.
use svm_stuff.Base.{
  some-injective, ℕ, ◌≡◌, refl, ◌∙◌, false, Option, none, some, List, ◌∷◌, ◌==◌, Bool-cases, inl,
  inr, ==_self, Bool, true, subst,
}
use svm_stuff.Vmcb.Page.{Page, Outside, vmcb_set64, set_bytes-Outside}
use svm_stuff.Vmcb.Constants
use svm_stuff.Vmcb.Segment.{set_member}
use svm_stuff.Vmcb.Stores.Ranges.{in_ranges, in_ranges-Outside}
use svm_stuff.Vmx.Controls
use svm_stuff.Vmx.Controls.{VmxOpcode}
use svm_stuff.Trap.{SavedState64}
use svm_stuff.Entry.{translate_vmcs_to_vmcb}
use svm_stuff.Entry.Frame.{loaded_ranges, translate-NotLoaded}
use svm_stuff.Emu.{GuestGprs, VmxEmulator, Machine, vmxon, vmxoff, vmptrld, vmclear, vmwrite}
use svm_stuff.Emu.Decode.{Hde64s, VmxDecoded}
use svm_stuff.Emu.Launch.{WorldSwitch, prepare, enter_guest, finish, run_guest, vmlaunch_resume}
use svm_stuff.Emu.Handle.{Handled, dispatch, handle_ud}
use svm_stuff.Emu.Handle.Cases.{launch_end, completed, handle_ud_cases}

-- RAX and the exit code, and what the translation writes.
abbrev pub launch_ranges : List (ℕ × ℕ)
launch_ranges = (0x5F8, 8) ∷ (0x070, 8) ∷ loaded_ranges

abbrev pub SwitchSpares : Option WorldSwitch → ℕ → Type 0
SwitchSpares none a = Unit {0}
SwitchSpares (some switch) a = (pa : ℕ) (g : GuestGprs) (p : Page) → (switch pa g p).0 a ≡ p a

pub record IsSpared (switch : Option WorldSwitch) (a : ℕ) : Type 0 where
  pub outside : in_ranges a launch_ranges ≡ false
  pub by_switch : SwitchSpares switch a

-- The byte `a` of the VMCB that is bound, if it is there, is `v`.
abbrev pub HasByte : ℕ → ℕ → Machine → Type 0
HasByte a v m = (p : Page) → m.pages (m.emu).vmcb ≡ some p → p a ≡ v

abbrev EndsWith : ℕ → ℕ → Option Handled → Type 0
EndsWith a v none = Unit {0}
EndsWith a v (some (b, st, m)) = HasByte a v m

module _ (switch : Option WorldSwitch) (a v : ℕ) (spared : IsSpared switch a) where
  out : Outside a 8 0x5F8 × Outside a 8 0x070 × (in_ranges a loaded_ranges ≡ false)
  out =
      let first = in_ranges-Outside a (0x5F8, 8) ((0x070, 8) ∷ loaded_ranges) spared.outside in
      let second = in_ranges-Outside a (0x070, 8) loaded_ranges first.1 in
      (first.0, second.0, second.1)

  pub prepare-spared : (e : VmxEmulator) (p : Page) → prepare e p a ≡ p a
  unfolding prepare vmcb_set64
  prepare-spared e p =
      set_bytes-Outside 8 (translate_vmcs_to_vmcb e.vmcs p) 0x5F8 e.guest_rax a out.0
      ∙ (translate-NotLoaded e.vmcs p).elsewhere a out.2

  enter_guest-spared :
      (o : Option WorldSwitch)
      → SwitchSpares o a
      → (e : VmxEmulator) (p : Page) → (enter_guest o e p).0 a ≡ p a
  unfolding enter_guest set_member
  enter_guest-spared none s e p = set_bytes-Outside 8 p 0x070 Constants.vmexit_invalid a out.1
  enter_guest-spared (some f) s e p = s e.vmcb_pa e.gprs p

  run_guest-HasByte : (m : Machine) (p : Page) → p a ≡ v → HasByte a v (run_guest switch m p).1
  unfolding run_guest finish
  run_guest-HasByte m p h q e =
      let exit = (enter_guest switch m.emu (prepare m.emu p)).0 in
      let same : exit ≡ q = some-injective _ _ (rw (==_self (m.emu).vmcb) at e) in
      rw (← same) (
        enter_guest-spared switch spared.by_switch m.emu (prepare m.emu p)
        ∙ prepare-spared m.emu p
        ∙ h)

  launch-EndsWith :
      (st : SavedState64) (m : Machine)
      → HasByte a v m
      → EndsWith a v (launch_end st (vmlaunch_resume switch m))
  unfolding vmlaunch_resume
  launch-EndsWith st m h = elim (Bool-cases ((m.emu).vmcb == 0)) [
    | inl unbound ↦ rw unbound h
    | inr bound ↦ rw bound (split (m.pages (m.emu).vmcb) refl)
  ]
    where
      split :
          (o : Option Page)
          → m.pages (m.emu).vmcb ≡ o
          → EndsWith a v
              (launch_end st (elim o [ none ↦ none | some p ↦ some (run_guest switch m p) ]))
      split none e = tt
      split (some p) e = run_guest-HasByte m p (h p e)

  dispatch-EndsWith :
      (d : VmxDecoded) (op : VmxOpcode) (st : SavedState64) (m : Machine)
      → HasByte a v m
      → EndsWith a v (dispatch switch d op st m)
  unfolding dispatch vmxon vmxoff vmptrld vmclear vmwrite
  dispatch-EndsWith d Controls.vmlaunch st m h = launch-EndsWith st m h
  dispatch-EndsWith d Controls.vmresume st m h = launch-EndsWith st m h
  dispatch-EndsWith d _ st m h = h

  complete-EndsWith :
      (d : VmxDecoded) (r : Option Handled) → EndsWith a v r → EndsWith a v (completed d r)
  complete-EndsWith d none h = h
  complete-EndsWith d (some (true, st, m)) h = h
  complete-EndsWith d (some (false, st, m)) h = h

  -- A trap leaves the byte alone.
  pub handle_ud-HasByte :
      (hde64_disasm : ℕ → Hde64s) (st st' : SavedState64) (m m' : Machine) (b : Bool)
      → handle_ud hde64_disasm switch st m ≡ some (b, st', m')
      → HasByte a v m
      → HasByte a v m'
  handle_ud-HasByte hde64_disasm st st' m m' b e h = subst (EndsWith a v) e (
      handle_ud_cases hde64_disasm switch st m (EndsWith a v) (λ e. h)
        (λ d e.
          complete-EndsWith d (dispatch switch d d.op st m) (dispatch-EndsWith d d.op st m h)))
