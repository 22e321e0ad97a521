-- ===== src/Emu/Serve.antt =====
-- The #UD handler of src/kern_vmx_emu.cpp where the VMCB that the emulator is bound to is allocated,
-- and where its page is gone.
use svm_stuff.Base.{
  ℕ, ◌≡◌, ◌≢◌, refl, sym, ap, ◌∙◌, Bool, true, false, Option, none, some, ◌==◌, Bool-cases, inl,
  inr, ==_self, ==_ne, subst,
}
use svm_stuff.Vmcb.Page.{Page}
use svm_stuff.Vmx.Controls
use svm_stuff.Vmx.Controls.{VmxOpcode}
use svm_stuff.Trap.{SavedState64}
use svm_stuff.Emu.{Machine, vmxon, vmxoff, vmptrld, vmclear, vmwrite}
use svm_stuff.Emu.Decode.{Hde64s, VmxDecoded, decoded, decode_vmx, operands}
use svm_stuff.Emu.Decode.Classify.{IsVmx, decode_vmx-operands}
use svm_stuff.Emu.Launch.{WorldSwitch, prepare, enter_guest, finish, run_guest, vmlaunch_resume}
use svm_stuff.Emu.Handle.{Handled, dispatch, handle_ud}
use svm_stuff.Emu.Handle.Cases.{launch_end, completed, handle_ud_cases}
use svm_stuff.Emu.Trace.{KeepsBytes, TrapsTo, here, trap}

-- The page that the emulator is bound to is there.
abbrev pub IsBound : Machine → Type 0
IsBound m = (p : Page) × (m.pages (m.emu).vmcb ≡ some p)

-- The machine `m'` has the same VMCB, and it is there.
abbrev pub KeepsVmcb : Machine → Machine → Type 0
KeepsVmcb m m' = ((m'.emu).vmcb ≡ (m.emu).vmcb) × IsBound m'

-- No fault, and the VMCB is kept.
abbrev EndsBound : Machine → Option Handled → Type 0
EndsBound m none = ⊥
EndsBound m (some (b, st, m')) = KeepsVmcb m m'

launch-EndsBound :
    (switch : Option WorldSwitch) (st : SavedState64) (m : Machine)
    → IsBound m
    → EndsBound m (launch_end st (vmlaunch_resume switch m))
unfolding vmlaunch_resume run_guest finish
launch-EndsBound switch st m (p, there) = elim (Bool-cases ((m.emu).vmcb == 0)) [
  | inl unbound ↦ rw unbound (refl, (p, there))
  | inr bound ↦
      rw (bound, there)
        (refl, ((enter_guest switch m.emu (prepare m.emu p)).0, rw (==_self (m.emu).vmcb) refl))
]

dispatch-EndsBound :
    (switch : Option WorldSwitch) (d : VmxDecoded) (op : VmxOpcode) (st : SavedState64)
    (m : Machine)
    → IsBound m
    → EndsBound m (dispatch switch d op st m)
unfolding dispatch vmxon vmxoff vmptrld vmclear vmwrite
dispatch-EndsBound switch d Controls.vmlaunch st m b = launch-EndsBound switch st m b
dispatch-EndsBound switch d Controls.vmresume st m b = launch-EndsBound switch st m b
dispatch-EndsBound switch d _ st m b = (refl, b)

complete-EndsBound :
    (m : Machine) (d : VmxDecoded) (r : Option Handled)
    → EndsBound m r
    → EndsBound m (completed d r)
complete-EndsBound m d none b = b
complete-EndsBound m d (some (true, st, m')) b = b
complete-EndsBound m d (some (false, st, m')) b = b

module _ (hde64_disasm : ℕ → Hde64s) (switch : Option WorldSwitch) where
  handle_ud-EndsBound :
      (st : SavedState64) (m : Machine)
      → IsBound m
      → EndsBound m (handle_ud hde64_disasm switch st m)
  handle_ud-EndsBound st m b =
      handle_ud_cases hde64_disasm switch st m (EndsBound m) (λ e. (refl, b))
        (λ d e.
          complete-EndsBound m d (dispatch switch d d.op st m)
            (dispatch-EndsBound switch d d.op st m b))

  -- A trap is handled, with the VMCB kept.
  pub handle_ud-IsBound :
      (st : SavedState64) (m : Machine)
      → IsBound m
      → (b : Bool) × (st' : SavedState64) × (m' : Machine) × (handle_ud hde64_disasm switch st m
          ≡ some (b, st', m'))
        × KeepsVmcb m m'
  handle_ud-IsBound st m bound =
      split (handle_ud hde64_disasm switch st m) (handle_ud-EndsBound st m bound) refl
    where
      split :
          (r : Option Handled)
          → EndsBound m r
          → handle_ud hde64_disasm switch st m ≡ r
          → (b : Bool) × (st' : SavedState64) × (m' : Machine) × (handle_ud hde64_disasm switch st m
              ≡ some (b, st', m'))
            × KeepsVmcb m m'
      split none k e = absurd k
      split (some (b, st', m')) k e = (b, st', m', e, k)

module _ (hde64_disasm : ℕ → Hde64s) (switch : Option WorldSwitch) (k : KeepsBytes switch) where
  pub TrapsTo-KeepsVmcb :
      {m m' : Machine} → TrapsTo hde64_disasm switch k m m' → IsBound m → KeepsVmcb m m'
  TrapsTo-KeepsVmcb here b = (refl, b)
  TrapsTo-KeepsVmcb {m} (trap {m1} st st1 b0 w e rest) b =
      let now : KeepsVmcb m m1 =
        subst (EndsBound m) e (handle_ud-EndsBound hde64_disasm switch st m b) in
      let later = TrapsTo-KeepsVmcb rest now.1 in (later.0 ∙ now.0, later.1)

-- A launch through a pointer to a page that is gone.
vmlaunch_dangling :
    (switch : Option WorldSwitch) (m : Machine)
    → (m.emu).vmcb ≢ 0
    → m.pages (m.emu).vmcb ≡ none
    → vmlaunch_resume switch m ≡ none
unfolding vmlaunch_resume
vmlaunch_dangling switch m bound gone = rw (==_ne (m.emu).vmcb 0 bound, gone)

dispatch_dangling :
    (switch : Option WorldSwitch) (d : VmxDecoded) (op : VmxOpcode) (st : SavedState64)
    (m : Machine)
    → op ≡ Controls.vmlaunch
    → (m.emu).vmcb ≢ 0
    → m.pages (m.emu).vmcb ≡ none
    → dispatch switch d op st m ≡ none
unfolding dispatch
dispatch_dangling switch d op st m is bound gone =
    rw is (ap (launch_end st) (vmlaunch_dangling switch m bound gone))

-- A VMLAUNCH faults if the emulator is bound to a page that is gone.
pub handle_ud_dangling :
    (hde64_disasm : ℕ → Hde64s) (switch : Option WorldSwitch) (st : SavedState64) (m : Machine)
    → IsVmx (hde64_disasm (st.isf).rip) Controls.vmlaunch
    → (m.emu).vmcb ≢ 0
    → m.pages (m.emu).vmcb ≡ none
    → handle_ud hde64_disasm switch st m ≡ none
unfolding operands
handle_ud_dangling hde64_disasm switch st m is bound gone =
    handle_ud_cases hde64_disasm switch st m (λ r. r ≡ none) (λ e. cc found)
      (λ d e.
        let op : d.op ≡ Controls.vmlaunch = launched d (sym found ∙ e) in
        ap (completed d) (dispatch_dangling switch d d.op st m op bound gone))
  where
    hs : Hde64s
    hs = hde64_disasm (st.isf).rip

    found : decode_vmx hde64_disasm st ≡ some (decoded Controls.vmlaunch hs)
    found = decode_vmx-operands hde64_disasm st Controls.vmlaunch is

    launched :
        (d : VmxDecoded) → some (decoded Controls.vmlaunch hs) ≡ some d → d.op ≡ Controls.vmlaunch
    launched d e = let same : decoded Controls.vmlaunch hs ≡ d = cc in sym (ap (λ d. d.op) same)
