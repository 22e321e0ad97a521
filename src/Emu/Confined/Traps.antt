-- ===== src/Emu/Confined/Traps.antt =====
-- What the traps of a hypervisor can reach in the machine of src/kern_vmx_emu.cpp.
use svm_stuff.Base.{ℕ, zero, suc, List, ◌∷◌, ◌≤◌, ◌≡◌, refl, true, false, Option, none, some}
use svm_stuff.Vmx.Controls
use svm_stuff.Vmx.Controls.{VmxOpcode}
use svm_stuff.Vmx.Shadow.{max_fields}
use svm_stuff.Vmx.Shadow.Bounds.{same-InArray, write-InArray, set_launched-InArray}
use svm_stuff.Trap.{SavedState64}
use svm_stuff.Emu.{Machine, vmxon, vmxoff, vmptrld, vmclear, vmwrite}
use svm_stuff.Emu.Decode.{Hde64s, VmxDecoded}
use svm_stuff.Emu.Launch.{WorldSwitch}
use svm_stuff.Emu.Handle.{Handled, dispatch, handle_ud}
use svm_stuff.Emu.Talk.{Answer, Client, converse}
use svm_stuff.Emu.Handle.Cases.{completed, handle_ud_cases}
use svm_stuff.Emu.Confined.{
  StaysInPage, HasPage, Confined, same-Confined, with_emu-Confined, Confined-trans,
  HasPage-Confined, EndsConfined, launch-Confined,
}

dispatch-Confined :
    (switch : Option WorldSwitch) (d : VmxDecoded) (op : VmxOpcode) (st : SavedState64)
    (m : Machine)
    → StaysInPage switch
    → ((m.emu).vmcs).count ≤ max_fields
    → EndsConfined m (dispatch switch d op st m)
unfolding dispatch vmxon vmxoff vmptrld vmclear vmwrite
dispatch-Confined switch d Controls.vmptrld st m k few =
    with_emu-Confined m _
      (set_launched-InArray (m.emu).vmcs (m.emu).vmcs false (same-InArray (m.emu).vmcs few)) refl
      refl refl
dispatch-Confined switch d Controls.vmclear st m k few =
    with_emu-Confined m _
      (set_launched-InArray (m.emu).vmcs (m.emu).vmcs false (same-InArray (m.emu).vmcs few)) refl
      refl refl
dispatch-Confined switch d Controls.vmwrite st m k few =
    with_emu-Confined m _ (write-InArray (m.emu).vmcs d.field d.src_value few) refl refl refl
dispatch-Confined switch d Controls.vmlaunch st m k few = launch-Confined switch st m k few
dispatch-Confined switch d Controls.vmresume st m k few = launch-Confined switch st m k few
dispatch-Confined switch d Controls.vmxon st m k few =
    with_emu-Confined m _ (same-InArray (m.emu).vmcs few) refl refl refl
dispatch-Confined switch d Controls.vmxoff st m k few =
    with_emu-Confined m _ (same-InArray (m.emu).vmcs few) refl refl refl
dispatch-Confined switch d _ st m k few = same-Confined m few

abbrev TalkConfined : Machine → Option (List Answer × Machine) → Type 0
TalkConfined m none = ¬ HasPage m
TalkConfined m (some (past, m')) = Confined m m'

TalkConfined-trans :
    {m m' : Machine}
    → Confined m m'
    → (o : Option (List Answer × Machine)) → TalkConfined m' o
    → TalkConfined m o
TalkConfined-trans h none k = λ has. k (HasPage-Confined h has)
TalkConfined-trans h (some (past, m'')) k = Confined-trans h k

complete-Confined :
    (m : Machine) (d : VmxDecoded) (r : Option Handled)
    → EndsConfined m r
    → EndsConfined m (completed d r)
complete-Confined m d none h = h
complete-Confined m d (some (true, st, m')) h = h
complete-Confined m d (some (false, st, m')) h = h

module _ (hde64_disasm : ℕ → Hde64s) (switch : Option WorldSwitch) where
  handle_ud-Confined :
      (st : SavedState64) (m : Machine)
      → StaysInPage switch
      → ((m.emu).vmcs).count ≤ max_fields
      → EndsConfined m (handle_ud hde64_disasm switch st m)
  handle_ud-Confined st m k few =
      handle_ud_cases hde64_disasm switch st m (EndsConfined m) (λ e. same-Confined m few)
        (λ d e.
          complete-Confined m d (dispatch switch d d.op st m)
            (dispatch-Confined switch d d.op st m k few))

  talk-Confined :
      (n : ℕ) (client : Client) (past : List Answer) (m : Machine)
      → StaysInPage switch
      → ((m.emu).vmcs).count ≤ max_fields
      → TalkConfined m (converse hde64_disasm switch n client past m)
  unfolding converse
  talk-Confined zero client past m k few = same-Confined m few
  talk-Confined (suc n) client past m k few =
      split (handle_ud hde64_disasm switch (client past) m)
        (handle_ud-Confined (client past) m k few) (talk-Confined n client)
    where
      split :
          (r : Option Handled)
          → EndsConfined m r
          → ((p : List Answer) (m' : Machine)
              → StaysInPage switch
              → ((m'.emu).vmcs).count ≤ max_fields
              → TalkConfined m' (converse hde64_disasm switch n client p m'))
          → TalkConfined m (elim r [
            | none ↦ none
            | some (b, st, m') ↦ converse hde64_disasm switch n client ((b, st) ∷ past) m'
          ])
      split none h ih = h
      split (some (b, st, m')) h ih =
          TalkConfined-trans h _ (ih ((b, st) ∷ past) m' k (h.vmcs).within)

  -- Whatever traps a hypervisor makes, each by the answers before it, and however many, each of them
  -- returns, and what they reach is confined. This holds from a shadow VMCS of at most 256 fields,
  -- for a VMCB that is allocated or none bound, and for a world switch that writes to the VMCB's page
  -- alone. The shadow VMCS uses no slot behind its array and changes nothing there, and never gives
  -- up a slot; the binding to the VMCB stays; no byte behind the VMCB's page changes, and no other
  -- page.
  pub converse-Confined :
      (n : ℕ) (client : Client) (past : List Answer) (m : Machine)
      → StaysInPage switch
      → ((m.emu).vmcs).count ≤ max_fields
      → HasPage m
      → (past' : List Answer) × (m' : Machine) × (converse hde64_disasm switch n client past m
          ≡ some (past', m'))
        × Confined m m'
  converse-Confined n client past m k few has =
      returned (converse hde64_disasm switch n client past m) (talk-Confined n client past m k few)
    where
      returned :
          (o : Option (List Answer × Machine))
          → TalkConfined m o
          → (past' : List Answer) × (m' : Machine) × (o ≡ some (past', m')) × Confined m m'
      returned none h = absurd (h has)
      returned (some (past', m')) h = (past', m', refl, h)
