-- ===== src/Emu/Trace.antt =====
-- Sequences of traps, and what holds of the machine all along.
use svm_stuff.Base.{
  some-injective, ℕ, ◌^◌, ◌<◌, ◌≡◌, refl, arith, Bool, true, false, Option, none, some, ◌==◌, subst,
  Bool-cases, inl, inr,
}
use svm_stuff.Vmcb.Page.{Page, IsBytes, vmcb_set64, vmcb_get64, set_bytes-IsBytes, get_bytes-lt}
use svm_stuff.Vmcb.Constants
use svm_stuff.Vmcb.Segment.{set_member}
use svm_stuff.Vmx.Controls
use svm_stuff.Vmx.Controls.{VmxOpcode}
use svm_stuff.Vmx.Shadow.{ShadowVmcs, set_launched}
use svm_stuff.Vmx.Shadow.Refine.{view}
use svm_stuff.Vmx.Shadow.Invariant.{IsValid, write-IsValid}
use svm_stuff.Trap.{SavedState64, Slot, load, amdv_gpr}
use svm_stuff.Entry.State.{translate-IsBytes}
use svm_stuff.Sync.Valid.{sync-IsValid}
use svm_stuff.Emu.{GuestGprs, VmxEmulator, Machine, vmxon, vmxoff, vmptrld, vmclear, vmwrite}
use svm_stuff.Emu.Decode.{Hde64s, VmxDecoded, classify, operands, decode_vmx, rm_index}
use svm_stuff.Emu.Launch.{WorldSwitch, prepare, enter_guest, finish, run_guest, vmlaunch_resume}
use svm_stuff.Emu.Handle.{Handled, dispatch, handle_ud, with_emu}
use svm_stuff.Emu.Handle.Cases.{launch_end, completed, handle_ud_cases}

-- The shadow VMCS is valid, RAX a word, and every page consists of bytes.
pub record IsSound (m : Machine) : Type 0 where
  pub vmcs : IsValid (m.emu).vmcs
  pub rax : (m.emu).guest_rax < 2 ^ 64
  pub bytes : (a : ℕ) (p : Page) → m.pages a ≡ some p → IsBytes p

-- The registers of a trap are words.
abbrev pub HasWords : SavedState64 → Type 0
HasWords st = (a : Slot) → load a st < 2 ^ 64

-- A world switch leaves bytes in the VMCB.
abbrev pub KeepsBytes : Option WorldSwitch → Type 0
KeepsBytes none = Unit {0}
KeepsBytes (some switch) = (a : ℕ) (g : GuestGprs) (p : Page) → IsBytes p → IsBytes (switch a g p).0

set_launched-IsValid : (s : ShadowVmcs) (v : Bool) → IsValid s → IsValid (set_launched s v)
unfolding set_launched view
set_launched-IsValid s v valid = record {
  in_bounds = valid.in_bounds;
  words = valid.words;
  distinct = valid.distinct;
}

pub prepare-IsBytes : (e : VmxEmulator) (p : Page) → IsBytes p → IsBytes (prepare e p)
unfolding prepare vmcb_set64
prepare-IsBytes e p h = set_bytes-IsBytes 8 _ 0x5F8 e.guest_rax (translate-IsBytes e.vmcs p h)

enter_guest-IsBytes :
    (switch : Option WorldSwitch) (e : VmxEmulator) (p : Page)
    → KeepsBytes switch
    → IsBytes p
    → IsBytes (enter_guest switch e p).0
unfolding enter_guest set_member
enter_guest-IsBytes none e p k h = set_bytes-IsBytes 8 p 0x070 Constants.vmexit_invalid h
enter_guest-IsBytes (some switch) e p k h = k e.vmcb_pa e.gprs p h

pub run_guest-IsSound :
    (switch : Option WorldSwitch) (m : Machine) (p : Page)
    → KeepsBytes switch
    → IsBytes p
    → IsSound m
    → IsSound (run_guest switch m p).1
unfolding run_guest finish vmcb_get64
run_guest-IsSound switch m p k h sound = record {
  vmcs =
      set_launched-IsValid _ true
        (sync-IsValid exit exit-IsBytes (m.emu).vmcs (m.emu).svm_features sound.vmcs);
  rax = get_bytes-lt 8 exit 0x5F8 exit-IsBytes;
  bytes = λ a q e. elim (Bool-cases (a == (m.emu).vmcb)) [
    | inl here ↦ subst IsBytes (some-injective _ _ (rw here at e)) exit-IsBytes
    | inr other ↦ sound.bytes a q (rw other at e)
  ];
}
  where
    exit : Page
    exit = (enter_guest switch m.emu (prepare m.emu p)).0

    exit-IsBytes : IsBytes exit
    exit-IsBytes = enter_guest-IsBytes switch m.emu (prepare m.emu p) k (prepare-IsBytes m.emu p h)

-- The machine that a launch, a dispatch or the handler ends with, if it does not fault.
abbrev pub EndsSound : Option Handled → Type 0
EndsSound none = Unit {0}
EndsSound (some (b, st, m)) = IsSound m

launch-IsSound :
    (switch : Option WorldSwitch) (st : SavedState64) (m : Machine)
    → KeepsBytes switch
    → IsSound m
    → EndsSound (launch_end st (vmlaunch_resume switch m))
unfolding vmlaunch_resume
launch-IsSound switch st m k sound = elim (Bool-cases ((m.emu).vmcb == 0)) [
  | inl unbound ↦ rw unbound sound
  | inr bound ↦ rw bound (split (m.pages (m.emu).vmcb) refl)
]
  where
    split :
        (o : Option Page)
        → m.pages (m.emu).vmcb ≡ o
        → EndsSound (launch_end st (elim o [ none ↦ none | some p ↦ some (run_guest switch m p) ]))
    split none e = tt
    split (some p) e = run_guest-IsSound switch m p k (sound.bytes _ p e) sound

with_vmcs-IsSound :
    (m : Machine) (e : VmxEmulator)
    → IsSound m
    → IsValid e.vmcs
    → e.guest_rax ≡ (m.emu).guest_rax
    → IsSound (with_emu m e)
with_vmcs-IsSound m e sound valid same = record {
  vmcs = valid;
  rax = rw same sound.rax;
  bytes = sound.bytes;
}

-- The operands of a decoded instruction keep to their widths.
abbrev Fits : VmxDecoded → Type 0
Fits d = (d.field < 2 ^ 32) × (d.src_value < 2 ^ 64)

operands-Fits :
    (st : SavedState64) (hs : Hde64s) (op : VmxOpcode) (d : VmxDecoded)
    → HasWords st
    → operands st hs op ≡ some d
    → Fits d
unfolding operands
operands-Fits st hs Controls.vmread d w h = (ground arith, ground arith)
operands-Fits st hs Controls.vmwrite d w h =
    (ground arith, ground (arith, w (amdv_gpr (rm_index hs))))
operands-Fits st hs _ d w h = (ground arith, ground arith)

dispatch-IsSound :
    (switch : Option WorldSwitch) (d : VmxDecoded) (op : VmxOpcode) (st : SavedState64)
    (m : Machine)
    → KeepsBytes switch
    → Fits d
    → IsSound m
    → EndsSound (dispatch switch d op st m)
unfolding dispatch vmxon vmxoff vmptrld vmclear vmwrite
dispatch-IsSound switch d Controls.vmxon st m k f s = with_vmcs-IsSound m _ s s.vmcs refl
dispatch-IsSound switch d Controls.vmxoff st m k f s = with_vmcs-IsSound m _ s s.vmcs refl
dispatch-IsSound switch d Controls.vmptrld st m k f s =
    with_vmcs-IsSound m _ s (set_launched-IsValid (m.emu).vmcs false s.vmcs) refl
dispatch-IsSound switch d Controls.vmclear st m k f s =
    with_vmcs-IsSound m _ s (set_launched-IsValid (m.emu).vmcs false s.vmcs) refl
dispatch-IsSound switch d Controls.vmwrite st m k f s =
    with_vmcs-IsSound m _ s (write-IsValid (m.emu).vmcs d.field d.src_value f.0 f.1 s.vmcs) refl
dispatch-IsSound switch d Controls.vmlaunch st m k f s = launch-IsSound switch st m k s
dispatch-IsSound switch d Controls.vmresume st m k f s = launch-IsSound switch st m k s
dispatch-IsSound switch d _ st m k f s = s

module _ (hde64_disasm : ℕ → Hde64s) (switch : Option WorldSwitch) (k : KeepsBytes switch) where
  decode_vmx-Fits :
      (st : SavedState64) (d : VmxDecoded)
      → HasWords st
      → decode_vmx hde64_disasm st ≡ some d
      → Fits d
  unfolding decode_vmx
  decode_vmx-Fits st d w h = let (op, found, rest) = instruction in operands-Fits st hs op d w rest
    where
      hs : Hde64s
      hs = hde64_disasm (st.isf).rip

      instruction : (op : VmxOpcode) × (classify hs ≡ some op) × (operands st hs op ≡ some d)
      instruction = ground arith

  complete-IsSound : (d : VmxDecoded) (r : Option Handled) → EndsSound r → EndsSound (completed d r)
  complete-IsSound d none s = tt
  complete-IsSound d (some (true, st, m)) s = s
  complete-IsSound d (some (false, st, m)) s = s

  pub handle_ud-IsSound :
      (st : SavedState64) (m : Machine)
      → HasWords st
      → IsSound m
      → EndsSound (handle_ud hde64_disasm switch st m)
  handle_ud-IsSound st m w sound =
      handle_ud_cases hde64_disasm switch st m EndsSound (λ e. sound)
        (λ d e.
          complete-IsSound d (dispatch switch d d.op st m)
            (dispatch-IsSound switch d d.op st m k (decode_vmx-Fits st d w e) sound))

  -- One trap after another, with any registers, each on the machine that the one before left.
  pub data TrapsTo : Machine → Machine → Type 0 where
    here : {m : Machine} → TrapsTo m m
    trap :
        {m m1 m2 : Machine} (st st1 : SavedState64) (b : Bool)
        → HasWords st
        → handle_ud hde64_disasm switch st m ≡ some (b, st1, m1)
        → TrapsTo m1 m2
        → TrapsTo m m2

  -- Whatever traps follow one another on a sound machine, with a world switch that leaves bytes in
  -- the VMCB, the machine stays sound: the shadow VMCS holds at most 256 fields, no field twice and
  -- every value within its width; RAX is a word; and every page consists of bytes.
  pub TrapsTo-IsSound : {m m' : Machine} → TrapsTo m m' → IsSound m → IsSound m'
  TrapsTo-IsSound here sound = sound
  TrapsTo-IsSound {m} (trap st st1 b w e rest) sound =
      TrapsTo-IsSound rest (subst EndsSound e (handle_ud-IsSound st m w sound))
