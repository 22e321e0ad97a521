-- ===== src/Emu/Handle/Cases.antt =====
-- What holds of the handler's result on each of its branches.
use svm_stuff.Base.{ℕ, ◌≡◌, refl, true, false, Option, none, some}
use svm_stuff.Trap.{SavedState64}
use svm_stuff.Emu.{Machine}
use svm_stuff.Emu.Decode.{Hde64s, VmxDecoded, decode_vmx}
use svm_stuff.Emu.Launch.{WorldSwitch}
use svm_stuff.Emu.Handle.{Handled, dispatch, complete, handle_ud}

-- The result once the instruction is dispatched.
abbrev pub completed : VmxDecoded → Option Handled → Option Handled
completed d none = none
completed d (some r) = some (complete d r)

-- The result of a launch that came back, if it did.
abbrev pub launch_end : SavedState64 → Option (ℕ × Machine) → Option Handled
launch_end st none = none
launch_end st (some (reason, m)) = some (true, st, m)

module _ {ℓ} (hde64_disasm : ℕ → Hde64s) (switch : Option WorldSwitch) (st : SavedState64)
    (m : Machine) where
  -- The handler refuses, or it completes what it decoded.
  pub handle_ud_cases :
      (P : Option Handled → Type ℓ)
      → (decode_vmx hde64_disasm st ≡ none → P (some (false, st, m)))
      → ((d : VmxDecoded)
          → decode_vmx hde64_disasm st ≡ some d
          → P (completed d (dispatch switch d d.op st m)))
      → P (handle_ud hde64_disasm switch st m)
  unfolding handle_ud
  handle_ud_cases P refused done = split (decode_vmx hde64_disasm st) refl
    where
      split :
          (o : Option VmxDecoded)
          → decode_vmx hde64_disasm st ≡ o
          → P (elim o [
            | none ↦ some (false, st, m)
            | some d ↦ elim (dispatch switch d d.op st m) [
              | none ↦ none
              | some r ↦ some (complete d r)
            ]
          ])
      split none e = refused e
      split (some d) e = done d e
