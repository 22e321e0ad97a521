-- ===== src/Switch/Refine.antt =====
-- What the code as a whole does: enter the guest with the registers given, and give back its own.
use svm_stuff.Base.{ℕ, ◌≡◌, refl, true, some, List, ◌∷◌}
use svm_stuff.Emu.{GuestGprs}
use svm_stuff.Switch.{Value, word, gprs_ptr}
use svm_stuff.Switch.Run.{Svm, Cpu, run, svm_world_switch, with_guest}

module _ {H : Type 0} where
  -- The contract: VMLOAD, VMRUN with exactly these registers, and VMSAVE, all on one VMCB.
  unfoldable pub entered : Svm H → ℕ → GuestGprs → H → H × GuestGprs
  entered m pa g h =
      let exit = m.do_vmrun pa g (m.do_vmload pa h) in (m.do_vmsave pa exit.0, exit.1)

  -- The processor at the call: the VMCB's address in RDI, the pointer in RSI, and the return address
  -- on the stack.
  abbrev pub calling : ℕ → Value → List Value → Cpu H → Cpu H
  calling pa back below c = record c {
    regs = record (c.regs) { di = word pa; si = gprs_ptr };
    stack = back ∷ below;
  }

  -- What the caller has after the return.
  pub record Returned (m : Svm H) (c c' : Cpu H) (pa : ℕ) (back : Value) (below : List Value)
      : Type 0 where
    pub hw : c'.hw ≡ (entered m pa c.gprs c.hw).0
    pub gprs : c'.gprs ≡ (entered m pa c.gprs c.hw).1
    pub rbx : c'.regs.b ≡ c.regs.b
    pub rbp : c'.regs.bp ≡ c.regs.bp
    pub r12 : c'.regs.e12 ≡ c.regs.e12
    pub r13 : c'.regs.e13 ≡ c.regs.e13
    pub r14 : c'.regs.e14 ≡ c.regs.e14
    pub r15 : c'.regs.e15 ≡ c.regs.e15
    pub stack : c'.stack ≡ below
    pub ret_to : c'.ret_to ≡ some back
    pub gif : c'.gif ≡ true

  -- The processor after the return, where VMLOAD left `h`.
  abbrev pub returned : Svm H → Cpu H → ℕ → Value → List Value → H → Cpu H
  returned m c pa back below h =
      let exit = m.do_vmrun pa c.gprs h in
      record {
        regs = record (with_guest exit.1 c.regs) {
          a = gprs_ptr;
          b = c.regs.b;
          bp = c.regs.bp;
          e12 = c.regs.e12;
          e13 = c.regs.e13;
          e14 = c.regs.e14;
          e15 = c.regs.e15;
        };
        stack = below;
        gprs_at = c.gprs_at;
        gprs = exit.1;
        gif = true;
        hw = m.do_vmsave pa exit.0;
        ret_to = some back;
      }

  pub run-returned :
      (m : Svm H) (c : Cpu H) (pa : ℕ) (back : Value) (below : List Value)
      → run m svm_world_switch (calling pa back below c)
        ≡ some (returned m c pa back below (m.do_vmload pa c.hw))
  unfolding run
  run-returned m c pa back below = refl

  -- Called with the address of a VMCB and a pointer to the registers, with a return address on the
  -- stack, the code runs to its end with no fault. It has entered the guest with exactly those
  -- registers and left there the guest's at the exit; it returns to that address with the stack,
  -- RBX, RBP and R12 to R15 as the caller had them, and the global interrupt flag set.
  pub svm_world_switch-Returned :
      (m : Svm H) (c : Cpu H) (pa : ℕ) (back : Value) (below : List Value)
      → (c' : Cpu H) × (run m svm_world_switch (calling pa back below c) ≡ some c')
        × Returned m c c' pa back below
  unfolding run entered
  svm_world_switch-Returned m c pa back below = (
    returned m c pa back below (m.do_vmload pa c.hw),
    run-returned m c pa back below,
    record {
      hw = refl;
      gprs = refl;
      rbx = refl;
      rbp = refl;
      r12 = refl;
      r13 = refl;
      r14 = refl;
      r15 = refl;
      stack = refl;
      ret_to = refl;
      gif = refl;
    },
  )
