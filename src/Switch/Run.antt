-- ===== src/Switch/Run.antt =====
-- How the instructions of src/svm_switch.S run, with the fields of `GuestGprs` at their offsets in
-- src/kern_vmx_emu.hpp. `none` is a fault: an access through what is no pointer to the structure
-- or not at a field of it, or one below the bottom of the stack.
use svm_stuff.Base.{
  ℕ, ◌-◌, Bool, true, false, Option, none, some, List, [], ◌∷◌, ◌++◌, ◌==◌, if◌then◌else◌,
}
use svm_stuff.Emu.{GuestGprs}
use svm_stuff.Switch.{
  Reg, rax, Value, word, gprs_ptr, Regs, get, set, Instr, push, pop, mov, load, save, load_arg,
  add_rsp, clgi, stgi, vmload, vmrun, vmsave, ret, preserve, stash, load_guest, enter, save_guest,
  restore,
}

-- `g` at an offset, and the store there.
unfoldable pub field_at : ℕ → GuestGprs → Option ℕ
field_at off g =
    if off == 0x00
    then some g.rbx
    else if off == 0x08
    then some g.rcx
    else if off == 0x10
    then some g.rdx
    else if off == 0x18
    then some g.rbp
    else if off == 0x20
    then some g.rsi
    else if off == 0x28
    then some g.rdi
    else if off == 0x30
    then some g.r8
    else if off == 0x38
    then some g.r9
    else if off == 0x40
    then some g.r10
    else if off == 0x48
    then some g.r11
    else if off == 0x50
    then some g.r12
    else if off == 0x58
    then some g.r13
    else if off == 0x60
    then some g.r14
    else if off == 0x68
    then some g.r15
    else none

unfoldable pub set_field_at : ℕ → ℕ → GuestGprs → Option GuestGprs
set_field_at off v g =
    if off == 0x00
    then some (record g { rbx = v })
    else if off == 0x08
    then some (record g { rcx = v })
    else if off == 0x10
    then some (record g { rdx = v })
    else if off == 0x18
    then some (record g { rbp = v })
    else if off == 0x20
    then some (record g { rsi = v })
    else if off == 0x28
    then some (record g { rdi = v })
    else if off == 0x30
    then some (record g { r8 = v })
    else if off == 0x38
    then some (record g { r9 = v })
    else if off == 0x40
    then some (record g { r10 = v })
    else if off == 0x48
    then some (record g { r11 = v })
    else if off == 0x50
    then some (record g { r12 = v })
    else if off == 0x58
    then some (record g { r13 = v })
    else if off == 0x60
    then some (record g { r14 = v })
    else if off == 0x68
    then some (record g { r15 = v })
    else none

-- The value `n` bytes above RSP, and the stack from there on.
unfoldable pub stack_at : ℕ → List Value → Option Value
stack_at n [] = none
stack_at n (v ∷ vs) = if n == 0 then some v else stack_at (n - 8) vs

unfoldable pub drop_bytes : ℕ → List Value → List Value
drop_bytes n [] = []
drop_bytes n (v ∷ vs) = if n == 0 then v ∷ vs else drop_bytes (n - 8) vs

-- VMLOAD and VMSAVE at an address, and VMRUN, which ends with the guest's registers at the exit.
-- VMRUN brings the host's RAX and RSP back.
pub record Svm (H : Type 0) : Type 0 where
  pub do_vmload : ℕ → H → H
  pub do_vmrun : ℕ → GuestGprs → H → H × GuestGprs
  pub do_vmsave : ℕ → H → H

-- `gif` is the global interrupt flag, `ret_to` where a return went.
pub record Cpu (H : Type 0) : Type 0 where
  pub regs : Regs
  pub stack : List Value
  pub gprs_at : ℕ
  pub gprs : GuestGprs
  pub gif : Bool
  pub hw : H
  pub ret_to : Option Value

-- A value as the number that the register holds.
abbrev pub num : ℕ → Value → ℕ
num at (word n) = n
num at gprs_ptr = at

abbrev pub guest_of : ℕ → Regs → GuestGprs
guest_of at s = record {
  rbx = num at s.b;
  rcx = num at s.c;
  rdx = num at s.d;
  rbp = num at s.bp;
  rsi = num at s.si;
  rdi = num at s.di;
  r8 = num at s.e8;
  r9 = num at s.e9;
  r10 = num at s.e10;
  r11 = num at s.e11;
  r12 = num at s.e12;
  r13 = num at s.e13;
  r14 = num at s.e14;
  r15 = num at s.e15;
}

-- All but RAX.
abbrev pub with_guest : GuestGprs → Regs → Regs
with_guest g s = record {
  a = s.a;
  b = word g.rbx;
  c = word g.rcx;
  d = word g.rdx;
  bp = word g.rbp;
  si = word g.rsi;
  di = word g.rdi;
  e8 = word g.r8;
  e9 = word g.r9;
  e10 = word g.r10;
  e11 = word g.r11;
  e12 = word g.r12;
  e13 = word g.r13;
  e14 = word g.r14;
  e15 = word g.r15;
}

module _ {H : Type 0} where
  -- `[rax+off]`: RAX must be the pointer.
  unfoldable pub load_through : Reg → ℕ → Value → Cpu H → Option (Cpu H)
  unfolding field_at set
  load_through r off (word n) c = none
  load_through r off gprs_ptr c = elim (field_at off c.gprs) [
    | none ↦ none
    | some v ↦ some (record c { regs = set r (word v) c.regs })
  ]

  unfoldable pub save_through : ℕ → ℕ → Value → Cpu H → Option (Cpu H)
  unfolding set_field_at
  save_through off v (word n) c = none
  save_through off v gprs_ptr c = elim (set_field_at off v c.gprs) [
    | none ↦ none
    | some g ↦ some (record c { gprs = g })
  ]

  unfoldable pub pop_into : (Value → Cpu H → Cpu H) → List Value → Cpu H → Option (Cpu H)
  pop_into f [] c = none
  pop_into f (v ∷ vs) c = some (f v (record c { stack = vs }))

  unfoldable pub exec : Svm H → Instr → Cpu H → Option (Cpu H)
  unfolding get set load_through save_through pop_into stack_at drop_bytes
  exec m (push r) c = some (record c { stack = get r c.regs ∷ c.stack })
  exec m (pop r) c = pop_into (λ v c. record c { regs = set r v c.regs }) c.stack c
  exec m (mov r r') c = some (record c { regs = set r (get r' c.regs) c.regs })
  exec m (load r off) c = load_through r off (get rax c.regs) c
  exec m (save off r) c = save_through off (num c.gprs_at (get r c.regs)) (get rax c.regs) c
  exec m (load_arg n) c = elim (stack_at n c.stack) [
    | none ↦ none
    | some v ↦ some (record c { regs = set rax v c.regs })
  ]
  exec m (add_rsp n) c = some (record c { stack = drop_bytes n c.stack })
  exec m clgi c = some (record c { gif = false })
  exec m stgi c = some (record c { gif = true })
  exec m vmload c = some (record c { hw = m.do_vmload (num c.gprs_at (get rax c.regs)) c.hw })
  exec m vmsave c = some (record c { hw = m.do_vmsave (num c.gprs_at (get rax c.regs)) c.hw })
  exec m vmrun c =
      let exit = m.do_vmrun (num c.gprs_at (get rax c.regs)) (guest_of c.gprs_at c.regs) c.hw in
      some (record c { hw = exit.0; regs = with_guest exit.1 c.regs })
  exec m ret c = pop_into (λ v c. record c { ret_to = some v }) c.stack c

  unfoldable pub run : Svm H → List Instr → Cpu H → Option (Cpu H)
  unfolding exec
  run m [] c = some c
  run m (i ∷ is) c = elim (exec m i c) [ none ↦ none | some c' ↦ run m is c' ]

-- `_svmWorldSwitch`.
abbrev pub svm_world_switch : List Instr
svm_world_switch = preserve ++ stash ++ load_guest ++ enter ++ save_guest ++ restore
