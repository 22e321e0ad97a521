-- ===== src/Switch.antt =====
-- src/svm_switch.S, instruction by instruction. A register holds a word or the pointer to the
-- `GuestGprs` that the caller passes, which the code uses as an address only; the stack is a list
-- of such values, its top first. What the SVM instructions do is not in the repository: it is a
-- parameter, over the state `H` of the processor and its memory that they work on; the caller's stack
-- and the structure are no part of it, so the guest does not write there.
pub mod Run
pub mod Refine
pub mod Host
pub mod Wrappers
use svm_stuff.Base.{ℕ, Bool, true, false, Option, none, some, List, [], ◌∷◌}
use svm_stuff.Emu.{GuestGprs}

pub data Reg : Type 0 where
  rax rbx rcx rdx rbp rsi rdi r8 r9 r10 r11 r12 r13 r14 r15 : Reg

pub data Value : Type 0 where
  word : ℕ → Value
  gprs_ptr : Value

-- The general-purpose registers but RSP, which the stack stands for.
pub record Regs : Type 0 where
  pub a : Value
  pub b : Value
  pub c : Value
  pub d : Value
  pub bp : Value
  pub si : Value
  pub di : Value
  pub e8 : Value
  pub e9 : Value
  pub e10 : Value
  pub e11 : Value
  pub e12 : Value
  pub e13 : Value
  pub e14 : Value
  pub e15 : Value

unfoldable pub get : Reg → Regs → Value
get rax s = s.a
get rbx s = s.b
get rcx s = s.c
get rdx s = s.d
get rbp s = s.bp
get rsi s = s.si
get rdi s = s.di
get r8 s = s.e8
get r9 s = s.e9
get r10 s = s.e10
get r11 s = s.e11
get r12 s = s.e12
get r13 s = s.e13
get r14 s = s.e14
get r15 s = s.e15

unfoldable pub set : Reg → Value → Regs → Regs
set rax v s = record s { a = v }
set rbx v s = record s { b = v }
set rcx v s = record s { c = v }
set rdx v s = record s { d = v }
set rbp v s = record s { bp = v }
set rsi v s = record s { si = v }
set rdi v s = record s { di = v }
set r8 v s = record s { e8 = v }
set r9 v s = record s { e9 = v }
set r10 v s = record s { e10 = v }
set r11 v s = record s { e11 = v }
set r12 v s = record s { e12 = v }
set r13 v s = record s { e13 = v }
set r14 v s = record s { e14 = v }
set r15 v s = record s { e15 = v }

-- The instructions that the code has: `load r off` is `mov r, [rax+off]`, `save off r` is
-- `mov [rax+off], r`, and `load_arg n` is `mov rax, [rsp+n]`.
pub data Instr : Type 0 where
  push pop : Reg → Instr
  mov : Reg → Reg → Instr
  load : Reg → ℕ → Instr
  save : ℕ → Reg → Instr
  load_arg : ℕ → Instr
  add_rsp : ℕ → Instr
  clgi stgi vmload vmrun vmsave ret : Instr

abbrev pub preserve : List Instr
preserve = push rbp ∷ push rbx ∷ push r12 ∷ push r13 ∷ push r14 ∷ push r15 ∷ []

abbrev pub stash : List Instr
stash = push rdi ∷ push rsi ∷ []

abbrev pub load_guest : List Instr
load_guest =
    mov rax rsi
    ∷ load rbx 0x00
    ∷ load rcx 0x08
    ∷ load rdx 0x10
    ∷ load rbp 0x18
    ∷ load rsi 0x20
    ∷ load rdi 0x28
    ∷ load r8 0x30
    ∷ load r9 0x38
    ∷ load r10 0x40
    ∷ load r11 0x48
    ∷ load r12 0x50
    ∷ load r13 0x58
    ∷ load r14 0x60
    ∷ load r15 0x68
    ∷ []

abbrev pub enter : List Instr
enter = load_arg 8 ∷ clgi ∷ vmload ∷ vmrun ∷ vmsave ∷ stgi ∷ []

abbrev pub save_guest : List Instr
save_guest =
    load_arg 0
    ∷ save 0x00 rbx
    ∷ save 0x08 rcx
    ∷ save 0x10 rdx
    ∷ save 0x18 rbp
    ∷ save 0x20 rsi
    ∷ save 0x28 rdi
    ∷ save 0x30 r8
    ∷ save 0x38 r9
    ∷ save 0x40 r10
    ∷ save 0x48 r11
    ∷ save 0x50 r12
    ∷ save 0x58 r13
    ∷ save 0x60 r14
    ∷ save 0x68 r15
    ∷ []

abbrev pub restore : List Instr
restore = add_rsp 16 ∷ pop r15 ∷ pop r14 ∷ pop r13 ∷ pop r12 ∷ pop rbx ∷ pop rbp ∷ ret ∷ []
