-- ===== src/Trap.antt =====
-- src/kern_trap.hpp: the saved state of a trap, and the slot of a general-purpose register in it.
pub mod Slots
use svm_stuff.Base.{ℕ, bit_and, ◌==◌, if◌then◌else◌}

pub record IntrStackFrame : Type 0 where
  pub trapno : ℕ
  pub cpuflag : ℕ
  pub pad : ℕ
  pub trapfn : ℕ
  pub err : ℕ
  pub rip : ℕ
  pub cs : ℕ
  pub rflags : ℕ
  pub rsp : ℕ
  pub ss : ℕ

pub record SavedState64 : Type 0 where
  pub rdi : ℕ
  pub rsi : ℕ
  pub rdx : ℕ
  pub r10 : ℕ
  pub r8 : ℕ
  pub r9 : ℕ
  pub cr2 : ℕ
  pub r15 : ℕ
  pub r14 : ℕ
  pub r13 : ℕ
  pub r12 : ℕ
  pub r11 : ℕ
  pub rbp : ℕ
  pub rbx : ℕ
  pub rcx : ℕ
  pub rax : ℕ
  pub gs : ℕ
  pub fs : ℕ
  pub isf_pad : ℕ
  pub isf : IntrStackFrame

-- The pointer that `amdv_gpr` returns: to one of these members of the state.
pub data Slot : Type 0 where
  rax rcx rdx rbx isf_rsp rbp rsi rdi r8 r9 r10 r11 r12 r13 r14 r15 : Slot

-- `*slot`, and `*slot = v`.
unfoldable pub load : Slot → SavedState64 → ℕ
load rax st = st.rax
load rcx st = st.rcx
load rdx st = st.rdx
load rbx st = st.rbx
load isf_rsp st = (st.isf).rsp
load rbp st = st.rbp
load rsi st = st.rsi
load rdi st = st.rdi
load r8 st = st.r8
load r9 st = st.r9
load r10 st = st.r10
load r11 st = st.r11
load r12 st = st.r12
load r13 st = st.r13
load r14 st = st.r14
load r15 st = st.r15

unfoldable pub store : Slot → ℕ → SavedState64 → SavedState64
store rax v st = record st { rax = v }
store rcx v st = record st { rcx = v }
store rdx v st = record st { rdx = v }
store rbx v st = record st { rbx = v }
store isf_rsp v st = record st { isf = record (st.isf) { rsp = v } }
store rbp v st = record st { rbp = v }
store rsi v st = record st { rsi = v }
store rdi v st = record st { rdi = v }
store r8 v st = record st { r8 = v }
store r9 v st = record st { r9 = v }
store r10 v st = record st { r10 = v }
store r11 v st = record st { r11 = v }
store r12 v st = record st { r12 = v }
store r13 v st = record st { r13 = v }
store r14 v st = record st { r14 = v }
store r15 v st = record st { r15 = v }

-- The `switch` on the low four bits of the encoding.
unfoldable pub amdv_gpr : ℕ → Slot
amdv_gpr idx =
    let i = bit_and idx 0xF in
    if i == 0
    then rax
    else if i == 1
    then rcx
    else if i == 2
    then rdx
    else if i == 3
    then rbx
    else if i == 4
    then isf_rsp
    else if i == 5
    then rbp
    else if i == 6
    then rsi
    else if i == 7
    then rdi
    else if i == 8
    then r8
    else if i == 9
    then r9
    else if i == 10
    then r10
    else if i == 11
    then r11
    else if i == 12
    then r12
    else if i == 13
    then r13
    else if i == 14
    then r14
    else r15
