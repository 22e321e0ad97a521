-- ===== src/Switch/Wrappers.antt =====
-- The wrappers of the SVM instructions in src/SVM.h: each puts its argument into RAX, where it has one,
-- and is one instruction.
use svm_stuff.Base.{ℕ, ◌≡◌, refl, Option, none, some, List, ◌∷◌}
use svm_stuff.Switch.{Value, word, rax, set, clgi, stgi, vmload, vmrun, vmsave, enter}
use svm_stuff.Switch.Run.{Svm, Cpu, exec, run}

-- A fault ends the run.
infixl 5 ◌>>=◌
abbrev ◌>>=◌ : {A : Type 0} {B : Type 0} → Option A → (A → Option B) → Option B
none >>= f = none
some a >>= f = f a

module _ {H : Type 0} where
  -- The constraint "a" of the inline assembly.
  abbrev pub with_rax : ℕ → Cpu H → Cpu H
  with_rax v c = record c { regs = set rax (word v) c.regs }

  unfoldable pub amdv_vmrun : Svm H → ℕ → Cpu H → Option (Cpu H)
  amdv_vmrun m vmcb_pa c = exec m vmrun (with_rax vmcb_pa c)

  unfoldable pub amdv_vmload : Svm H → ℕ → Cpu H → Option (Cpu H)
  amdv_vmload m vmcb_pa c = exec m vmload (with_rax vmcb_pa c)

  unfoldable pub amdv_vmsave : Svm H → ℕ → Cpu H → Option (Cpu H)
  amdv_vmsave m vmcb_pa c = exec m vmsave (with_rax vmcb_pa c)

  unfoldable pub amdv_stgi : Svm H → Cpu H → Option (Cpu H)
  amdv_stgi m c = exec m stgi c

  unfoldable pub amdv_clgi : Svm H → Cpu H → Option (Cpu H)
  amdv_clgi m c = exec m clgi c

  -- Their calls in the order of the instructions in `enter`.
  by_wrappers : Svm H → ℕ → Cpu H → Option (Cpu H)
  by_wrappers m pa c = do
    c1 ← amdv_clgi m c
    c2 ← amdv_vmload m pa c1
    c3 ← amdv_vmrun m pa c2
    c4 ← amdv_vmsave m pa c3
    amdv_stgi m c4

  -- With the address of the VMCB under the top of the stack, the middle part of _svmWorldSwitch does
  -- what calls of the wrappers in its order do.
  enter-by_wrappers :
      (m : Svm H) (c : Cpu H) (top : Value) (pa : ℕ) (below : List Value)
      → run m enter (record c { stack = top ∷ word pa ∷ below })
        ≡ by_wrappers m pa (record c { stack = top ∷ word pa ∷ below })
  unfolding run by_wrappers amdv_clgi amdv_vmload amdv_vmrun amdv_vmsave amdv_stgi
  enter-by_wrappers m c top pa below = refl
