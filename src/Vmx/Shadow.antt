-- ===== src/Vmx/Shadow.antt =====
-- `ShadowVMCS`: declared in src/kern_vmx.hpp, its `read` and `write` in src/kern_vmcs_vmcb.cpp.
-- The array of slots is a function of the index; only the slots below `max_fields` exist.
pub mod Map
pub mod Refine
pub mod Invariant
pub mod Writes
pub mod Contents
pub mod Bounds
pub mod Room
use svm_stuff.Base.{
  ℕ, zero, suc, ◌+◌, Bool, true, false, Option, none, some, leb, ◌==◌, if◌then◌else◌,
}

pub record Field : Type 0 where
  pub enc : ℕ
  pub val : ℕ

abbrev pub max_fields : ℕ
max_fields = 256

pub record ShadowVmcs : Type 0 where
  pub fields : ℕ → Field
  pub count : ℕ
  pub launched : Bool

abbrev pub set_slot : (ℕ → Field) → ℕ → Field → ℕ → Field
set_slot fs i f j = if j == i then f else fs j

-- A new object: every slot zero, none in use.
unfoldable pub fresh : ShadowVmcs
fresh = record { fields = λ i. record { enc = 0; val = 0 }; count = 0; launched = false }

unfoldable pub reset : ShadowVmcs → ShadowVmcs
reset s = record s { count = 0; launched = false }

unfoldable pub is_launched : ShadowVmcs → Bool
is_launched s = s.launched

unfoldable pub set_launched : ShadowVmcs → Bool → ShadowVmcs
set_launched s v = record s { launched = v }

-- The loop of `read` at index `i`, with `left` rounds to go.
pub read_loop : ℕ → ℕ → (ℕ → Field) → ℕ → ℕ
read_loop zero i fs enc = 0
read_loop (suc left) i fs enc =
    if (fs i).enc == enc then (fs i).val else read_loop left (i + 1) fs enc

unfoldable pub read : ShadowVmcs → ℕ → ℕ
unfolding read_loop
read s enc = read_loop s.count 0 s.fields enc

-- The loop of `write`: `some` is its early return, with the slot updated.
pub write_loop : ℕ → ℕ → (ℕ → Field) → ℕ → ℕ → Option (ℕ → Field)
write_loop zero i fs enc val = none
write_loop (suc left) i fs enc val =
    if (fs i).enc == enc
    then some (set_slot fs i (record (fs i) { val = val }))
    else write_loop left (i + 1) fs enc val

-- What follows the loop: a full store drops the write, another one takes a slot.
pub append_field : ShadowVmcs → ℕ → ℕ → ShadowVmcs × Bool
append_field s enc val = if leb max_fields s.count then (s, false) else (
  record s {
    fields = set_slot s.fields s.count (record { enc = enc; val = val });
    count = s.count + 1;
  },
  true,
)

unfoldable pub write : ShadowVmcs → ℕ → ℕ → ShadowVmcs × Bool
unfolding write_loop append_field
write s enc val = elim (write_loop s.count 0 s.fields enc val) [
  | some fs ↦ (record s { fields = fs }, true)
  | none ↦ append_field s enc val
]
