-- ===== src/Emu/Talk.antt =====
-- A hypervisor in conversation with the emulator of src/kern_vmx_emu.cpp: each trap frame may depend
-- on all the answers before it.
use svm_stuff.Base.{
  ℕ, zero, suc, ◌+◌, ◌≤◌, ◌≡◌, ◌≢◌, refl, sym, ap, ◌∙◌, arith, Bool, true, Option, none, some, List,
  ◌∷◌,
}
use mathlib.Core.Path.{fun_ext}
use svm_stuff.Vmx.Controls
use svm_stuff.Vmx.Shadow.{write, max_fields}
use svm_stuff.Vmx.Shadow.Contents.{Contents, contents, with_value, put_value, contents-write}
use svm_stuff.Trap.{SavedState64}
use svm_stuff.Emu.{Machine, vmwrite}
use svm_stuff.Emu.Decode.{Hde64s}
use svm_stuff.Emu.Launch.{WorldSwitch}
use svm_stuff.Emu.Handle.{Handled, advance, handle_ud}
use svm_stuff.Emu.Handle.Fields.{
  Traps, field_of, value_of, after_vmwrite, step_length, handle-vmwrite,
}
use svm_stuff.Emu.Contents.{Seen, seen, seen_answer, handle_ud-seen}

-- What a trap answers: whether it was emulated, and the frame afterwards.
abbrev pub Answer : Type 0
Answer = Bool × SavedState64

abbrev pub Client : Type 0
Client = List Answer → SavedState64

-- So many traps, with the answers so far, the last first; `none` is a fault.
unfoldable pub converse :
    (ℕ → Hde64s)
    → Option WorldSwitch
    → ℕ
    → Client
    → List Answer
    → Machine
    → Option (List Answer × Machine)
converse hde64_disasm switch zero client past m = some (past, m)
converse hde64_disasm switch (suc n) client past m =
    elim (handle_ud hde64_disasm switch (client past) m) [
      | none ↦ none
      | some (b, st, m') ↦ converse hde64_disasm switch n client ((b, st) ∷ past) m'
    ]

abbrev pub seen_talk : Option (List Answer × Machine) → Option (List Answer × Seen)
seen_talk none = none
seen_talk (some (past, m)) = some (past, seen m)

abbrev answer_or : Answer → Option (Bool × SavedState64 × Seen) → Answer
answer_or a none = a
answer_or a (some (b, st, x)) = (b, st)

abbrev seen_or : Seen → Option (Bool × SavedState64 × Seen) → Seen
seen_or y none = y
seen_or y (some (b, st, x)) = x

module _ (hde64_disasm : ℕ → Hde64s) (switch : Option WorldSwitch) where
  pub converse-seen :
      (n : ℕ) (client : Client) (past : List Answer) (m m' : Machine)
      → seen m ≡ seen m'
      → seen_talk (converse hde64_disasm switch n client past m)
        ≡ seen_talk (converse hde64_disasm switch n client past m')
  unfolding converse
  converse-seen zero client past m m' e = ap (λ x. some (past, x)) e
  converse-seen (suc n) client past m m' e =
      split (handle_ud hde64_disasm switch (client past) m)
        (handle_ud hde64_disasm switch (client past) m') (converse-seen n client)
        (handle_ud-seen hde64_disasm switch (client past) m m' e)
    where
      split :
          (r r' : Option Handled)
          → ((p : List Answer) (k k' : Machine)
              → seen k ≡ seen k'
              → seen_talk (converse hde64_disasm switch n client p k)
                ≡ seen_talk (converse hde64_disasm switch n client p k'))
          → seen_answer r ≡ seen_answer r'
          → seen_talk (elim r [
            | none ↦ none
            | some (b, st, k) ↦ converse hde64_disasm switch n client ((b, st) ∷ past) k
          ])
            ≡ seen_talk (elim r' [
              | none ↦ none
              | some (b, st, k) ↦ converse hde64_disasm switch n client ((b, st) ∷ past) k
            ])
      split none none ih h = refl
      split none (some x) ih h = cc
      split (some x) none ih h = cc
      split (some (b, st, k)) (some (b', st', k')) ih h =
          ap (λ a. seen_talk (converse hde64_disasm switch n client (a ∷ past) k))
            (ap (answer_or (b, st)) h)
          ∙ ih ((b', st') ∷ past) k k' (ap (seen_or (seen k)) h)

with_value_comm :
    (e f v w : ℕ) (g : ℕ → Option ℕ)
    → e ≢ f
    → with_value f w (with_value e v g) ≡ with_value e v (with_value f w g)
with_value_comm e f v w g ne = fun_ext λ k. ground arith

put_value_comm :
    (e f v w : ℕ) (c : Contents)
    → e ≢ f
    → c.count + 2 ≤ max_fields
    → put_value f w (put_value e v c) ≡ put_value e v (put_value f w c)
unfolding put_value
put_value_comm e f v w c ne room = ground (arith, with_value_comm e f v w c.values ne)

module _ (hde64_disasm : ℕ → Hde64s) (switch : Option WorldSwitch) (m : Machine)
    (st st' : SavedState64) where
  abbrev field_1 : ℕ
  field_1 = field_of hde64_disasm st

  abbrev field_2 : ℕ
  field_2 = field_of hde64_disasm st'

  -- The machine after both writes, in this order.
  abbrev one_two : Machine
  one_two = after_vmwrite hde64_disasm st' (after_vmwrite hde64_disasm st m)

  abbrev two_one : Machine
  two_one = after_vmwrite hde64_disasm st (after_vmwrite hde64_disasm st' m)

  writes_comm :
      field_1 ≢ field_2
      → ((m.emu).vmcs).count + 2 ≤ max_fields
      → contents (one_two.emu).vmcs ≡ contents (two_one.emu).vmcs
  unfolding vmwrite contents
  writes_comm ne room =
      let v = value_of hde64_disasm st in
      let w = value_of hde64_disasm st' in
      let s = (m.emu).vmcs in
      contents-write (write s field_1 v).0 field_2 w
      ∙ ap (put_value field_2 w) (contents-write s field_1 v)
      ∙ put_value_comm field_1 field_2 v w (contents s) ne room
      ∙ sym (ap (put_value field_1 v) (contents-write s field_2 w))
      ∙ sym (contents-write (write s field_2 w).0 field_1 v)

  seen_comm :
      field_1 ≢ field_2 → ((m.emu).vmcs).count + 2 ≤ max_fields → seen one_two ≡ seen two_one
  unfolding vmwrite
  seen_comm ne room = ap (λ c. record (seen m) { vmcs = c }) (writes_comm ne room)

  -- Two VMWRITEs of distinct fields, with room for both, are emulated in either order. The two
  -- machines differ in the order of slots alone, and no hypervisor can tell: however it chooses its
  -- traps by the answers so far, it gets the same answers from both, the same faults, and machines
  -- that again differ in that order alone.
  pub converse-vmwrite_comm :
      Traps hde64_disasm st Controls.vmwrite
      → Traps hde64_disasm st' Controls.vmwrite
      → field_1 ≢ field_2
      → ((m.emu).vmcs).count + 2 ≤ max_fields
      → (n : ℕ) (client : Client) (past : List Answer)
      → (handle_ud hde64_disasm switch st m
          ≡ some (
            true,
            advance (step_length hde64_disasm Controls.vmwrite st) st,
            after_vmwrite hde64_disasm st m,
          ))
        × (handle_ud hde64_disasm switch st' m
            ≡ some (
              true,
              advance (step_length hde64_disasm Controls.vmwrite st') st',
              after_vmwrite hde64_disasm st' m,
            ))
        × (handle_ud hde64_disasm switch st (after_vmwrite hde64_disasm st' m)
            ≡ some (true, advance (step_length hde64_disasm Controls.vmwrite st) st, two_one))
        × (handle_ud hde64_disasm switch st' (after_vmwrite hde64_disasm st m)
            ≡ some (true, advance (step_length hde64_disasm Controls.vmwrite st') st', one_two))
        × (seen_talk (converse hde64_disasm switch n client past one_two)
            ≡ seen_talk (converse hde64_disasm switch n client past two_one))
  converse-vmwrite_comm t t' ne room n client past = (
    handle-vmwrite hde64_disasm switch st m t,
    handle-vmwrite hde64_disasm switch st' m t',
    handle-vmwrite hde64_disasm switch st (after_vmwrite hde64_disasm st' m) t,
    handle-vmwrite hde64_disasm switch st' (after_vmwrite hde64_disasm st m) t',
    converse-seen hde64_disasm switch n client past one_two two_one (seen_comm ne room),
  )
