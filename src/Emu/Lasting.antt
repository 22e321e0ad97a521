-- ===== src/Emu/Lasting.antt =====
-- A field of the shadow VMCS through the traps of src/kern_vmx_emu.cpp that do not write it.
use svm_stuff.Base.{
  ℕ, zero, suc, ◌≡◌, refl, ap, ◌∙◌, subst, arith, Bool, true, false, Option, none, some, List, ◌∷◌,
  ◌==◌, ==_self,
}
use svm_stuff.Vmx.Controls
use svm_stuff.Vmx.Shadow.{ShadowVmcs, read, write, set_launched}
use svm_stuff.Vmx.Shadow.Refine.{read-write}
use svm_stuff.Trap.{SavedState64, load}
use svm_stuff.Emu.{Machine, vmxon, vmxoff, vmptrld, vmclear, vmwrite}
use svm_stuff.Emu.Decode.{Hde64s, VmxDecoded, decode_vmx}
use svm_stuff.Emu.Launch.{WorldSwitch}
use svm_stuff.Emu.Handle.{Handled, advance, dispatch, handle_ud}
use svm_stuff.Emu.Handle.Cases.{completed, handle_ud_cases}
use svm_stuff.Emu.Handle.Fields.{
  Traps, field_of, value_of, value_reg, after_vmwrite, step_length, vmread_frame, handle-vmwrite,
  handle-vmread, load-vmread_frame,
}
use svm_stuff.Emu.Talk.{Answer, Client, converse}

-- Whether a trap launches, or writes the field `k`.
abbrev pub may_change : ℕ → Option VmxDecoded → Bool
may_change k none = false
may_change k (some d) = elim d.op [
  | Controls.vmlaunch ↦ true
  | Controls.vmresume ↦ true
  | Controls.vmwrite ↦ d.field == k
  | _ ↦ false
]

-- The handler returns, with the field as it was.
abbrev Lasts : ℕ → Machine → Option Handled → Type 0
Lasts k m none = ⊥
Lasts k m (some (b, st, m')) = read (m'.emu).vmcs k ≡ read (m.emu).vmcs k

abbrev TalkLasts : ℕ → Machine → Option (List Answer × Machine) → Type 0
TalkLasts k m none = ⊥
TalkLasts k m (some (past, m')) = read (m'.emu).vmcs k ≡ read (m.emu).vmcs k

write-keeps : (s : ShadowVmcs) (k e v : ℕ) → (e == k) ≡ false → read (write s e v).0 k ≡ read s k
write-keeps s k e v ne = read-write s k e v ∙ ground (arith, ne)

true_ne_false : ¬ (true ≡ false)
true_ne_false e = cc

dispatch-Lasts :
    (switch : Option WorldSwitch) (k : ℕ) (d : VmxDecoded) (op : Controls.VmxOpcode)
    (st : SavedState64) (m : Machine)
    → d.op ≡ op
    → may_change k (some d) ≡ false
    → Lasts k m (dispatch switch d op st m)
unfolding dispatch vmxon vmxoff vmptrld vmclear vmwrite read set_launched
dispatch-Lasts switch k d Controls.vmwrite st m e h =
    write-keeps (m.emu).vmcs k d.field d.src_value (rw e at h)
dispatch-Lasts switch k d Controls.vmlaunch st m e h = absurd (true_ne_false (rw e at h))
dispatch-Lasts switch k d Controls.vmresume st m e h = absurd (true_ne_false (rw e at h))
dispatch-Lasts switch k d _ st m e h = refl

complete-Lasts :
    (k : ℕ) (m : Machine) (d : VmxDecoded) (r : Option Handled)
    → Lasts k m r
    → Lasts k m (completed d r)
complete-Lasts k m d none h = h
complete-Lasts k m d (some (true, st, m')) h = h
complete-Lasts k m d (some (false, st, m')) h = h

TalkLasts-trans :
    (k : ℕ) (m m' : Machine)
    → read (m'.emu).vmcs k ≡ read (m.emu).vmcs k
    → (o : Option (List Answer × Machine)) → TalkLasts k m' o
    → TalkLasts k m o
TalkLasts-trans k m m' e none h = h
TalkLasts-trans k m m' e (some (past, m'')) h = h ∙ e

module _ (hde64_disasm : ℕ → Hde64s) (switch : Option WorldSwitch) where
  handle_ud-Lasts :
      (k : ℕ) (st : SavedState64) (m : Machine)
      → may_change k (decode_vmx hde64_disasm st) ≡ false
      → Lasts k m (handle_ud hde64_disasm switch st m)
  handle_ud-Lasts k st m h =
      handle_ud_cases hde64_disasm switch st m (Lasts k m) (λ e. refl)
        (λ d e.
          complete-Lasts k m d (dispatch switch d d.op st m)
            (dispatch-Lasts switch k d d.op st m refl (subst (λ o. may_change k o ≡ false) e h)))

  talk-Lasts :
      (k n : ℕ) (client : Client) (past : List Answer) (m : Machine)
      → ((p : List Answer) → may_change k (decode_vmx hde64_disasm (client p)) ≡ false)
      → TalkLasts k m (converse hde64_disasm switch n client past m)
  unfolding converse
  talk-Lasts k zero client past m quiet = refl
  talk-Lasts k (suc n) client past m quiet =
      split (handle_ud hde64_disasm switch (client past) m)
        (handle_ud-Lasts k (client past) m (quiet past)) (talk-Lasts k n client)
    where
      split :
          (r : Option Handled)
          → Lasts k m r
          → ((p : List Answer) (m' : Machine)
              → ((p : List Answer) → may_change k (decode_vmx hde64_disasm (client p)) ≡ false)
              → TalkLasts k m' (converse hde64_disasm switch n client p m'))
          → TalkLasts k m (elim r [
            | none ↦ none
            | some (b, st, m') ↦ converse hde64_disasm switch n client ((b, st) ∷ past) m'
          ])
      split none h ih = h
      split (some (b, st, m')) h ih = TalkLasts-trans k m m' h _ (ih ((b, st) ∷ past) m' quiet)

  -- A VMWRITE at `st`, a conversation, and a VMREAD at `st'`.
  pub record ReadLater (st st' : SavedState64) (m : Machine) (n : ℕ) (client : Client)
      (past : List Answer) : Type 0 where
    pub past' : List Answer
    pub after : Machine
    pub frame : SavedState64
    pub writes :
        handle_ud hde64_disasm switch st m
        ≡ some (
          true,
          advance (step_length hde64_disasm Controls.vmwrite st) st,
          after_vmwrite hde64_disasm st m,
        )
    pub between :
        converse hde64_disasm switch n client past (after_vmwrite hde64_disasm st m)
        ≡ some (past', after)
    pub reads : handle_ud hde64_disasm switch st' after ≡ some (true, frame, after)
    pub value : load (value_reg hde64_disasm st') frame ≡ value_of hde64_disasm st

  -- A VMWRITE for which the store has room or holds the field, any number of other traps that are
  -- neither launches nor VMWRITEs of that field (VMCLEAR and VMPTRLD may be among them), and a VMREAD
  -- of the field: the VMWRITE and the VMREAD are emulated, the traps in between all return, and the
  -- register that the VMREAD names holds the value of the VMWRITE.
  pub vmread-converse :
      (st st' : SavedState64) (m : Machine) (n : ℕ) (client : Client) (past : List Answer)
      → Traps hde64_disasm st Controls.vmwrite
      → Traps hde64_disasm st' Controls.vmread
      → field_of hde64_disasm st' ≡ field_of hde64_disasm st
      → (write (m.emu).vmcs (field_of hde64_disasm st) (value_of hde64_disasm st)).1 ≡ true
      → ((p : List Answer)
          → may_change (field_of hde64_disasm st) (decode_vmx hde64_disasm (client p)) ≡ false)
      → ReadLater st st' m n client past
  unfolding vmwrite
  vmread-converse st st' m n client past w t names stored quiet =
      returned (converse hde64_disasm switch n client past (after_vmwrite hde64_disasm st m)) refl (
        talk-Lasts (field_of hde64_disasm st) n client past (after_vmwrite hde64_disasm st m) quiet)
    where
      k : ℕ
      k = field_of hde64_disasm st

      there : read (after_vmwrite hde64_disasm st m).emu.vmcs k ≡ value_of hde64_disasm st
      there = read-write (m.emu).vmcs k k (value_of hde64_disasm st) ∙ rw (stored, ==_self k) refl

      returned :
          (o : Option (List Answer × Machine))
          → converse hde64_disasm switch n client past (after_vmwrite hde64_disasm st m) ≡ o
          → TalkLasts k (after_vmwrite hde64_disasm st m) o
          → ReadLater st st' m n client past
      returned none e h = absurd h
      returned (some (past', m')) e h = record {
        past' = past';
        after = m';
        frame =
            advance (step_length hde64_disasm Controls.vmread st')
              (vmread_frame hde64_disasm st' m');
        writes = handle-vmwrite hde64_disasm switch st m w;
        between = e;
        reads = handle-vmread hde64_disasm switch st' m' t;
        value = load-vmread_frame hde64_disasm st' m' ∙ ap (read (m'.emu).vmcs) names ∙ h ∙ there;
      }
