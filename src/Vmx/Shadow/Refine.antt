-- ===== src/Vmx/Shadow/Refine.antt =====
-- The array and its loops implement the abstract map.
use mathlib.Core.Option
use mathlib.Core.Path.{ap₂}
use svm_stuff.Base.{
  ℕ, zero, suc, ◌+◌, ◌<◌, ◌≤◌, ◌≡◌, ◌≢◌, inl, inr, refl, sym, ◌∙◌, Bool-cases, Bool, true, false,
  ◌&&◌, Option, none, some, List, [], ◌∷◌, ◌++◌, arith, leb, ◌==◌, if◌then◌else◌, length,
}
use svm_stuff.Vmx.Shadow.{
  Field, ShadowVmcs, max_fields, set_slot, read_loop, read, write_loop, append_field, write,
}
use svm_stuff.Vmx.Shadow.Map.{field, lookup, insert, lookup-insert, insert-append}

unfoldable pub slots : ℕ → ℕ → (ℕ → Field) → List Field
slots zero i fs = []
slots (suc left) i fs = fs i ∷ slots left (i + 1) fs

-- The slots in use.
unfoldable pub view : ShadowVmcs → List Field
unfolding slots
view s = slots s.count 0 s.fields

read_loop-lookup :
    (left i : ℕ) (fs : ℕ → Field) (e : ℕ)
    → read_loop left i fs e ≡ Option.get_or (lookup e (slots left i fs)) 0
unfolding read_loop lookup slots
read_loop-lookup zero i fs e = refl
read_loop-lookup (suc left) i fs e = ground (arith, read_loop-lookup left (i + 1) fs e)

slots-set_slot_below :
    (left i j : ℕ) (fs : ℕ → Field) (f : Field)
    → j < i
    → slots left i (set_slot fs j f) ≡ slots left i fs
unfolding slots
slots-set_slot_below zero i j fs f h = refl
slots-set_slot_below (suc left) i j fs f h =
    ground (arith, slots-set_slot_below left (i + 1) j fs f)

-- One slot more.
slots-append :
    (left i : ℕ) (fs : ℕ → Field) (f : Field)
    → slots (suc left) i (set_slot fs (i + left) f) ≡ slots left i fs ++ f ∷ []
unfolding slots
slots-append zero i fs f = ground arith
slots-append (suc left) i fs f =
    let e : i + suc left ≡ i + 1 + left = omega arith in
    rw e (ap₂ ◌∷◌ (ground arith) (slots-append left (i + 1) fs f))

length-slots : (left i : ℕ) (fs : ℕ → Field) → length (slots left i fs) ≡ left
unfolding slots
length-slots zero i fs = refl
length-slots (suc left) i fs = omega (arith, length-slots left (i + 1) fs)

-- What the loop of `write` does to the slots from `i`, and that it spares those below.
abbrev Written : ℕ → ℕ → (ℕ → Field) → ℕ → ℕ → Option (ℕ → Field) → Type 0
Written left i fs e v none = lookup e (slots left i fs) ≡ none
Written left i fs e v (some gs) =
    (slots left i gs ≡ insert e v (slots left i fs))
    × ((j : ℕ) → j < i → gs j ≡ fs j)
    × (lookup e (slots left i fs) ≢ none)

-- A slot that does not hold the encoding is passed over.
pass_over :
    (left i : ℕ) (fs : ℕ → Field) (e v : ℕ) (r : Option (ℕ → Field))
    → ((fs i).enc == e) ≡ false
    → Written left (i + 1) fs e v r
    → Written (suc left) i fs e v r
unfolding lookup insert slots
pass_over left i fs e v none other h = rw other h
pass_over left i fs e v (some gs) other h =
    (rw (other, h.1 i (omega arith), h.0), λ j below. h.1 j (omega arith), rw other h.2)

write_loop-Written :
    (left i : ℕ) (fs : ℕ → Field) (e v : ℕ) → Written left i fs e v (write_loop left i fs e v)
unfolding write_loop lookup insert slots
write_loop-Written zero i fs e v = refl
write_loop-Written (suc left) i fs e v = elim (Bool-cases ((fs i).enc == e)) [
  | inl same ↦ rw same (
    rw same (ap₂ ◌∷◌ (ground arith) (slots-set_slot_below left (i + 1) i fs _ (omega arith))),
    ground arith,
    rw same (λ absent. cc),
  )
  | inr other ↦ rw other (
      pass_over left i fs e v (write_loop left (i + 1) fs e v) other
        (write_loop-Written left (i + 1) fs e v))
]

-- The store does what the abstract map does, with 0 for what was never written.
pub read-lookup : (s : ShadowVmcs) (e : ℕ) → read s e ≡ Option.get_or (lookup e (view s)) 0
unfolding read view
read-lookup s e = read_loop-lookup s.count 0 s.fields e

pub length-view : (s : ShadowVmcs) → length (view s) ≡ s.count
unfolding view
length-view s = length-slots s.count 0 s.fields

-- How a write ends: it updates the map, keeps its flag and grows by at most one slot, or it is
-- dropped by a full store.
pub data Outcome (s : ShadowVmcs) (e v : ℕ) : ShadowVmcs × Bool → Type 0 where
  updated :
      {t : ShadowVmcs}
      → view t ≡ insert e v (view s)
      → t.count ≡ s.count
      → t.launched ≡ s.launched
      → lookup e (view s) ≢ none
      → Outcome s e v (t, true)
  appended :
      {t : ShadowVmcs}
      → view t ≡ insert e v (view s)
      → t.count ≡ s.count + 1
      → t.launched ≡ s.launched
      → lookup e (view s) ≡ none
      → s.count < max_fields
      → Outcome s e v (t, true)
  dropped : lookup e (view s) ≡ none → max_fields ≤ s.count → Outcome s e v (s, false)

-- A new encoding in the first free slot.
slots-insert :
    (n : ℕ) (fs : ℕ → Field) (e v : ℕ)
    → lookup e (slots n 0 fs) ≡ none
    → slots (n + 1) 0 (set_slot fs n (field e v)) ≡ insert e v (slots n 0 fs)
slots-insert n fs e v absent =
    let next : n + 1 ≡ suc n = omega arith in
    let from_zero : 0 + n ≡ n = omega arith in
    rw next (
      rw from_zero at (slots-append n 0 fs (field e v))
      ∙ sym (insert-append e v (slots n 0 fs) absent))

append_field-Outcome :
    (s : ShadowVmcs) (e v : ℕ) → lookup e (view s) ≡ none → Outcome s e v (append_field s e v)
unfolding append_field view
append_field-Outcome s e v absent = elim (Bool-cases (leb max_fields s.count)) [
  | inl full ↦ rw full (dropped absent (ground arith))
  | inr room ↦
      rw room (appended (slots-insert s.count s.fields e v absent) refl refl absent (ground arith))
]

-- A write updates the map that the store represents and keeps the launch flag: it changes a field
-- that is there, or takes one more slot for a new one. A new field that finds the store full is
-- dropped, with the store unchanged and false returned.
pub write-Outcome : (s : ShadowVmcs) (e v : ℕ) → Outcome s e v (write s e v)
unfolding write view
write-Outcome s e v =
    finish (write_loop s.count 0 s.fields e v) (write_loop-Written s.count 0 s.fields e v)
  where
    finish :
        (r : Option (ℕ → Field))
        → Written s.count 0 s.fields e v r
        → Outcome s e v
            (elim r [ some fs ↦ (record s { fields = fs }, true) | none ↦ append_field s e v ])
    finish none h = append_field-Outcome s e v h
    finish (some gs) h = updated h.0 refl refl h.2

-- After a write that returned true its field reads as the value written; every other field, and
-- every field after a write that returned false, reads as before.
pub read-write :
    (s : ShadowVmcs) (k e v : ℕ)
    → read (write s e v).0 k ≡ (if (write s e v).1 && (e == k) then v else read s k)
read-write s k e v = split (write s e v) (write-Outcome s e v)
  where
    split :
        (r : ShadowVmcs × Bool)
        → Outcome s e v r
        → read r.0 k ≡ (if r.1 && (e == k) then v else read s k)
    split r (updated {t} w c l p) =
        rw (read-lookup t k, w, lookup-insert k e v (view s), read-lookup s k) (ground arith)
    split r (appended {t} w c l p q) =
        rw (read-lookup t k, w, lookup-insert k e v (view s), read-lookup s k) (ground arith)
    split r (dropped p q) = refl
