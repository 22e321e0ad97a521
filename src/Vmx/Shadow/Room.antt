-- ===== src/Vmx/Shadow/Room.antt =====
-- The room that the shadow VMCS of src/kern_vmx.hpp has left for a fixed list of fields, as fields are
-- written.
use mathlib.Core.Path.{fun_ext}
use svm_stuff.Base.{
  ℕ, ◌+◌, ◌≤◌, ◌≡◌, ◌≢◌, refl, subst, ap, ==_self, Bool, true, false, Option, none, some, List, [],
  ◌∷◌, ◌++◌, arith, ◌==◌, ◌||◌, ◌&&◌, if◌then◌else◌, length, Bool-cases, inl, inr,
}
use svm_stuff.Vmx.Shadow.{Field, ShadowVmcs, max_fields, write}
use svm_stuff.Vmx.Shadow.Map.{lookup, insert, lookup-insert}
use svm_stuff.Vmx.Shadow.Refine.{view, Outcome, updated, appended, dropped, write-Outcome}
use svm_stuff.Vmx.Shadow.Writes.{missing, run_writes}

-- Which encodings a store holds.
abbrev pub is_there : Option ℕ → Bool
is_there none = false
is_there (some v) = true

abbrev pub holds : List Field → ℕ → Bool
holds fs k = is_there (lookup k fs)

abbrev with_key : ℕ → (ℕ → Bool) → ℕ → Bool
with_key e has k = (e == k) || has k

-- How many of these encodings are not there yet.
unfoldable pub unseen : List ℕ → (ℕ → Bool) → ℕ
unseen [] has = 0
unseen (e ∷ es) has = (if has e then 0 else 1) + unseen es (with_key e has)

abbrev pub encodings : List Field → List ℕ
encodings [] = []
encodings (w ∷ ws) = w.enc ∷ encodings ws

-- Whether an encoding is one of these, and whether all that is written is.
abbrev pub among : ℕ → List ℕ → Bool
among k [] = false
among k (e ∷ es) = (k == e) || among k es

abbrev pub all_among : List ℕ → List Field → Bool
all_among es [] = true
all_among es (w ∷ ws) = among w.enc es && all_among es ws

holds-insert : (e v : ℕ) (fs : List Field) → holds (insert e v fs) ≡ with_key e (holds fs)
holds-insert e v fs = fun_ext λ k. ground (arith, lookup-insert k e v fs)

pub missing-unseen : (ws fs : List Field) → missing ws fs ≡ unseen (encodings ws) (holds fs)
unfolding missing unseen
missing-unseen [] fs = refl
missing-unseen (w ∷ ws) fs =
    rw (missing-unseen ws (insert w.enc w.val fs), holds-insert w.enc w.val fs)
      (ap (λ n. n + unseen (encodings ws) (with_key w.enc (holds fs))) (counted (lookup w.enc fs)))
  where
    counted :
        (o : Option ℕ)
        → (elim o as (λ x. ℕ) [ none ↦ 1 | some v ↦ 0 ]) ≡ (if is_there o then 0 else 1)
    counted none = refl
    counted (some v) = refl

unseen_here : (e : ℕ) (has : ℕ → Bool) → has e ≡ true → with_key e has ≡ has
unseen_here e has h = fun_ext λ k. ground (arith, h)

key_twice : (e : ℕ) (has : ℕ → Bool) → with_key e (with_key e has) ≡ with_key e has
key_twice e has = fun_ext λ k. ground arith

key_comm : (e f : ℕ) (has : ℕ → Bool) → with_key e (with_key f has) ≡ with_key f (with_key e has)
key_comm e f has = fun_ext λ k. ground arith

-- A new key among the encodings is one that is there now.
unseen-new_head :
    (k : ℕ) (es : List ℕ) (has : ℕ → Bool)
    → has k ≡ false
    → unseen (k ∷ es) (with_key k has) + 1 ≡ unseen (k ∷ es) has
unfolding unseen
unseen-new_head k es has h = rw (==_self k, h, key_twice k has) (omega arith)

unseen-new :
    (k : ℕ) (es : List ℕ) (has : ℕ → Bool)
    → among k es ≡ true
    → has k ≡ false
    → unseen es (with_key k has) + 1 ≡ unseen es has
unfolding unseen
unseen-new k [] has a h = cc
unseen-new k (e ∷ es) has a h = elim (Bool-cases (k == e)) [
  | inl same ↦
      let eq : k ≡ e = ground (arith, same) in
      subst (λ x. unseen (x ∷ es) (with_key k has) + 1 ≡ unseen (x ∷ es) has) eq
        (unseen-new_head k es has h)
  | inr other ↦
      let rest = unseen-new k es (with_key e has) (rw other at a) (ground (arith, other, h)) in
      rw (other, key_comm e k has) (omega (arith, rest))
]

unseen-le-length : (es : List ℕ) (has : ℕ → Bool) → unseen es has ≤ length es
unfolding unseen
unseen-le-length [] has = omega arith
unseen-le-length (e ∷ es) has = ground (arith, unseen-le-length es (with_key e has))

pub unseen-le-append : (es fs : List ℕ) (has : ℕ → Bool) → unseen es has ≤ unseen (es ++ fs) has
unfolding unseen
unseen-le-append [] fs has = omega arith
unseen-le-append (e ∷ es) fs has = omega (arith, unseen-le-append es fs (with_key e has))

-- The store has room for all of the encodings.
unfoldable pub RoomFor : List ℕ → ShadowVmcs → Type 0
RoomFor es s = s.count + unseen es (holds (view s)) ≤ max_fields

pub RoomFor-of_count :
    (es : List ℕ) (s : ShadowVmcs) → s.count + length es ≤ max_fields → RoomFor es s
unfolding RoomFor
RoomFor-of_count es s h = omega (arith, unseen-le-length es (holds (view s)))

there : (o : Option ℕ) → o ≢ none → is_there o ≡ true
there none h = absurd (h refl)
there (some v) h = refl

-- Writing one of them leaves the room.
write-RoomFor :
    (es : List ℕ) (s : ShadowVmcs) (e v : ℕ)
    → among e es ≡ true
    → RoomFor es s
    → RoomFor es (write s e v).0
unfolding RoomFor
write-RoomFor es s e v a room = split (write s e v) (write-Outcome s e v)
  where
    split : (r : ShadowVmcs × Bool) → Outcome s e v r → RoomFor es r.0
    split r (updated w c l p) =
        rw (w, c, holds-insert e v (view s))
          (rw (unseen_here e (holds (view s)) (there (lookup e (view s)) p)) room)
    split r (appended w c l p q) =
        rw (w, c, holds-insert e v (view s))
          (omega (arith, unseen-new e es (holds (view s)) a (ap is_there p)))
    split r (dropped p full) = room

pub run_writes-RoomFor :
    (es : List ℕ) (ws : List Field) (s : ShadowVmcs)
    → all_among es ws ≡ true
    → RoomFor es s
    → RoomFor es (run_writes ws s)
unfolding run_writes
run_writes-RoomFor es [] s h room = room
run_writes-RoomFor es (w ∷ ws) s h room =
    run_writes-RoomFor es ws (write s w.enc w.val).0 (ground (arith, h))
      (write-RoomFor es s w.enc w.val (ground (arith, h)) room)
