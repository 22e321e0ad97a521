-- ===== src/Ept/Walk/Parallel.antt =====
-- The walk of nested tables made with `eptEntryToNpt` of src/kern_vmcs_vmcb.cpp, against the walk of the EPT.
use svm_stuff.Base.{
  ℕ, zero, suc, ◌*◌, ◌%◌, ◌^◌, ◌<◌, ◌≡◌, ◌≢◌, refl, sym, subst, ap, ◌∙◌, arith, Bool, true, false,
  ◌||◌, ◌==◌, not, Bool-cases, inl, inr,
}
use svm_stuff.Ept.Entry.{
  bit, frame, uncacheable, mem_type, IsPresent, IsNptFor, ept_entry_to_npt-IsNptFor,
  ept_entry_to_npt-zero_iff,
}
use svm_stuff.Ept.Walk.{
  Access, maps, misconfigured, ept_format, npt_reserved, npt_format, both, index, Tables, Walked,
  unmapped, faulty, mapped, found, walk, at_frame, counterpart, IsParallel, readable,
  readable_walked,
}

-- What the walks see of an entry that is in use and of what it becomes.
record SeenAlike (l e g n : ℕ) : Type 0 where
  used : npt_format.in_use n ≡ true
  accepted : misconfigured l e ≡ false → npt_reserved l n ≡ false
  grants : npt_format.grant n ≡ readable (ept_format.grant e)
  same_kind : maps l (bit 7 n) ≡ maps l (bit 7 e)
  same_page :
      maps l (bit 7 e) ≡ true → (frame n ≡ frame e) × (npt_format.uncached n ≡ uncacheable e)
  next_table : maps l (bit 7 e) ≡ false → frame n ≡ g

alike_access :
    {w x w' x' : ℕ}
    → w ≡ w'
    → x ≡ x'
    → Path Access
        (record { read = 1; write = w; execute = x })
        (record { read = 1; write = w'; execute = x' })
alike_access p q = cc

uncacheable_square : (e : ℕ) → uncacheable e * uncacheable e ≡ uncacheable e
uncacheable_square e = elim (Bool-cases (mem_type e == 0)) [ inl y ↦ rw y refl | inr n ↦ rw n refl ]

IsPresent-of : (e : ℕ) → ept_format.in_use e ≡ true → IsPresent e
IsPresent-of e u = ground (arith, u)

not_IsPresent-of : (e : ℕ) → ept_format.in_use e ≡ false → ¬ IsPresent e
not_IsPresent-of e u p = absurd (ground (arith, u, p))

aligned_of : (x r c : Bool) → (x || (r || not c)) ≡ false → c ≡ true
aligned_of x r c h = ground arith

leaf_aligned :
    (l e : ℕ)
    → maps l (bit 7 e) ≡ true
    → misconfigured l e ≡ false
    → (frame e % 2 ^ (9 * l) == 0) ≡ true
leaf_aligned l e k ok = aligned_of _ _ _ (rw k at ok)

leaf-accepted :
    (l e n : ℕ)
    → maps l (bit 7 e) ≡ true
    → maps l (bit 7 n) ≡ true
    → frame n ≡ frame e
    → misconfigured l e ≡ false
    → npt_reserved l n ≡ false
leaf-accepted zero e n k k' same ok = rw (same, leaf_aligned 0 e k ok) refl
leaf-accepted (suc zero) e n k k' same ok = rw (k', same, leaf_aligned 1 e k ok) refl
leaf-accepted (suc (suc zero)) e n k k' same ok = rw (k', same, leaf_aligned 2 e k ok) refl
leaf-accepted (suc (suc (suc l))) e n k k' same ok = absurd (true_ne_false (sym k))
  where
    true_ne_false : ¬ (true ≡ false)
    true_ne_false e = cc

-- Bit 7 of an entry that is no leaf is 0 in the nested table.
table-accepted : (l e n : ℕ) → maps l (bit 7 e) ≡ false → bit 7 n ≡ 0 → npt_reserved l n ≡ false
table-accepted zero e n k z = absurd (ground (arith, k))
table-accepted (suc zero) e n k z = rw z refl
table-accepted (suc (suc zero)) e n k z = rw z refl
table-accepted (suc (suc (suc l))) e n k z = rw z refl

table_kind : (l b : ℕ) → maps l b ≡ false → maps l 0 ≡ false
table_kind zero b k = k
table_kind (suc zero) b k = refl
table_kind (suc (suc zero)) b k = refl
table_kind (suc (suc (suc l))) b k = refl

leaf-SeenAlike : (l e g n : ℕ) → maps l (bit 7 e) ≡ true → IsNptFor e true n → SeenAlike l e g n
leaf-SeenAlike l e g n k i = record {
  used = ground (arith, i.present);
  accepted = leaf-accepted l e n k (ap (maps l) i.large ∙ k) i.same_frame;
  grants = rw (i.user, i.writable, i.not_executable) (alike_access (omega arith) (omega arith));
  same_kind = ap (maps l) i.large;
  same_page = λ m. (i.same_frame, rw (i.write_through, i.cache_disabled) (uncacheable_square e));
  next_table = λ m. cc;
}

-- Another address changes no bit below it.
record OtherFrame (e g e' : ℕ) : Type 0 where
  read : bit 0 e' ≡ bit 0 e
  write : bit 1 e' ≡ bit 1 e
  execute : bit 2 e' ≡ bit 2 e
  address : frame e' ≡ g

at_frame-OtherFrame : (e g : ℕ) → g < 2 ^ 40 → OtherFrame e g (at_frame e g)
at_frame-OtherFrame e g h = record {
  read = omega arith;
  write = omega arith;
  execute = omega arith;
  address = omega arith;
}

table-SeenAlike :
    (l e g e' n : ℕ)
    → maps l (bit 7 e) ≡ false
    → OtherFrame e g e'
    → IsNptFor e' false n
    → SeenAlike l e g n
table-SeenAlike l e g e' n k o i = record {
  used = ground (arith, i.present);
  accepted = λ ok. table-accepted l e n k i.large;
  grants =
      rw (i.user, i.writable, i.not_executable, o.write, o.execute)
        (alike_access (omega arith) (omega arith));
  same_kind = ap (maps l) i.large ∙ table_kind l (bit 7 e) k ∙ sym k;
  same_page = λ m. cc;
  next_table = λ m. i.same_frame ∙ o.address;
}

IsPresent-at : (e g e' : ℕ) → OtherFrame e g e' → IsPresent e → IsPresent e'
IsPresent-at e g e' o p z = p (omega (arith, o.read, o.write, o.execute))

not_IsPresent-at : (e g e' : ℕ) → OtherFrame e g e' → ¬ IsPresent e → ¬ IsPresent e'
not_IsPresent-at e g e' o p q = p (λ z. q (omega (arith, o.read, o.write, o.execute)))

counterpart-SeenAlike : (l e g : ℕ) → g < 2 ^ 40 → IsPresent e → SeenAlike l e g (counterpart l e g)
counterpart-SeenAlike l e g h p = elim (Bool-cases (maps l (bit 7 e))) [
  | inl k ↦ rw k (leaf-SeenAlike l e g _ k (ept_entry_to_npt-IsNptFor e true p))
  | inr k ↦
      let o = at_frame-OtherFrame e g h in
      rw k (
        table-SeenAlike l e g (at_frame e g) _ k o
          (ept_entry_to_npt-IsNptFor (at_frame e g) false (IsPresent-at e g (at_frame e g) o p)))
]

counterpart_absent : (l e g : ℕ) → g < 2 ^ 40 → ¬ IsPresent e → counterpart l e g ≡ 0
counterpart_absent l e g h p = elim (Bool-cases (maps l (bit 7 e))) [
  | inl k ↦ rw k ((ept_entry_to_npt-zero_iff e true).1 p)
  | inr k ↦ rw k (
      (ept_entry_to_npt-zero_iff (at_frame e g) false).1
        (not_IsPresent-at e g (at_frame e g) (at_frame-OtherFrame e g h) p))
]

-- An entry and its counterpart give the same, if what is below them is the same.
found-counterpart :
    (l e g n : ℕ) (a : Access) (under under' : Walked)
    → g < 2 ^ 40
    → n ≡ counterpart l e g
    → (SeenAlike l e g n
        → maps l (bit 7 e) ≡ false
        → under' ≢ faulty
        → under ≡ readable_walked under')
    → found ept_format l e a under' ≢ faulty
    → found npt_format l n (readable a) under ≡ readable_walked (found ept_format l e a under')
unfolding found
found-counterpart l e g n a under under' small c h fine = elim (Bool-cases (ept_format.in_use e)) [
  | inr u ↦ rw (u, c, counterpart_absent l e g small (not_IsPresent-of e u)) refl
  | inl u ↦ elim (Bool-cases (misconfigured l e)) [
    | inl bad ↦ absurd (fine (rw (u, bad) refl))
    | inr good ↦
        let s =
          subst (SeenAlike l e g) (sym c) (counterpart-SeenAlike l e g small (IsPresent-of e u)) in
        elim (Bool-cases (maps l (bit 7 e))) [
          | inl m ↦
              rw
                (
                  u,
                  good,
                  s.used,
                  s.accepted good,
                  s.same_kind,
                  m,
                  (s.same_page m).0,
                  (s.same_page m).1,
                )
                (ap
                  (λ x. mapped (record {
                    access = both (readable a) x;
                    frame = frame e;
                    level = l;
                    uncached = uncacheable e;
                  }))
                  s.grants)
          | inr m ↦
              rw (u, good, s.used, s.accepted good, s.same_kind, m)
                (h s m (λ f. fine (rw (u, good, m) f)))
        ]
  ]
]

-- Let nested tables be filled entry by entry from an EPT: a leaf (at the last level, or a large page)
-- converted as a leaf, any other entry converted with the address of the parallel table. Where the walk
-- of the EPT meets no misconfigured entry, the walk of the nested tables from the parallel of the
-- table where it starts ends alike, and with no fault on the form of an entry: nothing is mapped, or the
-- same frame at the same level, with the same write and execute permission of the whole walk,
-- uncached just if the EPT's memory type is 0. The one difference is that the nested tables let the
-- guest read every page they map.
pub walk-parallel :
    (place : ℕ → ℕ → ℕ) (t n : Tables) (gpa l : ℕ) (a : Access) (f : ℕ)
    → IsParallel place t n
    → f < 2 ^ 40
    → walk ept_format t gpa l a f ≢ faulty
    → walk npt_format n gpa l (readable a) (place l f)
      ≡ readable_walked (walk ept_format t gpa l a f)
unfolding walk
walk-parallel place t n gpa zero a f p small fine =
    found-counterpart 0 (t 0 f (index 0 gpa)) 0 _ a unmapped unmapped (omega arith)
      (p.entries 0 f (index 0 gpa) small) (λ s m k. refl) fine
walk-parallel place t n gpa (suc l) a f p small fine =
    let i = index (suc l) gpa in
    let e = t (suc l) f i in
    let g = place l (frame e) in
    let e' = n (suc l) (place (suc l) f) i in
    found-counterpart (suc l) e g e' a _ _ (p.address l (frame e)) (p.entries (suc l) f i small)
      (λ s m k.
        ap (λ x. walk npt_format n gpa l (both (readable a) x) (frame e')) s.grants
        ∙ ap (walk npt_format n gpa l (both (readable a) (readable (ept_format.grant e))))
            (s.next_table m)
        ∙ walk-parallel place t n gpa l (both a (ept_format.grant e)) (frame e) p (omega arith) k)
      fine
