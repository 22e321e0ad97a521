-- ===== src/Ept/Entry.antt =====
-- The bits of an NPT entry, as functions of the EPT entry's.
use svm_stuff.Base.{
  ℕ, ◌+◌, ◌-◌, ◌*◌, ◌/◌, ◌%◌, ◌^◌, ◌<◌, ◌≡◌, ◌≢◌, ◌↔◌, Bool, true, false, refl, arith, ◌∙◌,
  Bool-cases, inl, inr, bit_and, ◌==◌, if◌then◌else◌,
}
use svm_stuff.Bits.{bit_and_field, bit_and_bit, bit_or_bit, bit_or-add-bit_and}
use svm_stuff.Ept.{ept_entry_to_npt, access_bits, leaf_bits}

abbrev pub bit : ℕ → ℕ → ℕ
bit i x = x / 2 ^ i % 2

-- Bits 12 to 51, the physical address.
abbrev pub frame : ℕ → ℕ
frame x = x / 2 ^ 12 % 2 ^ 40

access_as_sum :
    (e : ℕ) → access_bits e ≡ 5 + bit 1 e * 2 + frame e * 2 ^ 12 + (1 - bit 2 e) * 2 ^ 63
unfolding access_bits
access_as_sum e =
    let addr = frame e * 2 ^ 12 in
    ground (
      arith,
      bit_and_field 12 40 e,
      bit_and_bit 1 e,
      bit_and_bit 2 e,
      bit_or_bit 0 addr,
      bit_or_bit 2 (addr + 1),
      bit_or_bit 1 (addr + 5),
      bit_or_bit 63 (addr + 5),
      bit_or_bit 63 (addr + 7),
    )

-- The memory type, and whether it is "uncacheable".
abbrev pub mem_type : ℕ → ℕ
mem_type x = x / 2 ^ 3 % 2 ^ 3

abbrev pub uncacheable : ℕ → ℕ
uncacheable x = if mem_type x == 0 then 1 else 0

leaf_as_sum :
    (e n : ℕ)
    → bit 3 n ≡ 0
    → bit 4 n ≡ 0
    → bit 7 n ≡ 0
    → leaf_bits e n ≡ n + bit 7 e * 2 ^ 7 + uncacheable e * 24
unfolding leaf_bits
leaf_as_sum e n h3 h4 h7 = ground (
  arith,
  bit_and_bit 7 e,
  bit_and_field 0 3 (e / 2 ^ 3),
  bit_or_bit 7 n,
  bit_or-add-bit_and n 24,
  bit_and_field 3 2 n,
  bit_or-add-bit_and (n + 2 ^ 7) 24,
  bit_and_field 3 2 (n + 2 ^ 7),
)

-- A slot of an EPT table is in use if it grants any access.
abbrev pub IsPresent : ℕ → Type 0
IsPresent e = bit 0 e + bit 1 e + bit 2 e ≢ 0

-- What an NPT entry says, as bits of the word.
pub record IsNptFor (e : ℕ) (leaf : Bool) (n : ℕ) : Type 0 where
  pub present : bit 0 n ≡ 1
  pub writable : bit 1 n ≡ bit 1 e
  pub user : bit 2 n ≡ 1
  pub not_executable : bit 63 n ≡ 1 - bit 2 e
  pub same_frame : frame n ≡ frame e
  pub large : bit 7 n ≡ (if leaf then bit 7 e else 0)
  pub write_through : bit 3 n ≡ (if leaf then uncacheable e else 0)
  pub cache_disabled : bit 4 n ≡ (if leaf then uncacheable e else 0)
  pub reserved : (n / 2 ^ 5 % 4 ≡ 0) × (n / 2 ^ 8 % 16 ≡ 0) × (n / 2 ^ 52 % 2 ^ 11 ≡ 0)
  pub fits : n < 2 ^ 64

present_test : (e : ℕ) → IsPresent e → (bit_and e 7 == 0) ≡ false
present_test e h = ground (arith, bit_and_field 0 3 e)

npt_as_sum :
    (e : ℕ) (leaf : Bool)
    → IsPresent e
    → ept_entry_to_npt e leaf
      ≡ 5
        + bit 1 e * 2
        + frame e * 2 ^ 12
        + (1 - bit 2 e) * 2 ^ 63
        + (if leaf then bit 7 e * 2 ^ 7 + uncacheable e * 24 else 0)
unfolding ept_entry_to_npt
npt_as_sum e true h =
    rw (present_test e h, access_as_sum e)
      (leaf_as_sum e (5 + bit 1 e * 2 + frame e * 2 ^ 12 + (1 - bit 2 e) * 2 ^ 63) (omega arith)
          (omega arith) (omega arith)
        ∙ omega arith)
npt_as_sum e false h = rw (present_test e h) (omega (arith, access_as_sum e))

-- The fields of such a sum, for a writable bit, a frame, a no-execute bit, and what a leaf adds.
record Sum (w f x l u n : ℕ) : Type 0 where
  low : n % 2 ^ 8 ≡ 5 + w * 2 + l * 2 ^ 7 + u * 24
  middle : n / 2 ^ 8 % 16 ≡ 0
  address : frame n ≡ f
  top : n / 2 ^ 52 ≡ x * 2 ^ 11

Sum-fields :
    (w f x l u : ℕ)
    → w < 2
    → f < 2 ^ 40
    → l < 2
    → u < 2
    → Sum w f x l u (5 + w * 2 + f * 2 ^ 12 + x * 2 ^ 63 + (l * 2 ^ 7 + u * 24))
Sum-fields w f x l u hw hf hl hu = record {
  low = omega arith;
  middle = omega arith;
  address = omega arith;
  top = omega arith;
}

IsNptFor-of_Sum :
    (e : ℕ) (leaf : Bool) (n l u : ℕ)
    → l ≡ (if leaf then bit 7 e else 0)
    → u ≡ (if leaf then uncacheable e else 0)
    → Sum (bit 1 e) (frame e) (1 - bit 2 e) l u n
    → l < 2
    → u < 2
    → IsNptFor e leaf n
IsNptFor-of_Sum e leaf n l u hl hu s pl pu = record {
  present = omega arith;
  writable = omega arith;
  user = omega arith;
  not_executable = omega arith;
  same_frame = s.address;
  large = omega arith;
  write_through = omega arith;
  cache_disabled = omega arith;
  reserved = (omega arith, s.middle, omega arith);
  fits = omega arith;
}

-- An EPT entry that grants any access becomes a present user entry for the same frame, writable
-- and executable just if the EPT entry is. A leaf keeps its page size, and is uncached just if its
-- memory type is 0.
pub ept_entry_to_npt-IsNptFor :
    (e : ℕ) (leaf : Bool) → IsPresent e → IsNptFor e leaf (ept_entry_to_npt e leaf)
ept_entry_to_npt-IsNptFor e true h = rw (npt_as_sum e true h) (
    IsNptFor-of_Sum e true _ (bit 7 e) (uncacheable e) refl refl
      (Sum-fields (bit 1 e) (frame e) (1 - bit 2 e) (bit 7 e) (uncacheable e) (omega arith)
        (omega arith) (omega arith) (ground arith))
      (omega arith) (ground arith))
ept_entry_to_npt-IsNptFor e false h = rw (npt_as_sum e false h) (
    IsNptFor-of_Sum e false _ 0 0 refl refl
      (Sum-fields (bit 1 e) (frame e) (1 - bit 2 e) 0 0 (omega arith) (omega arith) (omega arith)
        (omega arith))
      (omega arith) (omega arith))

-- An EPT entry becomes the empty NPT entry exactly if it grants no access.
pub ept_entry_to_npt-zero_iff :
    (e : ℕ) (leaf : Bool) → (ept_entry_to_npt e leaf ≡ 0) ↔ ¬ IsPresent e
unfolding ept_entry_to_npt
ept_entry_to_npt-zero_iff e leaf = elim (Bool-cases (bit_and e 7 == 0)) [
  | inl absent ↦ (λ z p. absurd (ground (arith, bit_and_field 0 3 e)), λ p. rw absent)
  | inr used ↦ (
    λ z p. absurd (omega (arith, npt_as_sum e leaf p)),
    λ p. absurd (p (ground (arith, bit_and_field 0 3 e))),
  )
]
