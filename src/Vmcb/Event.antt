-- ===== src/Vmcb/Event.antt =====
-- `eventinj_make` of src/SVM.h.
use svm_stuff.Base.{
  ℕ, ◌+◌, ◌*◌, ◌/◌, ◌%◌, ◌^◌, ◌<◌, ◌≡◌, Bool, true, false, arith, bit_or, if◌then◌else◌, u64, ◌<<<◌,
}
use svm_stuff.Bits.{
  bit_or_low, bit_or_bit, bit_or-add-bit_and, bit_and_split, zero-bit_and, bit_and_bit,
}
use svm_stuff.Vmcb.Constants.{eventinj_ev, eventinj_valid}

unfoldable pub eventinj_make : ℕ → ℕ → Bool → ℕ → ℕ
eventinj_make vector type err_valid err_code =
    let e = bit_or (bit_or vector (u64 (type <<< 8))) eventinj_valid in
    if err_valid then bit_or e (bit_or eventinj_ev (err_code <<< 32)) else e

-- The fields of the word: the vector, the type, the flags and the error code.
pub record IsEvent (vector type : ℕ) (err_valid : Bool) (err_code e : ℕ) : Type 0 where
  pub vector_field : e % 2 ^ 8 ≡ vector
  pub type_field : e / 2 ^ 8 % 8 ≡ type
  pub error_flag : e / 2 ^ 11 % 2 ≡ (if err_valid then 1 else 0)
  pub reserved : e / 2 ^ 12 % 2 ^ 19 ≡ 0
  pub valid : e / 2 ^ 31 % 2 ≡ 1
  pub error_code : e / 2 ^ 32 ≡ (if err_valid then err_code else 0)

event_as_sum :
    (vector type : ℕ) (err_valid : Bool) (err_code : ℕ)
    → vector < 2 ^ 8
    → type < 8
    → err_code < 2 ^ 32
    → eventinj_make vector type err_valid err_code
      ≡ vector + type * 2 ^ 8 + 2 ^ 31 + (if err_valid then 2 ^ 11 + err_code * 2 ^ 32 else 0)
unfolding eventinj_make
event_as_sum vector type false err_code hv ht he =
    ground (arith, bit_or_low 8 type vector, bit_or_bit 31 (type * 2 ^ 8 + vector))
event_as_sum vector type true err_code hv ht he =
    let word = type * 2 ^ 8 + vector + 2 ^ 31 in
    ground (
      arith,
      bit_or_low 8 type vector,
      bit_or_bit 31 (type * 2 ^ 8 + vector),
      bit_or_low 32 err_code (2 ^ 11),
      bit_or-add-bit_and word (err_code * 2 ^ 32 + 2 ^ 11),
      bit_and_split 32 0 word err_code (2 ^ 11),
      zero-bit_and err_code,
      bit_and_bit 11 word,
    )

-- From an 8-bit vector, a 3-bit type and a 32-bit error code, the event word is valid, holds vector
-- and type, has its error-code flag and error code just if asked for, and 0 in the reserved bits.
pub eventinj_make-IsEvent :
    (vector type : ℕ) (err_valid : Bool) (err_code : ℕ)
    → vector < 2 ^ 8
    → type < 8
    → err_code < 2 ^ 32
    → IsEvent vector type err_valid err_code (eventinj_make vector type err_valid err_code)
eventinj_make-IsEvent vector type err_valid err_code hv ht he =
    rw (event_as_sum vector type err_valid err_code hv ht he) (fields err_valid)
  where
    fields :
        (b : Bool)
        → IsEvent vector type b err_code
            (vector + type * 2 ^ 8 + 2 ^ 31 + (if b then 2 ^ 11 + err_code * 2 ^ 32 else 0))
    fields true = omega arith
    fields false = omega arith
