-- ===== src/Vmx/Shadow/Contents.antt =====
-- `ShadowVMCS` of src/kern_vmx.hpp without its slots: which encodings have which values, how many there are, and the
-- launch flag.
use mathlib.Core.Option
use mathlib.Core.Path.{fun_ext}
use svm_stuff.Base.{
  ℕ, ◌+◌, ◌≡◌, refl, ap, ◌∙◌, Bool, Option, none, some, List, [], ◌∷◌, arith, leb, ◌==◌,
  if◌then◌else◌,
}
use svm_stuff.Vmx.Shadow.{Field, ShadowVmcs, max_fields, read, write, set_launched}
use svm_stuff.Vmx.Shadow.Map.{lookup, insert, lookup-insert}
use svm_stuff.Vmx.Shadow.Refine.{
  view, Outcome, updated, appended, dropped, write-Outcome, read-lookup,
}
use svm_stuff.Vmx.Shadow.Writes.{run_writes}

pub record Contents : Type 0 where
  pub values : ℕ → Option ℕ
  pub count : ℕ
  pub launched : Bool

unfoldable pub contents : ShadowVmcs → Contents
contents s = record { values = λ k. lookup k (view s); count = s.count; launched = s.launched }

abbrev pub with_value : ℕ → ℕ → (ℕ → Option ℕ) → ℕ → Option ℕ
with_value e v f k = if e == k then some v else f k

-- A bounded map: a value is changed where it is there, and added where there is room.
unfoldable pub put_value : ℕ → ℕ → Contents → Contents
put_value e v c = elim (c.values e) [
  | some old ↦ record c { values = with_value e v c.values }
  | none ↦
      if leb max_fields c.count
      then c
      else record c { values = with_value e v c.values; count = c.count + 1 }
]

values-write :
    (s t : ShadowVmcs) (e v : ℕ)
    → view t ≡ insert e v (view s)
    → (contents t).values ≡ with_value e v (contents s).values
unfolding contents
values-write s t e v h = fun_ext λ k. rw h (lookup-insert k e v (view s))

pub contents-write :
    (s : ShadowVmcs) (e v : ℕ) → contents (write s e v).0 ≡ put_value e v (contents s)
unfolding contents put_value
contents-write s e v = split (write s e v) (write-Outcome s e v)
  where
    split : (r : ShadowVmcs × Bool) → Outcome s e v r → contents r.0 ≡ put_value e v (contents s)
    split r (updated {t} w c l a) = ground (arith, values-write s t e v w)
    split r (appended {t} w c l a room) = ground (arith, values-write s t e v w)
    split r (dropped a full) = ground arith

pub contents-set_launched :
    (s : ShadowVmcs) (b : Bool) → contents (set_launched s b) ≡ record (contents s) { launched = b }
unfolding contents set_launched view
contents-set_launched s b = refl

pub read-contents : (s : ShadowVmcs) (k : ℕ) → read s k ≡ Option.get_or ((contents s).values k) 0
unfolding contents
read-contents s k = read-lookup s k

unfoldable pub put_values : List Field → Contents → Contents
put_values [] c = c
put_values (w ∷ ws) c = put_values ws (put_value w.enc w.val c)

pub contents-run_writes :
    (ws : List Field) (s : ShadowVmcs) → contents (run_writes ws s) ≡ put_values ws (contents s)
unfolding run_writes put_values
contents-run_writes [] s = refl
contents-run_writes (w ∷ ws) s =
    contents-run_writes ws (write s w.enc w.val).0
    ∙ ap (put_values ws) (contents-write s w.enc w.val)
