-- ===== src/Protobuf/Walk/Fuel.antt =====
-- The fuel of `walk`: how much is enough, and whether more of it changes anything.
use android_workbench.Prelude.{
  ℕ, zero, suc, ◌+◌, ◌≤◌, ◌<◌, Option, none, some, Bool, true, false, List, [], ◌∷◌, length, eqb,
  leb, if◌then◌else◌, ◌≡◌, refl, subst, some_inj, arith, Bool-cases, Option-cases, inl, inr, ◌/◌,
  ◌%◌, sym, ◌∙◌, ◌++◌,
}
use android_workbench.Protobuf.Varint.{read_varint, too_wide}
use android_workbench.Protobuf.Varint.Bounds.{read_varint_shorter}
use android_workbench.Protobuf.Walk.{
  Field, nil, cons, group, payload, fixed64, fixed32, Fault, Status, Walked, Found, nothing, halts,
  leaf, opens, too_deep, read_bytes, chunk_or, value_or, length_or, closes, read_value, read_tag,
  read_field, with_field, group_errors, with_inner, walk_on, walk, walk_message,
}

read_bytes_shorter :
    (n : ℕ) (buf front rest : List ℕ)
    → read_bytes n buf ≡ some (front, rest)
    → length rest ≤ length buf
unfolding read_bytes
read_bytes_shorter zero buf front rest h =
    subst (λ (p : List ℕ × List ℕ). length p.1 ≤ length buf) (some_inj h) (omega arith)
read_bytes_shorter (suc n) [] front rest h = cc
read_bytes_shorter (suc n) (b ∷ buf) front rest h = elim (Option-cases (read_bytes n buf)) [
  | inl e ↦ let bad = rw (e, read_bytes) at h in cc
  | inr ((f, r), e) ↦
      let ih = read_bytes_shorter n buf f r e in
      subst (λ (p : List ℕ × List ℕ). length p.1 ≤ length (b ∷ buf))
        (some_inj (rw (e, read_bytes) at h)) (omega (arith, ih))
]

-- What is left behind the finding is shorter than `n` bytes where the walk goes on.
abbrev Leaves : ℕ → Found → Type 0
Leaves n nothing = Unit
Leaves n (halts status rest errors) = length rest ≤ n
Leaves n (leaf x rest) = length rest < n
Leaves n (opens num rest) = length rest < n
Leaves n (too_deep num) = 0 < n

chunk_or-Leaves :
    (n k : ℕ) (f : List ℕ → Field) (fault : Fault) (rest from : List ℕ)
    → length rest < n
    → length from < n
    → Leaves n (chunk_or f fault rest (read_bytes k from))
chunk_or-Leaves n k f fault rest from h g = elim (Option-cases (read_bytes k from)) [
  | inl e ↦ rw e (omega arith)
  | inr ((front, behind), e) ↦ rw e (omega (arith, read_bytes_shorter k from front behind e))
]

value_or-Leaves :
    (n num : ℕ) (rest : List ℕ) → length rest < n → Leaves n (value_or num rest (read_varint rest))
value_or-Leaves n num rest h = elim (Option-cases (read_varint rest)) [
  | inl e ↦ rw e (omega arith)
  | inr (v, e) ↦ rw e (omega (arith, (read_varint_shorter rest v e).0))
]

length_or-Leaves :
    (n num : ℕ) (rest : List ℕ) → length rest < n → Leaves n (length_or num rest (read_varint rest))
length_or-Leaves n num rest h = elim (Option-cases (read_varint rest)) [
  | inl e ↦ rw e (omega arith)
  | inr (l, e) ↦ elim (Bool-cases (too_wide l)) [
    | inl w ↦ rw (e, w) (omega arith)
    | inr w ↦
        rw (e, w)
          (chunk_or-Leaves n l.value (payload num) Fault.length_overruns_buffer rest l.rest h
            (omega (arith, (read_varint_shorter rest l e).0)))
  ]
]

closes-Leaves :
    (n num : ℕ) (until : Option ℕ) (rest : List ℕ)
    → length rest < n
    → Leaves n (closes until num rest)
closes-Leaves n num none rest h = omega arith
closes-Leaves n num (some g) rest h = elim (Bool-cases (eqb num g)) [
  | inl e ↦ rw e (omega arith)
  | inr e ↦ rw e (omega arith)
]

Leaves-if :
    (n : ℕ) (b : Bool) (x y : Found) → Leaves n x → Leaves n y → Leaves n (if b then x else y)
Leaves-if n true x y h k = h
Leaves-if n false x y h k = k

read_value-Leaves :
    (n max_depth depth : ℕ) (until : Option ℕ) (num wire : ℕ) (rest : List ℕ)
    → length rest < n
    → Leaves n (read_value max_depth depth until num wire rest)
unfolding read_value
read_value-Leaves n max_depth depth until num wire rest h =
    Leaves-if n (eqb wire 4) _ _ (closes-Leaves n num until rest h) (
      Leaves-if n (eqb wire 0) _ _ (value_or-Leaves n num rest h) (
        Leaves-if n (eqb wire 1) _ _
          (chunk_or-Leaves n 8 (fixed64 num) Fault.truncated_fixed64 rest rest h h)
          (Leaves-if n (eqb wire 5) _ _
            (chunk_or-Leaves n 4 (fixed32 num) Fault.truncated_fixed32 rest rest h h)
            (Leaves-if n (eqb wire 2) _ _ (length_or-Leaves n num rest h) (
              Leaves-if n (eqb wire 3) _ _ (Leaves-if n (leb max_depth depth) _ _ (omega arith) h)
                (omega arith))))))

read_field-Leaves :
    (max_depth depth : ℕ) (until : Option ℕ) (buf : List ℕ)
    → Leaves (length buf) (read_field max_depth depth until buf)
unfolding read_field read_tag
read_field-Leaves max_depth depth until [] = tt
read_field-Leaves max_depth depth until (b ∷ buf) = elim (Option-cases (read_varint (b ∷ buf))) [
  | inl e ↦ rw e (omega arith)
  | inr (t, e) ↦
      let less = read_varint_shorter (b ∷ buf) t e in
      elim (Bool-cases (too_wide t)) [
        | inl w ↦ rw (e, w) (omega (arith, less.0))
        | inr w ↦
            rw (e, w)
              (read_value-Leaves (length (b ∷ buf)) max_depth depth until (t.value / 8)
                (t.value % 8) t.rest (omega (arith, less.0, less.1)))
      ]
]

-- The walk has ended, and has not gone back.
abbrev Ends : ℕ → Option Walked → Type 0
Ends n o = (w : Walked) × (o ≡ some w) × (length w.rest ≤ n)

with_field-Ends :
    (n m : ℕ) (x : Field) (o : Option Walked) → m ≤ n → Ends m o → Ends n (with_field x o)
with_field-Ends n m x o l (w, e, h) =
    rw e (record w { fields = cons x w.fields }, refl, omega (arith, h, l))

with_inner-Ends :
    (n m num : ℕ) (inner : Walked) (o : Option Walked)
    → m ≤ n
    → Ends m o
    → Ends n (with_inner num inner o)
with_inner-Ends n m num inner o l (w, e, h) = rw e (
  record w {
    fields = cons (group num inner.fields false) w.fields;
    errors = group_errors inner ++ w.errors;
  },
  refl,
  omega (arith, h, l),
)

walk_on-Ends :
    (again : ℕ → Option ℕ → List ℕ → Option Walked) (fuel n depth : ℕ) (until : Option ℕ)
    (f : Found)
    → ((d : ℕ) (u : Option ℕ) (b : List ℕ) → length b < fuel → Ends (length b) (again d u b))
    → n ≤ fuel
    → Leaves n f
    → Ends n (walk_on again depth until f)
walk_on-Ends again fuel n depth until nothing h l c = (
  record { fields = nil; rest = []; status = Status.end_of_buffer; errors = [] },
  refl,
  omega arith,
)
walk_on-Ends again fuel n depth until (halts status rest errors) h l c =
    (record { fields = nil; rest = rest; status = status; errors = errors }, refl, c)
walk_on-Ends again fuel n depth until (leaf x rest) h l c =
    with_field-Ends n (length rest) x (again depth until rest) (omega arith)
      (h depth until rest (omega arith))
walk_on-Ends again fuel n depth until (too_deep num) h l c =
    with_field-Ends n 0 (group num nil true) (again depth until []) (omega arith)
      (h depth until [] (omega arith))
walk_on-Ends again fuel n depth until (opens num rest) h l c =
    let (inner, e, r) = h (suc depth) (some num) rest (omega arith) in
    rw e (
      with_inner-Ends n (length inner.rest) num inner (again depth until inner.rest) (omega arith)
        (h depth until inner.rest (omega arith)))

walk-Ends :
    (fuel max_depth depth : ℕ) (until : Option ℕ) (buf : List ℕ)
    → length buf < fuel
    → Ends (length buf) (walk fuel max_depth depth until buf)
unfolding walk
walk-Ends zero max_depth depth until buf h = absurd (omega arith)
walk-Ends (suc fuel) max_depth depth until buf h =
    walk_on-Ends (walk fuel max_depth) fuel (length buf) depth until
      (read_field max_depth depth until buf) (λ d u b l. walk-Ends fuel max_depth d u b l)
      (omega arith) (read_field-Leaves max_depth depth until buf)

-- The walk over a message ends, whatever the bytes are: it finds fields, a status and errors.
pub walk_message_ends :
    (max_depth : ℕ) (buf : List ℕ)
    → (w : Walked) × (walk_message max_depth buf ≡ some w) × (length w.rest ≤ length buf)
unfolding walk_message
walk_message_ends max_depth buf = walk-Ends (suc (length buf)) max_depth 0 none buf (omega arith)

walk_on_more :
    (again more : ℕ → Option ℕ → List ℕ → Option Walked) (depth : ℕ) (until : Option ℕ) (f : Found)
    (w : Walked)
    → ((d : ℕ) (u : Option ℕ) (b : List ℕ) (v : Walked)
        → again d u b ≡ some v
        → more d u b ≡ some v)
    → walk_on again depth until f ≡ some w
    → walk_on more depth until f ≡ some w
walk_on_more again more depth until nothing w h e = e
walk_on_more again more depth until (halts status rest errors) w h e = e
walk_on_more again more depth until (leaf x rest) w h e =
    elim (Option-cases (again depth until rest)) [
      | inl n ↦ let bad = rw n at e in cc
      | inr (v, s) ↦ rw (h depth until rest v s) (rw s at e)
    ]
walk_on_more again more depth until (too_deep num) w h e =
    elim (Option-cases (again depth until [])) [
      | inl n ↦ let bad = rw n at e in cc
      | inr (v, s) ↦ rw (h depth until [] v s) (rw s at e)
    ]
walk_on_more again more depth until (opens num rest) w h e =
    elim (Option-cases (again (suc depth) (some num) rest)) [
      | inl n ↦ let bad = rw n at e in cc
      | inr (inner, s) ↦
          let e' = rw s at e in
          elim (Option-cases (again depth until inner.rest)) [
            | inl n ↦ let bad = rw n at e' in cc
            | inr (v, t) ↦
                rw (h (suc depth) (some num) rest inner s, h depth until inner.rest v t)
                  (rw t at e')
          ]
    ]

-- More fuel finds the same.
pub walk_more :
    (fuel more max_depth depth : ℕ) (until : Option ℕ) (buf : List ℕ) (w : Walked)
    → fuel ≤ more
    → walk fuel max_depth depth until buf ≡ some w
    → walk more max_depth depth until buf ≡ some w
unfolding walk
walk_more zero more max_depth depth until buf w l h = cc
walk_more (suc fuel) zero max_depth depth until buf w l h = absurd (omega arith)
walk_more (suc fuel) (suc more) max_depth depth until buf w l h =
    walk_on_more (walk fuel max_depth) (walk more max_depth) depth until
      (read_field max_depth depth until buf) w
      (λ d u b v. walk_more fuel more max_depth d u b v (omega arith)) h

-- Two walks from one byte that both end find the same.
pub walk_same :
    (f g max_depth depth : ℕ) (until : Option ℕ) (buf : List ℕ) (v w : Walked)
    → walk f max_depth depth until buf ≡ some v
    → walk g max_depth depth until buf ≡ some w
    → v ≡ w
walk_same f g max_depth depth until buf v w h k = some_inj (
    sym (walk_more f (f + g) max_depth depth until buf v (omega arith) h)
    ∙ walk_more g (f + g) max_depth depth until buf w (omega arith) k)
