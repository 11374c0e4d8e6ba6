-- ===== src/Dex/Decode/Tiles.antt =====
-- How the instructions that `decode` finds lie in the code, and when it ends.
use android_workbench.Prelude.{
  ℕ, zero, suc, ◌+◌, ◌*◌, ◌<◌, ◌≤◌, some, Bool, true, ◌||◌, List, [], ◌∷◌, get_elem?, ltb, eqb, ◌≡◌,
  ◌≢◌, ◌↔◌, refl, subst, arith, Bool-cases, Option-cases, inl, inr, ltb→lt, ltb→le, some_inj,
}
use android_workbench.Dex.Decode.{
  insn_units, Code, code_info, Insn, Stop, at_end, runs_over, out_of_range, unfinished, Decoded,
  stopped_at, decode_loop, decode_code, decode, end_of, ended, verdict, decode_all,
}

-- Each instruction begins where the one before it ends, takes a unit at least, and the last one ends at
-- the given place.
abbrev pub Tiles : ℕ → List Insn → ℕ → Type 0
Tiles from [] last = from ≡ last
Tiles from (insn ∷ insns) last =
    (insn.off ≡ from) × (1 ≤ insn.units) × Tiles (from + insn.units * 2) insns last

-- What `decode_loop` finds between two places. It stops at the end exactly if the instructions fill
-- the code.
abbrev pub Good : ℕ → ℕ → Decoded → Type 0
Good from end run =
    (last : ℕ) × Tiles from run.insns last
    × (last ≤ end)
    × (run.stop ≡ at_end → last ≡ end)
    × (run.stop ≢ at_end → last < end)
    × (run.stop ≢ unfinished)

stopped-Good :
    (from end : ℕ) (stop : Stop)
    → from < end
    → stop ≢ at_end
    → stop ≢ unfinished
    → Good from end (stopped_at stop)
stopped-Good from end stop h a u = (from, refl, omega arith, (λ e. absurd (a e)), (λ _. h), u)

decode_loop-Good :
    (fuel : ℕ) (d : List ℕ) (registers from end : ℕ)
    → from ≤ end
    → end < from + 2 * fuel
    → Good from end (decode_loop fuel d registers from end)
unfolding decode_loop
decode_loop-Good zero d registers from end h f = absurd (omega arith)
decode_loop-Good (suc fuel) d registers from end h f = elim (Bool-cases (ltb from end)) [
  | inr e ↦ rw e (
    end,
    omega (arith, ltb→le from end e),
    omega arith,
    (λ _. refl),
    (λ n. absurd (n refl)),
    (λ q. cc),
  )
  | inl e ↦
      let below = ltb→lt from end e in
      elim (Option-cases (get_elem? d from)) [
        | inl g ↦ rw (e, g) (stopped-Good from end out_of_range below (λ q. cc) (λ q. cc))
        | inr (op, g) ↦ elim (Option-cases (insn_units op d from end)) [
          | inl u ↦ rw (e, g, u) (stopped-Good from end out_of_range below (λ q. cc) (λ q. cc))
          | inr (units, u) ↦ elim (Bool-cases (ltb units 1 || ltb end (from + units * 2))) [
            | inl o ↦ rw (e, g, u, o) (stopped-Good from end runs_over below (λ q. cc) (λ q. cc))
            | inr o ↦
                let one : 1 ≤ units = ground arith in
                let fits : from + units * 2 ≤ end = ground arith in
                let (last, t, l, a, b, c) =
                  decode_loop-Good fuel d registers (from + units * 2) end fits (omega arith) in
                rw (e, g, u, o) (last, (refl, one, t), l, a, b, c)
          ]
        ]
      ]
]

-- Where instructions that tile the code end is where the last of them ends.
Tiles-ended :
    (from : ℕ) (insns : List Insn) (last : ℕ) → Tiles from insns last → ended from insns ≡ last
Tiles-ended from [] last t = t
Tiles-ended from (insn ∷ insns) last (o, u, t) =
    rw o (Tiles-ended (from + insn.units * 2) insns last t)

abbrev pub total_units : List Insn → ℕ
total_units [] = 0
total_units (insn ∷ insns) = insn.units + total_units insns

Tiles-total_units :
    (from : ℕ) (insns : List Insn) (last : ℕ)
    → Tiles from insns last
    → from + total_units insns * 2 ≡ last
Tiles-total_units from [] last t = omega arith
Tiles-total_units from (insn ∷ insns) last (o, u, t) =
    omega (arith, Tiles-total_units (from + insn.units * 2) insns last t)

-- Where `decode` of a code item starts.
pub decode-decode_code :
    (d : List ℕ) (code_off : ℕ) (code : Code)
    → code_info d code_off ≡ some code
    → decode d code_off ≡ decode_code d code
unfolding decode
decode-decode_code d code_off code e = rw e refl

pub decode_code-Good :
    (d : List ℕ) (code : Code) → Good code.insns_off (end_of code) (decode_code d code)
unfolding decode_code
decode_code-Good d code =
    decode_loop-Good (suc code.insns_size) d code.registers code.insns_off (end_of code)
      (omega arith) (omega arith)

-- Decoding a method ends within its fuel, and the instructions that it finds tile its code: the first
-- begins where the code does, each takes a unit at least and begins where the one before it ends, and
-- the last one ends where the code does if the walk says that it came to the end, and before that if
-- the walk stops for another reason.
pub decode-Tiles :
    (d : List ℕ) (code_off : ℕ) (code : Code)
    → code_info d code_off ≡ some code
    → ((decode d code_off).stop ≢ unfinished)
      × (last : ℕ) × Tiles code.insns_off (decode d code_off).insns last
      × ((decode d code_off).stop ≡ at_end → last ≡ end_of code)
      × ((decode d code_off).stop ≢ at_end → last < end_of code)
decode-Tiles d code_off code e =
    let (last, t, l, a, b, c) = decode_code-Good d code in
    rw (decode-decode_code d code_off code e) (c, last, t, a, b)

clean_iff :
    (code : Code) (insns : List Insn) (last : ℕ)
    → Tiles code.insns_off insns last
    → (eqb (ended code.insns_off insns) (end_of code) ≡ true)
      ↔ (total_units insns ≡ code.insns_size)
clean_iff code insns last t =
    let units = Tiles-total_units code.insns_off insns last t in
    rw (Tiles-ended code.insns_off insns last t) (ground (arith, units))

verdict_clean :
    (code : Code) (found : List Insn) (stop : Stop) (insns : List Insn) (clean : Bool)
    (expected last : ℕ)
    → Tiles code.insns_off found last
    → verdict code found stop ≡ some (insns, clean, expected)
    → (clean ≡ true) ↔ (total_units insns ≡ code.insns_size)
verdict_clean code found out_of_range insns clean expected last t h = cc
verdict_clean code found _ insns clean expected last t h =
    subst (λ (p : List Insn × Bool × ℕ). (p.1 ≡ true) ↔ (total_units p.0 ≡ code.insns_size))
      (some_inj h) (clean_iff code found last t)

-- The verdict of `decode_all` is that the walk ended cleanly exactly if the widths of the instructions
-- add up to the size of the code.
pub decode_all_iff :
    (d : List ℕ) (code_off : ℕ) (code : Code) (insns : List Insn) (clean : Bool) (expected : ℕ)
    → code_info d code_off ≡ some code
    → decode_all d code_off ≡ some (insns, clean, expected)
    → (clean ≡ true) ↔ (total_units insns ≡ code.insns_size)
unfolding decode_all
decode_all_iff d code_off code insns clean expected e h =
    let run = decode_code d code in
    let (last, t, l, a, b, c) = decode_code-Good d code in
    verdict_clean code run.insns run.stop insns clean expected last t
      (rw (e, decode-decode_code d code_off code e) at h)
