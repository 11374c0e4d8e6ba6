-- ===== src/Leases/Descent/Below.antt =====
-- The search for descendants in workbench/common.py passes over no process of /proc.
use android_workbench.Prelude.{
  ℕ, Option, none, some, Bool, true, false, List, [], ◌∷◌, Any, eqb, eqb_iff, ◌≡◌, ◌≢◌, ◌⊎◌, inl,
  inr, refl, sym, subst, arith, Bool-cases,
}
use android_workbench.Scheduler.Model.{Process}
use android_workbench.Scheduler.Store.{Result, ok, err}
use android_workbench.Leases.Processes.{
  Stat, Reading, missing, unreadable, line, Proc, process_identity, is_adb_server,
}
use android_workbench.Leases.Descent.{
  Link, ◌>>=◌, link_of, links_from, owns, family, nameless, named, remaining, others, descendants,
}
use android_workbench.Leases.Descent.Closure.{Descends, family_iff}

-- /proc lists the first process, which is not a zombie, as a child of the second.
abbrev pub ChildOf : Proc → ℕ → ℕ → Type 0
ChildOf proc c p =
    (l : Stat) × Any (λ x. x ≡ c) proc.pids
    × (proc.stat c ≡ line l)
    × (l.zombie ≡ false)
    × (l.parent ≡ p)

-- A chain of children leads from the first process to the second.
pub data Below (proc : Proc) (pid : ℕ) : ℕ → Type 0 where
  child : (c : ℕ) → ChildOf proc c pid → Below proc pid c
  grandchild : (c p : ℕ) → Below proc pid p → ChildOf proc c p → Below proc pid c

abbrev pub NotLive : Reading → Type 0
NotLive missing = Unit {0}
NotLive unreadable = ⊥
NotLive (line l) = l.zombie ≡ true

-- The process has ended, or is the adb server, which outlives its caller.
abbrev pub Harmless : Proc → ℕ → Type 0
Harmless proc c =
    NotLive (proc.stat c)
    ⊎ ((p : Process) × (process_identity proc c ≡ some p) × (is_adb_server proc p ≡ true))

-- A result without an exception was made from one.
pub returned :
    {A B : Type 0} (first_step : Result A) (next : A → Result B) {whole : B}
    → (first_step >>= next) ≡ ok whole
    → (value : A) × (first_step ≡ ok value) × (next value ≡ ok whole)
returned (err raised) next h = cc
returned (ok value) next h = (value, refl, h)

-- One entry of /proc: what the other entries give is kept, and a live line is added.
ok_inj {ℓ} : {A : Type ℓ} {a b : A} → Result.ok a ≡ ok b → a ≡ b
ok_inj h = cc

link_of-keeps :
    (strict : Bool) (pid : ℕ) (r : Reading) (rest : Result (List Link)) (links : List Link)
    → link_of strict pid r rest ≡ ok links
    → (older : List Link) × (rest ≡ ok older) × ((P : Link → Type 0) → Any P older → Any P links)
unfolding link_of
link_of-keeps strict pid missing rest links h = (links, h, λ P a. a)
link_of-keeps true pid unreadable rest links h = cc
link_of-keeps false pid unreadable rest links h = (links, h, λ P a. a)
link_of-keeps strict pid (line l) rest links h = elim (Bool-cases l.zombie) [
  | inl z ↦ (links, rw z at h, λ P a. a)
  | inr z ↦
      let (older, e, same) = returned rest _ (rw z at h) in
      (older, e, λ P a. subst (Any P) (ok_inj same) (inr a))
]

link_of-line :
    (strict : Bool) (pid : ℕ) (l : Stat) (rest : Result (List Link)) (links : List Link)
    → link_of strict pid (line l) rest ≡ ok links
    → l.zombie ≡ false
    → Any (λ k. (k.child ≡ pid) × (k.parent ≡ l.parent)) links
unfolding link_of
link_of-line strict pid l rest links h z =
    let (older, e, same) = returned rest _ (rw z at h) in
    subst (Any (λ k. (k.child ≡ pid) × (k.parent ≡ l.parent))) (ok_inj same) (inl (refl, refl))

-- Every child that /proc lists becomes a link.
links_from-ChildOf :
    (strict : Bool) (stat : ℕ → Reading) (c p : ℕ) (l : Stat) (pids : List ℕ) (links : List Link)
    → stat c ≡ line l
    → l.zombie ≡ false
    → l.parent ≡ p
    → Any (λ x. x ≡ c) pids
    → links_from strict stat pids ≡ ok links
    → Any (λ k. (k.child ≡ c) × (k.parent ≡ p)) links
unfolding links_from
links_from-ChildOf strict stat c p l [] links s z q a h = absurd a
links_from-ChildOf strict stat c p l (pid ∷ pids) links s z q (inl e) h =
    let here : stat pid ≡ line l = subst (λ x. stat x ≡ line l) (sym e) s in
    subst (λ x. Any (λ (k : Link). (k.child ≡ x) × (k.parent ≡ p)) links) e
      (subst (λ x. Any (λ (k : Link). (k.child ≡ pid) × (k.parent ≡ x)) links) q
        (link_of-line strict pid l (links_from strict stat pids) links (rw here at h) z))
links_from-ChildOf strict stat c p l (pid ∷ pids) links s z q (inr a) h =
    let (older, e, keeps) = link_of-keeps strict pid (stat pid) _ links h in
    keeps _ (links_from-ChildOf strict stat c p l pids older s z q a e)

Below-Descends :
    (proc : Proc) (strict : Bool) (pid : ℕ) (links : List Link)
    → links_from strict proc.stat proc.pids ≡ ok links
    → {c : ℕ} → Below proc pid c
    → Descends links pid c
Below-Descends proc strict pid links h (child c (l, a, s, z, q)) =
    Descends.born c (links_from-ChildOf strict proc.stat c pid l proc.pids links s z q a h)
Below-Descends proc strict pid links h (grandchild c p b (l, a, s, z, q)) =
    Descends.further c p (Below-Descends proc strict pid links h b)
      (links_from-ChildOf strict proc.stat c p l proc.pids links s z q a h)

nameless-NotLive :
    (r : Reading) (rest : Result (List Process))
    → nameless true r rest ≡ ok []
    → NotLive r × (rest ≡ ok [])
unfolding nameless
nameless-NotLive missing rest h = (tt, h)
nameless-NotLive unreadable rest h = cc
nameless-NotLive (line l) rest h = ground arith

named-Harmless :
    (proc : Proc) (c : ℕ) (o : Option Process) (rest : Result (List Process))
    → process_identity proc c ≡ o
    → named proc true (proc.stat c) o rest ≡ ok []
    → Harmless proc c × (rest ≡ ok [])
unfolding named
named-Harmless proc c none rest e h =
    let (gone, others_too) = nameless-NotLive (proc.stat c) rest h in (inl gone, others_too)
named-Harmless proc c (some p) rest e h = elim (Bool-cases (is_adb_server proc p)) [
  | inl adb ↦ (inr (p, e, adb), rw adb at h)
  | inr other ↦ let (ps, r, q) = returned rest _ (rw other at h) in cc
]

remaining-Harmless :
    (proc : Proc) (owned : List ℕ)
    → remaining proc true owned ≡ ok []
    → (c : ℕ) → owns owned c ≡ true
    → Harmless proc c
unfolding remaining
remaining-Harmless proc [] h c o = cc
remaining-Harmless proc (pid ∷ pids) h c o =
    let (here, rest) =
      named-Harmless proc pid (process_identity proc pid) (remaining proc true pids) refl h in
    elim (Bool-cases (eqb c pid)) [
      | inl e ↦ subst (Harmless proc) (sym ((eqb_iff c pid).0 e)) here
      | inr e ↦ remaining-Harmless proc pids rest c (rw e at o)
    ]

owns-others :
    (pid c : ℕ) (owned : List ℕ) → owns owned c ≡ true → c ≢ pid → owns (others pid owned) c ≡ true
owns-others pid c [] o d = cc
owns-others pid c (x ∷ xs) o d = ground (arith, owns-others pid c xs)

-- Where no descendant is found, each process below is harmless.
pub descendants-Harmless :
    (proc : Proc) (pid : ℕ)
    → descendants proc pid true ≡ ok []
    → (c : ℕ) → Below proc pid c
    → c ≢ pid
    → Harmless proc c
unfolding descendants
descendants-Harmless proc pid h c b d =
    let (links, l, r) = returned (links_from true proc.stat proc.pids) _ h in
    remaining-Harmless proc (others pid (family links pid)) r c (
      owns-others pid c (family links pid)
        ((family_iff links pid c).1 (inr (Below-Descends proc true pid links l b))) d)
