-- ===== src/Scheduler/Grows.antt =====
-- How the lease of a task in workbench/service.py changes: what is confirmed stays confirmed, and what is
-- recorded is never replaced.
use android_workbench.Prelude.{Option, none, some, Bool, true, false, ◌≡◌, refl, ◌∙◌}
use android_workbench.Scheduler.Model.{Lease}

-- A flag that is set stays set.
abbrev pub Stays : Bool → Bool → Type 0
Stays true b = b ≡ true
Stays false b = Unit {0}

-- A value that is there stays the same.
abbrev pub Fixed : {A : Type 0} → Option A → Option A → Type 0
Fixed none y = Unit {0}
Fixed (some x) y = y ≡ some x

pub Stays-refl : (a : Bool) → Stays a a
Stays-refl true = refl
Stays-refl false = tt

Stays-trans : (a b c : Bool) → Stays a b → Stays b c → Stays a c
Stays-trans true true c h k = k
Stays-trans true false c h k = cc
Stays-trans false b c h k = tt

pub Stays-true : (a : Bool) → Stays a true
Stays-true true = refl
Stays-true false = tt

pub Fixed-refl : {A : Type 0} (a : Option A) → Fixed a a
Fixed-refl none = tt
Fixed-refl (some x) = refl

Fixed-trans : {A : Type 0} (a b c : Option A) → Fixed a b → Fixed b c → Fixed a c
Fixed-trans none b c h k = tt
Fixed-trans (some x) none c h k = cc
Fixed-trans (some x) (some y) c h k = k ∙ h

-- A later state of the same lease.
pub record Grows (old new : Lease) : Type 0 where
  pub closed : Stays old.tree_closed new.tree_closed
  pub released : Stays old.released new.released
  pub expected : Stays old.expected new.expected
  pub process : Fixed old.process new.process
  pub environment : Fixed old.environment new.environment
  pub receipt : Fixed old.receipt new.receipt

pub Grows-refl : (l : Lease) → Grows l l
Grows-refl l = record {
  closed = Stays-refl l.tree_closed;
  released = Stays-refl l.released;
  expected = Stays-refl l.expected;
  process = Fixed-refl l.process;
  environment = Fixed-refl l.environment;
  receipt = Fixed-refl l.receipt;
}

pub Grows-trans : {k l m : Lease} → Grows k l → Grows l m → Grows k m
Grows-trans {k} {l} {m} g h = record {
  closed = Stays-trans k.tree_closed l.tree_closed m.tree_closed g.closed h.closed;
  released = Stays-trans k.released l.released m.released g.released h.released;
  expected = Stays-trans k.expected l.expected m.expected g.expected h.expected;
  process = Fixed-trans k.process l.process m.process g.process h.process;
  environment = Fixed-trans k.environment l.environment m.environment g.environment h.environment;
  receipt = Fixed-trans k.receipt l.receipt m.receipt g.receipt h.receipt;
}

pub Grows-same : {l m : Lease} → m ≡ l → Grows l m
Grows-same {l} e = rw e (Grows-refl l)
