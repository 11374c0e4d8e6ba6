-- ===== src/Prelude/Text.antt =====
-- Text as the list of its code points, where the program walks it.
use Prim.Native.Nat.{ℕ}
use Prim.Native.Char.{code}
use Prim.Native.String.{String}
use Prim.Native.String.{◌++◌ as text_append}
use mathlib.Core.Bool.{Bool, true, false}
use mathlib.Core.Option.{Option, none, some}
use mathlib.Core.List.{List, [], ◌∷◌}
use text.Mathlib.Text.{◌==◌}
use package.android_workbench.Prelude.Tests.{eqb, if◌then◌else◌}
use package.android_workbench.Prelude.Lists.{any}

abbrev pub codes : String → List ℕ
codes String.[] = []
codes (String.◌∷◌ c s) = code c ∷ codes s

abbrev pub codes_eq : List ℕ → List ℕ → Bool
codes_eq [] [] = true
codes_eq [] (b ∷ bs) = false
codes_eq (a ∷ as') [] = false
codes_eq (a ∷ as') (b ∷ bs) = if eqb a b then codes_eq as' bs else false

-- What follows a prefix, if the text begins with it.
abbrev pub strip_prefix : List ℕ → List ℕ → Option (List ℕ)
strip_prefix [] s = some s
strip_prefix (p ∷ ps) [] = none
strip_prefix (p ∷ ps) (c ∷ s) = if eqb p c then strip_prefix ps s else none

-- `x in [...]`, on texts.
abbrev pub contains : List String → String → Bool
contains xs x = any (λ y. x == y) xs

abbrev pub opt_eq : Option String → Option String → Bool
opt_eq none none = true
opt_eq none (some b) = false
opt_eq (some a) none = false
opt_eq (some a) (some b) = a == b

-- `a + b`, on texts.
unfoldable pub concat : String → String → String
concat a b = text_append a b

-- The text with a prefix, where there is one.
abbrev pub prefixed : String → Option String → Option String
prefixed p none = none
prefixed p (some s) = some (concat p s)
