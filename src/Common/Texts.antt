-- ===== src/Common/Texts.antt =====
-- Texts that the source only compares: addresses, signatures, identifiers, tags.
use Prim.Native.String.{String, ◌++◌}
use mathlib.Core.Path.{◌≡◌}
use mathlib.Core.Bool.{Bool, true, false}
use mathlib.Core.Option.{Option, none, some}
use mathlib.Core.List.{List}
use native.Mathlib.Omega.{arith}
use text.Mathlib.Text.{◌==◌}
use text.Mathlib.TextEquality.{eq_iff}
use mathlib.Core.Logic.{◌↔◌}
use solana_payment_ops.Common.Lists.{any}

-- `s === t` on texts
infix 50 ◌===◌
abbrev pub ◌===◌ : String → String → Bool
s === t = s == t

pub ===_iff : (s t : String) → ((s === t) ≡ true) ↔ (s ≡ t)
===_iff s t = eq_iff s t

-- A template that puts one text after another.
abbrev pub joined : String → String → String
joined s t = s ++ t

-- `xs.includes(t)`
abbrev pub includes : List String → String → Bool
includes xs t = any (λ s. s === t) xs

-- `o === t` where `o` may be `undefined`
abbrev pub some_eq : Option String → String → Bool
some_eq none t = false
some_eq (some s) t = s === t

pub some_eq_iff : (o : Option String) (t : String) → (some_eq o t ≡ true) ↔ (o ≡ some t)
some_eq_iff none t = ground arith
some_eq_iff (some s) t = ground (arith, eq_iff s t)
