-- ===== src/Base/Equality.antt =====
-- Equality tests as instances, so that one map serves keys of several types.
use Prim.Native.Nat.{ℕ}
use Prim.Native.String.{String}
use mathlib.Core.Path.{◌≡◌}
use mathlib.Core.Logic.{◌↔◌}
use mathlib.Core.Bool.{Bool, true}
use text.Mathlib.Text.{◌==◌ as str_eq}
use text.Mathlib.TextEquality.{eq_iff}
use clickhouse_ruler.Base.Tests.{nat_beq, nat_beq_iff}

pub record Eq {ℓ} (K : Type ℓ) : Type ℓ where
  pub same : K → K → Bool
  pub same_iff : (j k : K) → (same j k ≡ true) ↔ (j ≡ k)

instance abbrev pub string_eq : Eq String
string_eq = record { same = str_eq; same_iff = eq_iff }

instance abbrev pub nat_eq : Eq ℕ
nat_eq = record { same_iff = nat_beq_iff; same = nat_beq }

-- Go's `==` on a comparable type.
abbrev pub ◌==◌ {ℓ} : {K : Type ℓ} ⦃c : Eq K⦄ → K → K → Bool
◌==◌ ⦃c⦄ j k = c.same j k

infix 50 ◌==◌
