-- ===== src/Rule/Expr.antt =====
-- internal/rule/validate.go: the time bounds that an expr has to use, as the patterns of timeBoundVars match them, and
-- the variables that it may read.
use clickhouse_ruler.Base.{
  ℕ, Bool, false, ◌||◌, String, List, [], ◌∷◌, Option, none, some, if◌then◌else◌, nat_beq, is_some,
  ◌>>=◌,
}
use clickhouse_ruler.Text.{codes}

-- `\s*`
unfoldable skip_space : List ℕ → List ℕ
skip_space [] = []
skip_space (c ∷ cs) =
    let rest = skip_space cs in
    if nat_beq c 32 || nat_beq c 9 || nat_beq c 10 || nat_beq c 12 || nat_beq c 13
    then rest
    else c ∷ cs

-- `-?`
unfoldable drop_dash : List ℕ → List ℕ
drop_dash [] = []
drop_dash (c ∷ cs) = if nat_beq c 45 then cs else c ∷ cs

unfoldable drop_prefix : List ℕ → List ℕ → Option (List ℕ)
drop_prefix [] cs = some cs
drop_prefix (p ∷ ps) [] = none
drop_prefix (p ∷ ps) (c ∷ cs) = let rest = drop_prefix ps cs in if nat_beq c p then rest else none

-- A pattern of timeBoundVars, where a text starts with it.
unfoldable action_at : String → List ℕ → Bool
unfolding skip_space drop_dash drop_prefix codes
action_at field cs = is_some (
    drop_prefix (codes "{{") cs >>= (λ a.
      drop_prefix (codes field) (skip_space (drop_dash a))
      >>= (λ b. drop_prefix (codes "}}") (drop_dash (skip_space b)))))

unfoldable action_in : String → List ℕ → Bool
unfolding action_at
action_in field [] = false
action_in field (c ∷ cs) = action_at field (c ∷ cs) || action_in field cs

-- MatchString
unfoldable pub uses_bound : String → String → Bool
unfolding action_in codes
uses_bound field expr = action_in field (codes expr)

abbrev pub expr_vars : List String
expr_vars = "From" ∷ "To" ∷ "Table" ∷ "TimestampColumn" ∷ []

abbrev pub expr_var_list : String
expr_var_list = "From, To, Table and TimestampColumn"
