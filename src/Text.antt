-- ===== src/Text.antt =====
-- The byte order of strings and `sort.Strings`, `sort.Slice`. UTF-8 orders two texts as their code
-- points do, so a text is compared by those. `sort.Slice` is an insertion sort here: where two
-- elements are equivalent under `less`, Go's order of them is not specified.
pub mod Order
pub mod Sort
pub mod Unique
use Prim.Native.Char.{code}
use Prim.Native.String.{◌++◌ as append}
use clickhouse_ruler.Base.{
  ℕ, zero, suc, ◌/◌, ◌%◌, Bool, true, false, String, List, [], ◌∷◌, nat_beq, ◌&&◌, if◌then◌else◌,
  ltb,
}

-- The code points of a text. `String` has its own `[]` and `∷`.
unfoldable pub codes : String → List ℕ
codes String.[] = []
codes (String.◌∷◌ c s) = code c ∷ codes s

unfoldable pub less_codes : List ℕ → List ℕ → Bool
less_codes s [] = false
less_codes [] (b ∷ t) = true
less_codes (a ∷ s) (b ∷ t) =
    let rest = less_codes s t in if ltb a b then true else if ltb b a then false else rest

-- s < t
unfoldable pub str_less : String → String → Bool
unfolding codes less_codes
str_less s t = less_codes (codes s) (codes t)

module _ {ℓ} {A : Type ℓ} (less : A → A → Bool) where
  unfoldable pub insert_by : A → List A → List A
  insert_by x [] = x ∷ []
  insert_by x (y ∷ ys) = let rest = insert_by x ys in if less y x then y ∷ rest else x ∷ y ∷ ys

  -- sort.Slice(xs, less)
  unfoldable pub sort_by : List A → List A
  unfolding insert_by
  sort_by [] = []
  sort_by (x ∷ xs) = insert_by x (sort_by xs)

-- sort.Strings(xs)
unfoldable pub sort_strings : List String → List String
unfolding sort_by str_less
sort_strings = sort_by str_less

-- The pieces of a text put together.
unfoldable pub concat : List String → String
concat [] = ""
concat (s ∷ ss) = append s (concat ss)

-- strings.Join
unfoldable pub join : String → List String → String
join sep [] = ""
join sep (s ∷ []) = s
join sep (s ∷ t ∷ ss) = append s (append sep (join sep (t ∷ ss)))

-- strings.HasPrefix, on code points.
unfoldable pub has_prefix : List ℕ → List ℕ → Bool
has_prefix cs [] = true
has_prefix [] (p ∷ ps) = false
has_prefix (c ∷ cs) (p ∷ ps) = nat_beq c p && has_prefix cs ps

digit : ℕ → String
digit zero = "0"
digit (suc zero) = "1"
digit (suc (suc zero)) = "2"
digit (suc (suc (suc zero))) = "3"
digit (suc (suc (suc (suc zero)))) = "4"
digit (suc (suc (suc (suc (suc zero))))) = "5"
digit (suc (suc (suc (suc (suc (suc zero)))))) = "6"
digit (suc (suc (suc (suc (suc (suc (suc zero))))))) = "7"
digit (suc (suc (suc (suc (suc (suc (suc (suc zero)))))))) = "8"
digit (suc (suc (suc (suc (suc (suc (suc (suc (suc n))))))))) = "9"

decimal_from : ℕ → ℕ → String
decimal_from zero n = ""
decimal_from (suc fuel) n =
    let more = append (decimal_from fuel (n / 10)) (digit (n % 10)) in
    if ltb n 10 then digit n else more

-- A number as `%d` prints it. There are at most as many digits as the number, plus one.
unfoldable pub decimal : ℕ → String
unfolding decimal_from digit
decimal n = decimal_from (suc n) n
