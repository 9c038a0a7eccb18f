-- ===== src/Alert/Fingerprint/Injective.antt =====
-- internal/alert/fingerprint.go: the bytes that are hashed tell every two label sets apart.
use clickhouse_ruler.Base.{
  ℕ, zero, suc, ◌/◌, ◌<◌, ◌≡◌, refl, sym, ◌∙◌, String, List, [], ◌∷◌, ◌++◌, length, arith, two_64,
}
use mathlib.Core.List.{append_assoc}
use clickhouse_ruler.Text.{codes}
use clickhouse_ruler.Text.Unique.{codes-injective}
use clickhouse_ruler.Alert.Fingerprint.{utf8, bytes_of, bytes, little_endian, written}

utf8-injective : (c d : ℕ) (s t : List ℕ) → utf8 c ++ s ≡ utf8 d ++ t → (c ≡ d) × (s ≡ t)
utf8-injective c d s t e = ground (arith, e)

utf8_some : (c : ℕ) (s : List ℕ) → utf8 c ++ s ≡ [] → ⊥
utf8_some c s e = ground (arith, e)

bytes_of-injective : (cs ds : List ℕ) → bytes_of cs ≡ bytes_of ds → cs ≡ ds
unfolding bytes_of
bytes_of-injective [] [] e = refl
bytes_of-injective [] (d ∷ ds) e = absurd (utf8_some d (bytes_of ds) (sym e))
bytes_of-injective (c ∷ cs) [] e = absurd (utf8_some c (bytes_of cs) e)
bytes_of-injective (c ∷ cs) (d ∷ ds) e =
    let (head, rest) = utf8-injective c d (bytes_of cs) (bytes_of ds) e in
    let tail = bytes_of-injective cs ds rest in cc

bytes-injective : (s t : String) → bytes s ≡ bytes t → s ≡ t
unfolding bytes
bytes-injective s t e = codes-injective s t (bytes_of-injective (codes s) (codes t) e)

-- A number of `n` bytes.
abbrev IsWithin : ℕ → ℕ → Type 0
IsWithin zero x = x ≡ 0
IsWithin (suc n) x = IsWithin n (x / 256)

little_endian-injective :
    (n x y : ℕ) (s t : List ℕ)
    → IsWithin n x
    → IsWithin n y
    → little_endian n x ++ s ≡ little_endian n y ++ t
    → (x ≡ y) × (s ≡ t)
unfolding little_endian
little_endian-injective zero x y s t hx hy e = (hx ∙ sym hy, e)
little_endian-injective (suc n) x y s t hx hy e =
    ground (arith, e, little_endian-injective n (x / 256) (y / 256) s t hx hy)

same_front : (a b s t : List ℕ) → length a ≡ length b → a ++ s ≡ b ++ t → (a ≡ b) × (s ≡ t)
same_front [] [] s t l e = (refl, e)
same_front [] (y ∷ b) s t l e = ground arith
same_front (x ∷ a) [] s t l e = ground arith
same_front (x ∷ a) (y ∷ b) s t l e = ground (arith, e, same_front a b s t)

-- A text of fewer than 2 ^ 64 bytes.
abbrev pub IsShort : String → Type 0
IsShort s = length (bytes s) < two_64

eight-IsWithin : (x : ℕ) → x < two_64 → IsWithin 8 x
eight-IsWithin x h = omega arith

pub written-injective :
    (s t : String) (x y : List ℕ)
    → IsShort s
    → IsShort t
    → written s ++ x ≡ written t ++ y
    → (s ≡ t) × (x ≡ y)
unfolding written
written-injective s t x y hs ht e =
    let e' : little_endian 8 (length (bytes s)) ++ (bytes s ++ x)
        ≡ little_endian 8 (length (bytes t)) ++ (bytes t ++ y) =
      sym (append_assoc (little_endian 8 (length (bytes s))) (bytes s) x)
      ∙ e
      ∙ append_assoc (little_endian 8 (length (bytes t))) (bytes t) y in
    let (l, rest) =
      little_endian-injective 8 (length (bytes s)) (length (bytes t)) (bytes s ++ x) (bytes t ++ y)
        (eight-IsWithin (length (bytes s)) hs) (eight-IsWithin (length (bytes t)) ht) e' in
    let (same, after) = same_front (bytes s) (bytes t) x y l rest in
    (bytes-injective s t same, after)
