-- ===== src/Alert/Fingerprint.antt =====
-- internal/alert/fingerprint.go: the FNV-1a hash of a label set, on the UTF-8 bytes of its sorted labels.
pub mod Injective
pub mod Distinct
pub mod Respects
use clickhouse_ruler.Base.{
  ℕ, zero, suc, ◌+◌, ◌*◌, ◌/◌, ◌%◌, ◌^◌, String, List, [], ◌∷◌, ◌++◌, Option, none, some,
  if◌then◌else◌, ltb, length, string_eq, two_64,
}
use clickhouse_ruler.GoMap.{get}
use clickhouse_ruler.Text.{codes, sort_strings}
use clickhouse_ruler.Alert.Data.{LabelSet}
use clickhouse_ruler.Alert.Annotate.{keys_of}

-- The UTF-8 bytes of one code point.
abbrev pub utf8 : ℕ → List ℕ
utf8 c =
    if ltb c 128
    then c ∷ []
    else if ltb c 2048
    then (192 + c / 64) ∷ (128 + c % 64) ∷ []
    else if ltb c 65536
    then (224 + c / 4096) ∷ (128 + c / 64 % 64) ∷ (128 + c % 64) ∷ []
    else (240 + c / 262144) ∷ (128 + c / 4096 % 64) ∷ (128 + c / 64 % 64) ∷ (128 + c % 64) ∷ []

unfoldable pub bytes_of : List ℕ → List ℕ
bytes_of [] = []
bytes_of (c ∷ cs) = utf8 c ++ bytes_of cs

-- []byte(s)
unfoldable pub bytes : String → List ℕ
unfolding bytes_of codes
bytes s = bytes_of (codes s)

-- The `n` low bytes of a number, the lowest first: binary.LittleEndian.PutUint64 with n = 8.
unfoldable pub little_endian : ℕ → ℕ → List ℕ
little_endian zero x = []
little_endian (suc n) x = x % 256 ∷ little_endian n (x / 256)

-- What one call of `write` adds to the hash.
unfoldable pub written : String → List ℕ
unfolding bytes little_endian
written s = little_endian 8 (length (bytes s)) ++ bytes s

-- Exclusive or of the `n` low bits.
unfoldable pub xor : ℕ → ℕ → ℕ → ℕ
xor zero a b = 0
xor (suc n) a b = (a % 2 + b % 2) % 2 + 2 * xor n (a / 2) (b / 2)

-- hash/fnv's New64a: its offset, and a Write.
abbrev pub fnv_offset : ℕ
fnv_offset = 14695981039346656037

abbrev fnv_prime : ℕ
fnv_prime = 1099511628211

unfoldable pub fnv_write : List ℕ → ℕ → ℕ
unfolding xor
fnv_write [] h = h
fnv_write (b ∷ bs) h = fnv_write bs (xor 64 h b * fnv_prime % two_64)

abbrev pub or_zero : Option String → String
or_zero none = ""
or_zero (some v) = v

-- The loop over the sorted keys, as the bytes that it writes.
unfoldable pub stream : List String → LabelSet → List ℕ
unfolding written get
stream [] labels = []
stream (k ∷ ks) labels = written k ++ (written (or_zero (get k labels)) ++ stream ks labels)

-- The bytes that a label set is hashed by.
unfoldable pub hashed : LabelSet → List ℕ
unfolding stream sort_strings keys_of
hashed labels = stream (sort_strings (keys_of labels)) labels

unfoldable pub fingerprint : LabelSet → ℕ
unfolding fnv_write hashed
fingerprint labels = fnv_write (hashed labels) fnv_offset
