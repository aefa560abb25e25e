-- ===== src/Json.antt =====
-- JSON values, as encoding/json reads and writes them. Texts of JSON are not modelled: a message body
-- or a column is a value, or is malformed. An object keeps its fields in the order written.
use orchestration_service.Base.{
  ℕ, Bool, true, false, ◌&&◌, Option, none, some, List, [], ◌∷◌, leb, ltb, ◌+◌, ◌==◌, if◌then◌else◌,
}
use orchestration_service.Base.Int.{ℤ, pos, negsuc}
use orchestration_service.Text.{Text}

-- `decimal` is a number with a fraction or an exponent, as written.
mutual
  pub data Json : Type 0 where
    null : Json
    bool : Bool → Json
    number : ℤ → Json
    decimal : Text → Json
    string : Text → Json
    array : Items → Json
    object : Fields → Json

  pub data Items : Type 0 where
    nil : Items
    cons : Json → Items → Items

  pub data Fields : Type 0 where
    end : Fields
    field : Text → Json → Fields → Fields

-- The value of a struct's fields, in order.
abbrev pub fields : List (Text × Json) → Fields
fields [] = end
fields ((k, v) ∷ rest) = field k v (fields rest)

-- A field tagged `omitempty` is left out when its text is empty.
abbrev pub omit_empty : Text → Text → Fields → Fields
omit_empty key [] rest = rest
omit_empty key (c ∷ s) rest = field key (string (c ∷ s)) rest

-- The folding under which encoding/json matches a key with a field's name: ASCII case, and the two
-- code points beyond ASCII that fold to a letter, U+017F and U+212A.
unfoldable pub fold_rune : ℕ → ℕ
fold_rune c =
    if leb b'A' c && leb c b'Z'
    then c + 32
    else if c == 0x17f
    then b's'
    else if c == 0x212a
    then b'k'
    else c

unfoldable pub matches_key : Text → Text → Bool
unfolding fold_rune
matches_key [] [] = true
matches_key [] (d ∷ name) = false
matches_key (c ∷ key) [] = false
matches_key (c ∷ key) (d ∷ name) = fold_rune c == fold_rune d && matches_key key name

-- Decoding into a field: `null` leaves it as it was, another type is an error (`none`).
unfoldable pub decode_text : Text → Json → Option Text
decode_text old null = some old
decode_text old (string s) = some s
decode_text old _ = none

-- An int32 field refuses what is no integer in its range.
unfoldable pub decode_int32 : ℤ → Json → Option ℤ
decode_int32 old null = some old
decode_int32 old (number (pos n)) = if ltb n 2147483648 then some (pos n) else none
decode_int32 old (number (negsuc n)) = if ltb n 2147483648 then some (negsuc n) else none
decode_int32 old _ = none

-- A `json.RawMessage` is written as it is, `null` when it is absent.
abbrev pub raw : Option Json → Json
raw none = null
raw (some j) = j

infixl 5 ◌>>=◌
abbrev pub ◌>>=◌ {ℓ κ} : {A : Type ℓ} {B : Type κ} → Option A → (A → Option B) → Option B
none >>= f = none
some a >>= f = f a
