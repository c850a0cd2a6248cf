-- ===== src/Base/Json.antt =====
-- What `json.loads` gives to a request handler: the fields of the body, by their Python type. The
-- handlers here read nothing inside a float, a list or an object but its truth value, which is
-- the argument of the last three constructors.
use Prim.Native.Nat.{ℕ}
use mathlib.Core.Bool.{Bool, true, false, not, ◌||◌, ◌&&◌}
use mathlib.Core.List.{List, [], ◌∷◌}
use tilla.Base.Tests.{◌==◌, leb, if◌then◌else◌}
use tilla.Base.Text.{Text, text_eq}

-- Python's `int`, of any size: `pos n` is n and `negsuc n` is -(n + 1).
pub data ℤ : Type 0 where
  pos negsuc : ℕ → ℤ

pub data Json : Type 0 where
  null : Json
  bool : Bool → Json
  int : ℤ → Json
  string : Text → Json
  float sequence object : Bool → Json

pub data Body : Type 0 where
  no_body malformed not_dict : Body
  fields : List (Text × Json) → Body

-- `data.get(key)`
unfoldable pub body_get : Text → List (Text × Json) → Json
body_get key [] = null
body_get key (entry ∷ rest) = if text_eq entry.0 key then entry.1 else body_get key rest

unfoldable pub is_empty : Text → Bool
is_empty [] = true
is_empty (_ ∷ _) = false

-- `str.isspace` on one character.
unfoldable pub is_space : ℕ → Bool
is_space c =
    (leb 9 c && leb c 13)
    || (leb 28 c && leb c 32)
    || (c == 133)
    || (c == 160)
    || (c == 5760)
    || (leb 8192 c && leb c 8202)
    || (c == 8232)
    || (c == 8233)
    || (c == 8239)
    || (c == 8287)
    || (c == 12288)

-- `str.lstrip` and `str.strip`
unfoldable pub lstrip : Text → Text
unfolding is_space
lstrip [] = []
lstrip (c ∷ cs) = if is_space c then lstrip cs else c ∷ cs

unfoldable pub rstrip : Text → Text
unfolding is_space
rstrip [] = []
rstrip (c ∷ cs) = let rest = rstrip cs in if is_space c && is_empty rest then [] else c ∷ rest

unfoldable pub strip : Text → Text
unfolding lstrip rstrip
strip s = rstrip (lstrip s)

-- The truth value of a field.
unfoldable pub truthy : Json → Bool
unfolding is_empty
truthy null = false
truthy (bool b) = b
truthy (int (pos n)) = not (n == 0)
truthy (int (negsuc n)) = true
truthy (string t) = not (is_empty t)
truthy (float b) = b
truthy (sequence b) = b
truthy (object b) = b
