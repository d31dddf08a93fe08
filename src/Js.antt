-- ===== src/Js.antt =====
-- The JavaScript built-ins that the frontend uses on texts and numbers.
use Prim.Native.Char.{Char, code}
use Prim.Native.String.{[], ◌∷◌}
use punah_pustak.Common.{
  ℕ, zero, suc, ◌+◌, leb, ltb, ◌===◌, String, Bool, ◌&&◌, ◌||◌, if◌then◌else◌,
}

-- The numbers of JavaScript are floats, which are taken as they come: `Number(s)`,
-- `Number.parseFloat(s)`, `Number.isNaN(n)`, `n <= 0` and `n.toFixed(2)`.
pub record Numbers : Type 1 where
  pub Number : Type 0
  pub number : String → Number
  pub parse_float : String → Number
  pub is_nan : Number → Bool
  pub at_most_zero : Number → Bool
  pub to_fixed_2 : Number → String

-- The white space that `trim` removes.
abbrev is_space : ℕ → Bool
is_space c =
    (leb 9 c && leb c 13)
    || c === 32
    || c === 160
    || c === 5760
    || (leb 8192 c && leb c 8202)
    || c === 8232
    || c === 8233
    || c === 8239
    || c === 8287
    || c === 12288
    || c === 65279

abbrev trim_start : String → String
trim_start [] = []
trim_start (c ∷ s) = let rest = trim_start s in if is_space (code c) then rest else c ∷ s

abbrev cons_unless_space : Char → String → String
cons_unless_space c [] = if is_space (code c) then [] else c ∷ []
cons_unless_space c (d ∷ s) = c ∷ d ∷ s

abbrev trim_end : String → String
trim_end [] = []
trim_end (c ∷ s) = cons_unless_space c (trim_end s)

-- `s.trim()`
unfoldable pub trim : String → String
trim s = trim_end (trim_start s)

-- `s.length`, in UTF-16 code units.
unfoldable pub utf16_length : String → ℕ
utf16_length [] = 0
utf16_length (c ∷ s) = (if ltb (code c) 65536 then 1 else 2) + utf16_length s

-- A template literal joins texts.
infixr 60 ◌⧺◌
abbrev pub ◌⧺◌ : String → String → String
s ⧺ t = Prim.Native.String.◌++◌ s t

-- `s.slice(0, n)` of a text of ASCII characters, such as a UUID.
abbrev pub slice_start : ℕ → String → String
slice_start zero s = []
slice_start (suc n) [] = []
slice_start (suc n) (c ∷ s) = c ∷ slice_start n s
