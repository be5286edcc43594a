-- ===== src/Tools/Text.antt =====
-- Numbers and formats in kernel/tools/klib.c: `kernel_itoa` and `kernel_vsprintf`.
use wjos.Common.{
  ℕ, zero, suc, ◌+◌, ◌-◌, ◌/◌, ◌%◌, Bool, true, false, not, ◌&&◌, ◌||◌, List, [], ◌∷◌, ◌++◌, ltb,
  leb, ◌==◌, if◌then◌else◌,
}
use wjos.Common.Words.{u32_mod}

-- A digit's character, `0` to `9` and `A` to `F`.
abbrev pub digit : ℕ → ℕ
digit d = if ltb d 10 then 48 + d else 55 + d

-- The digits of a number, the last first, on fuel: 32 rounds end for every word and base.
unfoldable pub digits : ℕ → ℕ → ℕ → List ℕ
digits zero base n = []
digits (suc fuel) base n =
    let rest = digits fuel base (n / base) in
    digit (n % base) ∷ (if n / base == 0 then [] else rest)

unfoldable pub reverse : List ℕ → List ℕ
reverse [] = []
reverse (c ∷ cs) = reverse cs ++ (c ∷ [])

-- The part behind the first character reversed, or all of it.
unfoldable pub reverse_tail : List ℕ → List ℕ
reverse_tail [] = []
reverse_tail (c ∷ cs) = c ∷ reverse cs

abbrev pub is_base : ℕ → Bool
is_base base = (base == 2) || (base == 8) || (base == 10) || (base == 16)

-- A number is the 32-bit pattern of an `int`. A negative one is divided towards 0 in base 10, where
-- the table of characters is read from its middle outwards, and is taken as unsigned elsewhere.
unfoldable pub itoa : ℕ → ℕ → List ℕ
itoa num base =
    let negative = leb 0x8000_0000 num in
    let chars =
      if negative && (base == 10)
      then 45 ∷ digits 32 base (u32_mod - num)
      else digits 32 base num in
    if not (is_base base)
    then []
    else if ltb 0 num && not negative
    then reverse chars
    else reverse_tail chars

-- An argument of a format.
pub data Arg : Type 0 where
  string : List ℕ → Arg
  number : ℕ → Arg

abbrev pub text_of : Arg → List ℕ
text_of (string s) = s
text_of (number n) = []

abbrev pub number_of : Arg → ℕ
number_of (string s) = 0
number_of (number n) = n

-- What a conversion writes; the arguments are of the kinds that it wants.
unfoldable pub convert : ℕ → Arg → List ℕ
convert ch arg =
    if ch == 115
    then text_of arg
    else if ch == 100
    then itoa (number_of arg) 10
    else if ch == 120
    then itoa (number_of arg) 16
    else number_of arg % 256 ∷ []

-- `%s`, `%d`, `%x` and `%c` take an argument, and any other character takes none and writes nothing.
abbrev pub takes_arg : ℕ → Bool
takes_arg ch = (ch == 115) || (ch == 100) || (ch == 120) || (ch == 99)

-- In the state `READ_FMT` (`true`) and `NORMAL`.
unfoldable pub vsprintf : Bool → List ℕ → List Arg → List ℕ
vsprintf state [] args = []
vsprintf false (ch ∷ fmt) args =
    if ch == 37 then vsprintf true fmt args else ch ∷ vsprintf false fmt args
vsprintf true (ch ∷ fmt) [] = vsprintf false fmt []
vsprintf true (ch ∷ fmt) (arg ∷ args) =
    if takes_arg ch
    then convert ch arg ++ vsprintf false fmt args
    else vsprintf false fmt (arg ∷ args)
