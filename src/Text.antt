-- ===== src/Text.antt =====
-- What the runtime uses of Go's `strings` and `fmt`: `+` on strings, TrimSpace, ToLower, `%d`.
-- A text is its characters. ToLower is written for the ASCII letters: every text that the modelled
-- code compares the result with is ASCII, and no other letter lowers into one that these hold.
pub mod Trim
pub mod Parts
use Prim.Native.String.{◌++◌}
use Prim.Native.Char.{Char, code, nul}
use layeros.Base.{
  ℕ, zero, suc, ◌+◌, ◌-◌, ◌/◌, ◌%◌, String, Bool, true, false, ◌&&◌, ◌||◌, ◌≡◌, refl, ltb, leb, eqb,
  if◌then◌else◌, List, [], ◌∷◌, ◌==◌,
}

infixr 66 ◌<>◌
abbrev pub ◌<>◌ : String → String → String
s <> t = s ++ t

-- unicode.IsSpace
unfoldable pub is_space : ℕ → Bool
is_space c =
    (leb 9 c && leb c 13)
    || eqb c 32
    || eqb c 0x85
    || eqb c 0xA0
    || eqb c 0x1680
    || (leb 0x2000 c && leb c 0x200a)
    || eqb c 0x2028
    || eqb c 0x2029
    || eqb c 0x202f
    || eqb c 0x205f
    || eqb c 0x3000

unfoldable pub trim_left : String → String
trim_left String.[] = String.[]
trim_left (String.◌∷◌ c s) =
    let rest = trim_left s in if is_space (code c) then rest else String.◌∷◌ c s

abbrev pub is_empty : String → Bool
is_empty String.[] = true
is_empty (String.◌∷◌ _ _) = false

-- The character is dropped if it is a space and all behind it is gone.
abbrev pub trim_cons : Char → String → String
trim_cons c rest = if is_empty rest && is_space (code c) then String.[] else String.◌∷◌ c rest

unfoldable pub trim_right : String → String
trim_right String.[] = String.[]
trim_right (String.◌∷◌ c s) = trim_cons c (trim_right s)

unfoldable pub trim_space : String → String
unfolding is_space trim_left trim_right
trim_space s = trim_right (trim_left s)

-- `strings.TrimSpace(s) == ""`
unfoldable pub is_blank : String → Bool
unfolding trim_space
is_blank s = is_empty (trim_space s)

-- The character at a place of a text, or the one given.
nth : ℕ → String → Char → Char
nth n String.[] d = d
nth zero (String.◌∷◌ c s) d = c
nth (suc n) (String.◌∷◌ c s) d = nth n s d

lower_char : Char → Char
unfolding nth
lower_char c =
    if leb 65 (code c) && leb (code c) 90
    then nth (code c - 65) "abcdefghijklmnopqrstuvwxyz" c
    else c

unfoldable pub to_lower : String → String
unfolding lower_char
to_lower String.[] = String.[]
to_lower (String.◌∷◌ c s) = String.◌∷◌ (lower_char c) (to_lower s)

-- The digits of a number, in front of a text; one round for each digit.
digits_onto : ℕ → ℕ → String → String
unfolding nth
digits_onto zero n acc = acc
digits_onto (suc fuel) n acc =
    let acc' = String.◌∷◌ (nth (n % 10) "0123456789" nul) acc in
    let rest = digits_onto fuel (n / 10) acc' in if ltb n 10 then acc' else rest

-- `%d` of a number that is not negative: a number has no more digits than its successor counts.
unfoldable pub decimal : ℕ → String
unfolding digits_onto
decimal n = digits_onto (suc n) n ""

-- whether a list of texts, or the keys of a Go set, has a text
unfoldable pub seen : String → List String → Bool
seen key [] = false
seen key (k ∷ ks) = k == key || seen key ks

trim_test : trim_space "\t new job \n" ≡ "new job"
unfolding trim_space
trim_test = refl

blank_test : (is_blank " \t" ≡ true) × (is_blank " a" ≡ false)
unfolding is_blank
blank_test = (refl, refl)

lower_test : (to_lower "Accept-9" ≡ "accept-9") × (decimal 1204 ≡ "1204") × (decimal 0 ≡ "0")
unfolding to_lower decimal
lower_test = (refl, refl, refl)
