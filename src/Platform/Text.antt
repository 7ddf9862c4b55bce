-- ===== src/Platform/Text.antt =====
-- `str::trim` and `str::is_empty`, over the native texts.
use Prim.Native.Char.{Char, code}
use epitelesis.Base.{
  ℕ, ◌↔◌, String, Bool, true, false, ◌&&◌, ◌||◌, leb, ◌==◌, if◌then◌else◌, ◌≡◌, refl, inl, inr,
  arith, Bool-cases,
}

-- `char::is_whitespace`: the code points of Unicode's White_Space.
white_space : ℕ → Bool
white_space c =
    (leb 9 c && leb c 13)
    || (c == 32)
    || (c == 0x85)
    || (c == 0xa0)
    || (c == 0x1680)
    || (leb 0x2000 c && leb c 0x200a)
    || (c == 0x2028)
    || (c == 0x2029)
    || (c == 0x202f)
    || (c == 0x205f)
    || (c == 0x3000)

unfoldable pub is_white : Char → Bool
unfolding white_space
is_white c = white_space (code c)

abbrev pub is_empty_text : String → Bool
is_empty_text String.[] = true
is_empty_text (String.◌∷◌ c s) = false

trim_start : String → String
trim_start String.[] = String.[]
trim_start (String.◌∷◌ c s) = let rest = trim_start s in if is_white c then rest else String.◌∷◌ c s

trim_end : String → String
trim_end String.[] = String.[]
trim_end (String.◌∷◌ c s) =
    let rest = trim_end s in
    if is_white c && is_empty_text rest then String.[] else String.◌∷◌ c rest

unfoldable pub trim : String → String
unfolding trim_start trim_end
trim s = trim_end (trim_start s)

-- Every character of a text is white space.
abbrev pub AllWhite : String → Type 0
AllWhite String.[] = Unit {0}
AllWhite (String.◌∷◌ c s) = (is_white c ≡ true) × AllWhite s

AllWhite→trim_empty : (s : String) → AllWhite s → is_empty_text (trim s) ≡ true
unfolding trim
AllWhite→trim_empty String.[] h = refl
AllWhite→trim_empty (String.◌∷◌ c s) h = rw h.0 (AllWhite→trim_empty s h.1)

trim_empty→AllWhite : (s : String) → is_empty_text (trim s) ≡ true → AllWhite s
unfolding trim
trim_empty→AllWhite String.[] h = tt
trim_empty→AllWhite (String.◌∷◌ c s) h = elim (Bool-cases (is_white c)) [
  | inl w ↦ (w, trim_empty→AllWhite s (rw w at h))
  | inr n ↦ absurd (ground arith)
]

-- A text trims to nothing exactly if it holds nothing but white space.
pub trim_empty_iff : (s : String) → (is_empty_text (trim s) ≡ true) ↔ AllWhite s
trim_empty_iff s = (trim_empty→AllWhite s, AllWhite→trim_empty s)
