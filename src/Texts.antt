-- ===== src/Texts.antt =====
-- Texts as lists of code points, with the methods of `str` that gui.py and experiment.py call.
use Prim.Native.Char.{code}
use matf_master_vpn.Prelude.{
  ℕ, Bool, ◌&&◌, ◌||◌, List, [], ◌∷◌, String, ◌==◌, leb, if◌then◌else◌, ◌≡◌, refl, false, ◌++◌, All,
}

abbrev pub Text : Type 0
Text = List ℕ

-- The code points of a `str`
abbrev pub codes : String → Text
codes String.[] = []
codes (String.◌∷◌ c rest) = code c ∷ codes rest

-- `str.isspace` of one character
abbrev pub is_space : ℕ → Bool
is_space c =
    (leb 9 c && leb c 13)
    || ((leb 28 c && leb c 32)
        || (c == 133
            || (c == 160
                || (c == 5760
                    || ((leb 8192 c && leb c 8202)
                        || (c == 8232
                            || (c == 8233 || (c == 8239 || (c == 8287 || c == 12288)))))))))

strip_left : Text → Text
strip_left [] = []
strip_left (c ∷ line) = let rest = strip_left line in if is_space c then rest else c ∷ line

strip_right : Text → Text
strip_right [] = []
strip_right (c ∷ line) = elim (strip_right line) [
  | [] ↦ if is_space c then [] else c ∷ []
  | d ∷ rest ↦ c ∷ d ∷ rest
]

-- `str.strip`
unfoldable pub strip : Text → Text
unfolding strip_left strip_right
strip line = strip_right (strip_left line)

strip_right_line :
    (c : ℕ) (t : Text)
    → is_space c ≡ false
    → All (λ c. is_space c ≡ false) t
    → strip_right (c ∷ (t ++ (10 ∷ []))) ≡ c ∷ t
unfolding strip_right
strip_right_line c [] solid rest = rw (strip_right, solid) refl
strip_right_line c (d ∷ t) solid (solid', rest) =
    rw (strip_right, strip_right_line d t solid' rest) refl

-- Text without white space, with a line feed at its end, is stripped to itself.
pub strip_line : (t : Text) → All (λ c. is_space c ≡ false) t → strip (t ++ (10 ∷ [])) ≡ t
unfolding strip strip_left strip_right
strip_line [] h = refl
strip_line (c ∷ t) (solid, rest) = rw (strip_left, solid) (strip_right_line c t solid rest)

abbrev pub newline : ℕ
newline = 10

abbrev pub to_first : ℕ → List Text → List Text
to_first c [] = []
to_first c (line ∷ lines) = (c ∷ line) ∷ lines

-- `str.split("\n")`
unfoldable pub split_lines : Text → List Text
split_lines [] = [] ∷ []
split_lines (c ∷ buffer) =
    let rest = split_lines buffer in if c == newline then [] ∷ rest else to_first c rest

-- `lines[:-1]` and `lines[-1]`
unfoldable pub front_lines : List Text → List Text
front_lines [] = []
front_lines (line ∷ []) = []
front_lines (line ∷ next ∷ lines) = line ∷ front_lines (next ∷ lines)

unfoldable pub last_line : List Text → Text
last_line [] = []
last_line (line ∷ []) = line
last_line (line ∷ next ∷ lines) = last_line (next ∷ lines)
