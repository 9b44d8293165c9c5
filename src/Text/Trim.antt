-- ===== src/Text/Trim.antt =====
-- `strings.TrimSpace` and `strings.ToUpper`.
use relica.Prelude.{ℕ, ◌==◌, [], ◌∷◌, if◌then◌else◌, map}
use relica.Text.{Text}
use relica.Text.Fields.{is_space, to_upper}

abbrev pub trim_left : Text → Text
trim_left [] = []
trim_left (c ∷ s) = if is_space c then trim_left s else c ∷ s

-- A character in front of a trimmed rest: it goes with the rest if it is a space before nothing.
abbrev pub put_back : ℕ → Text → Text
put_back c [] = if is_space c then [] else c ∷ []
put_back c (d ∷ s) = c ∷ d ∷ s

abbrev pub trim_right : Text → Text
trim_right [] = []
trim_right (c ∷ s) = put_back c (trim_right s)

unfoldable pub trim_space : Text → Text
trim_space s = trim_right (trim_left s)

-- `strings.ToUpper`, as far as the result is ASCII: besides the small letters, U+0131 becomes I and
-- U+017F becomes S.
unfoldable pub upper_text : Text → Text
upper_text s = map (λ (c : ℕ). if c == 305 then b'I' else to_upper c) s
