-- ===== src/Text/Fields.antt =====
-- `strings.Fields`, the first occurrence of a text, and the forms of words that the code tests.
use relica.Prelude.{
  ℕ, suc, ◌-◌, ◌==◌, leb, if◌then◌else◌, Bool, true, false, ◌&&◌, ◌||◌, List, [], ◌∷◌, ◌++◌, none,
  some,
}
use relica.Prelude.Ints.{ℤ, pos, negsuc}
use relica.Text.{Text, strip_prefix}
use relica.Text.Decimal.{decimal}

-- `unicode.IsSpace`.
abbrev pub is_space : ℕ → Bool
is_space c =
    (leb 9 c && leb c 13)
    || (c == 32
        || (c == 133
            || (c == 160
                || (c == 5760
                    || ((leb 8192 c && leb c 8202)
                        || (c == 8232
                            || (c == 8233 || (c == 8239 || (c == 8287 || c == 12288)))))))))

-- The word that is being read, if any, in front of the others.
abbrev add_word : Text → List Text → List Text
add_word [] ws = ws
add_word (c ∷ w) ws = (c ∷ w) ∷ ws

fields_from : Text → Text → List Text
fields_from cur [] = add_word cur []
fields_from cur (c ∷ s) = elim (is_space c) [
  | true ↦ add_word cur (fields_from [] s)
  | false ↦ fields_from (cur ++ c ∷ []) s
]

-- `strings.Fields`.
unfoldable pub fields : Text → List Text
unfolding fields_from
fields s = fields_from [] s

-- `unicode.ToUpper`, as far as the result can be one of the letters of ASC and DESC: besides the
-- small letters, U+017F becomes S.
abbrev pub to_upper : ℕ → ℕ
to_upper c = if leb b'a' c && leb c b'z' then c - 32 else if c == 383 then b'S' else c

-- `strings.Replace(s, old, by, 1)`.
unfoldable pub replace_once : Text → Text → Text → Text
replace_once old by [] = elim (strip_prefix old []) [ none ↦ [] | some rest ↦ by ++ rest ]
replace_once old by (c ∷ s) = elim (strip_prefix old (c ∷ s)) [
  | none ↦ c ∷ replace_once old by s
  | some rest ↦ by ++ rest
]

-- `%d`.
unfoldable pub print_int : ℤ → Text
print_int (pos n) = decimal n
print_int (negsuc n) = b'-' ∷ decimal (suc n)
