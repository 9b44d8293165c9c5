-- ===== src/Db/Operation.antt =====
-- Which kind of statement a text is: for the query hook, and for the audit log.
pub mod Agree
use relica.Prelude.{Bool, true, false, ◌||◌, List, [], ◌∷◌, if◌then◌else◌}
use relica.Text.{Text, codes, has_prefix}
use relica.Text.Trim.{trim_space, upper_text}

-- The tests of `DetectOperation`, on the trimmed text in capitals.
abbrev pub hook_kind : Text → Text
hook_kind s =
    if has_prefix (codes "SELECT") s || has_prefix (codes "WITH") s
    then codes "SELECT"
    else if has_prefix (codes "INSERT") s
    then codes "INSERT"
    else if has_prefix (codes "UPDATE") s
    then codes "UPDATE"
    else if has_prefix (codes "DELETE") s
    then codes "DELETE"
    else codes "UNKNOWN"

-- `DetectOperation` of hooks.go.
unfoldable pub hook_operation : Text → Text
hook_operation sql = hook_kind (trim_space (upper_text sql))

-- The first of the words that the text begins with.
abbrev pub first_prefix : List Text → Text → Text
first_prefix [] s = codes "UNKNOWN"
first_prefix (w ∷ ws) s = if has_prefix w s then w else first_prefix ws s

abbrev pub audit_words : List Text
audit_words =
    codes "INSERT"
    ∷ codes "UPDATE"
    ∷ codes "DELETE"
    ∷ codes "SELECT"
    ∷ codes "CREATE"
    ∷ codes "DROP"
    ∷ codes "ALTER"
    ∷ codes "TRUNCATE"
    ∷ []

-- `detectOperation` of db.go.
unfoldable pub detect_operation : Text → Text
detect_operation sql = first_prefix audit_words (upper_text (trim_space sql))
