-- ===== src/Expr/Like.antt =====
-- src/expr.rs: `like_match_chars` and `sql_like_match`.
pub mod Language
use Prim.Native.Char.{Char, code}
use skvs.Prelude.{String, Bool, true, false, ◌&&◌, ◌||◌, List, [], ◌∷◌, nat_beq, if◌then◌else◌}
use skvs.Externs.{Externs}
use skvs.Text.{chars, char_eq}

abbrev pub is_percent : Char → Bool
is_percent c = nat_beq (code c) b'%'

abbrev pub is_underscore : Char → Bool
is_underscore c = nat_beq (code c) b'_'

unfoldable pub like_match_chars : List Char → List Char → Bool
like_match_chars [] [] = true
like_match_chars (t ∷ ts) [] = false
like_match_chars [] (p ∷ ps) =
    let skip = like_match_chars [] ps in if is_percent p then skip else false
like_match_chars (t ∷ ts) (p ∷ ps) =
    let skip = like_match_chars (t ∷ ts) ps in
    let eat = like_match_chars ts (p ∷ ps) in
    let next = like_match_chars ts ps in
    if is_percent p
    then (if skip then true else eat)
    else if is_underscore p
    then next
    else if char_eq t p
    then next
    else false

unfoldable pub sql_like_match : Externs → String → String → Bool → Bool
sql_like_match x text pattern true =
    like_match_chars (chars (x.to_lowercase text)) (chars (x.to_lowercase pattern))
sql_like_match x text pattern false = like_match_chars (chars text) (chars pattern)
