-- ===== src/Examples/Searches.antt =====
-- Expressions, patterns, the order of values, and full-text searches.
use Prim.Native.Nat.{Ordering}
use skvs.Prelude.{
  ◌+◌, ◌<◌, ◌↔◌, true, false, ◌≡◌, refl, none, some, [], ◌∷◌, string_eq, nat_eq, arith,
}
use skvs.Prelude.Int.{pos}
use skvs.Prelude.Map.{lookup, insert}
use skvs.Text.{chars}
use skvs.Value.{Value, truthy, compare_values}
use skvs.Value.Order.{flip, compare_values-flip, compare_values-eq, compare_values_trans}
use skvs.Fts.{
  new_index, set_contains, search_index, add_document, remove_document, tokenize, index_tokens,
}
use skvs.Fts.Search.{
  listed-add_document, search_index-listed, search_index-add_document, search_index-remove_document,
}
use skvs.Expr.Ast.{Expr, SqlValue, BinaryOperator}
use skvs.Expr.Eval.{eval, eval_literal, count_placeholders}
use skvs.Expr.Eval.Offsets.{is_straight, index-eval, index-eval-lt}
use skvs.Expr.Like.{like_match_chars}
use skvs.Expr.Like.Language.{Denotes, like_match_chars_iff}
use skvs.Examples.Setting.{plain_externs, row_of}

-- id = ?
abbrev id_is : Expr
id_is = Expr.binary_op (Expr.identifier "id") BinaryOperator.eq (Expr.value SqlValue.placeholder)

index-eval_example :
    (eval plain_externs (some (row_of 7)) (Value.integer (pos 7) ∷ []) id_is 3).1
    ≡ 3 + count_placeholders id_is
unfolding is_straight
index-eval_example =
    index-eval plain_externs (some (row_of 7)) (Value.integer (pos 7) ∷ []) id_is 3 refl

abbrev falsehood : Expr
falsehood = Expr.value (SqlValue.boolean false)

index-eval-lt_example :
    (eval plain_externs none [] (Expr.binary_op falsehood BinaryOperator.and id_is) 0).1
    < 0 + count_placeholders (Expr.binary_op falsehood BinaryOperator.and id_is)
unfolding eval truthy count_placeholders is_straight eval_literal
index-eval-lt_example =
    index-eval-lt plain_externs none [] falsehood id_is 0 refl refl (ground arith)

like_match_chars_iff_example :
    (like_match_chars (chars "hello") (chars "h%o") ≡ true) ↔ Denotes (chars "h%o") (chars "hello")
like_match_chars_iff_example = like_match_chars_iff (chars "hello") (chars "h%o")

compare_values-flip_example :
    compare_values plain_externs (Value.text "a") (Value.integer (pos 3))
    ≡ flip (compare_values plain_externs (Value.integer (pos 3)) (Value.text "a"))
compare_values-flip_example =
    compare_values-flip plain_externs (Value.integer (pos 3)) (Value.text "a") refl refl

compare_values-eq_example : Value.text "a" ≡ Value.text "a"
unfolding compare_values
compare_values-eq_example =
    compare_values-eq plain_externs (Value.text "a") (Value.text "a") refl refl refl

compare_values_trans_example :
    compare_values plain_externs (Value.integer (pos 3)) (Value.text "b") ≡ Ordering.lt
unfolding compare_values
compare_values_trans_example =
    compare_values_trans plain_externs (Value.integer (pos 3)) (Value.text "a") (Value.text "b")
      refl refl refl refl refl

search_index-listed_example :
    set_contains
      (search_index plain_externs "word" (add_document plain_externs 5 "word" new_index))
      5
    ≡ true
unfolding tokenize add_document lookup insert index_tokens
search_index-listed_example =
    search_index-listed plain_externs "word" (add_document plain_externs 5 "word" new_index) 5

search_index-add_document_example :
    set_contains
      (search_index plain_externs "word" (add_document plain_externs 5 "word" new_index))
      5
    ≡ true
unfolding tokenize
search_index-add_document_example = search_index-add_document plain_externs 5 "word" new_index

search_index-remove_document_example :
    set_contains
      (search_index plain_externs "word"
        (remove_document plain_externs 5 "word" (add_document plain_externs 5 "word" new_index)))
      5
    ≡ false
unfolding tokenize lookup
search_index-remove_document_example =
    search_index-remove_document plain_externs 5 "word" "word"
      (add_document plain_externs 5 "word" new_index)
      (λ t h. ground (arith, listed-add_document plain_externs 5 "word" new_index t 5, h))
