-- ===== src/Fts/Rank.antt =====
-- src/fts.rs: `search_with_rank`, and the calls of a full-text table on its index.
use Prim.Native.Nat.{Ordering}
use skvs.Prelude.{
  ℕ, ◌+◌, String, Bool, true, false, Option, none, some, List, [], ◌∷◌, length, unwrap_or, nat_eq,
  string_eq, if◌then◌else◌,
}
use skvs.Prelude.Int.{pos}
use skvs.Prelude.Map.{Map, lookup, insert, values}
use skvs.Error.{Result, ok}
use skvs.Externs.{Externs, F64}
use skvs.Value.{RowId}
use skvs.Fts.{FtsIndex, FtsVirtualTable, tokenize, add_document, remove_document, search_index}

abbrev pub Scores : Type 0
Scores = Map RowId F64

abbrev sum : List ℕ → ℕ
sum [] = 0
sum (n ∷ ns) = n + sum ns

-- The bit patterns of 0.5 and 1.0.
abbrev half : F64
half = 4602678819172646912

abbrev one : F64
one = 4607182418800017408

abbrev is_greater : Option Ordering → Bool
is_greater (some Ordering.gt) = true
is_greater _ = false

module _ (x : Externs) where
  -- `as f64` on a usize
  abbrev real_of : ℕ → F64
  real_of n = x.f64_of_i64 (pos n)

  abbrev pub avg_doc_len : FtsIndex → F64
  avg_doc_len f = x.f64_div (real_of (sum (values f.doc_lengths))) (real_of f.total_docs)

  abbrev pub idf : ℕ → ℕ → F64
  idf total_docs docs =
      let doc_freq : F64 = real_of docs in
      x.f64_ln (
        x.f64_add
          (x.f64_div (x.f64_add (x.f64_sub (real_of total_docs) doc_freq) half)
            (x.f64_add doc_freq half))
          one)

  abbrev pub score : FtsIndex → F64 → RowId → F64
  score f weight doc_id =
      let doc_len : F64 = real_of (unwrap_or (lookup doc_id f.doc_lengths) 0) in
      let ratio : F64 = x.f64_div doc_len (avg_doc_len f) in
      x.f64_mul weight (x.f64_div (x.f64_add ratio half) (x.f64_add ratio one))

  -- `*scores.entry(doc_id).or_insert(0.0) += score`
  abbrev pub add_score : RowId → F64 → Scores → Scores
  add_score doc_id n scores =
      insert doc_id (x.f64_add (unwrap_or (lookup doc_id scores) 0) n) scores

  unfoldable pub score_docs : FtsIndex → F64 → List RowId → Scores → Scores
  score_docs f weight [] scores = scores
  score_docs f weight (d ∷ ds) scores =
      score_docs f weight ds (add_score d (score f weight d) scores)

  abbrev pub score_token : FtsIndex → String → Scores → Scores
  score_token f t scores = elim (lookup t f.inverted) [
    | none ↦ scores
    | some docs ↦ score_docs f (idf f.total_docs (length docs)) docs scores
  ]

  unfoldable pub score_tokens : FtsIndex → List String → Scores → Scores
  score_tokens f [] scores = scores
  score_tokens f (t ∷ ts) scores = score_tokens f ts (score_token f t scores)

  -- `sort_by` with the greater score first; scores that do not compare count as equal, and equal
  -- ones keep their order.
  unfoldable pub insert_ranked : RowId → F64 → Scores → Scores
  insert_ranked d n [] = (d, n) ∷ []
  insert_ranked d n ((e, m) ∷ rest) =
      let later : Scores = insert_ranked d n rest in
      if is_greater (x.partial_cmp m n) then (e, m) ∷ later else (d, n) ∷ (e, m) ∷ rest

  unfoldable pub sort_ranked : Scores → Scores
  sort_ranked [] = []
  sort_ranked ((d, n) ∷ rest) = insert_ranked d n (sort_ranked rest)

  unfoldable pub search_with_rank : String → FtsIndex → Scores
  search_with_rank query f = sort_ranked (score_tokens f (tokenize x query) [])

  -- The calls of `FtsVirtualTable`, each under the lock of its index.
  unfoldable pub table_insert :
      RowId → String → FtsVirtualTable → Result (Unit {0}) × FtsVirtualTable
  table_insert r content t = (ok tt, record t { index = add_document x r content t.index })

  unfoldable pub table_delete :
      RowId → String → FtsVirtualTable → Result (Unit {0}) × FtsVirtualTable
  table_delete r content t = (ok tt, record t { index = remove_document x r content t.index })

  unfoldable pub table_search : String → FtsVirtualTable → List RowId
  table_search query t = search_index x query t.index

  unfoldable pub table_search_with_rank : String → FtsVirtualTable → Scores
  table_search_with_rank query t = search_with_rank query t.index
