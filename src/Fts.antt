-- ===== src/Fts.antt =====
-- src/fts.rs: the inverted index behind `fts_match`. A set of row ids is a list without repetition.
pub mod Search
pub mod Rank
use skvs.Prelude.{
  ℕ, ◌+◌, ◌-◌, ◌%◌, ◌^◌, String, Bool, true, false, not, ◌&&◌, Option, none, some, List, [], ◌∷◌,
  any, keep, length, ltb, leb, ◌==◌, nat_eq, string_eq, if◌then◌else◌,
}
use skvs.Prelude.Map.{Map, lookup, insert, remove}
use skvs.Externs.{Externs}
use skvs.Text.{chars}
use skvs.Value.{RowId}

pub record FtsIndex : Type 0 where
  pub inverted : Map String (List RowId)
  pub doc_lengths : Map RowId ℕ
  pub total_docs : ℕ

abbrev pub new_index : FtsIndex
new_index = record { inverted = []; doc_lengths = []; total_docs = 0 }

-- `HashSet::insert`, `contains`, `intersection`
abbrev pub set_contains : List RowId → RowId → Bool
set_contains s r = any (λ q. q == r) s

abbrev pub set_insert : RowId → List RowId → List RowId
set_insert r s = if set_contains s r then s else r ∷ s

abbrev pub intersection : List RowId → List RowId → List RowId
intersection s t = keep (set_contains t) s

abbrev stopwords : List String
stopwords =
    "a" ∷ "an" ∷ "the" ∷ "is" ∷ "are" ∷ "was" ∷ "were" ∷ "in" ∷ "on" ∷ "at" ∷ "to" ∷ "for" ∷ "of"
    ∷ "with" ∷ "without" ∷ "and" ∷ "or" ∷ "but" ∷ "so" ∷ "for" ∷ "yet" ∷ []

module _ (x : Externs) where
  -- The words are ASCII, so that their length in bytes is their number of characters.
  unfoldable pub tokenize : String → List String
  tokenize text =
      keep (λ s. ltb 2 (length (chars s)) && not (any (λ w. w == s) stopwords))
        (x.find_words (x.to_lowercase text))

  abbrev pub posting : String → Map String (List RowId) → List RowId
  posting t m = elim (lookup t m) [ none ↦ [] | some docs ↦ docs ]

  unfoldable pub index_tokens :
      RowId → List String → Map String (List RowId) → Map String (List RowId)
  index_tokens r [] m = m
  index_tokens r (t ∷ ts) m = index_tokens r ts (insert t (set_insert r (posting t m)) m)

  unfoldable pub add_document : RowId → String → FtsIndex → FtsIndex
  add_document r content f =
      let tokens = tokenize content in
      record {
        inverted = index_tokens r tokens f.inverted;
        doc_lengths = insert r (length tokens) f.doc_lengths;
        total_docs = f.total_docs + 1;
      }

  abbrev or_drop : String → List RowId → Map String (List RowId) → Map String (List RowId)
  or_drop t [] m = remove t m
  or_drop t (r ∷ rs) m = insert t (r ∷ rs) m

  abbrev unindex_token : RowId → String → Map String (List RowId) → Map String (List RowId)
  unindex_token r t m = elim (lookup t m) [
    | none ↦ m
    | some docs ↦ or_drop t (keep (λ q. not (q == r)) docs) m
  ]

  unfoldable pub unindex_tokens :
      RowId → List String → Map String (List RowId) → Map String (List RowId)
  unindex_tokens r [] m = m
  unindex_tokens r (t ∷ ts) m = unindex_tokens r ts (unindex_token r t m)

  -- `total_docs -= 1` on a usize, with the wrap of a release build.
  unfoldable pub remove_document : RowId → String → FtsIndex → FtsIndex
  remove_document r content f = record {
    inverted = unindex_tokens r (tokenize content) f.inverted;
    doc_lengths = remove r f.doc_lengths;
    total_docs = (f.total_docs + (2 ^ 64 - 1)) % 2 ^ 64;
  }

  -- `none` is "no token seen yet"; a token without documents ends the search with nothing.
  unfoldable pub search_tokens :
      Map String (List RowId) → Option (List RowId) → List String → List RowId
  search_tokens m none [] = []
  search_tokens m (some current) [] = current
  search_tokens m results (t ∷ ts) = elim (lookup t m) [
    | none ↦ []
    | some docs ↦ elim results [
      | none ↦ search_tokens m (some docs) ts
      | some current ↦ search_tokens m (some (intersection current docs)) ts
    ]
  ]

  unfoldable pub search_index : String → FtsIndex → List RowId
  search_index query f = search_tokens f.inverted none (tokenize query)

pub record FtsVirtualTable : Type 0 where
  pub name : String
  pub index : FtsIndex
  pub content_column : String

abbrev pub new_table : String → String → FtsVirtualTable
new_table name content_column = record {
  name = name;
  index = new_index;
  content_column = content_column;
}
