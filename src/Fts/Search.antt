-- ===== src/Fts/Search.antt =====
-- src/fts.rs: which rows a search of the inverted index finds, and what adding and removing a
-- document does to that.
use text.Mathlib.TextEquality.{eq_iff}
use skvs.Prelude.{
  ℕ, String, Bool, true, false, not, ◌&&◌, ◌||◌, ◌≡◌, refl, ◌∙◌, none, some, List, [], ◌∷◌, any,
  all, keep, ◌==◌, nat_eq, string_eq, nat_beq_iff, arith, inl, inr, Option-cases,
}
use skvs.Prelude.Map.{Map, lookup, insert, lookup-insert, lookup-remove}
use skvs.Externs.{Externs}
use skvs.Value.{RowId}
use skvs.Fts.{
  FtsIndex, set_contains, set_insert, intersection, tokenize, posting, index_tokens, add_document,
  unindex_token, unindex_tokens, remove_document, search_tokens, search_index,
}

set_contains-keep :
    (p : ℕ → Bool) (s : List ℕ) (r : ℕ) → set_contains (keep p s) r ≡ (set_contains s r && p r)
set_contains-keep p [] r = refl
set_contains-keep p (q ∷ s) r = ground (arith, set_contains-keep p s r, nat_beq_iff q r)

set_contains-set_insert :
    (a : ℕ) (s : List ℕ) (r : ℕ) → set_contains (set_insert a s) r ≡ (a == r || set_contains s r)
set_contains-set_insert a s r = ground (arith, nat_beq_iff a r)

module _ (x : Externs) where
  -- Whether the index lists row `r` under word `t`.
  abbrev pub listed : String → RowId → FtsIndex → Bool
  listed t r f = set_contains (posting x t f.inverted) r

  abbrev pub has_word : List String → String → Bool
  has_word ts t = any (λ u. u == t) ts

  abbrev has_tokens : List String → Bool
  has_tokens [] = false
  has_tokens (t ∷ ts) = true

  abbrev in_postings : Map String (List RowId) → RowId → String → Bool
  in_postings m r t = set_contains (posting x t m) r

  search_tokens-some :
      (m : Map String (List RowId)) (current : List RowId) (ts : List String) (r : RowId)
      → set_contains (search_tokens x m (some current) ts) r
        ≡ (set_contains current r && all (in_postings m r) ts)
  unfolding search_tokens
  search_tokens-some m current [] r = ground arith
  search_tokens-some m current (t ∷ ts) r = elim (Option-cases (lookup t m)) [
    | inl e ↦ ground arith
    | inr (docs, e) ↦ ground (
      arith,
      search_tokens-some m (intersection current docs) ts r,
      set_contains-keep (set_contains docs) current r,
    )
  ]

  search_tokens-none :
      (m : Map String (List RowId)) (ts : List String) (r : RowId)
      → set_contains (search_tokens x m none ts) r ≡ (has_tokens ts && all (in_postings m r) ts)
  unfolding search_tokens
  search_tokens-none m [] r = refl
  search_tokens-none m (t ∷ ts) r = elim (Option-cases (lookup t m)) [
    | inl e ↦ ground arith
    | inr (docs, e) ↦ ground (arith, search_tokens-some m docs ts r)
  ]

  -- A search finds exactly the rows that the index lists under every word of the query, and
  -- nothing when the query has no word.
  pub search_index-listed :
      (query : String) (f : FtsIndex) (r : RowId)
      → set_contains (search_index x query f) r
        ≡ (has_tokens (tokenize x query) && all (λ t. listed t r f) (tokenize x query))
  unfolding search_index
  search_index-listed query f r = search_tokens-none f.inverted (tokenize x query) r

  posting-index_tokens :
      (a : RowId) (ts : List String) (m : Map String (List RowId)) (t : String) (r : RowId)
      → set_contains (posting x t (index_tokens x a ts m)) r
        ≡ (set_contains (posting x t m) r || (a == r && has_word ts t))
  unfolding index_tokens
  posting-index_tokens a [] m t r = ground arith
  posting-index_tokens a (u ∷ ts) m t r =
      let docs = set_insert a (posting x u m) in
      ground (
        arith,
        posting-index_tokens a ts (insert u docs m) t r,
        lookup-insert u t docs m,
        set_contains-set_insert a (posting x u m) r,
        eq_iff u t,
      )

  -- Adding a document lists its row under the words of its text, and changes nothing else.
  pub listed-add_document :
      (a : RowId) (content : String) (f : FtsIndex) (t : String) (r : RowId)
      → listed t r (add_document x a content f)
        ≡ (listed t r f || (a == r && has_word (tokenize x content) t))
  unfolding add_document
  listed-add_document a content f t r = posting-index_tokens a (tokenize x content) f.inverted t r

  posting-unindex_token :
      (a : RowId) (u : String) (m : Map String (List RowId)) (t : String) (r : RowId)
      → set_contains (posting x t (unindex_token x a u m)) r
        ≡ (set_contains (posting x t m) r && not (a == r && u == t))
  posting-unindex_token a u m t r = elim (Option-cases (lookup u m)) [
    | inl e ↦ ground (arith, eq_iff u t)
    | inr (docs, e) ↦
        let left = keep (λ q. not (q == a)) docs in
        ground (
          arith,
          lookup-insert u t left m,
          lookup-remove u t m,
          set_contains-keep (λ q. not (q == a)) docs r,
          eq_iff u t,
          nat_beq_iff r a,
          nat_beq_iff a r,
        )
  ]

  posting-unindex_tokens :
      (a : RowId) (ts : List String) (m : Map String (List RowId)) (t : String) (r : RowId)
      → set_contains (posting x t (unindex_tokens x a ts m)) r
        ≡ (set_contains (posting x t m) r && not (a == r && has_word ts t))
  unfolding unindex_tokens
  posting-unindex_tokens a [] m t r = ground arith
  posting-unindex_tokens a (u ∷ ts) m t r = ground (
    arith,
    posting-unindex_tokens a ts (unindex_token x a u m) t r,
    posting-unindex_token a u m t r,
  )

  -- Removing a document takes its row from the words of its text, and changes nothing else.
  pub listed-remove_document :
      (a : RowId) (content : String) (f : FtsIndex) (t : String) (r : RowId)
      → listed t r (remove_document x a content f)
        ≡ (listed t r f && not (a == r && has_word (tokenize x content) t))
  unfolding remove_document
  listed-remove_document a content f t r =
      posting-unindex_tokens a (tokenize x content) f.inverted t r

  all-has_word :
      (p : String → Bool) (ts : List String)
      → ((t : String) → has_word ts t ≡ true → p t ≡ true)
      → all p ts ≡ true
  all-has_word p [] h = refl
  all-has_word p (t ∷ ts) h =
      let go = all-has_word p ts (λ u k. h u (ground (arith, k))) in
      ground (arith, h t, eq_iff t t, go)

  all-none :
      (p : String → Bool) (ts : List String)
      → ((t : String) → p t ≡ false)
      → (has_tokens ts && all p ts) ≡ false
  all-none p [] h = refl
  all-none p (t ∷ ts) h = ground (arith, h t)

  -- The text of a document finds its row once the document is added, whatever the index held
  -- before, if the text has a word.
  pub search_index-add_document :
      (a : RowId) (content : String) (f : FtsIndex)
      → set_contains (search_index x content (add_document x a content f)) a
        ≡ has_tokens (tokenize x content)
  search_index-add_document a content f =
      let f' = add_document x a content f in
      let h =
        all-has_word (λ t. listed t a f') (tokenize x content)
          (λ t k. ground (arith, listed-add_document a content f t a, nat_beq_iff a a, k)) in
      ground (arith, search_index-listed content f' a, h)

  -- After its document is removed no query finds a row, if the index listed it under words of that
  -- document only.
  pub search_index-remove_document :
      (a : RowId) (content query : String) (f : FtsIndex)
      → ((t : String) → listed t a f ≡ true → has_word (tokenize x content) t ≡ true)
      → set_contains (search_index x query (remove_document x a content f)) a ≡ false
  search_index-remove_document a content query f h =
      let f' = remove_document x a content f in
      let k =
        all-none (λ t. listed t a f') (tokenize x query)
          (λ t. ground (arith, listed-remove_document a content f t a, nat_beq_iff a a, h t)) in
      search_index-listed query f' a ∙ k
