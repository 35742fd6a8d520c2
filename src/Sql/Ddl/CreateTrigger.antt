-- ===== src/Sql/Ddl/CreateTrigger.antt =====
-- src/sql/ddl.rs: CREATE TRIGGER, which is read off the text by hand. Positions count characters:
-- the byte positions of the source, where the text is ASCII.
use Prim.Native.Char.{Char, code}
use skvs.Prelude.{
  ℕ, suc, ◌+◌, String, Bool, true, false, not, ◌&&◌, ◌||◌, Option, none, some, List, [], ◌∷◌,
  is_some, take, drop, nat_beq, leb, ◌==◌, string_eq, if◌then◌else◌,
}
use skvs.Error.{SkvsError, Result, ok, err, ◌>>=◌, ok_or}
use skvs.Text.{chars, from_chars, char_eq}
use skvs.Schema.{TriggerDef, TriggerEvent, TriggerTiming}
use skvs.State.{add_trigger}
use skvs.Sql.Env.{Env, QueryResult, Exec}
use skvs.Sql.Dml.{empty_result}

abbrev prefix_of : List Char → List Char → Bool
prefix_of [] t = true
prefix_of (c ∷ p) [] = false
prefix_of (c ∷ p) (d ∷ t) = char_eq c d && prefix_of p t

-- `find`, `rfind`: the first and the last place of a piece.
unfoldable pub find_text : List Char → List Char → Option ℕ
find_text p [] = if prefix_of p [] then some 0 else none
find_text p (d ∷ t) =
    let rest = find_text p t in
    if prefix_of p (d ∷ t) then some 0 else elim rest [ none ↦ none | some i ↦ some (suc i) ]

unfoldable pub rfind_text : List Char → List Char → Option ℕ
rfind_text p [] = if prefix_of p [] then some 0 else none
rfind_text p (d ∷ t) = elim (rfind_text p t) [
  | some i ↦ some (suc i)
  | none ↦ if prefix_of p (d ∷ t) then some 0 else none
]

abbrev is_space : Char → Bool
is_space c = nat_beq (code c) 32 || (leb 9 (code c) && leb (code c) 13)

abbrev push_word : List Char → List (List Char) → List (List Char)
push_word [] ws = ws
push_word (c ∷ w) ws = (c ∷ w) ∷ ws

-- The word that the text starts in, and the words after it.
abbrev words_from : List Char → List Char × List (List Char)
words_from [] = ([], [])
words_from (c ∷ t) =
    let (w, ws) = words_from t in if is_space c then ([], push_word w ws) else (c ∷ w, ws)

unfoldable pub split_whitespace : List Char → List (List Char)
split_whitespace t = let (w, ws) = words_from t in push_word w ws

-- `trim_matches` of commas and semicolons
abbrev is_mark : Char → Bool
is_mark c = nat_beq (code c) b',' || nat_beq (code c) b';'

abbrev trim_front : List Char → List Char
trim_front [] = []
trim_front (c ∷ t) = let rest = trim_front t in if is_mark c then rest else c ∷ t

abbrev trim_back : List Char → List Char
trim_back [] = []
trim_back (c ∷ t) = elim (trim_back t) [ [] ↦ if is_mark c then [] else c ∷ [] | d ∷ r ↦ c ∷ d ∷ r ]

abbrev malformed : SkvsError
malformed = SkvsError.sql_parse

abbrev Words : Type 0
Words = List (List Char)

abbrev next_word : Words → Result (List Char × Words)
next_word [] = err malformed
next_word (w ∷ ws) = ok (w, ws)

abbrev skip_word : Words → Words
skip_word [] = []
skip_word (w ∷ ws) = ws

module _ (x : Env) where
  abbrev upper : List Char → String
  upper w = x.externs.to_uppercase (from_chars w)

  abbrev timing_of : String → Words → Result (TriggerTiming × Words)
  timing_of w ws =
      if w == "BEFORE"
      then ok (TriggerTiming.before, ws)
      else if w == "AFTER"
      then ok (TriggerTiming.after, ws)
      else if w == "INSTEAD"
      then ok (TriggerTiming.instead_of, skip_word ws)
      else err malformed

  abbrev event_of : String → Result TriggerEvent
  event_of w =
      if w == "INSERT"
      then ok TriggerEvent.insert
      else if w == "UPDATE"
      then ok TriggerEvent.update
      else if w == "DELETE"
      then ok TriggerEvent.delete
      else err malformed

  abbrev piece : List Char → ℕ → ℕ → List Char
  piece t from to = drop from (take to t)

  -- Between " WHEN " and the " BEGIN " after it.
  abbrev condition_of : List Char → List Char → Option String
  condition_of text up = elim (find_text (chars " WHEN ") up) [
    | none ↦ none
    | some w ↦ elim (find_text (chars " BEGIN ") (drop w up)) [
      | none ↦ none
      | some p ↦ some (x.externs.trim (from_chars (piece text (w + 6) (w + p))))
    ]
  ]

  -- Between the first BEGIN and the last END.
  abbrev body_of : List Char → List Char → Result String
  body_of text up = ok_or (find_text (chars "BEGIN") up) malformed >>= λ b.
      ok_or (rfind_text (chars "END") up) malformed >>= λ e.
      if leb e b then err malformed else ok (x.externs.trim (from_chars (piece text (b + 5) e)))

  abbrev for_each_row_in : List Char → Bool
  for_each_row_in up =
      let from : ℕ = elim (find_text (chars " ON ") up) [ none ↦ 0 | some i ↦ i + 4 ] in
      is_some (find_text (chars "FOR EACH ROW") (drop from up))

  unfoldable pub parse_trigger : String → Result TriggerDef
  parse_trigger raw =
      let sql = chars (x.externs.trim raw) in
      let up = chars (x.externs.to_uppercase (x.externs.trim raw)) in
      if not (prefix_of (chars "CREATE TRIGGER") up) then err malformed else do
        (name, ws₁) ← next_word (split_whitespace (drop 14 sql))
        (timing_word, ws₂) ← next_word ws₁
        (timing, ws₃) ← timing_of (upper timing_word) ws₂
        (event_word, ws₄) ← next_word ws₃
        event ← event_of (upper event_word)
        (on_word, ws₅) ← next_word ws₄
        (table, _) ← (if upper on_word == "ON" then next_word ws₅ else err malformed)
        body ← body_of sql up
        ok (record {
          name = from_chars name;
          timing = timing;
          event = event;
          table = from_chars (trim_back (trim_front table));
          for_each_row = for_each_row_in up;
          condition = condition_of sql up;
          body = body;
        })

  unfoldable pub create_trigger : ℕ → String → Exec QueryResult
  create_trigger db sql s = elim (parse_trigger sql) [
    | err e ↦ (err e, s)
    | ok t ↦ (ok empty_result, add_trigger db t.table t s)
  ]
