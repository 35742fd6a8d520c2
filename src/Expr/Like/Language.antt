-- ===== src/Expr/Like/Language.antt =====
-- src/expr.rs: the texts that a LIKE pattern stands for, and that the matcher decides them.
use Prim.Native.Char.{Char}
use text.Mathlib.TextEquality.{Char-path}
use skvs.Prelude.{true, false, ◌≡◌, ◌↔◌, refl, ap, inl, inr, List, [], ◌∷◌, ◌++◌, Bool-cases, arith}
use skvs.Text.{char_eq}
use skvs.Expr.Like.{is_percent, is_underscore, like_match_chars}

-- `%` stands for any run of characters, `_` for any one, every other character for itself.
pub data Denotes : List Char → List Char → Type 0 where
  empty : Denotes [] []
  run :
      {p : Char} {ps text : List Char} (pre rest : List Char)
      → is_percent p ≡ true
      → text ≡ pre ++ rest
      → Denotes ps rest
      → Denotes (p ∷ ps) text
  any_one :
      {p c : Char} {ps rest : List Char}
      → is_percent p ≡ false
      → is_underscore p ≡ true
      → Denotes ps rest
      → Denotes (p ∷ ps) (c ∷ rest)
  itself :
      {p c : Char} {ps rest : List Char}
      → is_percent p ≡ false
      → is_underscore p ≡ false
      → c ≡ p
      → Denotes ps rest
      → Denotes (p ∷ ps) (c ∷ rest)

char_eq→eq : (a b : Char) → char_eq a b ≡ true → a ≡ b
char_eq→eq a b h = Char-path a b (ground arith)

char_eq_self : (a b : Char) → a ≡ b → char_eq a b ≡ true
char_eq_self a b h = rw h (ground arith)

-- One more character for a leading `%`.
extend :
    {p t : Char} {ps ts : List Char}
    → is_percent p ≡ true
    → Denotes (p ∷ ps) ts
    → Denotes (p ∷ ps) (t ∷ ts)
extend {t = t} e (run pre rest e' q d) = run (t ∷ pre) rest e (ap (λ l. t ∷ l) q) d
extend e (any_one f _ d) = cc
extend e (itself f _ _ d) = cc

sound : (text pattern : List Char) → like_match_chars text pattern ≡ true → Denotes pattern text
unfolding like_match_chars
sound [] [] h = empty
sound (t ∷ ts) [] h = cc
sound [] (p ∷ ps) h = elim (Bool-cases (is_percent p)) [
  | inl e ↦ run [] [] e refl (sound [] ps (ground arith))
  | inr e ↦ absurd (ground arith)
]
sound (t ∷ ts) (p ∷ ps) h = elim (Bool-cases (is_percent p)) [
  | inl e ↦ elim (Bool-cases (like_match_chars (t ∷ ts) ps)) [
    | inl s ↦ run [] (t ∷ ts) e refl (sound (t ∷ ts) ps s)
    | inr s ↦ extend e (sound ts (p ∷ ps) (ground arith))
  ]
  | inr e ↦ elim (Bool-cases (is_underscore p)) [
    | inl u ↦ any_one e u (sound ts ps (ground arith))
    | inr u ↦ itself e u (char_eq→eq t p (ground arith)) (sound ts ps (ground arith))
  ]
]

match_run :
    (p : Char) (ps pre rest : List Char)
    → is_percent p ≡ true
    → like_match_chars rest ps ≡ true
    → like_match_chars (pre ++ rest) (p ∷ ps) ≡ true
unfolding like_match_chars
match_run p ps [] [] e h = ground arith
match_run p ps [] (t ∷ ts) e h = ground arith
match_run p ps (c ∷ pre) rest e h = ground (arith, match_run p ps pre rest)

complete : {pattern text : List Char} → Denotes pattern text → like_match_chars text pattern ≡ true
unfolding like_match_chars
complete empty = refl
complete (run {p} {ps} pre rest e q d) = rw q (match_run p ps pre rest e (complete d))
complete (any_one e u d) = ground (arith, complete d)
complete (itself {p} {c} e u q d) = ground (arith, complete d, char_eq_self c p)

-- A text matches a LIKE pattern exactly when it is in the language of the pattern: a percent sign
-- stands for any run of characters, an underscore for any one character, any other character for
-- itself.
pub like_match_chars_iff :
    (text pattern : List Char) → (like_match_chars text pattern ≡ true) ↔ Denotes pattern text
like_match_chars_iff text pattern = (sound text pattern, complete)
