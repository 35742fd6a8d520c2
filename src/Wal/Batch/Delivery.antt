-- ===== src/Wal/Batch/Delivery.antt =====
-- src/wal.rs: the writer hands on every operation once and in order, in batches of bounded length.
use mathlib.Core.List.{append_assoc, append-nil}
use skvs.Prelude.{
  ℕ, ◌+◌, ◌≤◌, ◌<◌, ◌≡◌, refl, sym, ◌∙◌, ap, inl, inr, List, [], ◌∷◌, ◌++◌, length, leb, Bool-cases,
  arith,
}
use skvs.Wal.Batch.{Operation, Event, tick, flush, receive, Writer, flush_batch, step, run_writer}

-- The operations that came in, in their order.
abbrev pub received : List Event → List Operation
received [] = []
received (tick ∷ es) = received es
received (flush ∷ es) = received es
received (receive op ∷ es) = op ∷ received es

abbrev pub concat : List (List Operation) → List Operation
concat [] = []
concat (b ∷ bs) = b ++ concat bs

-- All that the writer has: what it handed on, then what it still holds.
abbrev pub held : Writer → List Operation
held w = concat w.written ++ w.batch

concat-append :
    (bs : List (List Operation)) (b : List Operation) → concat (bs ++ b ∷ []) ≡ concat bs ++ b
concat-append [] b = append-nil b
concat-append (c ∷ bs) b =
    ap (λ l. c ++ l) (concat-append bs b) ∙ sym (append_assoc c (concat bs) b)

held-handed_on :
    (bs : List (List Operation)) (b : List Operation) → concat (bs ++ b ∷ []) ++ [] ≡ concat bs ++ b
held-handed_on bs b = append-nil (concat (bs ++ b ∷ [])) ∙ concat-append bs b

abbrev arrived : Event → List Operation
arrived tick = []
arrived flush = []
arrived (receive op) = op ∷ []

held-flush_batch :
    (b : List Operation) (bs : List (List Operation))
    → let w : Writer = record { batch = b; written = bs } in held (flush_batch w) ≡ held w
held-flush_batch [] bs = refl
held-flush_batch (o ∷ os) bs = held-handed_on bs (o ∷ os)

pub held-step : (n : ℕ) (w : Writer) (e : Event) → held (step n w e) ≡ held w ++ arrived e
unfolding step
held-step n w tick = held-flush_batch w.batch w.written ∙ sym (append-nil (held w))
held-step n w flush = held-flush_batch w.batch w.written ∙ sym (append-nil (held w))
held-step n w (receive op) =
    let b = w.batch ++ op ∷ [] in
    elim (Bool-cases (leb n (length b))) [
      | inl h ↦
          rw h
            (held-handed_on w.written b ∙ sym (append_assoc (concat w.written) w.batch (op ∷ [])))
      | inr h ↦ rw h (sym (append_assoc (concat w.written) w.batch (op ∷ [])))
    ]

received-cons : (e : Event) (es : List Event) → arrived e ++ received es ≡ received (e ∷ es)
received-cons tick es = refl
received-cons flush es = refl
received-cons (receive op) es = refl

-- The batches handed on and the batch still held are together the operations of the start and
-- those received since, each once and in the order they came.
pub held-run_writer :
    (n : ℕ) (w : Writer) (es : List Event) → held (run_writer n w es) ≡ held w ++ received es
unfolding run_writer
held-run_writer n w [] = sym (append-nil (held w))
held-run_writer n w (e ∷ es) =
    held-run_writer n (step n w e) es
    ∙ ap (λ l. l ++ received es) (held-step n w e)
    ∙ append_assoc (held w) (arrived e) (received es)
    ∙ ap (λ l. held w ++ l) (received-cons e es)

-- A batch that is handed on has an operation, and at most `n` of them.
abbrev pub Fits : ℕ → List Operation → Type 0
Fits n b = 0 < length b × length b ≤ n

pub data AllFit (n : ℕ) : List (List Operation) → Type 0 where
  none_left : AllFit n []
  fits :
      {b : List Operation} {bs : List (List Operation)} → Fits n b → AllFit n bs → AllFit n (b ∷ bs)

AllFit-append :
    (n : ℕ) (bs : List (List Operation)) (b : List Operation)
    → AllFit n bs
    → Fits n b
    → AllFit n (bs ++ b ∷ [])
AllFit-append n [] b none_left h = fits h none_left
AllFit-append n (c ∷ bs) b (fits k ks) h = fits k (AllFit-append n bs b ks h)

-- The batch being filled is short, and those handed on fit.
pub record Bounded (n : ℕ) (w : Writer) : Type 0 where
  pub short : length w.batch < n
  pub written : AllFit n w.written

length-snoc : (b : List Operation) (o : Operation) → length (b ++ o ∷ []) ≡ length b + 1
length-snoc [] o = refl
length-snoc (c ∷ b) o = ground (arith, length-snoc b o)

Bounded-flush_batch :
    (n : ℕ) (b : List Operation) (bs : List (List Operation))
    → let w : Writer = record { batch = b; written = bs } in Bounded n w → Bounded n (flush_batch w)
Bounded-flush_batch n [] bs h = h
Bounded-flush_batch n (o ∷ os) bs h = record {
  short = ground (arith, h.short);
  written = AllFit-append n bs (o ∷ os) h.written (ground arith, ground (arith, h.short));
}

Bounded-step : (n : ℕ) (w : Writer) (e : Event) → Bounded n w → Bounded n (step n w e)
unfolding step
Bounded-step n w tick h = Bounded-flush_batch n w.batch w.written h
Bounded-step n w flush h = Bounded-flush_batch n w.batch w.written h
Bounded-step n w (receive op) h =
    let b = w.batch ++ op ∷ [] in
    elim (Bool-cases (leb n (length b))) [
      | inl e ↦ rw e (record {
        short = ground (arith, h.short);
        written = AllFit-append n w.written b h.written (
          ground (arith, length-snoc w.batch op),
          ground (arith, length-snoc w.batch op, h.short),
        );
      })
      | inr e ↦ rw e (record { short = ground (arith, e); written = h.written })
    ]

-- If the batch held is below the batch size and the batches handed on have each at least one
-- operation and at most the batch size, then this still holds whatever wakes the writer.
pub run_writer-Bounded :
    (n : ℕ) (w : Writer) (es : List Event) → Bounded n w → Bounded n (run_writer n w es)
unfolding run_writer
run_writer-Bounded n w [] h = h
run_writer-Bounded n w (e ∷ es) h = run_writer-Bounded n (step n w e) es (Bounded-step n w e h)
