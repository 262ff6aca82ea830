-- ===== src/Parser/Pieces.antt =====
-- Template strings as `parse_fstring` of src/parser.c reads them: texts, with their braces doubled,
-- and expressions in braces.
use lu_language.Prelude.{
  ℕ, ◌<◌, Bytes, Bool, true, false, ◌||◌, Option, some, List, [], ◌∷◌, ◌++◌, ◌==◌, leb, ◌≡◌, refl,
  ◌∙◌, arith, if◌then◌else◌, length, length-append, append_assoc, append-nil, Bool-cases, inl, inr,
  All,
}
use lu_language.Ast.{Nodes, nil, cons, node_fstring}
use lu_language.Lexer.Token.{Token}
use lu_language.Lexer.Tokenizer.{tokenize}
use lu_language.Parser.Cursor.{Parser, ◌>>=◌}
use lu_language.Parser.Nodes.{node_new}
use lu_language.Parser.Calls.{Outer}
use lu_language.Parser.Expr.{parse_expr}
use lu_language.Parser.Fuel.{Ends, Ends-some, Ends-suc, Ends-eq, Ends-bind, Ends-map}
use lu_language.Parser.Phrase.{Phrase, written, tree, IsValid}
use lu_language.Parser.Reads.Levels.{Stops}
use lu_language.Parser.Reads.Whole.{parse_expr-written}
use lu_language.Parser.Template.{
  expr_part, flush, flushed, add_part, close_brace, parser_of, read_inner, store_byte, escaped,
  opened, plain, piece_at, doubled, fstring_on, parse_fstring,
}

abbrev pub is_brace : ℕ → Bool
is_brace c = c == b'{' || c == b'}'

abbrev pub escape : Bytes → Bytes
escape [] = []
escape (c ∷ cs) = if is_brace c then c ∷ c ∷ escape cs else c ∷ escape cs

-- An expression in braces and the text behind it.
pub record Hole : Type 0 where
  pub inner : Bytes
  pub phrase : Phrase
  pub behind : Bytes

abbrev pub render : Bytes → List Hole → Bytes
render text [] = escape text
render text (h ∷ hs) = escape text ++ (b'{' ∷ (h.inner ++ (b'}' ∷ render h.behind hs)))

abbrev pub parts_of : Outer → ℕ → Bytes → List Hole → Nodes
parts_of o line text [] = flush line text nil
parts_of o line text (h ∷ hs) =
    flush line text (cons (expr_part line (tree o h.phrase)) (parts_of o line h.behind hs))

-- The text in the braces has no braces and is, for the lexer, the tokens of the phrase before
-- something that does not go on with an expression.
abbrev pub IsWritten : ℕ → Bytes → Phrase → Type 0
IsWritten errors inner e =
    (All (λ c. is_brace c ≡ false) inner × IsValid e)
    × ((ts : List Token) × ((p : Parser) × ((tokenize inner ≡ some ts)
            × ((parser_of errors ts ≡ some (written e p)) × (Stops p × (p.errors ≡ errors))))))

-- A text is less than what the buffer of the source holds.
abbrev pub AllWritten : ℕ → Bytes → List Hole → Type 0
AllWritten errors text [] = length text < 1023
AllWritten errors text (h ∷ hs) =
    (length text < 1023) × (IsWritten errors h.inner h.phrase × AllWritten errors h.behind hs)

close_brace-inner :
    (inner acc rest : Bytes)
    → All (λ c. is_brace c ≡ false) inner
    → close_brace 0 acc (inner ++ (b'}' ∷ rest)) ≡ some (acc ++ inner, rest)
unfolding close_brace
close_brace-inner [] acc rest h = rw (append-nil acc)
close_brace-inner (c ∷ inner) acc rest h =
    let ih = close_brace-inner inner (acc ++ c ∷ []) rest h.1 in
    let open_false : (c == b'{') ≡ false = grind (arith, h.0) in
    let close_false : (c == b'}') ≡ false = grind (arith, h.0) in
    rw (open_false, close_false) (ih ∙ rw (append_assoc acc (c ∷ []) inner))

piece_at-brace : (c : ℕ) (cs : Bytes) → is_brace c ≡ true → piece_at c (c ∷ cs) ≡ escaped cs
unfolding piece_at
piece_at-brace c cs h = ground arith

piece_at-plain : (c : ℕ) (cs : Bytes) → is_brace c ≡ false → piece_at c cs ≡ plain
unfolding piece_at
piece_at-plain c cs h = ground arith

module _ (o : Outer) (line errors : ℕ) (r : Nodes × ℕ) where
  -- A byte that the buffer has room for.
  stored :
      (lit : Bytes) (c : ℕ)
      → length (lit ++ c ∷ []) < 1023
      → (g : ℕ → Bytes → Option (Nodes × ℕ)) → Ends (λ k. g k (lit ++ c ∷ [])) r
      → Ends (λ k. store_byte line lit c (g k)) r
  stored lit c h g ends =
      let room : leb 1023 (length (lit ++ c ∷ [])) ≡ false = ground arith in
      Ends-eq _ (λ k. g k (lit ++ c ∷ [])) r (λ k. rw (room, store_byte)) ends

  fstring_on-escape :
      (t lit cs : Bytes)
      → length (lit ++ t) < 1023
      → Ends (λ k. fstring_on o k line (lit ++ t) cs errors) r
      → Ends (λ k. fstring_on o k line lit (escape t ++ cs) errors) r
  unfolding fstring_on
  fstring_on-escape [] lit cs h ends = rw (append-nil lit) at ends
  fstring_on-escape (c ∷ t) lit cs h ends =
      let sizes = length-append lit (c ∷ t) in
      let one_more = length-append lit (c ∷ []) in
      let moved = append_assoc lit (c ∷ []) t in
      let ih = fstring_on-escape t (lit ++ c ∷ []) cs (rw moved h) (rw moved ends) in
      elim (Bool-cases (is_brace c)) [
        | inl e ↦ rw e (
            Ends-suc _
              (λ k. store_byte line lit c (λ l. fstring_on o k line l (escape t ++ cs) errors)) r
              (λ k. rw (piece_at-brace c (escape t ++ cs) e, fstring_on))
              (stored lit c (omega arith) (λ k l. fstring_on o k line l (escape t ++ cs) errors)
                ih))
        | inr e ↦ rw e (
            Ends-suc _
              (λ k. store_byte line lit c (λ l. fstring_on o k line l (escape t ++ cs) errors)) r
              (λ k. rw (piece_at-plain c (escape t ++ cs) e, fstring_on))
              (stored lit c (omega arith) (λ k l. fstring_on o k line l (escape t ++ cs) errors)
                ih))
      ]

inner-doubled :
    (inner rest : Bytes)
    → All (λ c. is_brace c ≡ false) inner
    → doubled b'{' (inner ++ (b'}' ∷ rest)) ≡ false
inner-doubled [] rest h = refl
inner-doubled (c ∷ inner) rest h = grind (arith, h.0)

piece_at-hole :
    (inner rest : Bytes)
    → All (λ c. is_brace c ≡ false) inner
    → piece_at b'{' (inner ++ (b'}' ∷ rest)) ≡ opened inner rest
unfolding piece_at
piece_at-hole inner rest h =
    rw (inner-doubled inner rest h, close_brace-inner inner [] rest h, piece_at)

module _ (o : Outer) (line errors : ℕ) where
  read_inner-Ends :
      (inner : Bytes) (e : Phrase)
      → IsWritten errors inner e
      → Ends (λ k. read_inner o k inner errors) (tree o e, errors)
  unfolding read_inner
  read_inner-Ends inner e ((braces, valid), (ts, (p, (lexed, (state, (stop, kept)))))) =
      Ends-eq _ (λ k. parse_expr o k (written e p) >>= λ (x, q). some (x, q.errors))
        (tree o e, errors) (λ k. rw (read_inner, lexed, state))
        (Ends-bind (λ k. parse_expr o k (written e p)) (λ k (x, q). some (x, q.errors))
          (tree o e, p) (tree o e, errors) (parse_expr-written o e p valid stop)
          (rw kept (Ends-some _)))

  fstring_on-hole :
      (lit inner rest : Bytes) (e : Phrase) (parts : Nodes)
      → IsWritten errors inner e
      → Ends (λ k. fstring_on o k line [] rest errors) (parts, errors)
      → Ends
          (λ k. fstring_on o k line lit (b'{' ∷ (inner ++ (b'}' ∷ rest))) errors)
          (flush line lit (cons (expr_part line (tree o e)) parts), errors)
  unfolding fstring_on
  fstring_on-hole lit inner rest e parts w ends =
      Ends-suc _
        (λ k. flushed line lit (
          read_inner o k inner errors >>= λ (x, n).
          add_part (expr_part line x) (fstring_on o k line [] rest n)))
        (flush line lit (cons (expr_part line (tree o e)) parts), errors)
        (λ k. rw (piece_at-hole inner rest w.0.0, fstring_on))
        (Ends-map _ (flushed line lit) (cons (expr_part line (tree o e)) parts, errors) _ refl
          (Ends-bind (λ k. read_inner o k inner errors)
            (λ k (x, n). add_part (expr_part line x) (fstring_on o k line [] rest n))
            (tree o e, errors) (cons (expr_part line (tree o e)) parts, errors)
            (read_inner-Ends inner e w)
            (Ends-map _ (add_part (expr_part line (tree o e))) (parts, errors) _ refl ends)))

  fstring_on-render :
      (text : Bytes) (hs : List Hole)
      → AllWritten errors text hs
      → Ends (λ k. fstring_on o k line [] (render text hs) errors) (parts_of o line text hs, errors)
  unfolding fstring_on
  fstring_on-render text [] h =
      let r : Nodes × ℕ = (flush line text nil, errors) in
      let whole : Ends (λ k. fstring_on o k line [] (escape text ++ []) errors) r =
        fstring_on-escape o line errors r text [] [] h
          (Ends-suc _ (λ k. some r) r (λ k. refl) (Ends-some r)) in
      rw (append-nil (escape text)) at whole
  fstring_on-render text (p ∷ hs) h =
      let rest = render p.behind hs in
      fstring_on-escape o line errors (parts_of o line text (p ∷ hs), errors) text []
        (b'{' ∷ (p.inner ++ (b'}' ∷ rest))) h.0
        (fstring_on-hole text p.inner rest p.phrase (parts_of o line p.behind hs) h.1.0
          (fstring_on-render p.behind hs h.1.1))

-- A template string of texts and expressions in braces, the texts with their braces doubled and of
-- fewer than 1023 bytes, is read by parse_fstring as these parts: the texts as they were, and for
-- an expression that the lexer makes the tokens of a phrase, the phrase's node. The count of errors
-- stays.
pub parse_fstring-render :
    (o : Outer) (line errors : ℕ) (text : Bytes) (hs : List Hole)
    → AllWritten errors text hs
    → Ends
        (λ fuel. parse_fstring o fuel (render text hs) line errors)
        (node_new node_fstring line (parts_of o line text hs), errors)
unfolding parse_fstring
parse_fstring-render o line errors text hs h =
    Ends-bind (λ k. fstring_on o k line [] (render text hs) errors)
      (λ k (parts, n). some (node_new node_fstring line parts, n)) (parts_of o line text hs, errors)
      (node_new node_fstring line (parts_of o line text hs), errors)
      (fstring_on-render o line errors text hs h) (Ends-some _)
