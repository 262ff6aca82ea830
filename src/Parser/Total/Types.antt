-- ===== src/Parser/Total/Types.antt =====
-- Runs of `consume_type` of src/parser.c on tokens without `fn`.
use lu_language.Prelude.{
  ℕ, zero, suc, ◌≤◌, ◌<◌, Bytes, true, false, some, ◌≡◌, refl, ◌++◌, arith, codes, ap, sym, ◌∙◌,
  ◌≢◌, List, [], ◌∷◌, snprintf, Bool-cases, inl, inr,
}
use lu_language.Lexer.Token.{
  Token, TokenType, tok_ptr, tok_question, tok_bang, tok_star, tok_gt, tok_lt, tok_eof, tok_ident,
}
use lu_language.Parser.Cursor.{Parser, ◌>>=◌, cur_kind, cur_text, same_kind, check, consume}
use lu_language.Parser.Types.{
  TypeForm, type_form, pointer_type, optional_type, error_type, function_type, no_type, named_type,
  star_suffix, template_args, read_named, close_template, consume_type, prefixed, list_end, strcat,
}
use lu_language.Parser.Total.States.{
  IsFile, size, check-eof, consume-IsFile, size-consume, after_le, after_lt, Within, Within-some,
  Within_le, Within-suc, Within-eq, Within-bind, is_fn,
}

star_eof : (k : TokenType) → same_kind k tok_star ≡ true → same_kind k tok_eof ≡ false
star_eof tok_star h = refl
star_eof _ h = cc

pub list_end-eof :
    (closing : TokenType) (p : Parser) → list_end closing p ≡ false → check tok_eof p ≡ false
list_end-eof closing p h = grind arith

pub consumed_lt : (p : Parser) → IsFile p → check tok_eof p ≡ false → size (consume p) < size p
consumed_lt p f h = let a = size-consume p f in let b = after_lt p f h in omega arith

star_suffix-Within :
    (n : ℕ) (s : Bytes) (p : Parser)
    → IsFile p
    → size p < n
    → Within (λ k. star_suffix k s p) (size p)
unfolding star_suffix
star_suffix-Within zero s p f h = absurd (omega arith)
star_suffix-Within (suc n) s p f h = elim (Bool-cases (check tok_star p)) [
  | inl e ↦
      let b = consumed_lt p f (star_eof (cur_kind p) e) in
      let t = snprintf 256 (s ++ codes "*") in
      let ih = star_suffix-Within n t (consume p) (consume-IsFile p f) (omega arith) in
      Within-suc _ (λ k. star_suffix k t (consume p)) (size p) (λ k. rw (e, star_suffix))
        (Within_le _ (size (consume p)) (size p) (omega arith) ih)
  | inr e ↦
      Within-suc _ (λ k. some (s, p)) (size p) (λ k. rw (e, star_suffix))
        (Within-some s p (size p) f (omega arith))
]

template_args-Within :
    (n : ℕ) (buf : Bytes) (p : Parser)
    → IsFile p
    → size p < n
    → Within (λ k. template_args k buf p) (size p)
unfolding template_args
template_args-Within zero buf p f h = absurd (omega arith)
template_args-Within (suc n) buf p f h = elim (Bool-cases (list_end tok_gt p)) [
  | inl e ↦
      Within-suc _ (λ k. some (buf, p)) (size p) (λ k. rw (e, template_args))
        (Within-some buf p (size p) f (omega arith))
  | inr e ↦
      let b = consumed_lt p f (list_end-eof tok_gt p e) in
      let t = strcat 256 buf (cur_text p) in
      let ih = template_args-Within n t (consume p) (consume-IsFile p f) (omega arith) in
      Within-suc _ (λ k. template_args k t (consume p)) (size p) (λ k. rw (e, template_args))
        (Within_le _ (size (consume p)) (size p) (omega arith) ih)
]

close_template-IsFile : (buf : Bytes) (p : Parser) → IsFile p → IsFile (close_template buf p).1
close_template-IsFile buf p f = elim (Bool-cases (check tok_gt p)) [
  | inl e ↦ rw e (consume-IsFile p f)
  | inr e ↦ rw e f
]

size-close_template : (buf : Bytes) (p : Parser) → IsFile p → size (close_template buf p).1 ≤ size p
size-close_template buf p f =
    let a = size-consume p f in
    let b = after_le p in
    elim (Bool-cases (check tok_gt p)) [ inl e ↦ rw e (omega arith) | inr e ↦ rw e (omega arith) ]

read_named-Within :
    (p : Parser) → IsFile p → check tok_eof p ≡ false → Within (λ k. read_named k p) (size p)
unfolding read_named
read_named-Within p f h =
    let q = consume p in
    let s = cur_text p in
    let fq = consume-IsFile p f in
    let b = consumed_lt p f h in
    elim (Bool-cases (check tok_lt q)) [
      | inl e ↦
          let c = size-consume q fq in
          let d = after_le q in
          Within-eq _
            (λ k. template_args k (snprintf 256 (s ++ codes "<")) (consume q) >>= λ (buf, u).
              let closed = close_template buf u in star_suffix k closed.0 closed.1)
            (size p) (λ k. rw (e, read_named))
            (Within-bind (λ k. template_args k (snprintf 256 (s ++ codes "<")) (consume q))
              (λ k (buf, u). let closed = close_template buf u in star_suffix k closed.0 closed.1)
              (size (consume q)) (size p)
              (template_args-Within (suc (size (consume q))) _ (consume q) (consume-IsFile q fq)
                (omega arith))
              (λ buf u fu hu.
                let closed = close_template buf u in
                let g = size-close_template buf u fu in
                Within_le _ (size closed.1) (size p) (omega arith) (
                  star_suffix-Within (suc (size closed.1)) closed.0 closed.1
                    (close_template-IsFile buf u fu) (omega arith))))
      | inr e ↦
          Within-eq _ (λ k. star_suffix k s q) (size p) (λ k. rw (e, read_named))
            (Within_le _ (size q) (size p) (omega arith)
              (star_suffix-Within (suc (size q)) s q fq (omega arith)))
    ]

-- Where no `fn` is, no function type is read.
form_function : (k : TokenType) (v : Bytes) → is_fn k v ≡ false → type_form k v ≢ function_type
unfolding type_form
form_function tok_ident v h = ground arith
form_function tok_ptr v h = cc
form_function tok_question v h = cc
form_function tok_bang v h = cc
form_function k v h = ground arith

pub first-is_fn : (p : Parser) → IsFile p → is_fn (cur_kind p) (cur_text p) ≡ false
first-is_fn p f = go p.token p.later f
  where
    go :
        (t : Token) (ts : List Token)
        → IsFile (record { token = t; later = ts; errors = 0 })
        → is_fn t.type t.value ≡ false
    go t [] f = rw f refl
    go t (u ∷ us) f = f.0

-- A file's end is no type.
form-eof :
    (p : Parser) (form : TypeForm)
    → type_form (cur_kind p) (cur_text p) ≡ form
    → form ≢ no_type
    → check tok_eof p ≡ false
unfolding type_form
form-eof p form e h = elim (Bool-cases (check tok_eof p)) [
  | inl c ↦ absurd (h (sym e ∙ ap (λ k. type_form k (cur_text p)) (check-eof p c)))
  | inr c ↦ c
]

prefixed-Within :
    (cap : ℕ) (mark : Bytes) (q : Parser)
    → Within (λ k. consume_type k q) (size q)
    → Within (λ k. prefixed k cap mark q) (size q)
unfolding consume_type
prefixed-Within cap mark q w =
    Within-suc _ (λ k. consume_type k q >>= λ (inner, u). some (snprintf cap (mark ++ inner), u))
      (size q) (λ k. refl)
      (Within-bind (λ k. consume_type k q) (λ k (inner, u). some (snprintf cap (mark ++ inner), u))
        (size q) (size q) w
        (λ inner u fu hu. Within-some (snprintf cap (mark ++ inner)) u (size q) fu hu))

module _ (p : Parser) (f : IsFile p)
    (ih : Within (λ k. consume_type k (consume p)) (size (consume p))) where
  prefix_type-Within :
      (cap : ℕ) (mark : Bytes) (form : TypeForm)
      → type_form (cur_kind p) (cur_text p) ≡ form
      → form ≢ no_type
      → ((k : ℕ) → consume_type (suc k) p ≡ prefixed k cap mark (consume p))
      → Within (λ k. consume_type k p) (size p)
  prefix_type-Within cap mark form e h same =
      let b = consumed_lt p f (form-eof p form e h) in
      Within-suc _ (λ k. prefixed k cap mark (consume p)) (size p) same
        (Within_le _ (size (consume p)) (size p) (omega arith)
          (prefixed-Within cap mark (consume p) ih))

  type_form-Within :
      (form : TypeForm)
      → type_form (cur_kind p) (cur_text p) ≡ form
      → Within (λ k. consume_type k p) (size p)
  unfolding consume_type
  type_form-Within no_type e =
      Within-suc _ (λ k. some (codes "auto", p)) (size p) (λ k. rw (e, consume_type))
        (Within-some (codes "auto") p (size p) f (omega arith))
  type_form-Within named_type e =
      Within-suc _ (λ k. read_named k p) (size p) (λ k. rw (e, consume_type))
        (read_named-Within p f (form-eof p named_type e (cc)))
  type_form-Within function_type e =
      absurd (form_function (cur_kind p) (cur_text p) (first-is_fn p f) e)
  type_form-Within pointer_type e =
      prefix_type-Within 192 (codes "ptr/") pointer_type e (cc) (λ k. rw (e, consume_type))
  type_form-Within optional_type e =
      prefix_type-Within 128 (codes "?") optional_type e (cc) (λ k. rw (e, consume_type))
  type_form-Within error_type e =
      prefix_type-Within 128 (codes "!") error_type e (cc) (λ k. rw (e, consume_type))

eof_no_type : (p : Parser) → check tok_eof p ≡ true → type_form (cur_kind p) (cur_text p) ≡ no_type
unfolding type_form
eof_no_type p e = ap (λ k. type_form k (cur_text p)) (check-eof p e)

type_below : (n : ℕ) (p : Parser) → IsFile p → size p < n → Within (λ k. consume_type k p) (size p)
unfolding consume_type
type_below zero p f h = absurd (omega arith)
type_below (suc n) p f h = elim (Bool-cases (check tok_eof p)) [
  | inl e ↦
      let at_eof = eof_no_type p e in
      Within-suc _ (λ k. some (codes "auto", p)) (size p) (λ k. rw (at_eof, consume_type))
        (Within-some (codes "auto") p (size p) f (omega arith))
  | inr e ↦
      let b = consumed_lt p f e in
      type_form-Within p f (type_below n (consume p) (consume-IsFile p f) (omega arith))
        (type_form (cur_kind p) (cur_text p)) refl
]

-- consume_type ends, within the tokens that it was given.
pub consume_type-Within : (p : Parser) → IsFile p → Within (λ k. consume_type k p) (size p)
consume_type-Within p f = type_below (suc (size p)) p f (omega arith)
