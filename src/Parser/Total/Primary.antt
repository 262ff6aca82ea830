-- ===== src/Parser/Total/Primary.antt =====
-- Runs of `parse_primary` of src/parser.c, given those on fewer tokens.
use lu_language.Prelude.{
  ℕ, ◌≤◌, ◌<◌, true, some, ◌≡◌, refl, ap, arith, codes, has_prefix, drop, Bool-cases, inl, inr, ◌≢◌,
}
use lu_language.Lexer.Token.{tok_eof}
use lu_language.Ast.{Node, nil, node_literal_str, node_expr_deref, node_expr_ref}
use lu_language.Parser.Nodes.{node_text}
use lu_language.Parser.Cursor.{Parser, cur_kind, cur_text, check, consume, skip_newlines}
use lu_language.Parser.Calls.{Outer}
use lu_language.Parser.Literals.{
  line_at, read_int, read_float, read_str, read_bool, read_null, read_cor_key, read_block_ref,
  read_other,
}
use lu_language.Parser.Forms.{
  Form, form_of, int_form, float_form, str_form, bool_form, py_bool_form, none_form, null_form,
  cast_form, group_form, list_form, unary_form, deref_form, ref_form, recv_form, sizeof_form,
  alloc_form, call_form, new_form, lambda_form, name_form, cor_form, block_form, other_form,
}
use lu_language.Parser.Primary.{read_form, read_primary}
use lu_language.Parser.Expr.{calls}
use lu_language.Parser.Total.States.{
  IsFile, size, after, check-eof, consume-IsFile, size-consume, after_lt, skip_newlines-IsFile,
  size-skip_newlines, after-skip_newlines, Within, Within-some, Within_le, Within-suc, Within-eq,
}
use lu_language.Parser.Total.Types.{first-is_fn}
use lu_language.Parser.Total.Forms.{
  Total, form-lambda, cast-Within, group-Within, list-Within, prefix-Within, address-Within,
  recv-Within, sizeof-Within, alloc-Within, call-Within, new-Within,
}
use lu_language.Parser.Total.Names.{name-Within}

module _ (o : Outer) (q : Parser) (f : IsFile q) where
  single-Within : (x : Node) → Within (λ k. some (x, consume q)) (after q)
  single-Within x = Within-some x (consume q) (after q) (consume-IsFile q f) (size-consume q f)

  -- A template string leaves its own count of errors.
  str-Within : Within (λ k. some (read_str o q)) (after q)
  unfolding read_str
  str-Within =
      let parsed = o.template_at (drop 2 (cur_text q)) (line_at q) q.errors in
      let u : Parser = record { token = q.token; later = q.later; errors = parsed.1 } in
      elim (Bool-cases (has_prefix (codes "$f") (cur_text q))) [
        | inl e ↦
            Within-eq _ (λ k. some (parsed.0, consume u)) (after q) (λ k. rw (e, read_str))
              (Within-some parsed.0 (consume u) (after q) (consume-IsFile u f) (size-consume u f))
        | inr e ↦
            let x = node_text node_literal_str (line_at q) (cur_text q) nil in
            Within-eq _ (λ k. some (x, consume q)) (after q) (λ k. rw (e, read_str))
              (single-Within x)
      ]

  module _ (ih : (u : Parser) → IsFile u → size u ≤ after q → Total o u) where
    form-Within :
        (form : Form) → form ≢ lambda_form → Within (λ k. read_form (calls o k) o form q) (after q)
    unfolding read_form read_int read_float read_bool read_null read_cor_key read_block_ref
        read_other
    form-Within int_form h = single-Within _
    form-Within float_form h = single-Within _
    form-Within str_form h = str-Within
    form-Within bool_form h = single-Within _
    form-Within py_bool_form h = single-Within _
    form-Within none_form h = single-Within _
    form-Within null_form h = single-Within _
    form-Within cast_form h = cast-Within o (after q) ih q (consume-IsFile q f) (size-consume q f)
    form-Within group_form h = group-Within o (after q) ih q (consume-IsFile q f) (size-consume q f)
    form-Within list_form h = list-Within o (after q) ih q (consume-IsFile q f) (size-consume q f)
    form-Within unary_form h =
        prefix-Within o (after q) ih q (consume-IsFile q f) (size-consume q f)
    form-Within deref_form h =
        address-Within o (after q) ih q (consume-IsFile q f) (size-consume q f) node_expr_deref
    form-Within ref_form h =
        address-Within o (after q) ih q (consume-IsFile q f) (size-consume q f) node_expr_ref
    form-Within recv_form h = recv-Within o (after q) ih q (consume-IsFile q f) (size-consume q f)
    form-Within sizeof_form h =
        sizeof-Within o (after q) ih q (consume-IsFile q f) (size-consume q f)
    form-Within alloc_form h = alloc-Within o (after q) ih q (consume-IsFile q f) (size-consume q f)
    form-Within call_form h = call-Within o (after q) ih q (consume-IsFile q f) (size-consume q f)
    form-Within new_form h = new-Within o (after q) ih q (consume-IsFile q f) (size-consume q f)
    form-Within lambda_form h = absurd (h refl)
    form-Within name_form h = name-Within o (after q) ih q (consume-IsFile q f) (size-consume q f)
    form-Within cor_form h = single-Within _
    form-Within block_form h = single-Within _
    form-Within other_form h = single-Within _

eof_form : (q : Parser) → check tok_eof q ≡ true → form_of (cur_kind q) q ≡ other_form
unfolding form_of
eof_form q e = ap (λ k. form_of k q) (check-eof q e)

module _ (o : Outer) (n : ℕ) (ih : (q : Parser) → IsFile q → size q < n → Total o q) where
  pub primary-Within :
      (p : Parser) → IsFile p → size p ≤ n → Within (λ k. (calls o k).primary p) (after p)
  unfolding calls read_primary
  primary-Within p f h =
      let q = skip_newlines p in
      let fq = skip_newlines-IsFile p f in
      let hq = size-skip_newlines p in
      Within-suc _ (λ k. read_form (calls o k) o (form_of (cur_kind q) q) q) (after p) (λ k. refl)
        (Within_le _ (after q) (after p) (after-skip_newlines p f)
          (elim (Bool-cases (check tok_eof q)) [
            | inl e ↦
                Within-eq _ (λ k. some (read_other q)) (after q) (λ k. rw (eof_form q e, read_form))
                  (unfold read_other in single-Within o q fq _)
            | inr e ↦
                let a = after_lt q fq e in
                form-Within o q fq (λ u fu hu. ih u fu (omega arith)) (form_of (cur_kind q) q)
                  (form-lambda (cur_kind q) q (first-is_fn q fq))
          ]))
