-- ===== src/Lexer/Rules/Keywords.antt =====
-- The fixed texts that end in a slash, and the plain words.
use lu_language.Prelude.{
  Bytes, List, [], ◌∷◌, ◌||◌, length, if◌then◌else◌, ◌==◌, ℕ, String, codes, streq, isalpha,
}
use lu_language.Lexer.Action.{Action, pass, emit, ◌<|>◌}
use lu_language.Lexer.State.{Lexer, advance_by, starts_with, read_word}
use lu_language.Lexer.Token.{
  TokenType, tok_lang_decl, tok_func, tok_call, tok_bool_lit, tok_ident, tok_if, tok_elif, tok_else,
  tok_pr, tok_to, tok_return, tok_loop, tok_set, tok_opt, tok_ref, tok_deref, tok_alloc, tok_free,
  tok_memset, tok_memcpy, tok_try, tok_catch, tok_finally, tok_throw, tok_await, tok_spawn,
  tok_chan, tok_select, tok_case, tok_default, tok_event, tok_on, tok_emit, tok_off, tok_log,
  tok_assert, tok_trace, tok_break_bp, tok_watch, tok_route, tok_chan_send, tok_chan_recv, tok_fwd,
  tok_del, tok_import, tok_user, tok_server, tok_module, tok_ns, tok_use_ns, tok_enum, tok_struct,
  tok_union, tok_tuple, tok_type_int, tok_type_int64, tok_type_float, tok_type_str, tok_type_bool,
  tok_type_byte, tok_type_ip, tok_type_id, tok_type_cor, tok_type_msg, tok_type_lib, tok_type_void,
}

-- `starts_with(l, s)`, then `advance` over `s`, which is the token's value.
unfoldable pub fixed : String → TokenType → Lexer → Action
fixed s t l = if starts_with l s then emit t (codes s) (advance_by (length (codes s)) l) else pass

-- The uses of `KW_SLASH`, in their order.
unfoldable pub slash_keywords : List (String × TokenType)
slash_keywords =
    ("If/", tok_if)
    ∷ ("Elif/", tok_elif)
    ∷ ("Else/", tok_else)
    ∷ ("Pr/", tok_pr)
    ∷ ("To/", tok_to)
    ∷ ("Ret/", tok_return)
    ∷ ("Loop/", tok_loop)
    ∷ ("Set/", tok_set)
    ∷ ("Opt/", tok_opt)
    ∷ ("Ref/", tok_ref)
    ∷ ("Deref/", tok_deref)
    ∷ ("Alloc/", tok_alloc)
    ∷ ("Free/", tok_free)
    ∷ ("Memset/", tok_memset)
    ∷ ("Memcpy/", tok_memcpy)
    ∷ ("Try/", tok_try)
    ∷ ("Catch/", tok_catch)
    ∷ ("Finally/", tok_finally)
    ∷ ("Throw/", tok_throw)
    ∷ ("Await/", tok_await)
    ∷ ("Spawn/", tok_spawn)
    ∷ ("Chan/", tok_chan)
    ∷ ("Select/", tok_select)
    ∷ ("Case/", tok_case)
    ∷ ("Default/", tok_default)
    ∷ ("Event/", tok_event)
    ∷ ("On/", tok_on)
    ∷ ("Emit/", tok_emit)
    ∷ ("Off/", tok_off)
    ∷ ("Log/", tok_log)
    ∷ ("Assert/", tok_assert)
    ∷ ("Trace/", tok_trace)
    ∷ ("Break/", tok_break_bp)
    ∷ ("Watch/", tok_watch)
    ∷ ("Route/", tok_route)
    ∷ ("Send/", tok_chan_send)
    ∷ ("Recv/", tok_chan_recv)
    ∷ ("Fwd/", tok_fwd)
    ∷ ("Del/", tok_del)
    ∷ []

unfoldable pub try_fixed : List (String × TokenType) → Lexer → Action
try_fixed [] l = pass
try_fixed ((s, t) ∷ more) l = fixed s t l <|> try_fixed more l

unfoldable pub lang_decl : ℕ → Lexer → Action
lang_decl c l = if c == b'L' then fixed "Lu/Language" tok_lang_decl l else pass

unfoldable pub slash_keyword : Lexer → Action
slash_keyword l = try_fixed slash_keywords l <|> fixed "Fn/" tok_func l <|> fixed "Call/" tok_call l

-- The comparisons of `keyword_type`, in their order.
unfoldable pub words : List (String × TokenType)
words =
    ("Import", tok_import)
    ∷ ("User", tok_user)
    ∷ ("Server", tok_server)
    ∷ ("Module", tok_module)
    ∷ ("Ns", tok_ns)
    ∷ ("Use", tok_use_ns)
    ∷ ("enum", tok_enum)
    ∷ ("struct", tok_struct)
    ∷ ("union", tok_union)
    ∷ ("tuple", tok_tuple)
    ∷ ("int", tok_type_int)
    ∷ ("int64", tok_type_int64)
    ∷ ("float", tok_type_float)
    ∷ ("str", tok_type_str)
    ∷ ("bool", tok_type_bool)
    ∷ ("byte", tok_type_byte)
    ∷ ("ip", tok_type_ip)
    ∷ ("id", tok_type_id)
    ∷ ("cor", tok_type_cor)
    ∷ ("msg", tok_type_msg)
    ∷ ("lib", tok_type_lib)
    ∷ ("void", tok_type_void)
    ∷ ("true", tok_bool_lit)
    ∷ ("false", tok_bool_lit)
    ∷ []

unfoldable pub lookup_word : List (String × TokenType) → Bytes → TokenType
lookup_word [] w = tok_ident
lookup_word ((s, t) ∷ more) w = if streq w (codes s) then t else lookup_word more w

unfoldable pub keyword_type : Bytes → TokenType
keyword_type w = lookup_word words w

unfoldable pub word : ℕ → Lexer → Action
word c l =
    if isalpha c || c == b'_'
    then emit (keyword_type (read_word l).0) (read_word l).0 (read_word l).1
    else pass
