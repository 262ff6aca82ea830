-- ===== src/Parser/Kinds.antt =====
-- The numbers that the C enumeration `TokenType` of src/lu.h gives its names.
use lu_language.Prelude.{ℕ}
use lu_language.Lexer.Token.{
  TokenType, tok_lang_decl, tok_import, tok_mode, tok_def_const, tok_def_config, tok_lang_bind,
  tok_define, tok_include, tok_pragma, tok_ifdef, tok_endif, tok_block_id, tok_block_end, tok_if,
  tok_elif, tok_else, tok_pr, tok_to, tok_linref, tok_func, tok_call, tok_return, tok_loop, tok_set,
  tok_opt, tok_annot, tok_user, tok_snd_mes, tok_rec, tok_fwd, tok_del, tok_server, tok_cor,
  tok_inq, tok_send, tok_route, tok_bcast, tok_ptr, tok_ref, tok_deref, tok_alloc, tok_free,
  tok_memset, tok_memcpy, tok_try, tok_catch, tok_finally, tok_throw, tok_await, tok_spawn,
  tok_chan, tok_chan_send, tok_chan_recv, tok_select, tok_case, tok_default, tok_event, tok_on,
  tok_emit, tok_off, tok_log, tok_assert, tok_trace, tok_break_bp, tok_watch, tok_enum, tok_struct,
  tok_union, tok_tuple, tok_module, tok_ns, tok_use_ns, tok_type_int, tok_type_int64,
  tok_type_float, tok_type_str, tok_type_bool, tok_type_byte, tok_type_ip, tok_type_id,
  tok_type_cor, tok_type_msg, tok_type_lib, tok_type_void, tok_cr, tok_dam, tok_onl, tok_vl,
  tok_obj, tok_func_call, tok_exp, tok_cl, tok_dist, tok_int_lit, tok_float_lit, tok_str_lit,
  tok_bool_lit, tok_ip_lit, tok_ident, tok_plus, tok_minus, tok_star, tok_slash, tok_percent,
  tok_dstar, tok_inc, tok_dec, tok_amp, tok_pipe, tok_caret, tok_tilde, tok_lshift, tok_rshift,
  tok_urshift, tok_and, tok_or, tok_bang, tok_eq, tok_neq, tok_lt, tok_gt, tok_le, tok_ge,
  tok_question, tok_colon, tok_arrow, tok_larrow, tok_assign, tok_plus_eq, tok_minus_eq,
  tok_star_eq, tok_slash_eq, tok_percent_eq, tok_amp_eq, tok_pipe_eq, tok_caret_eq, tok_lshift_eq,
  tok_rshift_eq, tok_dot, tok_ptr_access, tok_comma, tok_semicolon, tok_lparen, tok_rparen,
  tok_lbrace, tok_rbrace, tok_lbracket, tok_rbracket, tok_newline, tok_eof, tok_unknown,
}

abbrev pub tag : TokenType → ℕ
tag tok_lang_decl = 0
tag tok_import = 1
tag tok_mode = 2
tag tok_def_const = 3
tag tok_def_config = 4
tag tok_lang_bind = 5
tag tok_define = 6
tag tok_include = 7
tag tok_pragma = 8
tag tok_ifdef = 9
tag tok_endif = 10
tag tok_block_id = 11
tag tok_block_end = 12
tag tok_if = 13
tag tok_elif = 14
tag tok_else = 15
tag tok_pr = 16
tag tok_to = 17
tag tok_linref = 18
tag tok_func = 19
tag tok_call = 20
tag tok_return = 21
tag tok_loop = 22
tag tok_set = 23
tag tok_opt = 24
tag tok_annot = 25
tag tok_user = 26
tag tok_snd_mes = 27
tag tok_rec = 28
tag tok_fwd = 29
tag tok_del = 30
tag tok_server = 31
tag tok_cor = 32
tag tok_inq = 33
tag tok_send = 34
tag tok_route = 35
tag tok_bcast = 36
tag tok_ptr = 37
tag tok_ref = 38
tag tok_deref = 39
tag tok_alloc = 40
tag tok_free = 41
tag tok_memset = 42
tag tok_memcpy = 43
tag tok_try = 44
tag tok_catch = 45
tag tok_finally = 46
tag tok_throw = 47
tag tok_await = 48
tag tok_spawn = 49
tag tok_chan = 50
tag tok_chan_send = 51
tag tok_chan_recv = 52
tag tok_select = 53
tag tok_case = 54
tag tok_default = 55
tag tok_event = 56
tag tok_on = 57
tag tok_emit = 58
tag tok_off = 59
tag tok_log = 60
tag tok_assert = 61
tag tok_trace = 62
tag tok_break_bp = 63
tag tok_watch = 64
tag tok_enum = 65
tag tok_struct = 66
tag tok_union = 67
tag tok_tuple = 68
tag tok_module = 69
tag tok_ns = 70
tag tok_use_ns = 71
tag tok_type_int = 72
tag tok_type_int64 = 73
tag tok_type_float = 74
tag tok_type_str = 75
tag tok_type_bool = 76
tag tok_type_byte = 77
tag tok_type_ip = 78
tag tok_type_id = 79
tag tok_type_cor = 80
tag tok_type_msg = 81
tag tok_type_lib = 82
tag tok_type_void = 83
tag tok_cr = 84
tag tok_dam = 85
tag tok_onl = 86
tag tok_vl = 87
tag tok_obj = 88
tag tok_func_call = 89
tag tok_exp = 90
tag tok_cl = 91
tag tok_dist = 92
tag tok_int_lit = 93
tag tok_float_lit = 94
tag tok_str_lit = 95
tag tok_bool_lit = 96
tag tok_ip_lit = 97
tag tok_ident = 98
tag tok_plus = 99
tag tok_minus = 100
tag tok_star = 101
tag tok_slash = 102
tag tok_percent = 103
tag tok_dstar = 104
tag tok_inc = 105
tag tok_dec = 106
tag tok_amp = 107
tag tok_pipe = 108
tag tok_caret = 109
tag tok_tilde = 110
tag tok_lshift = 111
tag tok_rshift = 112
tag tok_urshift = 113
tag tok_and = 114
tag tok_or = 115
tag tok_bang = 116
tag tok_eq = 117
tag tok_neq = 118
tag tok_lt = 119
tag tok_gt = 120
tag tok_le = 121
tag tok_ge = 122
tag tok_question = 123
tag tok_colon = 124
tag tok_arrow = 125
tag tok_larrow = 126
tag tok_assign = 127
tag tok_plus_eq = 128
tag tok_minus_eq = 129
tag tok_star_eq = 130
tag tok_slash_eq = 131
tag tok_percent_eq = 132
tag tok_amp_eq = 133
tag tok_pipe_eq = 134
tag tok_caret_eq = 135
tag tok_lshift_eq = 136
tag tok_rshift_eq = 137
tag tok_dot = 138
tag tok_ptr_access = 139
tag tok_comma = 140
tag tok_semicolon = 141
tag tok_lparen = 142
tag tok_rparen = 143
tag tok_lbrace = 144
tag tok_rbrace = 145
tag tok_lbracket = 146
tag tok_rbracket = 147
tag tok_newline = 148
tag tok_eof = 149
tag tok_unknown = 150
