-- ===== src/Includes/Tests.antt =====
-- The expansion of a small program over two files that include one another.
use lu_language.Prelude.{
  suc, ◌≤◌, Bytes, ◌||◌, [], ◌∷◌, ◌++◌, none, some, length, ◌≡◌, ◌↔◌, refl, if◌then◌else◌, streq,
  has_prefix, snprintf, c_str, codes, arith,
}
use lu_language.Includes.Directive.{match_incl, name_on, open_bracket, behind_incl, skip_header}
use lu_language.Includes.Directive.Shape.{IsDirective, match_incl_iff}
use lu_language.Includes.Expand.{
  Incl, Result, ok, err, not_found, begin_line, end_line, repeat_line, splice, include_file,
  directive, expand_line, expand_on, expand, lu_expand_includes,
}
use lu_language.Includes.Expand.Once.{Grows}
use lu_language.Includes.Expand.Agree.{without}
use lu_language.Includes.Expand.ReadOnce.{include_file-once}
use lu_language.Includes.Expand.Fuel.{expand_on-enough}
use lu_language.Includes.Expand.Plain.{none_left, line, headed, dashes, directive-plain}
use lu_language.Includes.Paths.{
  Os, before_slash, path_dir, path_join, exe_dir, env_dirs, search_dirs, has_suffix, add_extension,
  find_in, find_among, resolve, canonical, already_seen,
}
use lu_language.Includes.Paths.Search.{
  candidates, first_readable, resolve-first, length-search_dirs,
}

abbrev file_a : Bytes
file_a = codes "Lu/Language\nx\nincl <b>\n"

abbrev file_b : Bytes
file_b = codes "incl <a.lu>\ny\n"

abbrev two_files : Os
two_files = record {
  readable = λ p.
      streq p (codes "src/a.lu")
      || streq p (codes "include/a.lu")
      || streq p (codes "include/b.lu");
  read_file = λ p.
      if streq p (codes "/r/a.lu")
      then some file_a
      else if streq p (codes "include/b.lu")
      then some file_b
      else none;
  realpath = λ p.
      if streq p (codes "src/a.lu") || streq p (codes "include/a.lu")
      then some (codes "/r/a.lu")
      else none;
  exe_link = some (codes "/bin/luc");
  lu_include = some (codes "p::q");
}

abbrev one_file : Os
one_file = record {
  readable = λ p. streq p (codes "./a.lu");
  read_file = λ p. some (codes "Lu/Language\nx\n");
  realpath = λ p. none;
  exe_link = none;
  lu_include = none;
}

abbrev start : Incl
start = record { seen = []; out = [] }

-- All that an expansion computes with.
abbrev expanded : Bytes → Result Bytes
expanded src = lu_expand_includes two_files (codes "src/m.lu") src

main_text : Bytes
main_text = codes "incl <X.h>\n  incl<a> z\nw"

cycle :
    expanded main_text
    ≡ ok (
        codes "Import \"<X.h>\"\n"
        ++ begin_line (codes "a") (codes "/r/a.lu")
        ++ codes "x\n"
        ++ begin_line (codes "b") (codes "include/b.lu")
        ++ repeat_line (codes "a.lu")
        ++ codes "y\n"
        ++ end_line (codes "b")
        ++ end_line (codes "a")
        ++ codes "w")
unfolding main_text lu_expand_includes expand expand_on expand_line directive include_file splice
    skip_header match_incl behind_incl open_bracket name_on has_prefix c_str snprintf streq
    before_slash path_dir path_join exe_dir env_dirs search_dirs has_suffix add_extension find_in
    find_among resolve canonical already_seen
cycle = refl

missing : expanded (codes "a\nincl <c>\n") ≡ err (not_found (codes "src/m.lu") 2 (codes "c"))
unfolding lu_expand_includes expand expand_on expand_line directive include_file splice skip_header
    match_incl behind_incl open_bracket name_on has_prefix c_str snprintf streq before_slash
    path_dir path_join exe_dir env_dirs search_dirs has_suffix add_extension find_in find_among
    resolve canonical already_seen
missing = refl

directive-plain_example :
    directive one_file (λ f s t. expand one_file (suc 3) f s t) (codes "m.lu") 1 (codes "a") start
    ≡ ok (record {
      seen = codes "./a.lu" ∷ [];
      out =
          (codes "// " ++ dashes ++ codes " incl <a>  (./a.lu) " ++ dashes ++ codes "\n")
          ++ codes "x\n"
          ++ (codes "// " ++ dashes ++ codes " end <a> " ++ dashes ++ codes "\n");
    })
unfolding canonical resolve find_among find_in search_dirs env_dirs exe_dir path_dir before_slash
    path_join add_extension has_suffix streq snprintf already_seen has_prefix c_str match_incl
directive-plain_example =
    directive-plain one_file 3 (codes "m.lu") 1 (codes "a") (codes "./a.lu") (codes "./a.lu")
      (codes "Lu/Language\nx\n") (codes "x\n") start refl refl refl refl refl
      (headed [] [] (codes "x\n") tt tt) refl (line refl none_left)

-- The file `a` includes `b`, which includes `a`.
abbrev after_cycle : Incl
after_cycle = record {
  seen = codes "/r/a.lu" ∷ codes "include/b.lu" ∷ [];
  out =
      begin_line (codes "a") (codes "/r/a.lu")
      ++ codes "x\n"
      ++ begin_line (codes "b") (codes "include/b.lu")
      ++ repeat_line (codes "a.lu")
      ++ codes "y\n"
      ++ end_line (codes "b")
      ++ end_line (codes "a");
}

abbrev no_a : Os
no_a = without (codes "/r/a.lu") two_files

include_file-once_example :
    (include_file two_files
        (λ f s t. expand no_a 4 f s t)
        (codes "m")
        1
        (codes "a")
        (codes "/r/a.lu")
        start
      ≡ ok after_cycle)
    × (expand two_files 5 (codes "m") (codes "incl <a>\n") after_cycle
        ≡ expand no_a 5 (codes "m") (codes "incl <a>\n") after_cycle)
    × Grows start.seen after_cycle.seen
unfolding expand expand_on expand_line directive include_file splice skip_header match_incl
    behind_incl open_bracket name_on has_prefix c_str snprintf streq before_slash path_dir path_join
    exe_dir env_dirs search_dirs has_suffix add_extension find_in find_among resolve canonical
    already_seen
include_file-once_example =
    include_file-once two_files 4 5 (codes "m") 1 (codes "a") (codes "/r/a.lu") start after_cycle
      (codes "m") (codes "incl <a>\n") tt refl

resolve-first_example :
    resolve two_files (codes "src/m.lu") (codes "b")
    ≡ first_readable two_files (candidates (codes "b") (search_dirs two_files (codes "src/m.lu")))
resolve-first_example = resolve-first two_files (codes "src/m.lu") (codes "b")

length-search_dirs_example : length (search_dirs two_files (codes "src/m.lu")) ≤ 18
length-search_dirs_example = length-search_dirs two_files (codes "src/m.lu")

match_incl_iff_example :
    (match_incl 512 (codes " incl <a> z") ≡ some (codes "a"))
    ↔ IsDirective 512 (codes " incl <a> z") (codes "a")
match_incl_iff_example = match_incl_iff 512 (codes " incl <a> z") (codes "a") (omega arith)

expand_on-enough_example :
    expand_on two_files (expand two_files 1) (codes "m") file_a 0 file_b start
    ≡ expand_on two_files (expand two_files 1) (codes "m") file_b 0 file_b start
expand_on-enough_example =
    expand_on-enough two_files (expand two_files 1) (codes "m") file_a file_b 0 file_b start
      (omega arith) (omega arith)
