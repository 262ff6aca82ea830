-- ===== src/Includes/Paths.antt =====
-- The search for an included file: `path_dir` to `resolve`, `already_seen` and `canonical` of
-- src/includes.c.
pub mod Search
use lu_language.Prelude.{
  ℕ, suc, ◌+◌, ◌-◌, Bytes, Bool, true, false, not, ◌&&◌, ◌||◌, List, [], ◌∷◌, ◌++◌, Option, none,
  some, length, drop, take_while, drop_while, ltb, ◌==◌, if◌then◌else◌, streq, snprintf, codes,
}

-- What the operating system answers while one program is expanded. `readable` is whether `fopen`
-- opens the path, `read_file` what `fseek`, `ftell` and `fread` bring in from it, `exe_link` the
-- target of /proc/self/exe, `lu_include` the environment variable.
pub record Os : Type 0 where
  pub readable : Bytes → Bool
  pub read_file : Bytes → Option Bytes
  pub realpath : Bytes → Option Bytes
  pub exe_link : Option Bytes
  pub lu_include : Option Bytes

-- The text in front of the last `/`, if there is one: `strrchr` and the cut.
unfoldable pub before_slash : Bytes → Option Bytes
before_slash [] = none
before_slash (c ∷ cs) = elim (before_slash cs) [
  | some d ↦ some (c ∷ d)
  | none ↦ if c == b'/' then some [] else none
]

-- A path whose one slash stands in front has the directory `/`.
unfoldable pub path_dir : Bytes → Bytes
path_dir p = elim (before_slash p) [ none ↦ codes "." | some [] ↦ codes "/" | some (c ∷ d) ↦ c ∷ d ]

unfoldable pub path_join : Bytes → Bytes → Bytes
path_join dir name = dir ++ (b'/' ∷ name)

-- A link of no bytes counts as none.
unfoldable pub exe_dir : Os → Option Bytes
exe_dir os = elim os.exe_link [
  | none ↦ none
  | some [] ↦ none
  | some (c ∷ p) ↦ some (path_dir (c ∷ p))
]

abbrev pub not_colon : ℕ → Bool
not_colon c = not (c == b':')

abbrev tail_of : Bytes → Bytes
tail_of [] = []
tail_of (_ ∷ cs) = cs

abbrev pub is_empty : Bytes → Bool
is_empty [] = true
is_empty (_ ∷ _) = false

-- The parts of `$LU_INCLUDE`, while fewer than 18 directories are known. The fuel is the text: each
-- round passes a part and its colon.
unfoldable pub env_dirs : Bytes → Bytes → List Bytes → List Bytes
env_dirs [] p dirs = dirs
env_dirs (_ ∷ fuel) p dirs =
    let part = take_while not_colon p in
    let dirs' = if is_empty part then dirs else dirs ++ (part ∷ []) in
    let onward = env_dirs fuel (tail_of (drop_while not_colon p)) dirs' in
    if is_empty p then dirs else if ltb (length dirs) 18 then onward else dirs

abbrev pub exe_dirs : Option Bytes → List Bytes
exe_dirs none = []
exe_dirs (some exe) = path_join exe (codes "include") ∷ path_join exe (codes "../include") ∷ []

abbrev pub env_text : Option Bytes → Bytes
env_text none = []
env_text (some env) = env

-- `dirs[0]` to `dirs[nd - 1]`
unfoldable pub search_dirs : Os → Bytes → List Bytes
search_dirs os from_file =
    let fixed =
      (path_dir from_file ∷ codes "." ∷ codes "include" ∷ codes "../include" ∷ [])
      ++ exe_dirs (exe_dir os) in
    env_dirs (env_text os.lu_include) (env_text os.lu_include) fixed

-- `l > n && !strcmp(name + l - n, suffix)`, `n` being the length of the suffix
unfoldable pub has_suffix : Bytes → Bytes → Bool
has_suffix suffix name =
    ltb (length suffix) (length name) && streq (drop (length name - length suffix) name) suffix

unfoldable pub add_extension : Bytes → Bytes
add_extension name = snprintf 512 (name ++ codes ".lu")

-- The search of one directory.
unfoldable pub find_in : Os → Bytes → Bytes → Option Bytes
find_in os name dir =
    if has_suffix (codes ".lu") name
    then if os.readable (path_join dir name) then some (path_join dir name) else none
    else if os.readable (path_join dir (add_extension name))
    then some (path_join dir (add_extension name))
    else if os.readable (path_join dir name)
    then some (path_join dir name)
    else none

unfoldable pub find_among : Os → Bytes → List Bytes → Option Bytes
find_among os name [] = none
find_among os name (dir ∷ dirs) = elim (find_in os name dir) [
  | some p ↦ some p
  | none ↦ find_among os name dirs
]

unfoldable pub resolve : Os → Bytes → Bytes → Option Bytes
resolve os from_file name = find_among os name (search_dirs os from_file)

unfoldable pub canonical : Os → Bytes → Bytes
canonical os p = elim (os.realpath p) [ none ↦ p | some real ↦ real ]

unfoldable pub already_seen : List Bytes → Bytes → Bool
already_seen [] path = false
already_seen (s ∷ seen) path = streq s path || already_seen seen path
