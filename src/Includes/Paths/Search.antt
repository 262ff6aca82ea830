-- ===== src/Includes/Paths/Search.antt =====
-- `resolve` of src/includes.c against a flat list of candidates, and the bound of its array.
use lu_language.Prelude.{
  ◌≤◌, Bytes, true, List, [], ◌∷◌, ◌++◌, Option, none, some, length, length-append, take_while, ltb,
  ◌≡◌, refl, inl, inr, Bool-cases, if◌then◌else◌, codes, arith,
}
use lu_language.Includes.Paths.{
  Os, path_join, exe_dir, exe_dirs, env_dirs, is_empty, not_colon, search_dirs, has_suffix,
  add_extension, find_in, find_among, resolve,
}

-- The paths that are tried in one directory.
abbrev pub tries : Bytes → Bytes → List Bytes
tries name dir =
    if has_suffix (codes ".lu") name
    then path_join dir name ∷ []
    else path_join dir (add_extension name) ∷ path_join dir name ∷ []

abbrev pub candidates : Bytes → List Bytes → List Bytes
candidates name [] = []
candidates name (dir ∷ dirs) = tries name dir ++ candidates name dirs

abbrev pub first_readable : Os → List Bytes → Option Bytes
first_readable os [] = none
first_readable os (p ∷ ps) = if os.readable p then some p else first_readable os ps

find_in-tries :
    (os : Os) (name dir : Bytes) (more : List Bytes)
    → first_readable os (tries name dir ++ more)
      ≡ elim (find_in os name dir) [ some p ↦ some p | none ↦ first_readable os more ]
unfolding find_in
find_in-tries os name dir more = ground arith

find_among-first :
    (os : Os) (name : Bytes) (dirs : List Bytes)
    → find_among os name dirs ≡ first_readable os (candidates name dirs)
unfolding find_among
find_among-first os name [] = refl
find_among-first os name (dir ∷ dirs) =
    ground (arith, find_in-tries os name dir (candidates name dirs), find_among-first os name dirs)

-- `resolve` finds the first readable path of the candidates in the order of the directories, with
-- the extension before the bare name, and nothing if none of them is readable.
pub resolve-first :
    (os : Os) (from_file name : Bytes)
    → resolve os from_file name ≡ first_readable os (candidates name (search_dirs os from_file))
unfolding resolve
resolve-first os from_file name = find_among-first os name (search_dirs os from_file)

length-add_part :
    (part : Bytes) (dirs : List Bytes)
    → ltb (length dirs) 18 ≡ true
    → length (if is_empty part then dirs else dirs ++ (part ∷ [])) ≤ 18
length-add_part part dirs h = ground (arith, length-append dirs (part ∷ []))

length-exe_dirs : (o : Option Bytes) → length (exe_dirs o) ≤ 2
length-exe_dirs none = omega arith
length-exe_dirs (some exe) = omega arith

length-env_dirs :
    (fuel p : Bytes) (dirs : List Bytes) → length dirs ≤ 18 → length (env_dirs fuel p dirs) ≤ 18
unfolding env_dirs
length-env_dirs [] p dirs h = h
length-env_dirs (_ ∷ fuel) p dirs h = elim (Bool-cases (is_empty p)) [
  | inl e ↦ rw e h
  | inr e ↦ rw e (elim (Bool-cases (ltb (length dirs) 18)) [
    | inl l ↦ rw l (length-env_dirs fuel _ _ (length-add_part (take_while not_colon p) dirs l))
    | inr l ↦ rw l h
  ])
]

-- The search never has more than 18 directories, so `dirs[20]` is not overrun.
pub length-search_dirs : (os : Os) (from_file : Bytes) → length (search_dirs os from_file) ≤ 18
unfolding search_dirs
length-search_dirs os from_file =
    length-env_dirs _ _ _ (omega (arith, length-exe_dirs (exe_dir os)))
