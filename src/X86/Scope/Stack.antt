-- ===== src/X86/Scope/Stack.antt =====
-- The variables of src/x86.c as a stack of scopes, which is what its array and its marks stand for.
use lu_language.Prelude.{
  or_else, ℕ, suc, ◌-◌, ◌<◌, Bytes, List, Bool, true, false, [], ◌∷◌, ◌++◌, Option, none, some,
  length, length-append, drop, leb, ltb, streq, ◌≡◌, refl, ap, ◌∙◌, sym, inl, inr, Bool-cases,
  arith,
}
use lu_language.X86.Types.{ValueType}
use lu_language.X86.Scope.{
  Var, Names, max_var, max_scope, var_named, find_var, scope_push, scope_pop, new_var, push_var,
}

-- The scopes that are open, each with its variables, the newest first.
pub data Stack : Type 0 where
  base : List Var → Stack
  inner : List Var → Stack → Stack

pub data Op : Type 0 where
  opens closes : Op
  declares : Option Bytes → ValueType → Bool → ℕ → ℕ → Bool → Op

abbrev pub add_var : Var → Stack → Stack
add_var v (base s) = base (v ∷ s)
add_var v (inner s below) = inner (v ∷ s) below

-- The outermost scope is not closed.
abbrev pub close : Stack → Stack
close (base s) = base s
close (inner s below) = below

abbrev pub act : Op → Stack → Stack
act opens r = inner [] r
act closes r = close r
act (declares name ty is_array count off global) r =
    add_var (new_var name ty is_array count off global) r

abbrev pub acts : List Op → Stack → Stack
acts [] r = r
acts (o ∷ ops) r = acts ops (act o r)

-- From the innermost scope outwards.
abbrev pub lookup : Bytes → Stack → Option Var
lookup name (base s) = var_named name s
lookup name (inner s below) = or_else (var_named name s) (lookup name below)

abbrev pub flat : Stack → List Var
flat (base s) = s
flat (inner s below) = s ++ flat below

abbrev pub marks_of : Stack → List ℕ
marks_of (base s) = []
marks_of (inner s below) = length (flat below) ∷ marks_of below

abbrev pub depth : Stack → ℕ
depth (base s) = 0
depth (inner s below) = suc (depth below)

-- A stack of scopes as the source keeps it.
abbrev pub names_of : Stack → List Var → Names
names_of r globals = record { locals = flat r; marks = marks_of r; globals = globals }

-- The calls that the source makes.
abbrev pub pushed : Option (Var × Names) → Names → Names
pushed none t = t
pushed (some r) t = r.1

abbrev pub step : Op → Names → Names
step opens t = scope_push t
step closes t = scope_pop t
step (declares name ty is_array count off global) t =
    pushed (push_var name ty is_array count off global t) t

abbrev pub steps : List Op → Names → Names
steps [] t = t
steps (o ∷ ops) t = steps ops (step o t)

-- Fewer than 512 scopes are open where one opens, and fewer than 2048 variables where one comes.
abbrev pub Fits : Op → Stack → Type 0
Fits opens r = depth r < max_scope
Fits closes r = Unit
Fits (declares name ty is_array count off global) r = length (flat r) < max_var

abbrev pub AllFit : List Op → Stack → Type 0
AllFit [] r = Unit
AllFit (o ∷ ops) r = Fits o r × AllFit ops (act o r)

length-marks_of : (r : Stack) → length (marks_of r) ≡ depth r
length-marks_of (base s) = refl
length-marks_of (inner s below) = ap suc (length-marks_of below)

drop-length : (xs ys : List Var) → drop (length xs) (xs ++ ys) ≡ ys
drop-length [] ys = refl
drop-length (x ∷ xs) ys = drop-length xs ys

drop-append : (xs ys : List Var) → drop (length (xs ++ ys) - length ys) (xs ++ ys) ≡ ys
drop-append xs ys =
    let at : length (xs ++ ys) - length ys ≡ length xs = omega (arith, length-append xs ys) in
    ap (λ k. drop k (xs ++ ys)) at ∙ drop-length xs ys

var_named-append :
    (name : Bytes) (xs ys : List Var)
    → var_named name (xs ++ ys) ≡ or_else (var_named name xs) (var_named name ys)
var_named-append name [] ys = refl
var_named-append name (v ∷ xs) ys = elim (Bool-cases (streq v.name name)) [
  | inl e ↦ rw e refl
  | inr e ↦ rw e (var_named-append name xs ys)
]

var_named-flat : (name : Bytes) (r : Stack) → var_named name (flat r) ≡ lookup name r
var_named-flat name (base s) = refl
var_named-flat name (inner s below) =
    var_named-append name s (flat below)
    ∙ ap (or_else (var_named name s)) (var_named-flat name below)

add_var-names_of :
    (v : Var) (r : Stack) (globals : List Var)
    → names_of (add_var v r) globals
      ≡ record { locals = v ∷ flat r; marks = marks_of r; globals = globals }
add_var-names_of v (base s) globals = refl
add_var-names_of v (inner s below) globals = refl

close-names_of :
    (r : Stack) (globals : List Var) → scope_pop (names_of r globals) ≡ names_of (close r) globals
unfolding scope_pop
close-names_of (base s) globals = refl
close-names_of (inner s below) globals =
    ap (λ k. record { locals = k; marks = marks_of below; globals = globals })
      (drop-append s (flat below))

pub step-names_of :
    (o : Op) (r : Stack) (globals : List Var)
    → Fits o r
    → step o (names_of r globals) ≡ names_of (act o r) globals
unfolding scope_push push_var
step-names_of opens r globals h =
    let room : ltb (length (marks_of r)) max_scope ≡ true = ground (arith, length-marks_of r) in
    rw room refl
step-names_of closes r globals h = close-names_of r globals
step-names_of (declares name ty is_array count off global) r globals h =
    let room : leb max_var (length (flat r)) ≡ false = ground arith in
    rw room (sym (add_var-names_of (new_var name ty is_array count off global) r globals))

steps-names_of :
    (ops : List Op) (r : Stack) (globals : List Var)
    → AllFit ops r
    → steps ops (names_of r globals) ≡ names_of (acts ops r) globals
steps-names_of [] r globals h = refl
steps-names_of (o ∷ ops) r globals h =
    ap (steps ops) (step-names_of o r globals h.0) ∙ steps-names_of ops (act o r) globals h.1

-- After any sequence of openings, closings and declarations within the limits of the two arrays,
-- the lookup of a name answers the newest variable of the name in the innermost scope that is open
-- and has one, and otherwise the first global one.
pub find_var-steps :
    (ops : List Op) (r : Stack) (globals : List Var) (name : Bytes)
    → AllFit ops r
    → find_var (some name) (steps ops (names_of r globals))
      ≡ or_else (lookup name (acts ops r)) (var_named name globals)
unfolding find_var
find_var-steps ops r globals name h =
    ap (find_var (some name)) (steps-names_of ops r globals h)
    ∙ ap (λ k. or_else k (var_named name globals)) (var_named-flat name (acts ops r))
