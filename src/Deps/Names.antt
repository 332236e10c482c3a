-- ===== src/Deps/Names.antt =====
-- deps/internal/cmds/get/common.go: how the name of a module is taken apart.
pub mod Laws
use depscloud.Base.{◌>>=◌, List, Result, [], if◌then◌else◌, list_eq, nat_eq, ok, option_eq}
use depscloud.Base.{panic, ℕ, ◌==◌, ◌||◌, ◌∷◌}
use depscloud.Base.Bytes.{Bytes, bytes}
use depscloud.Tracker.Alpha.Services.{DependencyRequest}
use depscloud.Tracker.Alpha.Schema.{Module}
use depscloud.Tracker.Alpha.Types.{key_eq}

-- A part in front of the parts behind it.
abbrev onto_first : ℕ → List Bytes → List Bytes
onto_first c [] = (c ∷ []) ∷ []
onto_first c (part ∷ parts) = (c ∷ part) ∷ parts

-- `strings.Split(name, sep)`, for a separator of one byte.
unfoldable pub split_all : ℕ → Bytes → List Bytes
split_all mark [] = [] ∷ []
split_all mark (c ∷ name) =
    let rest = split_all mark name in if c == mark then [] ∷ rest else onto_first c rest

-- `strings.SplitN(name, sep, 2)`
unfoldable pub split_two : ℕ → Bytes → List Bytes
split_two mark [] = [] ∷ []
split_two mark (c ∷ name) =
    let rest = split_two mark name in if c == mark then [] ∷ name ∷ [] else onto_first c rest

-- `strings.Replace(name, c, "", 1)`
unfoldable pub remove_first : ℕ → Bytes → Bytes
remove_first c [] = []
remove_first c (b ∷ name) = let rest = remove_first c name in if b == c then name else b ∷ rest

abbrev pub colon : ℕ
colon = 58

abbrev pub slash : ℕ
slash = 47

abbrev pub at_sign : ℕ
at_sign = 64

-- `if len(split) == 1`
abbrev with_default : List Bytes → List Bytes
with_default (part ∷ []) = bytes "_" ∷ part ∷ []
with_default parts = parts

-- `parseName`
unfoldable pub parse_name : Bytes → Bytes → List Bytes
unfolding split_all split_two remove_first
parse_name language name = with_default (
    if language == bytes "java"
    then split_all colon name
    else if language == bytes "node" || language == bytes "js"
    then split_two slash (remove_first at_sign name)
    else split_two slash name)

-- `orgAndModule[0]` and `orgAndModule[1]`, which panic out of range.
unfoldable pub first_two : List Bytes → Result (Bytes × Bytes)
first_two (a ∷ b ∷ _) = ok (a, b)
first_two _ = panic

-- `setRequestFields`
unfoldable pub set_request_fields : DependencyRequest → Result DependencyRequest
unfolding parse_name first_two
set_request_fields req = if req.name == [] then ok req else (do
  (org, m) ← first_two (parse_name req.language req.name)
  ok (record req { organization = org; module_name = m }))

-- `setModuleFields`
unfoldable pub set_module_fields : Module → Result Module
unfolding parse_name first_two
set_module_fields m = if m.name == [] then ok m else (do
  (org, name) ← first_two (parse_name m.language m.name)
  ok (record m { organization = org; module_name = name }))
