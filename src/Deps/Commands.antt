-- ===== src/Deps/Commands.antt =====
-- The commands `deps get modules`, `sources`, `dependencies`, `dependents` and `topology`:
-- modules.go, sources.go, dependencies.go, dependents.go and topology.go of deps/internal/cmds/get/,
-- over any clients of the tracker. What the writer is given is a list; only `topology` looks at its
-- errors.
pub mod Paging
use depscloud.Base.{◌>>=◌, list_eq, nat_eq, Bool, Error, List, Option, Result, [], err, errorf}
use depscloud.Base.{false, if◌then◌else◌, length, ltb, none, not, ok, option_eq, panic, some}
use depscloud.Base.{suc, true, zero, ℕ, ◌%◌, ◌&&◌, ◌++◌, ◌+◌, ◌==◌, ◌||◌, map, ◌∷◌}
use depscloud.Base.Bytes.{Bytes}
use depscloud.Tracker.Alpha.Services.{DependencyRequest}
use depscloud.Tracker.Alpha.Schema.{Module}
use depscloud.Tracker.Alpha.Types.{key_eq}
use depscloud.Tracker.Alpha.Store.{list_page}
use depscloud.Base.Int32.{of_bits, pos, ℤ}
use depscloud.Deps.Names.{set_module_fields, set_request_fields}
use depscloud.Deps.Topology.{Tier, topology}
use depscloud.Tracker.Alpha.Traversal.{tier}

-- How a command ends: with an error or nil, or with a panic, after what was written; or it uses up
-- its fuel.
pub data Run (A : Type 0) : Type 0 where
  finished : Option Error → List A → Run A
  panicked : List A → Run A
  out_of_fuel : Run A

-- `int32(i)`
abbrev pub int32 : ℕ → ℤ
int32 i = of_bits (i % 4294967296)

-- A call, and then `for _, item := range response.Items { writer.Write(item) }`.
abbrev pub write_all : {A : Type 0} → Result (List A) → Run A
write_all (ok items) = finished none items
write_all (err e) = finished (some e) []
write_all panic = panicked []

module _ {A : Type 0} (list_page : ℤ → ℤ → Result (List A)) where
  -- `for i := 1; true; i++`, with pages of 100. Each call has another page number, so that a client
  -- whose answers change between calls is a function of that number.
  unfoldable pub pages_from : ℕ → ℕ → List A → Run A
  pages_from zero i written = out_of_fuel
  pages_from (suc fuel) i written = elim (list_page (int32 i) (pos 100)) [
    | ok items ↦ elim (ltb (length items) 100) [
      | true ↦ finished none (written ++ items)
      | false ↦ pages_from fuel (i + 1) (written ++ items)
    ]
    | err e ↦ finished (some e) written
    | panic ↦ panicked written
  ]

-- `ModulesCommand`, for the flag `--url`.
unfoldable pub modules_command :
    {A : Type 0} → (Bytes → Result (List A)) → (ℤ → ℤ → Result (List A)) → ℕ → Bytes → Run A
unfolding pages_from
modules_command managed list_page fuel url =
    if url == [] then pages_from list_page fuel 1 [] else write_all (managed url)

-- The fields of a flag set that are not empty.
abbrev pub is_set : Bytes → Bool
is_set field = not (field == [])

-- The first test of `SourcesCommand`.
unfoldable pub names_module : Module → Bool
names_module m =
    is_set m.language && ((is_set m.organization && is_set m.module_name) || is_set m.name)

-- Its second test, where `&&` binds closer than `||`.
unfoldable pub names_part : Module → Bool
names_part m =
    is_set m.language || (is_set m.organization || (is_set m.module_name && is_set m.name))

-- `SourcesCommand`
unfoldable pub sources_command :
    {A : Type 0} → (Module → Result (List A)) → (ℤ → ℤ → Result (List A)) → ℕ → Module → Run A
unfolding names_module names_part pages_from set_module_fields
sources_command sources_of list_page fuel m =
    if names_module m
    then write_all (do m' ← set_module_fields m; sources_of m')
    else if names_part m
    then finished
        (some (errorf "language + name or language + organization + module must be provided")) []
    else pages_from list_page fuel 1 []

-- `DependenciesCommand` and `DependentsCommand`, which differ in the call.
unfoldable pub dependencies_command :
    {A : Type 0} → (DependencyRequest → Result (List A)) → DependencyRequest → Run A
unfolding set_request_fields
dependencies_command list_ req =
    if not (is_set req.language)
      && ((not (is_set req.organization) || not (is_set req.module_name)) || not (is_set req.name))
    then finished
        (some (errorf "language + name or language + organization + module must be provided")) []
    else write_all (do req' ← set_request_fields req; list_ req')

-- What `topology` writes: a tier, or a module of one.
pub data Item : Type 0 where
  whole_tier : Tier → Item
  one_module : Option Module → Item

-- The loop over the results, with `--tiered` and without.
unfoldable pub tier_items : Bool → List Tier → List Item
tier_items tiered [] = []
tier_items tiered (here ∷ tiers) =
    let rest = tier_items tiered tiers in
    if tiered then whole_tier here ∷ rest else map one_module here ++ rest

-- `writer.Write` of each, up to the first error. The writer answers by what was written before.
unfoldable pub write_items : (List Item → Option Error) → List Item → List Item → Run Item
write_items write [] written = finished none written
write_items write (item ∷ items) written = elim (write written) [
  | none ↦ write_items write items (written ++ (item ∷ []))
  | some e ↦ finished (some e) written
]

-- `topologyCommand`, of `topology` for the converted request, whose `none` is out of fuel. Here the
-- fields are set before the test. A module of a tier can be nil.
unfoldable pub topology_command :
    (DependencyRequest → Result (Option (List Tier)))
    → (List Item → Option Error)
    → Bool
    → DependencyRequest
    → Run Item
unfolding set_request_fields tier_items write_items
topology_command topology write tiered req = elim (set_request_fields req) [
  | err e ↦ finished (some e) []
  | panic ↦ panicked []
  | ok req' ↦
      if not (is_set req'.language)
        && ((not (is_set req'.organization) || not (is_set req'.module_name))
            || not (is_set req'.name))
      then finished
          (some (errorf "language + name or language + organization + module must be provided")) []
      else elim (topology req') [
        | ok none ↦ out_of_fuel
        | ok (some results) ↦ write_items write (tier_items tiered results) []
        | err e ↦ finished (some e) []
        | panic ↦ panicked []
      ]
]
