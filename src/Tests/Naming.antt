-- ===== src/Tests/Naming.antt =====
-- Names of modules.
use depscloud.Tracker.Alpha.Services.{DependencyRequest}
use depscloud.Deps.Names.Laws.{Lacks, parse_name-join, set_fields_total, AreNamed}
use depscloud.Tracker.Alpha.Schema.{Module}
use depscloud.Base.{[], false, list_eq, nat_eq, ok, option_eq, refl, ℕ_discrete, ◌==◌, ◌∷◌, ◌≡◌}
use depscloud.Base.Bytes.{bytes}
use depscloud.Deps.Names.{colon, parse_name, set_module_fields, set_request_fields, slash}
use depscloud.Tracker.Alpha.Types.{key_eq}

no_colon : Lacks colon (bytes "org")
no_colon = (λ e. cc e, (λ e. cc e, (λ e. cc e, tt)))

no_colon_m : Lacks colon (bytes "m")
no_colon_m = (λ e. cc e, tt)

no_slash : Lacks slash (bytes "org")
no_slash = (λ e. cc e, (λ e. cc e, (λ e. cc e, tt)))

go_language :
    ((bytes "go" == bytes "java") ≡ false)
    × ((bytes "go" == bytes "node") ≡ false)
    × ((bytes "go" == bytes "js") ≡ false)
unfolding list_eq nat_eq ℕ_discrete
go_language = (refl, refl, refl)

parse_name-join_example :
    (parse_name (bytes "java") (bytes "org:m") ≡ bytes "org" ∷ bytes "m" ∷ [])
    × (parse_name (bytes "node") (bytes "@org/m") ≡ bytes "org" ∷ bytes "m" ∷ [])
    × (parse_name (bytes "go") (bytes "org/m") ≡ bytes "org" ∷ bytes "m" ∷ [])
parse_name-join_example =
    parse_name-join (bytes "org") (bytes "m") (bytes "go") no_colon no_colon_m no_slash
      go_language.0 go_language.1 go_language.2

abbrev asked : DependencyRequest
asked = record { language = bytes "go"; organization = []; module_name = []; name = bytes "org/m" }

abbrev target : Module
target = record { language = bytes "java"; organization = []; module_name = []; name = bytes "m" }

set_fields_total_example :
    ((r : DependencyRequest) × (set_request_fields asked ≡ ok r)
      × AreNamed asked.language asked.name
          (asked.organization, asked.module_name)
          (r.organization, r.module_name)
      × (r.language ≡ asked.language)
      × (r.name ≡ asked.name))
    × ((n : Module) × (set_module_fields target ≡ ok n)
        × AreNamed target.language target.name
            (target.organization, target.module_name)
            (n.organization, n.module_name)
        × (n.language ≡ target.language)
        × (n.name ≡ target.name))
set_fields_total_example = set_fields_total asked target
