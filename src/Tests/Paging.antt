-- ===== src/Tests/Paging.antt =====
-- The command `deps get modules` over a small table.
use depscloud.Tests.Reading.{table}
use depscloud.Tests.Samples.{answering, go_module, sample_env, sqlite_store}
use depscloud.Deps.Commands.{finished, modules_command}
use depscloud.Deps.Commands.Paging.{items_of, modules_command-all}
use depscloud.Tracker.Alpha.Schema.{decode, as_module, module_type, encode, unmarshal, tagged}
use depscloud.Tracker.Alpha.Services.{each, list_modules}
use depscloud.Tracker.Alpha.Store.{item_of}
use depscloud.Tracker.Alpha.Store.Contract.{sql_client}
use depscloud.Tracker.Alpha.Sql.{of_type}
use depscloud.Base.{map, list_eq, nat_eq, ok, [], arith, length, none, option_eq, refl}
use depscloud.Base.{ℕ_discrete, ◌∷◌, ◌≡◌}
use depscloud.Base.Bytes.{bytes}
use depscloud.Codec.Base64.{digit, pair, quad, raw_decode, raw_encode, raw_groups, strip, triple}
use depscloud.Codec.Base64.{undigit}
use depscloud.Tracker.Alpha.Types.{key_eq}

modules_read :
    each (λ item. as_module (decode sample_env item).0) (map item_of (of_type module_type table))
    ≡ ok (go_module (bytes "b") ∷ [])
unfolding each decode unmarshal as_module sample_env encode tagged raw_encode raw_decode
    depscloud.Codec.Base64.encode strip pair triple quad raw_groups digit undigit list_eq nat_eq
    ℕ_discrete
modules_read = refl

one_row : length (of_type module_type table) ≡ 1
unfolding list_eq nat_eq ℕ_discrete encode tagged sample_env
one_row = refl

modules_command-all_example :
    modules_command
      (λ url. ok [])
      (λ page count.
        items_of (list_modules sample_env (sql_client sqlite_store answering) page count table))
      1
      []
    ≡ finished none (go_module (bytes "b") ∷ [])
modules_command-all_example =
    modules_command-all sample_env sqlite_store answering table (λ url. ok [])
      (go_module (bytes "b") ∷ []) 1 refl refl (λ r. refl) modules_read (omega (arith, one_row))
      (omega (arith, one_row))
