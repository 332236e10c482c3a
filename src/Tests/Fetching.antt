-- ===== src/Tests/Fetching.antt =====
-- The generic remote of the indexer, and the accounts, at concrete inputs.
use depscloud.Codec.Int64.{decimal}
use depscloud.Indexer.Remotes.Generic.{Endpoint, GenericConfig, full_url, generic_fetch}
use depscloud.Indexer.Remotes.Generic.Serves.{generic_fetch-ServesUrls, repositories_at, texts}
use depscloud.Indexer.Remotes.Generic.Serves.{HasUrls}
use depscloud.Indexer.Remotes.Generic.Endless.{generic_fetch-unset}
use depscloud.Indexer.Remotes.Configured.{Account, Libraries, parse_config, static_remote}
use depscloud.Indexer.Remotes.Bitbucket.{Json, json_array}
use depscloud.Indexer.Remotes.Pages.{flatten}
use depscloud.Base.{ℕ_discrete, list_eq, nat_eq, errorf, [], arith, err, if◌then◌else◌, inl, inr}
use depscloud.Base.{none, ok, option_eq, refl, some, ℕ, ◌==◌, ◌∷◌, ◌≡◌, ◌≢◌}
use depscloud.Base.Bytes.{Bytes, bytes}
use depscloud.Base.Int32.{ℤ, pos, negsuc}
use depscloud.Tracker.Alpha.Types.{key_eq}

abbrev config : GenericConfig
config = record {
  base_url = bytes "h";
  path = bytes "/";
  page_parameter = bytes "p";
  per_page_parameter = bytes "n";
  page_size = pos 2;
  selector = bytes ".";
  clone = none;
}

second_url : full_url config (pos 12) ≡ bytes "h/?p=12&n=2"
unfolding full_url decimal
second_url = refl

negative : decimal (negsuc 9) ≡ bytes "-10"
unfolding decimal
negative = refl

-- The body of a page is its URL, whose first page has two entries and whose others have one.
unfoldable page_text : Bytes → Json
unfolding full_url
page_text url =
    if url == full_url config (pos 1)
    then json_array (texts (bytes "a" ∷ bytes "b" ∷ []))
    else json_array (texts (bytes "c" ∷ []))

abbrev endpoint : Endpoint (Unit {0}) (Unit {0})
endpoint = record {
  lexer = λ selector. ok tt;
  parser = λ tokens. ok tt;
  eval = λ tree message. ok message;
  get = λ url. ok (record { status_code = 200; body = ok url });
  unmarshal = λ text. ok (page_text text);
}

not_missing : (n : ℕ) → n ≡ 200 → n ≢ 404
not_missing n e = ground arith

first_page : HasUrls endpoint config tt (pos 1) (bytes "a" ∷ bytes "b" ∷ [])
unfolding page_text list_eq nat_eq ℕ_discrete
first_page = record {
  response = record { status_code = 200; body = ok (full_url config (pos 1)) };
  text = full_url config (pos 1);
  message = json_array (texts (bytes "a" ∷ bytes "b" ∷ []));
  got = refl;
  found = not_missing 200 refl;
  read = refl;
  parsed = refl;
  selected = refl;
}

second_page : HasUrls endpoint config tt (pos 2) (bytes "c" ∷ [])
unfolding page_text list_eq nat_eq ℕ_discrete
second_page = record {
  response = record { status_code = 200; body = ok (full_url config (pos 2)) };
  text = full_url config (pos 2);
  message = json_array (texts (bytes "c" ∷ []));
  got = refl;
  found = not_missing 200 refl;
  read = refl;
  parsed = refl;
  selected = refl;
}

generic_fetch-ServesUrls_example :
    generic_fetch endpoint config 3
    ≡ some
        (ok (repositories_at none (flatten ((bytes "a" ∷ bytes "b" ∷ []) ∷ (bytes "c" ∷ []) ∷ []))))
generic_fetch-ServesUrls_example =
    generic_fetch-ServesUrls endpoint config tt tt 2 3
      ((bytes "a" ∷ bytes "b" ∷ []) ∷ (bytes "c" ∷ []) ∷ []) refl refl refl (omega arith)
      (first_page, inr (omega arith, omega arith, (second_page, inl (omega arith, refl))))
      (omega arith) (omega arith)

abbrev no_size : GenericConfig
no_size = record config { page_size = pos 0 }

abbrev empty_endpoint : Endpoint (Unit {0}) (Unit {0})
empty_endpoint = record endpoint { eval = λ tree message. ok (json_array (texts [])) }

empty_page : (page : ℤ) → HasUrls empty_endpoint no_size tt page []
empty_page page = record {
  response = record { status_code = 200; body = ok (full_url no_size page) };
  text = full_url no_size page;
  message = page_text (full_url no_size page);
  got = refl;
  found = not_missing 200 refl;
  read = refl;
  parsed = refl;
  selected = refl;
}

generic_fetch-unset_example : generic_fetch empty_endpoint no_size 1000 ≡ none
generic_fetch-unset_example =
    generic_fetch-unset empty_endpoint no_size tt tt (λ page. []) refl refl refl empty_page
      (λ page. omega arith) 1000

abbrev libraries : Libraries (Unit {0}) (Unit {0}) (Unit {0})
libraries = record {
  github_client = λ token. tt;
  enterprise_client = λ base upload token. ok tt;
  gitlab_client = λ token base. ok tt;
  bitbucket_client = λ username password. ok tt;
}

abbrev no_account : Account
no_account = record {
  github = none;
  gitlab = none;
  bitbucket = none;
  generic = none;
  static = none;
}

abbrev static_account : Account
static_account = record no_account {
  static = some (record { repository_urls = bytes "u" ∷ []; clone = none });
}

one_static :
    parse_config libraries (static_account ∷ [])
    ≡ ok (static_remote (record { repository_urls = bytes "u" ∷ []; clone = none }) ∷ [])
unfolding parse_config
one_static = refl

unrecognized :
    parse_config libraries (static_account ∷ no_account ∷ []) ≡ err (errorf "unrecognized account")
unfolding parse_config
unrecognized = refl
