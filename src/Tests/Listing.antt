-- ===== src/Tests/Listing.antt =====
-- `List` of the v1beta graph store, and its tokens, at concrete inputs.
use depscloud.Tests.Neighbors.{answers, node, table}
use depscloud.Tracker.Beta.Listing.{list, next_token, split_items}
use depscloud.Tracker.Beta.Listing.Tokens.{list-BadToken}
use depscloud.Codec.Base32.{decode, encode, digit}
use depscloud.Tracker.Beta.Driver.{live_of_kind, selected, sql_driver}
use depscloud.Tracker.Beta.Transforms.{convert_node, convert_edge}
use depscloud.Base.{◌>>=◌, list_eq, nat_eq, ℕ_discrete, option_eq, refl, ok, panic, none}
use depscloud.Base.{map, [], some, true, ◌∷◌, ◌≡◌}
use depscloud.Base.Bytes.{bytes}
use depscloud.Tracker.Alpha.Types.{key_eq}
use depscloud.Base.Int32.{pos}

-- "MZXW6===" is "foo".
encode_foo : encode (bytes "foo") ≡ bytes "MZXW6==="
unfolding encode digit
encode_foo = refl

decode_foobar : decode (bytes "MZXW6YTBOI======") ≡ some (bytes "foobar")
unfolding decode nat_eq ℕ_discrete
decode_foobar = refl

-- One digit too many before the padding.
decode_odd : decode (bytes "MZX=====") ≡ none
unfolding decode nat_eq ℕ_discrete
decode_odd = refl

token_of_one : next_token (pos 1) ≡ bytes "AAAAAAAAAAAAC==="
unfolding next_token
token_of_one = refl

-- Five bytes are base32, and too few for an offset.
short_panics :
    list
      (sql_driver true answers)
      (record { kind = bytes "module"; page_token = bytes "AAAAAAAA"; page_size = pos 1 })
      table
    ≡ panic
unfolding list nat_eq ℕ_discrete decode
short_panics = refl

items :
    split_items (map selected (live_of_kind (bytes "module") table))
    ≡ (node (bytes "a") ∷ node (bytes "b") ∷ [], [])
unfolding split_items live_of_kind list_eq nat_eq ℕ_discrete convert_node convert_edge
items = refl

no_base32 : decode (bytes "?") ≡ none
unfolding decode nat_eq ℕ_discrete
no_base32 = refl

list-BadToken_example :
    list
      (sql_driver true answers)
      (record { kind = bytes "module"; page_token = bytes "?"; page_size = pos 1 })
      table
    ≡ (do
      response ←
          list
            (sql_driver true answers)
            (record { kind = bytes "module"; page_token = []; page_size = pos 1 })
            table
      ok (record response { next_page_token = [] }))
list-BadToken_example =
    list-BadToken (sql_driver true answers) (bytes "module") (bytes "?") (pos 1) table (λ e. cc e)
      no_base32
