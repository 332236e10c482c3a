-- ===== src/Tracker/Alpha/Schema.antt =====
-- The messages that the services keep in the graph, and their keys and encodings:
-- tracker/internal/services/v1alpha/keys.go, encode.go, decode.go and
-- tracker/internal/types/types.go. The messages have the fields that the code uses.
pub mod Laws
use depscloud.Base.{◌>>=◌, Error, List, Option, Result, ok, panic, some, ℕ, [], err, errorf}
use depscloud.Base.{if◌then◌else◌, list_eq, nat_eq, none, option_eq, ◌++◌, ◌==◌, ◌∷◌}
use depscloud.Base.Bytes.{Bytes, bytes}
use depscloud.Tracker.Alpha.Types.{GraphItem, Key, key_eq}
use depscloud.Codec.Crc32.{checksum}
use depscloud.Tracker.Alpha.Store.{row_key}

pub record Source : Type 0 where
  pub url : Bytes
  pub kind : Bytes
  pub ref : Bytes

pub record Manages : Type 0 where
  pub language : Bytes
  pub system : Bytes
  pub version : Bytes

pub record Module : Type 0 where
  pub language : Bytes
  pub organization : Bytes
  pub module_name : Bytes
  pub name : Bytes

pub record Depends : Type 0 where
  pub language : Bytes
  pub version_constraint : Bytes
  pub scopes : List Bytes
  pub ref : Bytes

-- The dynamic type of an `interface{}`: one of the four, or another.
pub data Message : Type 0 where
  source : Source → Message
  manages : Manages → Message
  module_ : Module → Message
  depends : Depends → Message
  other : Message

abbrev pub source_type : Bytes
source_type = bytes "source"

abbrev pub manages_type : Bytes
manages_type = bytes "manages"

abbrev pub module_type : Bytes
module_type = bytes "module"

abbrev pub depends_type : Bytes
depends_type = bytes "depends"

-- What the code takes from elsewhere: SHA-256, the JSON forms of the generated messages, and the
-- number of `store.GraphItemEncoding_JSON`. `json.Unmarshal` fills its target as far as it gets.
pub record Env : Type 0 where
  pub digest : Bytes → Bytes
  pub marshal : Message → Option Bytes
  pub unmarshal_source : Bytes → Source × Option Error
  pub unmarshal_manages : Bytes → Manages × Option Error
  pub unmarshal_module : Bytes → Module × Option Error
  pub unmarshal_depends : Bytes → Depends × Option Error
  pub json : ℕ

abbrev pub sep : Bytes
sep = bytes "---"

-- What `key` writes to the hash.
unfoldable pub hashed : List Bytes → Bytes
hashed [] = []
hashed (val ∷ vars) = sep ++ (checksum val ++ (val ++ hashed vars))

-- The key of a row as one text.
unfoldable pub render : Key → Bytes
render k = k.graph_item_type ++ (sep ++ (k.k1 ++ (sep ++ (k.k2 ++ (sep ++ k.k3)))))

-- `readableKey`
unfoldable pub readable_key : GraphItem → Bytes
unfolding render
readable_key item = render (row_key item)

module _ (env : Env) where
  -- `key`
  unfoldable pub key_of : List Bytes → Bytes
  unfolding hashed
  key_of vars = env.digest (hashed vars)

  unfoldable pub key_for_source : Source → Bytes
  unfolding key_of
  key_for_source s = key_of (s.url ∷ [])

  unfoldable pub key_for_module : Module → Bytes
  unfolding key_of
  key_for_module m = key_of (m.language ∷ m.organization ∷ m.module_name ∷ [])

  -- The type and the keys k1 and k2 of a message, where an edge gets its keys from the caller.
  unfoldable pub tagged : Message → Result (Bytes × Bytes)
  unfolding key_for_source key_for_module
  tagged (source s) = ok (source_type, key_for_source s)
  tagged (manages m) = ok (manages_type, [])
  tagged (module_ m) = ok (module_type, key_for_module m)
  tagged (depends d) = ok (depends_type, [])
  tagged other = err (errorf "unrecognized type")

  -- `Encode`
  unfoldable pub encode : Message → Result GraphItem
  unfolding tagged
  encode msg = do
    (item_type, key) ← tagged msg
    item_data ← elim (env.marshal msg) [ none ↦ err (errorf "marshal failure") | some x ↦ ok x ]
    ok (record {
      graph_item_type = item_type;
      k1 = key;
      k2 = key;
      k3 = [];
      encoding = env.json;
      graph_item_data = item_data;
    })

  -- The targets of `Decode`, filled from the data.
  unfoldable pub unmarshal : Bytes → Bytes → Option (Message × Option Error)
  unmarshal item_type x =
      if item_type == source_type
      then some (source (env.unmarshal_source x).0, (env.unmarshal_source x).1)
      else if item_type == manages_type
      then some (manages (env.unmarshal_manages x).0, (env.unmarshal_manages x).1)
      else if item_type == module_type
      then some (module_ (env.unmarshal_module x).0, (env.unmarshal_module x).1)
      else if item_type == depends_type
      then some (depends (env.unmarshal_depends x).0, (env.unmarshal_depends x).1)
      else none

  -- `Decode`: an item, or nil, and an error, or nil.
  unfoldable pub decode : GraphItem → Option Message × Option Error
  unfolding unmarshal
  decode item = elim (unmarshal item.graph_item_type item.graph_item_data) [
    | none ↦ (none, some (errorf "unrecognized node type"))
    | some (msg, e) ↦
        if item.encoding == env.json
        then (some msg, e)
        else (none, some (errorf "unrecognized encoding"))
  ]

-- The type assertions, which panic on nil and on another type.
unfoldable pub as_source : Option Message → Result Source
as_source (some (source s)) = ok s
as_source _ = panic

unfoldable pub as_manages : Option Message → Result Manages
as_manages (some (manages m)) = ok m
as_manages _ = panic

unfoldable pub as_module : Option Message → Result Module
as_module (some (module_ m)) = ok m
as_module _ = panic

unfoldable pub as_depends : Option Message → Result Depends
as_depends (some (depends d)) = ok d
as_depends _ = panic
