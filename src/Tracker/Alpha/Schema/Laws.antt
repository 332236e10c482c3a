-- ===== src/Tracker/Alpha/Schema/Laws.antt =====
-- The text of `readableKey` names one row, and `Decode` reads what `Encode` writes.
-- No dash, which is what the separator is made of.
use depscloud.Base.{All, [], arith, refl, ◌++◌, ◌∷◌, ◌≡◌, ◌≢◌, list_eq, nat_eq, none, ok}
use depscloud.Base.{option_eq, some, length, sym, ◌∙◌, >>=-eq-ok, err, errorf, Error, Option}
use depscloud.Base.Bytes.{Bytes, AreBytes}
use depscloud.Tracker.Alpha.Types.{Key, GraphItem, key_eq}
use depscloud.Tracker.Alpha.Schema.{render, sep, Depends, Env, Manages, Message, Module, Source}
use depscloud.Tracker.Alpha.Schema.{decode, depends, hashed, key_for_source, manages, module_}
use depscloud.Tracker.Alpha.Schema.{other, readable_key, source, encode, tagged, key_of}
use depscloud.Tracker.Alpha.Schema.{key_for_module, as_depends, as_manages, as_module, as_source}
use depscloud.Tracker.Alpha.Schema.{depends_type, module_type}
use depscloud.Codec.Base64.RoundTrip.{raw_encode-plain}
use depscloud.Tracker.Alpha.Store.{row_key}
use mathlib.Core.List.{append-nil}
use depscloud.Codec.Crc32.{checksum, length-checksum}

abbrev pub IsPlain : Bytes → Type 0
IsPlain = All (λ c. c ≢ 45)

split-dash :
    (xs ys r s : Bytes)
    → IsPlain xs
    → IsPlain ys
    → xs ++ (45 ∷ r) ≡ ys ++ (45 ∷ s)
    → (xs ≡ ys) × (r ≡ s)
split-dash [] [] r s hx hy e = (refl, cc)
split-dash [] (y ∷ ys) r s hx (hy, _) e = ground arith
split-dash (x ∷ xs) [] r s (hx, _) hy e = ground arith
split-dash (x ∷ xs) (y ∷ ys) r s (_, hx) (_, hy) e = ground (arith, split-dash xs ys r s hx hy)

split-sep :
    (xs ys r s : Bytes)
    → IsPlain xs
    → IsPlain ys
    → xs ++ (sep ++ r) ≡ ys ++ (sep ++ s)
    → (xs ≡ ys) × (r ≡ s)
split-sep xs ys r s hx hy e =
    let (same, rest) = split-dash xs ys (45 ∷ 45 ∷ r) (45 ∷ 45 ∷ s) hx hy e in (same, cc)

pub record HasPlainParts (k : Key) : Type 0 where
  pub type_plain : IsPlain k.graph_item_type
  pub k1_plain : IsPlain k.k1
  pub k2_plain : IsPlain k.k2

pub render-injective : (j k : Key) → HasPlainParts j → HasPlainParts k → render j ≡ render k → j ≡ k
unfolding render
render-injective j k hj hk e =
    let (e0, e') =
      split-sep j.graph_item_type k.graph_item_type _ _ hj.type_plain hk.type_plain e in
    let (e1, e'') = split-sep j.k1 k.k1 _ _ hj.k1_plain hk.k1_plain e' in
    let (e2, e3) = split-sep j.k2 k.k2 _ _ hj.k2_plain hk.k2_plain e'' in cc

-- Two items whose types hold no dash have one readable key only if they name one row: the same
-- type and the same three keys. The four types of the program hold none.
readable_key-injective :
    (x y : GraphItem)
    → IsPlain x.graph_item_type
    → IsPlain y.graph_item_type
    → readable_key x ≡ readable_key y
    → row_key x ≡ row_key y
unfolding readable_key
readable_key-injective x y hx hy e =
    render-injective (row_key x) (row_key y)
      (record {
        type_plain = hx;
        k1_plain = raw_encode-plain x.k1;
        k2_plain = raw_encode-plain x.k2;
      })
      (record {
        type_plain = hy;
        k1_plain = raw_encode-plain y.k1;
        k2_plain = raw_encode-plain y.k2;
      })
      e

-- What is assumed of the JSON forms: a form that `json.Marshal` made is read back whole.
pub record ReadsBack (env : Env) : Type 0 where
  pub sources :
      (s : Source) (x : Bytes)
      → env.marshal (source s) ≡ some x
      → env.unmarshal_source x ≡ (s, none)
  pub managing :
      (m : Manages) (x : Bytes)
      → env.marshal (manages m) ≡ some x
      → env.unmarshal_manages x ≡ (m, none)
  pub modules :
      (m : Module) (x : Bytes)
      → env.marshal (module_ m) ≡ some x
      → env.unmarshal_module x ≡ (m, none)
  pub depending :
      (d : Depends) (x : Bytes)
      → env.marshal (depends d) ≡ some x
      → env.unmarshal_depends x ≡ (d, none)

module _ (env : Env) (reads : ReadsBack env) where
  encode-data :
      (msg : Message) (item : GraphItem)
      → encode env msg ≡ ok item
      → (env.marshal msg ≡ some item.graph_item_data) × (item.encoding ≡ env.json)
  unfolding encode
  encode-data (source s) item h = ground arith
  encode-data (manages m) item h = ground arith
  encode-data (module_ m) item h = ground arith
  encode-data (depends d) item h = ground arith
  encode-data other item h = cc

  -- `Decode` reads back the message that `Encode` wrote, with no error, whatever keys the caller
  -- puts on the item afterwards.
  pub decode-encode :
      (msg : Message) (item : GraphItem) (x y z : Bytes)
      → encode env msg ≡ ok item
      → decode env (record item { k1 = x; k2 = y; k3 = z }) ≡ (some msg, none)
  unfolding encode decode
  decode-encode (source s) item x y z h =
      let (e, same) = encode-data (source s) item h in
      ground (arith, reads.sources s item.graph_item_data e)
  decode-encode (manages m) item x y z h =
      let (e, same) = encode-data (manages m) item h in
      ground (arith, reads.managing m item.graph_item_data e)
  decode-encode (module_ m) item x y z h =
      let (e, same) = encode-data (module_ m) item h in
      ground (arith, reads.modules m item.graph_item_data e)
  decode-encode (depends d) item x y z h =
      let (e, same) = encode-data (depends d) item h in
      ground (arith, reads.depending d item.graph_item_data e)
  decode-encode other item x y z h = cc

append-injective : (xs ys r s : Bytes) → length xs ≡ length ys → xs ++ r ≡ ys ++ s → r ≡ s
append-injective [] [] r s h e = e
append-injective [] (y ∷ ys) r s h e = absurd (omega arith)
append-injective (x ∷ xs) [] r s h e = absurd (omega arith)
append-injective (x ∷ xs) (y ∷ ys) r s h e = append-injective xs ys r s (omega arith) (cc)

hashed-injective : (u v : Bytes) → hashed (u ∷ []) ≡ hashed (v ∷ []) → u ≡ v
unfolding hashed
hashed-injective u v e =
    sym (append-nil u)
    ∙ append-injective (checksum u) (checksum v) (u ++ []) (v ++ [])
        (length-checksum u ∙ sym (length-checksum v)) (cc)
    ∙ append-nil v

-- `keyForSource` tells two URLs apart, unless the hash has a collision at them.
pub key_for_source-injective :
    (env : Env) (s t : Source)
    → (env.digest (hashed (s.url ∷ [])) ≡ env.digest (hashed (t.url ∷ []))
        → hashed (s.url ∷ []) ≡ hashed (t.url ∷ []))
    → key_for_source env s ≡ key_for_source env t
    → s.url ≡ t.url
unfolding key_for_source
key_for_source-injective env s t no_collision e = hashed-injective s.url t.url (no_collision e)

-- The item of a source carries the key of the source.
pub encode-source_key :
    (env : Env) (src : Source) (item : GraphItem)
    → encode env (source src) ≡ ok item
    → item.k1 ≡ key_for_source env src
unfolding encode tagged
encode-source_key env src item h =
    let (text, e, h') =
      >>=-eq-ok
        (elim (env.marshal (source src)) [ none ↦ err (errorf "marshal failure") | some x ↦ ok x ])
        _ h in
    cc h'

pub key_for_source-AreBytes :
    (env : Env)
    → ((x : Bytes) → AreBytes (env.digest x))
    → (src : Source) → AreBytes (key_for_source env src)
unfolding key_for_source key_of
key_for_source-AreBytes env digests src = digests _

pub key_for_module-AreBytes :
    (env : Env)
    → ((x : Bytes) → AreBytes (env.digest x))
    → (m : Module) → AreBytes (key_for_module env m)
unfolding key_for_module key_of
key_for_module-AreBytes env digests m = digests _

-- A type assertion gives a message or panics.
pub asserts-safe :
    (o : Option Message) (e : Error)
    → (as_source o ≢ err e)
      × (as_manages o ≢ err e)
      × (as_module o ≢ err e)
      × (as_depends o ≢ err e)
unfolding as_source as_manages as_module as_depends
asserts-safe none e = (λ h. cc, λ h. cc, λ h. cc, λ h. cc)
asserts-safe (some (source _)) e = (λ h. cc, λ h. cc, λ h. cc, λ h. cc)
asserts-safe (some (manages _)) e = (λ h. cc, λ h. cc, λ h. cc, λ h. cc)
asserts-safe (some (module_ _)) e = (λ h. cc, λ h. cc, λ h. cc, λ h. cc)
asserts-safe (some (depends _)) e = (λ h. cc, λ h. cc, λ h. cc, λ h. cc)
asserts-safe (some other) e = (λ h. cc, λ h. cc, λ h. cc, λ h. cc)

-- The type and the keys that `Encode` gives a module and a depends edge.
pub encode-module_keys :
    (env : Env) (m : Module) (item : GraphItem)
    → encode env (module_ m) ≡ ok item
    → (item.graph_item_type ≡ module_type)
      × (item.k1 ≡ key_for_module env m)
      × (item.k2 ≡ key_for_module env m)
      × (item.k3 ≡ [])
unfolding encode tagged
encode-module_keys env m item h = ground arith

pub encode-depends_type :
    (env : Env) (d : Depends) (item : GraphItem)
    → encode env (depends d) ≡ ok item
    → item.graph_item_type ≡ depends_type
unfolding encode tagged
encode-depends_type env d item h = ground arith

-- The name of a module is no part of its key.
pub key_for_module-name :
    (env : Env) (m : Module) (name : Bytes)
    → key_for_module env (record m { name = name }) ≡ key_for_module env m
unfolding key_for_module
key_for_module-name env m name = refl
