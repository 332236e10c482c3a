-- ===== src/Deps/Names/Laws.antt =====
-- A name is taken apart as it was put together, and never out of range.
use depscloud.Base.{All, Bool-cases, List, [], arith, false, inl, inr, list_eq, nat_eq, ok}
use depscloud.Base.{option_eq, refl, sym, ℕ, ℕ_discrete, ◌++◌, ◌==◌, ◌∷◌, ◌≡◌, ◌≢◌, ◌||◌}
use depscloud.Base.{if◌then◌else◌}
use depscloud.Base.Bytes.{Bytes, bytes}
use depscloud.Deps.Names.{at_sign, colon, first_two, onto_first, parse_name, remove_first, slash}
use depscloud.Deps.Names.{split_all, split_two, with_default, set_module_fields}
use depscloud.Deps.Names.{set_request_fields}
use depscloud.Tracker.Alpha.Types.{key_eq}
use mathlib.Core.Path.{subst}
use depscloud.Tracker.Alpha.Services.{DependencyRequest}
use depscloud.Tracker.Alpha.Schema.{Module}
use depscloud.Codec.Base64.{pair}

-- A byte that a text does not hold.
abbrev pub Lacks : ℕ → Bytes → Type 0
Lacks c = All (λ b. b ≢ c)

split_two-join :
    (mark : ℕ) (a b : Bytes) → Lacks mark a → split_two mark (a ++ (mark ∷ b)) ≡ a ∷ b ∷ []
unfolding split_two
split_two-join mark [] b h = ground arith
split_two-join mark (c ∷ a) b (h, hs) = ground (arith, split_two-join mark a b hs)

split_all-one : (mark : ℕ) (a : Bytes) → Lacks mark a → split_all mark a ≡ a ∷ []
unfolding split_all
split_all-one mark [] h = refl
split_all-one mark (c ∷ a) (h, hs) = ground (arith, split_all-one mark a hs)

split_all-join :
    (mark : ℕ) (a b : Bytes)
    → Lacks mark a
    → split_all mark (a ++ (mark ∷ b)) ≡ a ∷ split_all mark b
unfolding split_all
split_all-join mark [] b h = ground arith
split_all-join mark (c ∷ a) b (h, hs) = ground (arith, split_all-join mark a b hs)

-- A Java name `org:module`, a scoped name of npm `@org/module`, and a name `org/module` of another
-- language are taken apart into the two, where no separator stands in the organization, nor in the
-- module of a Java name.
pub parse_name-join :
    (org m language : Bytes)
    → Lacks colon org
    → Lacks colon m
    → Lacks slash org
    → (language == bytes "java") ≡ false
    → (language == bytes "node") ≡ false
    → (language == bytes "js") ≡ false
    → (parse_name (bytes "java") (org ++ (colon ∷ m)) ≡ org ∷ m ∷ [])
      × (parse_name (bytes "node") (at_sign ∷ (org ++ (slash ∷ m))) ≡ org ∷ m ∷ [])
      × (parse_name language (org ++ (slash ∷ m)) ≡ org ∷ m ∷ [])
unfolding parse_name remove_first list_eq nat_eq ℕ_discrete
parse_name-join org m language hc hm hs nj nn ns = (
  rw (split_all-join colon org m hc, split_all-one colon m hm) refl,
  rw (split_two-join slash org m hs) refl,
  rw (nj, nn, ns) (rw (split_two-join slash org m hs) refl),
)

-- A list of two parts or more.
abbrev HasTwo : List Bytes → Type 0
HasTwo parts = (pair : Bytes × Bytes) × (rest : List Bytes) × (parts ≡ pair.0 ∷ pair.1 ∷ rest)

two-default : (c : Bytes) (parts : List Bytes) → HasTwo (with_default (c ∷ parts))
two-default c [] = ((bytes "_", c), [], refl)
two-default c (d ∷ parts) = ((c, d), parts, refl)

-- A list of one part or more.
abbrev HasOne : List Bytes → Type 0
HasOne parts = (c : Bytes) × (rest : List Bytes) × (parts ≡ c ∷ rest)

one-onto : (c : ℕ) (parts : List Bytes) → HasOne (onto_first c parts)
one-onto c [] = (c ∷ [], [], refl)
one-onto c (p ∷ parts) = (c ∷ p, parts, refl)

split_all-HasOne : (mark : ℕ) (name : Bytes) → HasOne (split_all mark name)
unfolding split_all
split_all-HasOne mark [] = ([], [], refl)
split_all-HasOne mark (c ∷ name) = elim (Bool-cases (c == mark)) [
  | inl ends ↦ rw ends ([], _, refl)
  | inr goes ↦ rw goes (one-onto c (split_all mark name))
]

split_two-HasOne : (mark : ℕ) (name : Bytes) → HasOne (split_two mark name)
unfolding split_two
split_two-HasOne mark [] = ([], [], refl)
split_two-HasOne mark (c ∷ name) = elim (Bool-cases (c == mark)) [
  | inl ends ↦ rw ends ([], _, refl)
  | inr goes ↦ rw goes (one-onto c (split_two mark name))
]

default-HasTwo : (parts : List Bytes) → HasOne parts → HasTwo (with_default parts)
default-HasTwo parts (c, rest, e) =
    subst (λ p. HasTwo (with_default p)) (sym e) (two-default c rest)

parse_name-HasTwo : (language name : Bytes) → HasTwo (parse_name language name)
unfolding parse_name
parse_name-HasTwo language name = elim (Bool-cases (language == bytes "java")) [
  | inl java ↦ rw (java, parse_name) (default-HasTwo _ (split_all-HasOne colon name))
  | inr no_java ↦
      rw (no_java, parse_name)
        (elim (Bool-cases (language == bytes "node" || language == bytes "js")) [
          | inl scoped ↦
              rw scoped (default-HasTwo _ (split_two-HasOne slash (remove_first at_sign name)))
          | inr plain ↦ rw plain (default-HasTwo _ (split_two-HasOne slash name))
        ])
]

-- What `setRequestFields` and `setModuleFields` are to leave of organization and module: those that
-- were there for an empty name, and the first two parts of any other name.
abbrev pub AreNamed : Bytes → Bytes → Bytes × Bytes → Bytes × Bytes → Type 0
AreNamed language name before pair =
    if name == []
    then pair ≡ before
    else (rest : List Bytes) × (parse_name language name ≡ pair.0 ∷ pair.1 ∷ rest)

-- The fields of a request and of a module are set whatever the name holds, so the indexes into the
-- parts of the name are never out of range: for an empty name organization and module stay, for any
-- other name the organization is the first part of the name and the module the second, and the
-- language and the name stay in either case.
pub set_fields_total :
    (req : DependencyRequest) (m : Module)
    → ((r : DependencyRequest) × (set_request_fields req ≡ ok r)
        × AreNamed req.language req.name
            (req.organization, req.module_name)
            (r.organization, r.module_name)
        × (r.language ≡ req.language)
        × (r.name ≡ req.name))
      × ((n : Module) × (set_module_fields m ≡ ok n)
          × AreNamed m.language m.name
              (m.organization, m.module_name)
              (n.organization, n.module_name)
          × (n.language ≡ m.language)
          × (n.name ≡ m.name))
unfolding set_request_fields set_module_fields
set_fields_total req m = (request_set, module_set)
  where
    request_set :
        (r : DependencyRequest) × (set_request_fields req ≡ ok r)
        × AreNamed req.language req.name
            (req.organization, req.module_name)
            (r.organization, r.module_name)
        × (r.language ≡ req.language)
        × (r.name ≡ req.name)
    request_set = elim (Bool-cases (req.name == [])) [
      | inl empty ↦ (req, rw (empty, set_request_fields) refl, rw empty refl, refl, refl)
      | inr named ↦
          let ((org, name), rest, e) = parse_name-HasTwo req.language req.name in
          (
            record req { organization = org; module_name = name },
            rw (named, set_request_fields) (rw (e, first_two) refl),
            rw named (rest, e),
            refl,
            refl,
          )
    ]

    module_set :
        (n : Module) × (set_module_fields m ≡ ok n)
        × AreNamed m.language m.name (m.organization, m.module_name) (n.organization, n.module_name)
        × (n.language ≡ m.language)
        × (n.name ≡ m.name)
    module_set = elim (Bool-cases (m.name == [])) [
      | inl empty ↦ (m, rw (empty, set_module_fields) refl, rw empty refl, refl, refl)
      | inr named ↦
          let ((org, name), rest, e) = parse_name-HasTwo m.language m.name in
          (
            record m { organization = org; module_name = name },
            rw (named, set_module_fields) (rw (e, first_two) refl),
            rw named (rest, e),
            refl,
            refl,
          )
    ]
