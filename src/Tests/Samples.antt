-- ===== src/Tests/Samples.antt =====
-- Concrete functions for what the program takes from elsewhere, and small messages.
use depscloud.Tracker.Alpha.Schema.{source, Depends, Env, Manages, Message, Module, Source}
use depscloud.Tracker.Alpha.Schema.{depends, manages, module_, other}
use depscloud.Tracker.Alpha.Store.Contract.{Answering}
use depscloud.Tracker.Alpha.Store.{Answers, GraphStore, QueryAnswers}
use depscloud.Base.Bytes.{AreBytes, Bytes, bytes}
use depscloud.Tracker.Alpha.Traversal.Complete.{IsQuiet}
use depscloud.Base.{List, Option, [], ap, arith, drop, false, get_last?, length, none, refl}
use depscloud.Base.{some, suc, sym, take, zero, ℕ, ◌%◌, ◌++◌, ◌∙◌, ◌∷◌, ◌≡◌, external}
use depscloud.Tracker.Alpha.Traversal.{Peer}
use depscloud.Tracker.Alpha.Schema.Laws.{ReadsBack}
use depscloud.Tracker.Alpha.Sql.{sqlite}

-- A hash that keeps the last byte.
abbrev last_byte : Option ℕ → Bytes
last_byte none = []
last_byte (some b) = (b % 256) ∷ []

abbrev sample_digest : Bytes → Bytes
sample_digest x = last_byte (get_last? x)

sample_digest-AreBytes : (x : Bytes) → AreBytes (sample_digest x)
sample_digest-AreBytes x = bytes_of (get_last? x)
  where
    bytes_of : (o : Option ℕ) → AreBytes (last_byte o)
    bytes_of none = tt
    bytes_of (some b) = (omega arith, tt)

-- Texts, each behind its length, in place of JSON.
frame : List Bytes → Bytes
frame [] = []
frame (x ∷ xs) = length x ∷ (x ++ frame xs)

unframe : ℕ → Bytes → List Bytes
unframe zero x = []
unframe (suc n) [] = []
unframe (suc n) (k ∷ rest) = let more = unframe n (drop k rest) in take k rest ∷ more

take-append : (x y : Bytes) → take (length x) (x ++ y) ≡ x
take-append [] y = refl
take-append (b ∷ x) y = ap (λ l. b ∷ l) (take-append x y)

drop-append : (x y : Bytes) → drop (length x) (x ++ y) ≡ y
drop-append [] y = refl
drop-append (b ∷ x) y = drop-append x y

unframe-frame : (xs : List Bytes) → unframe (length xs) (frame xs) ≡ xs
unfolding frame unframe
unframe-frame [] = refl
unframe-frame (x ∷ xs) =
    rw (take-append x (frame xs), drop-append x (frame xs)) (ap (λ l. x ∷ l) (unframe-frame xs))

abbrev source_of : List Bytes → Source
source_of (u ∷ k ∷ r ∷ _) = record { url = u; kind = k; ref = r }
source_of _ = record { url = []; kind = []; ref = [] }

abbrev manages_of : List Bytes → Manages
manages_of (l ∷ s ∷ v ∷ _) = record { language = l; system = s; version = v }
manages_of _ = record { language = []; system = []; version = [] }

abbrev module_of : List Bytes → Module
module_of (l ∷ o ∷ m ∷ n ∷ _) = record { language = l; organization = o; module_name = m; name = n }
module_of _ = record { language = []; organization = []; module_name = []; name = [] }

abbrev depends_of : List Bytes → Depends
depends_of (l ∷ v ∷ r ∷ scopes) = record {
  language = l;
  version_constraint = v;
  scopes = scopes;
  ref = r;
}
depends_of _ = record { language = []; version_constraint = []; scopes = []; ref = [] }

fields : Message → List Bytes
fields (source s) = s.url ∷ s.kind ∷ s.ref ∷ []
fields (manages m) = m.language ∷ m.system ∷ m.version ∷ []
fields (module_ m) = m.language ∷ m.organization ∷ m.module_name ∷ m.name ∷ []
fields (depends d) = d.language ∷ d.version_constraint ∷ d.ref ∷ d.scopes
fields other = []

texts : Bytes → List Bytes
unfolding unframe
texts [] = []
texts (n ∷ x) = unframe n x

unfoldable pub sample_env : Env
unfolding frame fields texts
sample_env = record {
  digest = sample_digest;
  marshal = λ msg. some (length (fields msg) ∷ frame (fields msg));
  unmarshal_source = λ x. (source_of (texts x), none);
  unmarshal_manages = λ x. (manages_of (texts x), none);
  unmarshal_module = λ x. (module_of (texts x), none);
  unmarshal_depends = λ x. (depends_of (texts x), none);
  json = 1;
}

pub sample_env-AreBytes : (x : Bytes) → AreBytes (sample_env.digest x)
unfolding sample_env
sample_env-AreBytes = sample_digest-AreBytes

texts-fields : (msg : Message) (x : Bytes) → sample_env.marshal msg ≡ some x → texts x ≡ fields msg
unfolding sample_env
texts-fields msg x h =
    let e : length (fields msg) ∷ frame (fields msg) ≡ x = cc h in
    ap texts (sym e) ∙ unframe-frame (fields msg)

pub sample_env-ReadsBack : ReadsBack sample_env
unfolding sample_env fields
sample_env-ReadsBack = record {
  sources = λ s x h. ap (λ l. (source_of l, none)) (texts-fields (source s) x h);
  managing = λ m x h. ap (λ l. (manages_of l, none)) (texts-fields (manages m) x h);
  modules = λ m x h. ap (λ l. (module_of l, none)) (texts-fields (module_ m) x h);
  depending = λ d x h. ap (λ l. (depends_of l, none)) (texts-fields (depends d) x h);
}

abbrev pub go_module : Bytes → Module
go_module name = record { language = bytes "go"; organization = []; module_name = name; name = [] }

abbrev pub all_well : Answers
all_well = record { begin = none; exec = λ n. none; commit = none }

abbrev pub read_well : {R : Type 0} → QueryAnswers R
read_well = record {
  query = none;
  refusal = external 1;
  arrangement = record {
    order = λ rows. rows;
    members = λ rows r. (λ m. m, λ m. m);
    size = λ rows. refl;
  };
  interrupted = none;
  scan = λ r. none;
}

abbrev pub answering : Answering
answering = record {
  list_answers = read_well;
  find_answers = read_well;
  put_answers = all_well;
  put_time = 5;
  delete_answers = all_well;
  delete_time = 6;
}

abbrev pub sqlite_store : GraphStore
sqlite_store = record {
  rwdb = some (record { address = bytes "file" });
  rodb = some (record { address = bytes "file" });
  statements = sqlite;
}

abbrev pub quiet_peer : Peer
quiet_peer = record { send = λ n. none; done = λ n. false }

pub quiet_peer-IsQuiet : IsQuiet quiet_peer
quiet_peer-IsQuiet = record { sends = λ n. refl; goes_on = λ n. refl }
