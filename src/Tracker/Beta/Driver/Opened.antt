-- ===== src/Tracker/Beta/Driver/Opened.antt =====
-- What `Resolve` of tracker/internal/graphstore/v1beta/driver.go opens, and when it refuses.
use depscloud.Tracker.Alpha.Sql.{Driver}
use depscloud.Tracker.Alpha.Store.{Db}
use depscloud.Tracker.Alpha.Setup.Laws.{connection, or_other}
use depscloud.Tracker.Beta.Driver.Resolve.{Gorm, SqlDriver, resolve, dialect, open_rw, open_ro}
use depscloud.Tracker.Beta.Driver.Resolve.{some_address}
use depscloud.Base.{>>=-eq-ok, Option, [], ap, arith, check, ok, sym, ◌∙◌, ◌∷◌, ◌≡◌, ◌≢◌, none}
use depscloud.Base.{some}
use depscloud.Base.Bytes.{Bytes}

open_rw-ok :
    (gorm : Gorm) (d : Driver) (address : Bytes) (db : Option Db)
    → open_rw gorm d address ≡ ok db
    → db ≡ connection address
unfolding open_rw
open_rw-ok gorm d [] db h = ground arith
open_rw-ok gorm d (c ∷ cs) db h =
    let (_, _, h1) = >>=-eq-ok (check (gorm.open_db d (c ∷ cs))) _ h in
    let (_, _, h2) = >>=-eq-ok (check (gorm.auto_migrate (c ∷ cs))) _ h1 in
    let (_, _, h3) = >>=-eq-ok (check (gorm.db (c ∷ cs))) _ h2 in ground arith

open_ro-ok :
    (gorm : Gorm) (d : Driver) (address : Bytes) (old db : Option Db)
    → open_ro gorm d address old ≡ ok db
    → db ≡ or_other (connection address) old
unfolding open_ro
open_ro-ok gorm d [] old db h = ground arith
open_ro-ok gorm d (c ∷ cs) old db h =
    let (_, _, h1) = >>=-eq-ok (check (gorm.open_db d (c ∷ cs))) _ h in
    let (_, _, h2) = >>=-eq-ok (check (gorm.db (c ∷ cs))) _ h1 in ground arith

some_address-ok :
    (gorm : Gorm) (dbrw dbro : Option Db) (u : Unit {0})
    → some_address gorm dbrw dbro ≡ ok u
    → dbrw ≡ none
    → dbro ≢ none
some_address-ok gorm none none u h e = cc
some_address-ok gorm none (some _) u h e = λ x. cc x
some_address-ok gorm (some _) dbro u h e = cc

-- A driver that was resolved has the name and the statements of the dialect that was asked for; it
-- writes to the first address, and to no database if that is empty; it reads from the second
-- address, and from the first if that is empty; and one of the two is not empty.
pub resolve-ok :
    (gorm : Gorm) (driver address read_only_address : Bytes) (s : SqlDriver)
    → resolve gorm driver address read_only_address ≡ ok s
    → (dialect driver ≡ ok (s.name, s.statements))
      × (s.rwdb ≡ connection address)
      × (s.rodb ≡ or_other (connection read_only_address) (connection address))
      × (s.rwdb ≡ none → s.rodb ≢ none)
unfolding resolve
resolve-ok gorm driver address read_only_address s h =
    let ((name, d), ed, h1) = >>=-eq-ok (dialect driver) _ h in
    let (dbrw, erw, h2) = >>=-eq-ok (open_rw gorm d address) _ h1 in
    let (dbro, ero, h3) = >>=-eq-ok (open_ro gorm d read_only_address dbrw) _ h2 in
    let (u, one, h4) = >>=-eq-ok (some_address gorm dbrw dbro) _ h3 in
    let writes = open_rw-ok gorm d address dbrw erw in
    let reads = open_ro-ok gorm d read_only_address dbrw dbro ero in
    let made : SqlDriver = record { rwdb = dbrw; rodb = dbro; name = name; statements = d } in
    let same : made ≡ s = cc in
    let same_rw = ap (λ x. x.rwdb) same in
    let same_ro = ap (λ x. x.rodb) same in
    (
      ed ∙ ap (λ x. ok (x.name, x.statements)) same,
      sym same_rw ∙ writes,
      sym same_ro ∙ reads ∙ ap (or_other (connection read_only_address)) writes,
      λ e x. some_address-ok gorm dbrw dbro u one (same_rw ∙ e) (same_ro ∙ x),
    )
