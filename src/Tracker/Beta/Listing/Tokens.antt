-- ===== src/Tracker/Beta/Listing/Tokens.antt =====
-- The tokens of `List`.
use depscloud.Tracker.Beta.Driver.{Driver}
use depscloud.Tracker.Beta.Listing.{list, paginate, next_token, offset_of, respond}
use depscloud.Codec.Int64.{put_uint64, add64, add64-pos, put_uint64-Word, uint64-put_uint64}
use depscloud.Codec.Base32.{decode, encode}
use depscloud.Codec.Base32.RoundTrip.{decode-encode}
use depscloud.Base.{◌>>=◌, Result, panic, ok, List, [], arith, list_eq, nat_eq, option_eq, refl}
use depscloud.Base.{some, take-all, ℕ, ◌%◌, ◌+◌, ◌<◌, ◌∙◌, ◌∷◌, ◌≡◌, ◌≢◌, Bool, none, false}
use depscloud.Base.{true, err}
use depscloud.Base.Bytes.{Bytes}
use depscloud.Tracker.Beta.Types.{GraphData}
use depscloud.Tracker.Alpha.Types.{key_eq}
use depscloud.Base.Int32.{pos, ℤ}

pub next_token-cons : (offset : ℤ) → (c : ℕ) × (rest : Bytes) × (next_token offset ≡ c ∷ rest)
unfolding next_token encode put_uint64
next_token-cons offset = (_, _, refl)

paginate-decoded :
    (token data_ : Bytes) (page_size : ℤ)
    → token ≢ []
    → decode token ≡ some data_
    → paginate token page_size
      ≡ (offset_of data_ >>= λ offset. ok (offset, next_token (add64 offset page_size)))
unfolding paginate
paginate-decoded [] data_ page_size full read = absurd (full refl)
paginate-decoded (c ∷ token) data_ page_size full read = rw (read, paginate) refl

-- A token holds its offset.
offset_of-put_uint64 : (n : ℕ) → n < 9223372036854775808 → offset_of (put_uint64 n) ≡ ok (pos n)
unfolding offset_of
offset_of-put_uint64 n small =
    let long = (put_uint64-Word n).1 in
    let whole = take-all 8 (put_uint64 n) (omega arith) in
    let read = uint64-put_uint64 n (omega arith) in rw (long, whole, read) (ground arith)

-- The token of an offset names that offset again.
pub paginate-next_token :
    (offset limit : ℕ)
    → offset + limit < 9223372036854775808
    → paginate (next_token (pos offset)) (pos limit)
      ≡ ok (pos offset, next_token (pos (offset + limit)))
unfolding next_token
paginate-next_token offset limit small =
    let (c, rest, e) = next_token-cons (pos offset) in
    let some_token : next_token (pos offset) ≢ [] = λ empty. cc (e, empty) in
    let small_bits : offset % 18446744073709551616 ≡ offset = omega arith in
    let read = decode-encode (put_uint64 offset) (put_uint64-Word offset).0 in
    let read_back : decode (next_token (pos offset)) ≡ some (put_uint64 offset) =
      rw small_bits read in
    paginate-decoded (next_token (pos offset)) (put_uint64 offset) (pos limit) some_token read_back
    ∙ rw (offset_of-put_uint64 offset (omega arith), add64-pos offset limit small) refl

respond-forget :
    (found : Result (List GraphData × Bool)) (token : Bytes)
    → (found >>= λ f. ok (respond [] f))
      ≡ ((found >>= λ f. ok (respond token f)) >>= λ r. ok (record r { next_page_token = [] }))
unfolding respond
respond-forget panic token = refl
respond-forget (err e) token = refl
respond-forget (ok (results, true)) token = refl
respond-forget (ok (results, false)) token = refl

-- `List` over any driver, of a token that is not base32, answers with the first page, as it does
-- without a token, but with no token behind it: the client that goes on by the tokens stops there.
pub list-BadToken :
    {S : Type 0} (driver : Driver S) (kind token : Bytes) (page_size : ℤ) (s : S)
    → token ≢ []
    → decode token ≡ none
    → list driver (record { kind = kind; page_token = token; page_size = page_size }) s ≡ (do
      response ← list driver (record { kind = kind; page_token = []; page_size = page_size }) s
      ok (record response { next_page_token = [] }))
unfolding list paginate
list-BadToken driver kind [] page_size s full bad = absurd (full refl)
list-BadToken driver kind (c ∷ token) page_size s full bad =
    rw (bad, paginate) (respond-forget (driver.list kind (pos 0) page_size s) _)
