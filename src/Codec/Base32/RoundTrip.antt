-- ===== src/Codec/Base32/RoundTrip.antt =====
-- What `encode` of base32 writes, `decode` reads back.
use depscloud.Base.Options.{◌>>=◌}
use depscloud.Base.Bytes.{Bytes, AreBytes}
use depscloud.Codec.Base32.{digit, undigit, groups, strip, encode, pack, digits, e1, e3, e4, e6}
use depscloud.Codec.Base32.{padded, pads, decode}
use depscloud.Base.{some, All, List, [], arith, false, length, list_eq, map, nat_eq, not}
use depscloud.Base.{option_eq, true, ℕ, ◌++◌, ◌+◌, ◌<◌, ◌==◌, ◌||◌, ◌∙◌, ◌∷◌, ◌≡◌, ap}
use depscloud.Base.{length-append, refl, sym, ℕ_discrete, ◌%◌, ◌/◌, suc, zero}
use depscloud.Tracker.Alpha.Types.{key_eq}
use mathlib.Core.List.{append-nil, append_assoc}

undigit-digit : (n : ℕ) → n < 32 → undigit (digit n) ≡ some n
unfolding undigit digit
undigit-digit n h = ground arith

-- A digit is no line break and no padding.
digit-plain :
    (n : ℕ) → n < 32 → (not (digit n == 10 || digit n == 13) ≡ true) × ((digit n == 61) ≡ false)
unfolding digit
digit-plain n h = ground arith

module _ (read : List ℕ) (n : ℕ) (text : Bytes) (h : n < 32) where
  groups-digit : length read < 7 → groups read (digit n ∷ text) ≡ groups (read ++ (n ∷ [])) text
  unfolding groups
  groups-digit few = rw ((digit-plain n h).1, undigit-digit n h) (rw few_ne refl)
    where
      few_ne : (length read == 7) ≡ false
      few_ne = ground arith

  groups-full :
      length read ≡ 7
      → groups read (digit n ∷ text)
        ≡ (groups [] text >>= λ more. some (pack (read ++ (n ∷ [])) ++ more))
  unfolding groups
  groups-full full = rw ((digit-plain n h).1, undigit-digit n h) (rw all_eq refl)
    where
      all_eq : (length read == 7) ≡ true
      all_eq = ground arith

groups-digits :
    (ds read : List ℕ) (text : Bytes)
    → All (λ n. n < 32) ds
    → length read + length ds < 8
    → groups read (map digit ds ++ text) ≡ groups (read ++ ds) text
groups-digits [] read text h few = ap (λ l. groups l text) (sym (append-nil read))
groups-digits (d ∷ ds) read text (h, hs) few =
    let more = length-append read (d ∷ []) in
    groups-digit read d (map digit ds ++ text) h (omega arith)
    ∙ groups-digits ds (read ++ (d ∷ [])) text hs (omega arith)
    ∙ ap (λ l. groups l text) (append_assoc read (d ∷ []) ds)

digits-small : (x : Bytes) → AreBytes x → All (λ n. n < 32) (digits x)
digits-small [] h = tt
digits-small (a ∷ []) (ha, _) = (omega arith, (omega arith, tt))
digits-small (a ∷ b ∷ []) (ha, (hb, _)) =
    (omega arith, (omega arith, (omega arith, (omega arith, tt))))
digits-small (a ∷ b ∷ c ∷ []) (ha, (hb, (hc, _))) =
    (omega arith, (omega arith, (omega arith, (omega arith, (omega arith, tt)))))
digits-small (a ∷ b ∷ c ∷ d ∷ []) (ha, (hb, (hc, (hd, _)))) = (
  omega arith,
  (omega arith, (omega arith, (omega arith, (omega arith, (omega arith, (omega arith, tt)))))),
)
digits-small (a ∷ b ∷ c ∷ d ∷ e ∷ _) (ha, (hb, (hc, (hd, (he, _))))) = (
  omega arith,
  (
    omega arith,
    (omega arith, (omega arith, (omega arith, (omega arith, (omega arith, (omega arith, tt)))))),
  ),
)

-- The bytes of a group come out of its digits.
module _ (a b c d e : ℕ) (ha : a < 256) (hb : b < 256) (hc : c < 256) (hd : d < 256)
    (he : e < 256) where
  pack-digits : pack (digits (a ∷ b ∷ c ∷ d ∷ e ∷ [])) ≡ a ∷ b ∷ c ∷ d ∷ e ∷ []
  unfolding pack
  pack-digits = ground arith

  groups-group :
      (text : Bytes)
      → groups [] (map digit (digits (a ∷ b ∷ c ∷ d ∷ e ∷ [])) ++ text)
        ≡ (groups [] text >>= λ more. some (a ∷ b ∷ c ∷ d ∷ e ∷ more))
  groups-group text =
      let seven = a / 8 ∷ e1 a b ∷ b / 2 % 32 ∷ e3 b c ∷ e4 c d ∷ d / 4 % 32 ∷ e6 d e ∷ [] in
      let last : e % 32 < 32 = omega arith in
      let (h0, (h1, (h2, (h3, (h4, (h5, (h6, _))))))) =
        digits-small (a ∷ b ∷ c ∷ d ∷ e ∷ []) (ha, (hb, (hc, (hd, (he, tt))))) in
      groups-digits seven [] (digit (e % 32) ∷ text) (h0, (h1, (h2, (h3, (h4, (h5, (h6, tt)))))))
        (omega arith)
      ∙ groups-full seven (e % 32) text last refl
      ∙ rw pack-digits refl

-- The last group, with the padding behind its digits.
groups-last :
    (x text : Bytes)
    → AreBytes x
    → length (digits x) < 8
    → groups (digits x) text ≡ some (pack (digits x))
    → pack (digits x) ≡ x
    → groups [] (map digit (digits x) ++ text) ≡ some x
groups-last x text h few last packed =
    groups-digits (digits x) [] text (digits-small x h) (omega arith)
    ∙ last
    ∙ ap (λ y. some y) packed

groups-encode : (x : Bytes) → AreBytes x → groups [] (encode x) ≡ some x
unfolding encode groups padded pack nat_eq ℕ_discrete
groups-encode [] h = refl
groups-encode (a ∷ []) h = groups-last (a ∷ []) (pads 6) h (omega arith) refl (ground arith)
groups-encode (a ∷ b ∷ []) h = groups-last (a ∷ b ∷ []) (pads 4) h (omega arith) refl (ground arith)
groups-encode (a ∷ b ∷ c ∷ []) h =
    groups-last (a ∷ b ∷ c ∷ []) (pads 3) h (omega arith) refl (ground arith)
groups-encode (a ∷ b ∷ c ∷ d ∷ []) h =
    groups-last (a ∷ b ∷ c ∷ d ∷ []) (pads 1) h (omega arith) refl (ground arith)
groups-encode (a ∷ b ∷ c ∷ d ∷ e ∷ rest) (ha, (hb, (hc, (hd, (he, h))))) =
    groups-group a b c d e ha hb hc hd he (encode rest) ∙ rw (groups-encode rest h) refl

-- Nothing that `encode` writes is skipped.
strip-digits :
    (ds : List ℕ) (text : Bytes)
    → All (λ n. n < 32) ds
    → strip (map digit ds ++ text) ≡ map digit ds ++ strip text
unfolding strip
strip-digits [] text h = refl
strip-digits (d ∷ ds) text (h, hs) =
    rw (digit-plain d h).0 (ap (λ l. digit d ∷ l) (strip-digits ds text hs))

strip-pads : (n : ℕ) → strip (pads n) ≡ pads n
unfolding strip
strip-pads zero = refl
strip-pads (suc n) = rw (strip-pads n) (ground arith)

strip-encode : (x : Bytes) → AreBytes x → strip (encode x) ≡ encode x
unfolding encode
strip-encode [] h = strip-pads 0
strip-encode (a ∷ []) h =
    strip-digits (digits (a ∷ [])) (pads 6) (digits-small (a ∷ []) h) ∙ rw (strip-pads 6) refl
strip-encode (a ∷ b ∷ []) h =
    strip-digits (digits (a ∷ b ∷ [])) (pads 4) (digits-small (a ∷ b ∷ []) h)
    ∙ rw (strip-pads 4) refl
strip-encode (a ∷ b ∷ c ∷ []) h =
    strip-digits (digits (a ∷ b ∷ c ∷ [])) (pads 3) (digits-small (a ∷ b ∷ c ∷ []) h)
    ∙ rw (strip-pads 3) refl
strip-encode (a ∷ b ∷ c ∷ d ∷ []) h =
    strip-digits (digits (a ∷ b ∷ c ∷ d ∷ [])) (pads 1) (digits-small (a ∷ b ∷ c ∷ d ∷ []) h)
    ∙ rw (strip-pads 1) refl
strip-encode (a ∷ b ∷ c ∷ d ∷ e ∷ rest) (ha, (hb, (hc, (hd, (he, h))))) =
    strip-digits (digits (a ∷ b ∷ c ∷ d ∷ e ∷ [])) (encode rest)
      (digits-small (a ∷ b ∷ c ∷ d ∷ e ∷ []) (ha, (hb, (hc, (hd, (he, tt))))))
    ∙ rw (strip-encode rest h) refl

pub decode-encode : (x : Bytes) → AreBytes x → decode (encode x) ≡ some x
unfolding decode
decode-encode x h = rw (strip-encode x h) (groups-encode x h)
