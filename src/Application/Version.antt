-- ===== src/Application/Version.antt =====
-- `detectInPlaceResize`: in-place resize from the version of the API server.
use Prim.Native.Char.{code}
use Prim.Native.String.{String}
use optipod.Prelude.{
  ◌≡◌, ◌↔◌, ◌⊎◌, ℕ, ◌+◌, ◌-◌, ◌*◌, ◌^◌, ℤ, pos, sub_ℕ, ◌≤ℤ◌, ltb_ℤ, eqb_ℤ, ltb, leb, ◌==◌, Bool,
  true, false, not, ◌&&◌, ◌||◌, Option, none, some, Result, ok, err, ◌>>=◌, arith, if◌then◌else◌,
  eq_of_eqb_ℤ,
}

-- The digits of `strconv.Atoi`; `none` is its error.
digits : ℕ → String → Option ℕ
digits n String.[] = some n
digits n (String.◌∷◌ c s) =
    let rest = digits (n * 10 + (code c - b'0')) s in
    if leb b'0' (code c) && leb (code c) b'9' then rest else none

unsigned : String → Option ℕ
unfolding digits
unsigned String.[] = none
unsigned (String.◌∷◌ c s) = digits 0 (String.◌∷◌ c s)

-- Out of the range of int64 it is an error too.
abbrev in_range_pos : Option ℕ → Option ℤ
in_range_pos none = none
in_range_pos (some n) = if ltb n (2 ^ 63) then some (pos n) else none

abbrev in_range_neg : Option ℕ → Option ℤ
in_range_neg none = none
in_range_neg (some n) = if leb n (2 ^ 63) then some (sub_ℕ 0 n) else none

-- `strconv.Atoi`
unfoldable pub atoi : String → Option ℤ
unfolding unsigned
atoi String.[] = none
atoi (String.◌∷◌ c s) =
    if code c == b'-'
    then in_range_neg (unsigned s)
    else if code c == b'+'
    then in_range_pos (unsigned s)
    else in_range_pos (unsigned (String.◌∷◌ c s))

-- `strings.TrimSuffix(s, "+")`
unfoldable pub trim_plus : String → String
trim_plus String.[] = String.[]
trim_plus (String.◌∷◌ c String.[]) = if code c == b'+' then String.[] else String.◌∷◌ c String.[]
trim_plus (String.◌∷◌ c (String.◌∷◌ d s)) = String.◌∷◌ c (trim_plus (String.◌∷◌ d s))

-- `version.Info`, as `ServerVersion` returns it.
pub record VersionInfo : Type 0 where
  pub major : String
  pub minor : String

pub data VersionError : Type 0 where
  version_unknown bad_major bad_minor : VersionError

abbrev or_error : {A : Type 0} → VersionError → Option A → Result VersionError A
or_error e none = err e
or_error e (some a) = ok a

-- The two tests of the source, with the same answer.
supports : ℤ → ℤ → Bool
supports major minor =
    if ltb_ℤ (pos 1) major || (eqb_ℤ major (pos 1) && not (ltb_ℤ minor (pos 33)))
    then true
    else if eqb_ℤ major (pos 1) && not (ltb_ℤ minor (pos 29))
    then true
    else false

unfoldable pub detect_in_place_resize : Option VersionInfo → Result VersionError Bool
unfolding supports
detect_in_place_resize server = do
  info ← or_error version_unknown server
  major ← or_error bad_major (atoi info.major)
  minor ← or_error bad_minor (atoi (trim_plus info.minor))
  ok (supports major minor)

-- With a readable version, in-place resize is reported exactly from version 1.29 on.
pub detect_in_place_resize_lem :
    (v : VersionInfo) (major minor : ℤ)
    → atoi v.major ≡ some major
    → atoi (trim_plus v.minor) ≡ some minor
    → (detect_in_place_resize (some v) ≡ ok true)
      ↔ ((pos 2 ≤ℤ major) ⊎ ((major ≡ pos 1) × (pos 29 ≤ℤ minor)))
unfolding detect_in_place_resize
detect_in_place_resize_lem v major minor h k = ground (arith, eq_of_eqb_ℤ major (pos 1))
