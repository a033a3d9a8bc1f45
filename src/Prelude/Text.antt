-- ===== src/Prelude/Text.antt =====
-- Text: names are native strings, compared whole; the prefix of an event type or of a lease name is
-- taken off character by character.
use Prim.Native.Nat.{ℕ, ◌+◌}
use Prim.Native.Char.{Char, code}
use Prim.Native.String.{String}
use mathlib.Core.Path.{◌≡◌, refl}
use mathlib.Core.Logic.{◌↔◌, ◌≢◌, inl, inr}
use mathlib.Core.HLevel.{hedberg}
use mathlib.Core.Bool.{Bool, true, false}
use mathlib.Core.Option.{Option, none, some}
use mathlib.Core.List.{List, [], ◌∷◌}
use native.Mathlib.Omega.{arith}
use text.Mathlib.Text.{◌==◌ as string_eq}
use text.Mathlib.TextEquality.{eq_iff, codes_equal}
use text.Mathlib.TextPositions.{eq_refl}
use clusdr.Prelude.Tests.{ltb, ◌==◌, if◌then◌else◌, Bool-cases}

abbrev pub str_eq : String → String → Bool
str_eq s t = string_eq s t

pub str_eq_iff : (s t : String) → (str_eq s t ≡ true) ↔ (s ≡ t)
str_eq_iff s t = eq_iff s t

pub str_eq_refl : (s : String) → str_eq s s ≡ true
str_eq_refl s = eq_refl s

-- The runes of a text.
abbrev pub codes : String → List ℕ
codes String.[] = []
codes (String.◌∷◌ c s) = code c ∷ codes s

-- The bytes that a rune takes in UTF-8.
abbrev pub rune_len : ℕ → ℕ
rune_len c = if ltb c 128 then 1 else if ltb c 2048 then 2 else if ltb c 65536 then 3 else 4

-- `len(s)`: the bytes of the text.
unfoldable pub byte_len : List ℕ → ℕ
byte_len [] = 0
byte_len (c ∷ cs) = rune_len c + byte_len cs

-- `p + s`.
unfoldable pub join : String → String → String
join String.[] s = s
join (String.◌∷◌ c p) s = String.◌∷◌ c (join p s)

-- What is left of a text behind a prefix, if it has it.
unfoldable pub strip_prefix : String → String → Option String
strip_prefix String.[] s = some s
strip_prefix (String.◌∷◌ c p) String.[] = none
strip_prefix (String.◌∷◌ c p) (String.◌∷◌ d s) = if code c == code d then strip_prefix p s else none

pub strip_prefix-join : (p s : String) → strip_prefix p (join p s) ≡ some s
unfolding strip_prefix join
strip_prefix-join String.[] s = refl
strip_prefix-join (String.◌∷◌ c p) s = ground (arith, strip_prefix-join p s)

codes_path : (c d : Char) → (code c == code d) ≡ true → c ≡ d
codes_path c d h = codes_equal c d (ground arith)

pub join-strip_prefix : (p s r : String) → strip_prefix p s ≡ some r → s ≡ join p r
unfolding strip_prefix join
join-strip_prefix String.[] s r h = ground arith
join-strip_prefix (String.◌∷◌ c p) String.[] r h = ground arith
join-strip_prefix (String.◌∷◌ c p) (String.◌∷◌ d s) r h =
    ground (arith, codes_path c d, join-strip_prefix p s r)

pub str_ne : (s t : String) → str_eq s t ≡ false → s ≢ t
str_ne s t h e = ground (arith, str_eq_iff s t)

pub ne_str : (s t : String) → s ≢ t → str_eq s t ≡ false
ne_str s t n = elim (Bool-cases (str_eq s t)) [
  | inl b ↦ absurd (n ((str_eq_iff s t).0 b))
  | inr b ↦ b
]

String-discrete : Discrete String
String-discrete s t = elim (Bool-cases (str_eq s t)) [
  | inl b ↦ yes ((str_eq_iff s t).0 b)
  | inr b ↦ no (str_ne s t b)
]

pub String-set : IsSet String
String-set = hedberg String-discrete
