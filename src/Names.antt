-- ===== src/Names.antt =====
-- The test for a legal name, which ValidName of locks/table.go and leases/table.go and ValidTopic of
-- events/topic.go share in all but their messages. unicode.IsLetter and unicode.IsDigit are the
-- parameter `Unicode`: their tables belong to Go's standard library.
use clusdr.Prelude.{
  ℕ, ◌≡◌, Bool, true, ◌||◌, ◌&&◌, Option, none, some, List, [], ◌∷◌, ◌==◌, leb, if◌then◌else◌, All,
  arith,
}

pub record Unicode : Type 0 where
  pub is_letter : ℕ → Bool
  pub is_digit : ℕ → Bool

-- isTopicChar, and the condition in the loops of both ValidName functions.
unfoldable pub is_name_char : Unicode → ℕ → Bool
is_name_char u r = u.is_letter r || u.is_digit r || r == b'.' || r == b'_' || r == b'-'

-- The first rune at which the loop returns an error.
unfoldable pub first_bad : Unicode → List ℕ → Option ℕ
first_bad u [] = none
first_bad u (r ∷ rs) = if is_name_char u r then first_bad u rs else some r

abbrev pub max_name_len : ℕ
max_name_len = 128

-- The loop passes exactly the names whose runes are all legal.
pub first_bad-none :
    (u : Unicode) (rs : List ℕ) → first_bad u rs ≡ none → All (λ r. is_name_char u r ≡ true) rs
unfolding first_bad
first_bad-none u [] h = tt
first_bad-none u (r ∷ rs) h = ground (arith, first_bad-none u rs)

-- Letters and digits of ASCII alone.
abbrev pub ascii : Unicode
ascii = record {
  is_letter = λ r. (leb b'a' r && leb r b'z') || (leb b'A' r && leb r b'Z');
  is_digit = λ r. leb b'0' r && leb r b'9';
}
