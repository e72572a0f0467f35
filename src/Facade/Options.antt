-- ===== src/Facade/Options.antt =====
-- `OptDictProcess` and `GetNumBase` of lib/smbusb.c. A string of C is the list of its characters
-- before the final zero.
use smbusb.Prelude.{
  ℕ, ◌-◌, Bool, true, false, ◌&&◌, ◌||◌, not, Option, none, some, List, [], ◌∷◌, ◌++◌, map, length,
  get_or, leb, ◌==◌, cond, if◌then◌else◌,
}

-- `!strcmp(a, b)`
abbrev pub same : List ℕ → List ℕ → Bool
same [] [] = true
same [] (c ∷ b) = false
same (c ∷ a) [] = false
same (c ∷ a) (d ∷ b) = (c == d) && same a b

-- `!strncmp(s, p, n)`, where `n` is the length of `p`, and what follows `p` in `s`.
abbrev pub after_prefix : List ℕ → List ℕ → Option (List ℕ)
after_prefix [] s = some s
after_prefix (c ∷ p) [] = none
after_prefix (c ∷ p) (d ∷ s) = cond (c == d) (after_prefix p s) none

abbrev pub comma : ℕ
comma = 44

abbrev pub equals_sign : ℕ
equals_sign = 61

abbrev flush : List ℕ → List (List ℕ)
flush [] = []
flush (c ∷ current) = (c ∷ current) ∷ []

-- The tokens that `strtok_r` finds; `current` is the one that has begun.
unfoldable pub tokens : ℕ → List ℕ → List ℕ → List (List ℕ)
tokens delimiter current [] = flush current
tokens delimiter current (c ∷ s) =
    if c == delimiter
    then flush current ++ tokens delimiter [] s
    else tokens delimiter (current ++ (c ∷ [])) s

pub record OptDictItem : Type 0 where
  pub key : Option (List ℕ)
  pub val : Option (List ℕ)

abbrev skip : List ℕ → List ℕ
skip [] = []
skip (c ∷ s) = cond (c == equals_sign) (skip s) (c ∷ s)

abbrev until_equals : List ℕ → List ℕ
until_equals [] = []
until_equals (c ∷ s) = cond (c == equals_sign) [] (c ∷ until_equals s)

abbrev from_equals : List ℕ → List ℕ
from_equals [] = []
from_equals (c ∷ s) = cond (c == equals_sign) (c ∷ s) (from_equals s)

abbrev starts_token : List ℕ → Bool
starts_token [] = false
starts_token (c ∷ s) = not (c == equals_sign)

-- The value: a third token is joined to it again, where one sign stands between them.
abbrev joined : List ℕ → List ℕ
joined [] = []
joined (c ∷ s) = cond ((c == equals_sign) && not (starts_token s)) [] (c ∷ joined s)

abbrev non_empty : List ℕ → Option (List ℕ)
non_empty [] = none
non_empty (c ∷ s) = some (c ∷ s)

unfoldable pub item_of : List ℕ → OptDictItem
item_of token = record {
  key = non_empty (until_equals (skip token));
  val = non_empty (joined (skip (from_equals (skip token))));
}

-- `OptDictProcess`, where the memory suffices.
unfoldable pub opt_dict_process : List ℕ → List OptDictItem
opt_dict_process driver_ops = map item_of (tokens comma [] driver_ops)

-- `numStr[i]`: the character behind the last one is zero.
abbrev pub char_at : List ℕ → ℕ → ℕ
char_at num_str i = get_or num_str i 0

unfoldable pub get_num_base : List ℕ → ℕ
get_num_base num_str =
    let len = length num_str in
    let first = char_at num_str 0 in
    let second = char_at num_str 1 in
    let last = char_at num_str (len - 1) in
    if len == 0
    then 10
    else if leb 3 len && (first == 0) && ((second == 120) || (second == 88))
    then 16
    else if leb 3 len && (first == 0) && ((second == 98) || (second == 66))
    then 2
    else if leb 2 len && ((first == 0) && not (last == 104))
    then 8
    else if leb 2 len && (last == 104)
    then 16
    else 10
