-- ===== src/Str/Words.antt =====
-- `str::split_whitespace`: the words between the characters of Unicode's White_Space.
use tmi_rs.Prelude.{
  ℕ, zero, suc, ◌-◌, Bool, ◌&&◌, ◌||◌, List, [], ◌∷◌, ◌++◌, Option, leb, ◌==◌, if◌then◌else◌,
  get_elem?,
}
use tmi_rs.Str.{Str}

within : ℕ → ℕ → ℕ → Bool
within lo hi c = leb lo c && leb c hi

wide_space : ℕ → ℕ → ℕ → Bool
unfolding within
wide_space a b c =
    (a == 0xe1 && (b == 0x9a && c == 0x80))
    || ((a == 0xe2
          && (b == 0x80 && (within 0x80 0x8a c || (c == 0xa8 || (c == 0xa9 || c == 0xaf)))))
        || ((a == 0xe2 && (b == 0x81 && c == 0x9f)) || (a == 0xe3 && (b == 0x80 && c == 0x80))))

-- How many bytes of a white space character the text begins with.
unfoldable pub whitespace_len : Str → ℕ
unfolding within wide_space
whitespace_len [] = 0
whitespace_len (a ∷ []) = if within 9 13 a || a == 32 then 1 else 0
whitespace_len (a ∷ b ∷ []) =
    if within 9 13 a || a == 32 then 1 else if a == 0xc2 && (b == 0x85 || b == 0xa0) then 2 else 0
whitespace_len (a ∷ b ∷ c ∷ s) =
    if within 9 13 a || a == 32
    then 1
    else if a == 0xc2 && (b == 0x85 || b == 0xa0)
    then 2
    else if wide_space a b c
    then 3
    else 0

keep_word : Str → List Str → List Str
keep_word [] rest = rest
keep_word (c ∷ cs) rest = (c ∷ cs) ∷ rest

-- `skip` bytes still belong to a white space character, and `cur` is the word so far.
words_from : Str → ℕ → Str → List Str
words_from [] skip cur = keep_word cur []
words_from (c ∷ s) (suc skip) cur = words_from s skip cur
words_from (c ∷ s) zero cur =
    let n = whitespace_len (c ∷ s) in
    let rest = words_from s (n - 1) (if n == 0 then cur ++ c ∷ [] else []) in
    if n == 0 then rest else keep_word cur rest

unfoldable pub split_whitespace : Str → List Str
unfolding words_from keep_word whitespace_len
split_whitespace s = words_from s 0 []

-- `split_whitespace().nth(n)`
unfoldable pub nth_word : Str → ℕ → Option Str
unfolding split_whitespace
nth_word s n = get_elem? (split_whitespace s) n
