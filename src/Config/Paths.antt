-- ===== src/Config/Paths.antt =====
-- What the validator asks of strings.TrimSpace, strings.ToLower and filepath.Clean (of Unix).
use cluster_db.Prelude.{ℕ, ◌+◌, ◌-◌, Bool, false, not, ◌&&◌, ◌||◌, Option, none, some}
use cluster_db.Prelude.{List, [], ◌∷◌, length, leb, ◌==◌, if◌then◌else◌}
use cluster_db.Prelude.Split.{split}
use cluster_db.Prelude.Bytes.{Bytes, text, bytes_eq}

-- The spaces of one, two and three bytes that unicode.IsSpace has.
abbrev is_space : ℕ → Bool
is_space c = leb 9 c && leb c 13 || c == 32

abbrev is_space2 : ℕ → ℕ → Bool
is_space2 a b = a == 194 && (b == 133 || b == 160)

abbrev is_space3 : ℕ → ℕ → ℕ → Bool
is_space3 a b c =
    a == 225 && b == 154 && c == 128
    || a == 226 && b == 128 && (leb 128 c && leb c 138 || c == 168 || c == 169 || c == 175)
    || a == 226 && b == 129 && c == 159
    || a == 227 && b == 128 && c == 128

-- The bytes of an unfinished space after one more byte, unless no space goes on so.
abbrev blank_step : Bytes → ℕ → Option Bytes
blank_step [] c = some (if is_space c then [] else c ∷ [])
blank_step (a ∷ []) c = some (if is_space2 a c then [] else a ∷ c ∷ [])
blank_step (a ∷ b ∷ more) c = if is_space3 a b c then some [] else none

blank_from : Bytes → Bytes → Bool
blank_from pending [] = length pending == 0
blank_from pending (c ∷ s) = elim (blank_step pending c) [ none ↦ false | some q ↦ blank_from q s ]

-- Whether TrimSpace leaves nothing of a string: it is spaces only.
unfoldable pub is_blank : Bytes → Bool
unfolding blank_from
is_blank s = blank_from [] s

abbrev lower : ℕ → ℕ
lower c = if leb 65 c && leb c 90 then c + 32 else c

-- ToLower, as far as it can give an ASCII text: the capitals, and the two runes outside ASCII whose
-- lower case is in it (U+0130 and U+212A). Any other rune keeps a byte outside ASCII.
abbrev lower_onto : ℕ → Bytes → Bytes
lower_onto c [] = lower c ∷ []
lower_onto c (a ∷ []) = if c == 196 && a == 176 then b'i' ∷ [] else lower c ∷ a ∷ []
lower_onto c (a ∷ b ∷ t) =
    if c == 196 && a == 176
    then b'i' ∷ b ∷ t
    else if c == 226 && a == 132 && b == 170
    then b'k' ∷ t
    else lower c ∷ a ∷ b ∷ t

unfoldable pub to_lower : Bytes → Bytes
to_lower [] = []
to_lower (c ∷ s) = lower_onto c (to_lower s)

-- How many elements Clean keeps of the parts; a ".." that nothing stands before stays, unless the
-- path is rooted, and no later ".." takes it away. `fixed` counts those.
abbrev keep_part : Bool → ℕ × ℕ → Bytes → ℕ × ℕ
keep_part rooted (fixed, depth) p =
    if length p == 0 || bytes_eq p (text ".")
    then (fixed, depth)
    else if not (bytes_eq p (text ".."))
    then (fixed, depth + 1)
    else if not (depth == 0)
    then (fixed, depth - 1)
    else if rooted
    then (fixed, depth)
    else (fixed + 1, depth)

unfoldable pub kept : Bool → ℕ × ℕ → List Bytes → ℕ
kept rooted (fixed, depth) [] = fixed + depth
kept rooted state (p ∷ ps) = kept rooted (keep_part rooted state p) ps

abbrev is_rooted : Bytes → Bool
is_rooted [] = false
is_rooted (c ∷ s) = c == b'/'

-- Whether Clean gives "." or "/".
unfoldable pub cleans_to_root : Bytes → Bool
cleans_to_root path = kept (is_rooted path) (0, 0) (split b'/' path) == 0
