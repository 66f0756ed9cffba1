-- ===== src/Text/Words.antt =====
-- strings.Split by one byte, strings.Contains and strings.Fields on ASCII bytes.
use make_your_own_redis_go.Shared.{
  ℕ, ◌≡◌, refl, Bool, true, false, ◌&&◌, ◌||◌, List, [], ◌∷◌, ◌++◌, Bytes, arith, if◌then◌else◌,
  ◌==◌, Lacks,
}
use make_your_own_redis_go.Text.{is_space}

-- A byte before the first part.
unfoldable pub put_first : ℕ → List Bytes → List Bytes
put_first c [] = (c ∷ []) ∷ []
put_first c (part ∷ parts) = (c ∷ part) ∷ parts

-- strings.Split(s, sep)
unfoldable pub split : ℕ → Bytes → List Bytes
unfolding put_first
split sep [] = [] ∷ []
split sep (c ∷ s) = let parts = split sep s in if c == sep then [] ∷ parts else put_first c parts

unfoldable pub starts_with : Bytes → Bytes → Bool
starts_with [] s = true
starts_with (a ∷ sub) [] = false
starts_with (a ∷ sub) (c ∷ s) = a == c && starts_with sub s

-- strings.Contains(s, sub)
unfoldable pub contains_text : Bytes → Bytes → Bool
unfolding starts_with
contains_text sub [] = starts_with sub []
contains_text sub (c ∷ s) = starts_with sub (c ∷ s) || contains_text sub s

unfoldable pub push_word : Bytes → List Bytes → List Bytes
push_word [] ws = ws
push_word (c ∷ w) ws = (c ∷ w) ∷ ws

-- The word that a text begins with, which may be empty, and the words behind it.
unfoldable pub scan_words : Bytes → Bytes × List Bytes
unfolding push_word is_space
scan_words [] = ([], [])
scan_words (c ∷ s) =
    let more = scan_words s in
    if is_space c then ([], push_word more.0 more.1) else (c ∷ more.0, more.1)

-- strings.Fields
unfoldable pub fields : Bytes → List Bytes
unfolding scan_words
fields s = push_word (scan_words s).0 (scan_words s).1

pub split-part : (sep : ℕ) (l t : Bytes) → Lacks sep l → split sep (l ++ sep ∷ t) ≡ l ∷ split sep t
unfolding split
split-part sep [] t h = ground arith
split-part sep (c ∷ l) t h = ground (arith, split-part sep l t h.1)

pub contains_text-append :
    (sub a b : Bytes) → contains_text sub b ≡ true → contains_text sub (a ++ b) ≡ true
unfolding contains_text
contains_text-append sub [] b h = h
contains_text-append sub (c ∷ a) b h = ground (arith, contains_text-append sub a b)

-- No white space.
abbrev pub IsWord : Bytes → Type 0
IsWord [] = Unit
IsWord (c ∷ s) = (is_space c ≡ false) × IsWord s

pub scan_words-append :
    (w s : Bytes) → IsWord w → scan_words (w ++ s) ≡ (w ++ (scan_words s).0, (scan_words s).1)
unfolding scan_words
scan_words-append [] s h = refl
scan_words-append (c ∷ w) s h = rw (h.0, scan_words-append w s h.1) refl
