-- ===== src/Serve/Spelling.antt =====
-- The switch of serveCommands: how a client may write the name of a command.
use mathlib.Core.List.{reverse-append, reverse-cons, reverse-reverse}
use make_your_own_redis_go.Shared.{
  ℕ, ◌+◌, ◌≤◌, ◌≡◌, ◌⊎◌, refl, sym, ap, ◌∙◌, [], ◌∷◌, ◌++◌, reverse, append-nil, some, Bytes, arith,
}
use make_your_own_redis_go.Text.{is_space, trim_left, trim_space, upper_byte, to_upper}
use make_your_own_redis_go.Geo.{Arithmetic}
use make_your_own_redis_go.Server.{Conn, Library}
use make_your_own_redis_go.Server.Handler.{Handler}
use make_your_own_redis_go.Shared.Dict.{load}
use make_your_own_redis_go.Commands.Geo.{Formats}
use make_your_own_redis_go.Serve.{handlers, run_found, run_line}

abbrev AllBytes : (ℕ → Type 0) → Bytes → Type 0
AllBytes P [] = Unit
AllBytes P (c ∷ s) = P c × AllBytes P s

module _ (P : ℕ → Type 0) where
  AllBytes-append : (s t : Bytes) → AllBytes P s → AllBytes P t → AllBytes P (s ++ t)
  AllBytes-append [] t h k = k
  AllBytes-append (c ∷ s) t h k = (h.0, AllBytes-append s t (h.1) k)

  AllBytes-reverse : (s : Bytes) → AllBytes P s → AllBytes P (reverse s)
  AllBytes-reverse [] h = tt
  AllBytes-reverse (c ∷ s) h =
      rw reverse-cons (AllBytes-append (reverse s) (c ∷ []) (AllBytes-reverse s (h.1)) (h.0, tt))

-- A blank, a tab, or one of the other line and page ends of ASCII.
abbrev pub IsBlank : ℕ → Type 0
IsBlank c = (c ≡ 32) ⊎ ((9 ≤ c) × (c ≤ 13))

abbrev pub AllBlank : Bytes → Type 0
AllBlank s = AllBytes IsBlank s

-- A name of capital letters, each of them written as it is or in lower case.
abbrev pub Spells : Bytes → Bytes → Type 0
Spells [] [] = Unit
Spells [] (n ∷ name) = ⊥
Spells (c ∷ text) [] = ⊥
Spells (c ∷ text) (n ∷ name) = ((65 ≤ n) × (n ≤ 90) × ((c ≡ n) ⊎ (c ≡ n + 32))) × Spells text name

abbrev IsLetter : ℕ → Type 0
IsLetter c = 65 ≤ c

Spells-letters : (text name : Bytes) → Spells text name → AllBytes IsLetter text
Spells-letters [] name h = tt
Spells-letters (c ∷ text) [] h = absurd h
Spells-letters (c ∷ text) (n ∷ name) h = (ground (arith, h.0), Spells-letters text name (h.1))

Spells-upper : (text name : Bytes) → Spells text name → to_upper text ≡ name
unfolding to_upper upper_byte
Spells-upper [] [] h = refl
Spells-upper [] (n ∷ name) h = absurd h
Spells-upper (c ∷ text) [] h = absurd h
Spells-upper (c ∷ text) (n ∷ name) h =
    let first : upper_byte c ≡ n = ground (arith, h.0) in
    rw (first, Spells-upper text name (h.1)) refl

trim_left-blank : (s t : Bytes) → AllBlank s → trim_left (s ++ t) ≡ trim_left t
unfolding trim_left is_space
trim_left-blank [] t h = refl
trim_left-blank (c ∷ s) t h = ground (arith, h.0, trim_left-blank s t (h.1))

trim_left-letters : (s : Bytes) → AllBytes IsLetter s → trim_left s ≡ s
unfolding trim_left is_space
trim_left-letters [] h = refl
trim_left-letters (c ∷ s) h = ground (arith, h.0)

starts_with_letter : (c : ℕ) (s : Bytes) → 65 ≤ c → trim_left (c ∷ s) ≡ c ∷ s
unfolding trim_left is_space
starts_with_letter c s h = ground arith

-- White space behind letters is cut off.
trim_space-blank : (s t : Bytes) → AllBytes IsLetter s → AllBlank t → trim_space (s ++ t) ≡ s
unfolding trim_space
trim_space-blank [] t h k =
    let none : trim_left t ≡ [] = ap trim_left (sym (append-nil t)) ∙ trim_left-blank t [] k in
    rw none refl
trim_space-blank (c ∷ s) t h k =
    let start : trim_left ((c ∷ s) ++ t) ≡ (c ∷ s) ++ t = starts_with_letter c (s ++ t) (h.0) in
    rw
      (
        start,
        reverse-append,
        trim_left-blank (reverse t) (reverse (c ∷ s)) (AllBytes-reverse IsBlank t k),
        trim_left-letters (reverse (c ∷ s)) (AllBytes-reverse IsLetter (c ∷ s) h),
        reverse-reverse,
      )
      refl

-- A name of capital letters may be written in any mix of cases and with any white space behind it, such
-- as the line end: if it has a handler in the switch of serveCommands, the line runs that handler.
pub run_line-Spells :
    (lib : Library) (m : Arithmetic) (formats : Formats) (conn : Conn) (text name blank : Bytes)
    (handler : Handler (Unit {0}))
    → Spells text name
    → AllBlank blank
    → load name (handlers lib m formats conn) ≡ some handler
    → run_line lib m formats conn (text ++ blank) ≡ handler
unfolding run_line run_found
run_line-Spells lib m formats conn text name blank handler h k found =
    rw (trim_space-blank text blank (Spells-letters text name h) k, Spells-upper text name h, found)
      refl
