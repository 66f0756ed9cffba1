-- ===== src/Text/Trim.antt =====
-- What TrimSpace leaves of an argument and its line end.
use mathlib.Core.List.{reverse-append}
use make_your_own_redis_go.Shared.{
  ◌≡◌, ◌⊎◌, refl, [], ◌∷◌, ◌++◌, append_assoc, ◌∙◌, Bytes, arith, inl, inr, crlf, Bool-cases,
  line_feed,
}
use make_your_own_redis_go.Text.{is_space, trim_left, trim_space}

-- No white space stands at either end.
abbrev pub IsTrimmed : Bytes → Type 0
IsTrimmed s = trim_space s ≡ s

trim_left-crlf : (s : Bytes) → (trim_left s ≡ []) ⊎ (trim_left (s ++ crlf) ≡ trim_left s ++ crlf)
unfolding trim_left
trim_left-crlf [] = inl refl
trim_left-crlf (c ∷ s) = elim (Bool-cases (is_space c)) [
  | inl e ↦ rw e (trim_left-crlf s)
  | inr e ↦ rw e (inr refl)
]

trim_left-crlf_nil : (s : Bytes) → trim_left s ≡ [] → trim_left (s ++ crlf) ≡ []
unfolding trim_left
trim_left-crlf_nil [] h = refl
trim_left-crlf_nil (c ∷ s) h = ground (arith, trim_left-crlf_nil s)

-- The line end is white space.
pub trim_space-crlf : (s : Bytes) → trim_space (s ++ crlf) ≡ trim_space s
trim_space-crlf s = elim (trim_left-crlf s) [
  | inl e ↦ unfold trim_space in rw (e, trim_left-crlf_nil s e)
  | inr e ↦ unfold trim_space in rw (e, reverse-append) refl
]

-- What ReadString returns of an argument, behind the carriage return that it ends with.
pub trim_space-line : (s : Bytes) → IsTrimmed s → trim_space ((s ++ 13 ∷ []) ++ line_feed ∷ []) ≡ s
trim_space-line s h = rw append_assoc (trim_space-crlf s ∙ h)
