-- ===== src/Rdb/Chunks.antt =====
-- How the RDB file is cut into reads does not matter to LoadRDB.
use Prim.Native.Nat.{bit_and}
use make_your_own_redis_go.Shared.{
  ℕ, zero, suc, ◌/◌, ◌^◌, ◌≡◌, refl, ap, ◌∙◌, subst, Bool, true, false, [], ◌∷◌, Option, none, some,
  Bytes, length, ◌==◌, if◌then◌else◌,
}
use make_your_own_redis_go.Shared.Int.{ℤ}
use make_your_own_redis_go.Reader.{Reader, stream, read_byte, read_full}
use make_your_own_redis_go.Reader.Flat.{Same, Agree, read_byte-Agree, read_full-Agree}
use make_your_own_redis_go.Text.{itoa, itoa_ℤ}
use make_your_own_redis_go.Server.{Server}
use make_your_own_redis_go.Rdb.{
  Length, word_of, read_word, long_length, length_form, length_of, read_length, special_text,
  text_of, read_text, signed_byte, Step, finished, onward, load_value, load_key, load_pair,
  load_expiring, load_entry, load_step, follow, load_loop, load_body, load_rdb, little_endian,
  big_endian, store_until, store_value, unix_milli, unix_seconds,
}

-- A function that treats readers that agree alike treats pairs that agree alike.
through {ℓ κ} :
    {A : Type ℓ} {B : Type κ} (f : A × Reader → B × Reader) (p q : A × Reader)
    → ((a : A) (r t : Reader) → Same r t → Agree (f (a, r)) (f (a, t)))
    → Agree p q
    → Agree (f p) (f q)
through f p q k h = subst (λ a. Agree (f (p.0, p.1)) (f (a, q.1))) h.0 (k p.0 p.1 q.1 h.1)

Agree-if {ℓ} :
    {A : Type ℓ} (c : Bool) (x x' y y' : A × Reader)
    → Agree x x'
    → Agree y y'
    → Agree (if c then x else y) (if c then x' else y')
Agree-if true x x' y y' h k = h
Agree-if false x x' y y' h k = k

module _ (r q : Reader) (same : Same r q) where
  read_word-Agree : (order : Bytes → ℕ) (n : ℕ) → Agree (read_word order n r) (read_word order n q)
  unfolding read_word
  read_word-Agree order n =
      let bytes = read_full-Agree n r q same in (ap (word_of order) bytes.0, bytes.1)

  long_length-Agree :
      (value : ℕ) (o : Option ℕ) → Agree (long_length value (o, r)) (long_length value (o, q))
  unfolding long_length
  long_length-Agree value none = (refl, same)
  long_length-Agree value (some b) = (refl, same)

  special_text-Agree : (n : ℕ) → Agree (special_text n r) (special_text n q)
  unfolding special_text
  special_text-Agree n =
      let byte = read_word-Agree little_endian 1 in
      let word = read_word-Agree little_endian 2 in
      let long = read_word-Agree little_endian 4 in
      Agree-if (n == 0) _ _ _ _ (ap (λ v. some (itoa_ℤ (signed_byte v))) byte.0, byte.1)
        (Agree-if (n == 1) _ _ _ _ (ap (λ v. some (itoa v)) word.0, word.1)
          (Agree-if (n == 2) _ _ _ _ (ap (λ v. some (itoa v)) long.0, long.1)
            (read_full-Agree n r q same)))

  text_of-Agree : (o : Length) → Agree (text_of (o, r)) (text_of (o, q))
  unfolding text_of
  text_of-Agree none = (refl, same)
  text_of-Agree (some (n, true)) = special_text-Agree n
  text_of-Agree (some (n, false)) = read_full-Agree n r q same

length_form-Agree :
    (format value : ℕ) (r q : Reader)
    → Same r q
    → Agree (length_form format value r) (length_form format value q)
unfolding length_form
length_form-Agree format value r q same =
    let word = read_word-Agree r q same big_endian 4 in
    Agree-if (format == 0) _ _ _ _ (refl, same)
      (Agree-if (format == 1) _ _ _ _
        (through (long_length value) (read_byte r) (read_byte q)
          (λ o t u h. long_length-Agree t u h value o) (read_byte-Agree r q same))
        (Agree-if (format == 2) _ _ _ _ (ap (λ v. some (v, false)) word.0, word.1)
          (Agree-if (format == 3) _ _ _ _ (refl, same) (refl, same))))

length_of-Agree :
    (o : Option ℕ) (r q : Reader) → Same r q → Agree (length_of (o, r)) (length_of (o, q))
unfolding length_of
length_of-Agree none r q same = (refl, same)
length_of-Agree (some b) r q same =
    length_form-Agree (bit_and b 0xC0 / 2 ^ 6) (bit_and b 0x3F) r q same

read_length-Agree : (r q : Reader) → Same r q → Agree (read_length r) (read_length q)
unfolding read_length
read_length-Agree r q same =
    through length_of (read_byte r) (read_byte q) length_of-Agree (read_byte-Agree r q same)

read_text-Agree : (r q : Reader) → Same r q → Agree (read_text r) (read_text q)
unfolding read_text
read_text-Agree r q same =
    through text_of (read_length r) (read_length q) (λ o t u h. text_of-Agree t u h o)
      (read_length-Agree r q same)

-- Two rounds that come to the same.
abbrev SameStep : Step → Step → Type 0
SameStep (finished s) (finished t) = s ≡ t
SameStep (onward r s) (onward q t) = Same r q × (s ≡ t)
SameStep (finished s) (onward q t) = ⊥
SameStep (onward r s) (finished t) = ⊥

SameStep-if :
    (c : Bool) (x x' y y' : Step)
    → SameStep x x'
    → SameStep y y'
    → SameStep (if c then x else y) (if c then x' else y')
SameStep-if true x x' y y' h k = h
SameStep-if false x x' y y' h k = k

-- The same for a function into rounds.
to_step {ℓ} :
    {A : Type ℓ} (f : A × Reader → Step) (p q : A × Reader)
    → ((a : A) (r t : Reader) → Same r t → SameStep (f (a, r)) (f (a, t)))
    → Agree p q
    → SameStep (f p) (f q)
to_step f p q k h = subst (λ a. SameStep (f (p.0, p.1)) (f (a, q.1))) h.0 (k p.0 p.1 q.1 h.1)

module _ (keep : Bytes → Bytes → Server → Server) where
  load_value-SameStep :
      (key : Bytes) (s : Server) (o : Option Bytes) (r q : Reader)
      → Same r q
      → SameStep (load_value keep key (o, r) s) (load_value keep key (o, q) s)
  unfolding load_value
  load_value-SameStep key s none r q same = refl
  load_value-SameStep key s (some val) r q same = (same, refl)

  load_key-SameStep :
      (s : Server) (o : Option Bytes) (r q : Reader)
      → Same r q
      → SameStep (load_key keep (o, r) s) (load_key keep (o, q) s)
  unfolding load_key
  load_key-SameStep s none r q same = refl
  load_key-SameStep s (some key) r q same =
      to_step (λ p. load_value keep key p s) (read_text r) (read_text q) (load_value-SameStep key s)
        (read_text-Agree r q same)

  load_pair-SameStep :
      (r q : Reader) (s : Server) → Same r q → SameStep (load_pair keep r s) (load_pair keep q s)
  unfolding load_pair
  load_pair-SameStep r q s same =
      to_step (λ p. load_key keep p s) (read_text r) (read_text q) (load_key-SameStep s)
        (read_text-Agree r q same)

load_expiring-SameStep :
    (unix : ℕ → ℤ) (r q : Reader) (s : Server)
    → Same r q
    → SameStep (load_expiring unix r s) (load_expiring unix q s)
unfolding load_expiring
load_expiring-SameStep unix r q s same =
    let time = read_word-Agree r q same little_endian 8 in
    let kind =
      read_byte-Agree (read_word little_endian 8 r).1 (read_word little_endian 8 q).1 time.1 in
    subst
      (λ v.
        SameStep
          (load_pair (store_until (unix (read_word little_endian 8 r).0))
            (read_byte (read_word little_endian 8 r).1).1 s)
          (load_pair (store_until (unix v)) (read_byte (read_word little_endian 8 q).1).1 s))
      (time.0)
      (load_pair-SameStep (store_until (unix (read_word little_endian 8 r).0)) _ _ s kind.1)

load_entry-SameStep :
    (s : Server) (b : ℕ) (r q : Reader) → Same r q → SameStep (load_entry b r s) (load_entry b q s)
unfolding load_entry
load_entry-SameStep s b r q same =
    let text = read_text-Agree r q same in
    let number = read_length-Agree r q same in
    SameStep-if (b == 0xFF) _ _ _ _ refl (
      SameStep-if (b == 0xFA) _ _ _ _ ((read_text-Agree _ _ text.1).1, refl)
        (SameStep-if (b == 0xFE) _ _ _ _ (number.1, refl)
          (SameStep-if (b == 0xFB) _ _ _ _ ((read_length-Agree _ _ number.1).1, refl)
            (SameStep-if (b == 0xFC) _ _ _ _ (load_expiring-SameStep unix_milli r q s same) (
              SameStep-if (b == 0xFD) _ _ _ _ (load_expiring-SameStep unix_seconds r q s same)
                (load_pair-SameStep store_value r q s same))))))

load_step-SameStep :
    (s : Server) (o : Option ℕ) (r q : Reader)
    → Same r q
    → SameStep (load_step (o, r) s) (load_step (o, q) s)
unfolding load_step
load_step-SameStep s none r q same = refl
load_step-SameStep s (some b) r q same = load_entry-SameStep s b r q same

follow-SameStep :
    (x y : Step) (next : Reader → Server → Option Server)
    → SameStep x y
    → ((r q : Reader) (s : Server) → Same r q → next r s ≡ next q s)
    → follow x next ≡ follow y next
unfolding follow
follow-SameStep (finished s) (finished t) next h k = ap some h
follow-SameStep (finished s) (onward q t) next h k = absurd h
follow-SameStep (onward r s) (finished t) next h k = absurd h
follow-SameStep (onward r s) (onward q t) next h k = k r q s h.0 ∙ ap (next q) h.1

load_loop-Agree :
    (fuel : ℕ) (r q : Reader) (s : Server) → Same r q → load_loop fuel r s ≡ load_loop fuel q s
unfolding load_loop
load_loop-Agree zero r q s same = refl
load_loop-Agree (suc fuel) r q s same =
    follow-SameStep (load_step (read_byte r) s) (load_step (read_byte q) s) (load_loop fuel)
      (to_step (λ p. load_step p s) (read_byte r) (read_byte q) (load_step-SameStep s)
        (read_byte-Agree r q same))
      (λ t u v h. load_loop-Agree fuel t u v h)

load_body-Agree :
    (s : Server) (o : Option Bytes) (r q : Reader)
    → Same r q
    → load_body (o, r) s ≡ load_body (o, q) s
unfolding load_body
load_body-Agree s none r q same = refl
load_body-Agree s (some header) r q same =
    load_loop-Agree (suc (length (stream r))) r q s same
    ∙ ap (λ t. load_loop (suc (length t)) q s) (same.0)

-- LoadRDB does the same on every two readers of the same file, however the reads cut it.
pub load_rdb-Agree :
    (dir filename : Bytes) (r q : Reader) (s : Server)
    → Same r q
    → load_rdb dir filename (some r) s ≡ load_rdb dir filename (some q) s
unfolding load_rdb
load_rdb-Agree [] filename r q s same = refl
load_rdb-Agree (c ∷ dir) [] r q s same = refl
load_rdb-Agree (c ∷ dir) (d ∷ filename) r q s same =
    let header = read_full-Agree 9 r q same in
    subst (λ o. load_body (read_full 9 r) s ≡ load_body (o, (read_full 9 q).1) s) header.0
      (load_body-Agree s (read_full 9 r).0 (read_full 9 r).1 (read_full 9 q).1 header.1)
