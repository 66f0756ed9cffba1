-- ===== src/Startup/Manifest.antt =====
-- The manifest that main writes at its first start names the file that it opens at the next.
use make_your_own_redis_go.Shared.{
  ℕ, ◌≡◌, ◌≢◌, refl, sym, ◌∙◌, ap, true, false, [], ◌∷◌, ◌++◌, append_assoc, append-nil, Bytes,
  codes, arith, line_feed, Lacks, Lacks-append, beq,
}
use make_your_own_redis_go.Text.{is_space}
use make_your_own_redis_go.Text.Words.{
  split, contains_text, push_word, scan_words, fields, split-part, contains_text-append, IsWord,
  scan_words-append,
}
use make_your_own_redis_go.Startup.{active_file, manifest_text}

word-one_line : (s : Bytes) → IsWord s → Lacks line_feed s
word-one_line [] h = tt
word-one_line (c ∷ s) h = (no_feed c h.0, word-one_line s h.1)
  where
    no_feed : (b : ℕ) → is_space b ≡ false → b ≢ line_feed
    no_feed b e = unfold is_space in ground arith

module _ (c : ℕ) (name : Bytes) (word : IsWord (c ∷ name)) where
  abbrev first_line : Bytes
  first_line = codes "file " ++ ((c ∷ name) ++ codes " seq 1 type i")

  manifest_lines : split line_feed (manifest_text (c ∷ name)) ≡ first_line ∷ [] ∷ []
  unfolding manifest_text
  manifest_lines =
      ap (λ t. split line_feed (codes "file " ++ t))
        (sym (append_assoc (c ∷ name) (codes " seq 1 type i") (line_feed ∷ [])))
      ∙ (split-part line_feed first_line [] line_Lacks ∙ unfold split in refl)
    where
      line_Lacks : Lacks line_feed first_line
      line_Lacks =
          Lacks-append line_feed (codes "file ") ((c ∷ name) ++ codes " seq 1 type i") (omega arith)
            (Lacks-append line_feed (c ∷ name) (codes " seq 1 type i")
              (word-one_line (c ∷ name) word) (omega arith))

  line_type : contains_text (codes "type i") first_line ≡ true
  line_type =
      contains_text-append (codes "type i") (codes "file " ++ (c ∷ name)) (codes " seq 1 type i")
        (unfold contains_text in refl)

  line_fields :
      fields first_line
      ≡ codes "file" ∷ (c ∷ name) ∷ codes "seq" ∷ codes "1" ∷ codes "type" ∷ codes "i" ∷ []
  unfolding fields scan_words push_word
  line_fields = rw (scan_words-append (c ∷ name) (codes " seq 1 type i") word, append-nil) refl

  -- A name without white space is found again.
  pub active_file-manifest_text :
      active_file (split line_feed (manifest_text (c ∷ name))) ≡ c ∷ name
  unfolding active_file beq
  active_file-manifest_text = rw (manifest_lines, line_type, line_fields) refl
