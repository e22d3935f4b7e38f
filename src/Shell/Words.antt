-- ===== src/Shell/Words.antt =====
-- shell.go: `Run` hands its arguments to the shell by double quotes. The words are read back here as
-- POSIX says that a shell reads words in double quotes.
use mathlib.Core.Path.{subst}
use zygote.Common.{
  ℕ, ◌<◌, ◌≤◌, Bool, true, false, ◌||◌, Option, none, some, List, [], ◌∷◌, ◌++◌, map, if◌then◌else◌,
  leb, ◌==◌, Bytes, All, ◌≡◌, ◌≢◌, refl, ap, ◌∙◌, arith, append_assoc, append-nil, sym, Bool-cases,
  inl, inr, ==_iff,
}
use zygote.Strings.{join}
use zygote.Shell.{quote_byte, quoted_bytes, quote, command_line}

-- Where the reading of a line stands: before a word, in its quotes, after a backslash, after the word.
pub data Mode : Type 0 where
  before inside escaped after : Mode

push_byte : ℕ → Option (List Bytes) → Option (List Bytes)
push_byte c none = none
push_byte c (some []) = none
push_byte c (some (w ∷ ws)) = some ((c ∷ w) ∷ ws)

push_word : Option (List Bytes) → Option (List Bytes)
push_word none = none
push_word (some ws) = some ([] ∷ ws)

-- The bytes that a backslash takes their meaning from.
abbrev is_special : ℕ → Bool
is_special c = c == b'$' || c == 96 || c == b'"' || c == 92

scan : Mode → Bytes → Option (List Bytes)
unfolding push_byte push_word
scan before [] = none
scan before (c ∷ s) = let rest = scan inside s in if c == b'"' then rest else none
scan inside [] = none
scan inside (c ∷ s) =
    let closing = push_word (scan after s) in
    let escape = scan escaped s in
    let plain = push_byte c (scan inside s) in
    if c == b'"'
    then closing
    else if c == 92
    then escape
    else if c == b'$' || c == 96
    then none
    else plain
scan escaped [] = none
scan escaped (c ∷ s) =
    let plain = push_byte c (scan inside s) in
    let kept = push_byte 92 (push_byte c (scan inside s)) in
    let joined = scan inside s in if is_special c then plain else if c == 10 then joined else kept
scan after [] = some []
scan after (c ∷ s) = let rest = scan before s in if c == b' ' then rest else none

-- The words of a line of words in double quotes that one space separates. A parameter or a command in
-- the quotes would be expanded, which is `none`.
unfoldable pub sh_words : Bytes → Option (List Bytes)
unfolding scan
sh_words = scan before

-- A printed byte of ASCII that is not expanded in double quotes.
abbrev pub IsPlain : ℕ → Type 0
IsPlain c = (32 ≤ c) × (c < 127) × (c ≢ b'$') × (c ≢ 96)

quote_byte-plain :
    (c : ℕ) → IsPlain c → (c == b'"') ≡ false → (c == 92) ≡ false → quote_byte c ≡ c ∷ []
unfolding quote_byte
quote_byte-plain c (low, high, _, _) p q =
    let t : leb 32 c ≡ true = ground arith in
    let n : (c == 127) ≡ false = ground arith in rw (p, q, t, n)

scan-plain :
    (c : ℕ) (s : Bytes)
    → IsPlain c
    → (c == b'"') ≡ false
    → (c == 92) ≡ false
    → scan inside (c ∷ s) ≡ push_byte c (scan inside s)
unfolding scan
scan-plain c s (_, _, dollar, tick) p q =
    let d : (c == b'$') ≡ false = ground arith in
    let t : (c == 96) ≡ false = ground arith in rw (p, q, d, t)

scan-quote : (s : Bytes) → scan inside (quote_byte b'"' ++ s) ≡ push_byte b'"' (scan inside s)
unfolding scan quote_byte
scan-quote s = refl

scan-backslash : (s : Bytes) → scan inside (quote_byte 92 ++ s) ≡ push_byte 92 (scan inside s)
unfolding scan quote_byte
scan-backslash s = refl

scan-byte :
    (c : ℕ) (s : Bytes) → IsPlain c → scan inside (quote_byte c ++ s) ≡ push_byte c (scan inside s)
scan-byte c s h = elim (Bool-cases (c == b'"')) [
  | inl hit ↦
      let e : c ≡ b'"' = (==_iff c b'"').0 hit in
      subst (λ d. scan inside (quote_byte d ++ s) ≡ push_byte d (scan inside s)) (sym e)
        (scan-quote s)
  | inr miss ↦ elim (Bool-cases (c == 92)) [
    | inl hit ↦
        let e : c ≡ 92 = (==_iff c 92).0 hit in
        subst (λ d. scan inside (quote_byte d ++ s) ≡ push_byte d (scan inside s)) (sym e)
          (scan-backslash s)
    | inr off ↦
        ap (λ l. scan inside (l ++ s)) (quote_byte-plain c h miss off) ∙ scan-plain c s h miss off
  ]
]

scan-end : (s : Bytes) → scan inside (b'"' ∷ s) ≡ push_word (scan after s)
unfolding scan
scan-end s = refl

scan-bytes :
    (w s : Bytes) (ws : List Bytes)
    → All IsPlain w
    → scan after s ≡ some ws
    → scan inside (quoted_bytes w ++ b'"' ∷ s) ≡ some (w ∷ ws)
unfolding quoted_bytes push_word push_byte
scan-bytes [] s ws h e = scan-end s ∙ ap push_word e
scan-bytes (c ∷ w) s ws (h, hs) e =
    ap (scan inside) (append_assoc (quote_byte c) (quoted_bytes w) (b'"' ∷ s))
    ∙ scan-byte c (quoted_bytes w ++ b'"' ∷ s) h
    ∙ ap (push_byte c) (scan-bytes w s ws hs e)

-- A quoted word, and what follows it.
scan-word :
    (w s : Bytes) (ws : List Bytes)
    → All IsPlain w
    → scan after s ≡ some ws
    → scan before (quote w ++ s) ≡ some (w ∷ ws)
unfolding quote scan
scan-word w s ws h e =
    ap (scan inside) (append_assoc (quoted_bytes w) (b'"' ∷ []) s) ∙ scan-bytes w s ws h e

scan-after_none : scan after [] ≡ some []
unfolding scan
scan-after_none = refl

scan-after_space : (s : Bytes) → scan after (b' ' ∷ s) ≡ scan before s
unfolding scan
scan-after_space s = refl

scan-words :
    (w : Bytes) (ws : List Bytes)
    → All (All IsPlain) (w ∷ ws)
    → scan before (join (map quote (w ∷ ws)) (b' ' ∷ [])) ≡ some (w ∷ ws)
unfolding join
scan-words w [] (h, hs) =
    ap (scan before) (sym (append-nil (quote w))) ∙ scan-word w [] [] h scan-after_none
scan-words w (v ∷ ws) (h, hs) =
    let rest = join (map quote (v ∷ ws)) (b' ' ∷ []) in
    ap (scan before) (append_assoc (quote w) (b' ' ∷ []) rest)
    ∙ scan-word w (b' ' ∷ rest) (v ∷ ws) h (scan-after_space rest ∙ scan-words v ws hs)

-- The shell reads back from the line of `Run` the arguments that it was made of, in their order and
-- unchanged, if there is one at least and each of their bytes is a printed byte of ASCII other than
-- the dollar sign and the backquote.
pub sh_words-command_line :
    (w : Bytes) (ws : List Bytes)
    → All (All IsPlain) (w ∷ ws)
    → sh_words (command_line (w ∷ ws)) ≡ some (w ∷ ws)
unfolding sh_words command_line
sh_words-command_line = scan-words
