-- ===== src/Shell/CommandLaws.antt =====
-- `parse_command`, and its two arrays.
use cane.Common.{
  ℕ, zero, suc, ◌+◌, ◌-◌, ◌≤◌, ◌<◌, ◌≡◌, refl, false, none, some, List, [], ◌∷◌, ◌++◌, ◌==◌, leb,
  arith, ◌∙◌, ap, if_false, length, length-append, set, take, drop, replicate,
}
use cane.Common.Partial.{◌>>=◌, bind-some, bind-none}
use cane.Str.{strcpy, strncpy, strchr}
use cane.Str.Cstring.{IsText, terminated, index_of, strchr-terminated, strlen-terminated}
use cane.Str.Copy.{strcpy-terminated, strcpy-overflow, strncpy-terminated}
use cane.Shell.Command.{parse_command}

-- no space in the word
unfoldable pub IsWord : List ℕ → Type 0
IsWord [] = Unit
IsWord (c ∷ w) = ((c == b' ') ≡ false) × IsWord w

index_of-space :
    (w argument : List ℕ) → IsWord w → index_of b' ' (w ++ (b' ' ∷ argument)) ≡ some (length w)
unfolding IsWord
index_of-space [] argument p = refl
index_of-space (c ∷ w) argument (p, ps) = rw (p, index_of-space w argument ps) refl

drop-word :
    (w argument rest : List ℕ)
    → drop (length w + 1) (terminated (w ++ (b' ' ∷ argument)) rest) ≡ terminated argument rest
drop-word [] argument rest = refl
drop-word (c ∷ w) argument rest =
    let n : suc (length w) + 1 ≡ suc (length w + 1) = omega arith in
    rw n (drop-word w argument rest)

take-word : (w xs : List ℕ) → take (length w) (w ++ xs) ≡ w
take-word [] xs = refl
take-word (c ∷ w) xs = ap (λ l. c ∷ l) (take-word w xs)

set-end : (w : List ℕ) (y : ℕ) (ys : List ℕ) → set (w ++ (y ∷ ys)) (length w) 0 ≡ terminated w ys
set-end [] y ys = refl
set-end (c ∷ w) y ys = ap (λ l. c ∷ l) (set-end w y ys)

drop-cons : (d : List ℕ) (k : ℕ) → k < length d → (y : ℕ) × (ys : List ℕ) × (drop k d ≡ y ∷ ys)
drop-cons [] k h = absurd (omega arith)
drop-cons (x ∷ d) zero h = (x, d, refl)
drop-cons (x ∷ d) (suc k) h = drop-cons d k (omega arith)

-- `parse_command` once the space is found
parse_found :
    (input cmd arg : List ℕ) (offset : ℕ) {cmd' : List ℕ}
    → strchr input b' ' ≡ some (some offset)
    → offset < 32
    → strncpy cmd input offset ≡ some cmd'
    → parse_command input cmd arg
      ≡ (strcpy arg (drop (offset + 1) input) >>= λ arg'. some (set cmd' offset 0, arg'))
unfolding parse_command
parse_found input cmd arg offset e h f =
    let short : leb 32 offset ≡ false = ground arith in rw (e, short, f) refl

index_of-none : (w : List ℕ) → IsWord w → index_of b' ' w ≡ none
unfolding IsWord
index_of-none [] p = refl
index_of-none (c ∷ w) (p, ps) = rw (p, index_of-none w ps) refl

-- A word of fewer than 32 characters alone is copied, and the argument is empty.
pub parse_command-word :
    (word rest cmd : List ℕ) (x : ℕ) (arg : List ℕ)
    → IsWord word
    → IsText word
    → length word < 32
    → length cmd ≡ 32
    → (r : List ℕ) × (q : List ℕ) × (parse_command (terminated word rest) cmd (x ∷ arg)
        ≡ some (terminated word r, terminated [] q))
unfolding parse_command
parse_command-word word rest cmd x arg is_word text short array =
    let found : strchr (terminated word rest) b' ' ≡ some none =
      strchr-terminated word rest b' ' text (omega arith) ∙ ap some (index_of-none word is_word) in
    let fits : leb 32 (length word) ≡ false = ground arith in
    (
      drop (length word + 1) cmd,
      arg,
      bind-some _ found
          ∙ bind-some _ (strlen-terminated word rest text)
          ∙ bind-some _
              (if_false _ _ fits ∙ strcpy-terminated cmd word rest text (omega (arith, array))),
    )

module _ (word argument rest cmd : List ℕ) (is_word : IsWord word)
    (text : IsText (word ++ (b' ' ∷ argument))) (short : length word < 32)
    (array : length cmd ≡ 32) where
  abbrev line : List ℕ
  line = terminated (word ++ (b' ' ∷ argument)) rest

  found : strchr line b' ' ≡ some (some (length word))
  found =
      strchr-terminated (word ++ (b' ' ∷ argument)) rest b' ' text (omega arith)
      ∙ ap some (index_of-space word argument is_word)

  copied :
      strncpy cmd line (length word)
      ≡ some (
          take (length word) (word ++ (b' ' ∷ argument))
          ++ (replicate (length word - length (word ++ (b' ' ∷ argument))) 0
              ++ drop (length word) cmd))
  copied = strncpy-terminated cmd (word ++ (b' ' ∷ argument)) rest (length word) text (omega arith)

  -- Behind a word of fewer than 32 characters, when the argument has at least as many characters as its array, 64 in `process_command`,
  -- `parse_command` writes past the end of the array.
  pub parse_command-overflow :
      (arg : List ℕ)
      → IsText argument
      → length arg ≤ length argument
      → parse_command line cmd arg ≡ none
  parse_command-overflow arg is_text long =
      parse_found line cmd arg (length word) found short copied
      ∙ bind-none _ (
          ap (strcpy arg) (drop-word word argument rest)
          ∙ strcpy-overflow arg argument rest is_text long)

  -- A word of fewer than 32 characters and an argument that fits its array are split at the first
  -- space: the two arrays hold the word and the argument as terminated strings.
  pub parse_command-splits :
      (arg : List ℕ)
      → IsText argument
      → length argument < length arg
      → (r : List ℕ) × (q : List ℕ) × (parse_command line cmd arg
          ≡ some (terminated word r, terminated argument q))
  parse_command-splits arg is_text fit =
      let (y, ys, e) = drop-cons cmd (length word) (omega arith) in
      (
        ys,
        drop (length argument + 1) arg,
        parse_found line cmd arg (length word) found short copied
            ∙ bind-some _ (
                ap (strcpy arg) (drop-word word argument rest)
                ∙ strcpy-terminated arg argument rest is_text fit)
            ∙ ap (λ (c : List ℕ). some (c, terminated argument (drop (length argument + 1) arg)))
                (ap (λ (c : List ℕ). set c (length word) 0) (copied_word (drop (length word) cmd) e)
                  ∙ set-end word y ys),
      )
    where
      copied_word :
          (tail : List ℕ) {ys : List ℕ}
          → tail ≡ ys
          → take (length word) (word ++ (b' ' ∷ argument))
              ++ (replicate (length word - length (word ++ (b' ' ∷ argument))) 0 ++ tail)
            ≡ word ++ ys
      copied_word tail e =
          let n : length word - length (word ++ (b' ' ∷ argument)) ≡ 0 =
            omega (arith, length-append word (b' ' ∷ argument)) in
          rw (n, e, take-word word (b' ' ∷ argument)) refl
