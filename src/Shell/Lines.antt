-- ===== src/Shell/Lines.antt =====
-- From a command line of kernel/shell/shell.c to its command: `process_command` on any line that fits.
use cane.Common.{
  ℕ, ◌<◌, ◌≡◌, refl, some, List, [], ◌∷◌, ◌++◌, ◌==◌, arith, ◌∙◌, ◌⊎◌, inl, inr, length,
  length-replicate, replicate, Bool-cases, if_true, if_false, if◌then◌else◌,
}
use cane.Common.Partial.{bind-some}
use cane.Str.Cstring.{IsText, terminated, strlen-terminated}
use cane.Str.Compare.{order, strcmp-terminated}
use cane.Shell.Command.{Command, Outcome, commands, is_zero, lookup, process_command}
use cane.Shell.CommandLaws.{IsWord, parse_command-splits, parse_command-word}
use cane.Shell.Session.{AllPrintable, AllPrintable-IsText}

-- what a line with this argument can come to
abbrev pub Comes : (argument : List ℕ) → Outcome → Type 0
Comes argument Outcome.nothing = Unit
Comes argument (Outcome.call command arg) = (q : List ℕ) × (arg ≡ terminated argument q)
Comes argument (Outcome.unknown name) =
    (word : List ℕ) × (r : List ℕ) × (name ≡ terminated word r) × IsText word

-- the names of a table as terminated strings
abbrev Names : List (List ℕ × Command) → Type 0
Names [] = Unit
Names ((name, func) ∷ table) =
    ((text : List ℕ) × (name ≡ terminated text []) × IsText text) × Names table

lookup-Comes :
    (table : List (List ℕ × Command)) (word r argument q : List ℕ)
    → Names table
    → IsText word
    → (outcome : Outcome) × (lookup table (terminated word r) (terminated argument q)
        ≡ some outcome)
      × Comes argument outcome
unfolding lookup
lookup-Comes [] word r argument q names text =
    (Outcome.unknown (terminated word r), refl, (word, r, refl, text))
lookup-Comes ((name, func) ∷ table) word r argument q ((n, e, is_text), names) text =
    let compared = strcmp-terminated word n r [] text is_text in
    let (outcome, f, comes) = lookup-Comes table word r argument q names text in
    elim (Bool-cases (is_zero (order word n))) [
      | inl same ↦ (
        Outcome.call func (terminated argument q),
        rw e (bind-some _ compared ∙ if_true _ _ same),
        (q, refl),
      )
      | inr differs ↦ (outcome, rw e (bind-some _ compared ∙ if_false _ _ differs ∙ f), comes)
    ]

printable_name :
    (text : List ℕ)
    → AllPrintable text
    → (n : List ℕ) × (terminated text [] ≡ terminated n []) × IsText n
printable_name text p = (text, refl, AllPrintable-IsText text p)

commands-Names : Names commands
commands-Names = (
  (printable_name (b'c' ∷ b'l' ∷ b'e' ∷ b'a' ∷ b'r' ∷ [])
      (refl, (refl, (refl, (refl, (refl, tt)))))),
  (
    (printable_name (b'h' ∷ b'e' ∷ b'l' ∷ b'p' ∷ []) (refl, (refl, (refl, (refl, tt))))),
    (
      (printable_name (b'm' ∷ b'e' ∷ b'm' ∷ []) (refl, (refl, (refl, tt)))),
      (
        (printable_name (b't' ∷ b'a' ∷ b's' ∷ b'k' ∷ b's' ∷ [])
            (refl, (refl, (refl, (refl, (refl, tt)))))),
        (
          (printable_name (b'k' ∷ b'i' ∷ b'l' ∷ b'l' ∷ []) (refl, (refl, (refl, (refl, tt))))),
          (
            (printable_name (b'r' ∷ b'e' ∷ b'b' ∷ b'o' ∷ b'o' ∷ b't' ∷ [])
                (refl, (refl, (refl, (refl, (refl, (refl, tt))))))),
            tt,
          ),
        ),
      ),
    ),
  ),
)

found-Comes :
    (word r argument q : List ℕ)
    → IsText word
    → (outcome : Outcome) × ((if length word == 0
          then some Outcome.nothing
          else lookup commands (terminated word r) (terminated argument q))
        ≡ some outcome)
      × Comes argument outcome
found-Comes word r argument q text = elim (Bool-cases (length word == 0)) [
  | inl empty ↦ (Outcome.nothing, if_true _ _ empty, tt)
  | inr some_word ↦
      let (outcome, e, comes) = lookup-Comes commands word r argument q commands-Names text in
      (outcome, if_false _ _ some_word ∙ e, comes)
]

-- A word, alone or with a space and an argument behind it.
abbrev pub HasParts : (line word argument : List ℕ) → Type 0
HasParts line word argument = ((line ≡ word) × (argument ≡ [])) ⊎ (line ≡ word ++ (b' ' ∷ argument))

IsText-parts : (xs ys : List ℕ) → IsText (xs ++ ys) → IsText xs × IsText ys
IsText-parts [] ys h = (tt, h)
IsText-parts (x ∷ xs) ys (h, hs) = let (a, b) = IsText-parts xs ys hs in ((h, a), b)

pub HasParts-IsText :
    (line word argument : List ℕ)
    → HasParts line word argument
    → IsText line
    → IsText word × IsText argument
HasParts-IsText line word argument (inl (e, f)) text = (rw e at text, rw f tt)
HasParts-IsText line word argument (inr e) text =
    let (w, a) = IsText-parts word (b' ' ∷ argument) (rw e at text) in (w, a.1)

pub process_command-Comes :
    (line word argument rest : List ℕ)
    → HasParts line word argument
    → IsText line
    → IsWord word
    → length word < 32
    → length argument < 64
    → (outcome : Outcome) × (process_command (terminated line rest) ≡ some outcome)
      × Comes argument outcome
unfolding process_command
process_command-Comes line word argument rest (inl (e, f)) text is_word short fits =
    let text = rw e at text in
    let (r, q, parsed) =
      parse_command-word word rest (replicate 32 0) 0 (replicate 63 0) is_word text short refl in
    let (outcome, found, comes) = found-Comes word r [] q text in
    (
      outcome,
      rw e (bind-some _ parsed ∙ bind-some _ (strlen-terminated word r text) ∙ found),
      rw f comes,
    )
process_command-Comes line word argument rest (inr e) text is_word short fits =
    let text = rw e at text in
    let (word_text, argument_text) = IsText-parts word (b' ' ∷ argument) text in
    let (r, q, parsed) =
      parse_command-splits word argument rest (replicate 32 0) is_word text short refl
        (replicate 64 0) argument_text.1 (omega (arith, length-replicate {A = ℕ} 64 0)) in
    let (outcome, found, comes) = found-Comes word r argument q word_text in
    (
      outcome,
      rw e (bind-some _ parsed ∙ bind-some _ (strlen-terminated word r word_text) ∙ found),
      comes,
    )
