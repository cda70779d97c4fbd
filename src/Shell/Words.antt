-- ===== src/Shell/Words.antt =====
-- How a POSIX shell splits a command into words (Shell Command Language, 2.2 Quoting and 2.3 Token
-- Recognition), for src/remote_shell.rs. A character that the shell would expand or that ends a word otherwise than
-- by a space makes the result none.
use agent_runtime_sdk.Prelude.{
  ℕ, Text, Bool, true, false, Option, none, some, List, [], ◌∷◌, ◌++◌, ◌||◌, if◌then◌else◌, eqb,
  ltb, any, text_eq,
}

pub data Quote : Type 0 where
  bare single double : Quote

-- The words read so far, and the one that is being read, if it has begun.
pub record Reading : Type 0 where
  pub quote : Quote
  pub begun : Bool
  pub word : Text
  pub words : List Text

-- Special outside quotes: every control character and blank but the space, and
-- ! # $ & ( ) * ; < > ? [ \ ] ^ ` { | } ~
abbrev pub is_special : ℕ → Bool
is_special c =
    ltb c 32
    || any (λ k. eqb c k)
        (33 ∷ 35 ∷ 36 ∷ 38 ∷ 40 ∷ 41 ∷ 42 ∷ 59 ∷ 60 ∷ 62 ∷ 63 ∷ 91 ∷ 92 ∷ 93 ∷ 94 ∷ 96 ∷ 123 ∷ 124
          ∷ 125 ∷ 126 ∷ [])

-- Special within double quotes: $ \ ` !
abbrev pub is_special_in_double : ℕ → Bool
is_special_in_double c = any (λ k. eqb c k) (33 ∷ 36 ∷ 92 ∷ 96 ∷ [])

abbrev pub take_char : ℕ → Reading → Reading
take_char c r = record r { begun = true; word = r.word ++ c ∷ [] }

abbrev pub end_word : Reading → Reading
end_word r =
    if r.begun then record r { begun = false; word = []; words = r.words ++ r.word ∷ [] } else r

abbrev pub quoted : Quote → Reading → Reading
quoted q r = record r { quote = q; begun = true }

unfoldable pub read_char : ℕ → Reading → Option Reading
read_char c r = elim r.quote [
  | single ↦ some (if eqb c 39 then quoted bare r else take_char c r)
  | double ↦
      if eqb c 34
      then some (quoted bare r)
      else if is_special_in_double c
      then none
      else some (take_char c r)
  | bare ↦
      if eqb c 32
      then some (end_word r)
      else if eqb c 39
      then some (quoted single r)
      else if eqb c 34
      then some (quoted double r)
      else if is_special c
      then none
      else some (take_char c r)
]

unfoldable pub read_text : Text → Reading → Option Reading
read_text [] r = some r
read_text (c ∷ text) r = elim (read_char c r) [ none ↦ none | some next ↦ read_text text next ]

abbrev pub finish_reading : Reading → Option (List Text)
finish_reading r = elim r.quote [ bare ↦ some (end_word r).words | single ↦ none | double ↦ none ]

abbrev pub outside : List Text → Reading
outside words = record { quote = bare; begun = false; word = []; words = words }

-- The words of a command without a NUL, all of it read.
unfoldable pub split_words : Text → Option (List Text)
split_words text = elim (read_text text (outside [])) [ none ↦ none | some r ↦ finish_reading r ]

abbrev pub has_nul : Text → Bool
has_nul text = any (λ c. eqb c 0) text

-- The words of a command: none with a NUL in it, which shells drop or refuse, and which no word can hold.
unfoldable pub shell_words : Text → Option (List Text)
unfolding split_words
shell_words text = if has_nul text then none else split_words text

-- What a shell is to read in a command that is built from these words: the words, if none of them holds a NUL.
abbrev pub read_back : List Text → Option (List Text)
read_back words = if any has_nul words then none else some words
