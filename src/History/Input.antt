-- ===== src/History/Input.antt =====
-- The input line that the completion follows, of
-- src/features/command-history/core/inputTracker.ts. A character is a code point: the source takes
-- one half of a pair away where a backspace follows a character beyond the first plane.
use Prim.Native.Char.{Char, code}
use fluxterm.Base.{
  ℕ, zero, suc, String, Bool, false, not, ◌==◌, ◌&&◌, ◌||◌, Option, none, some, List, [], ◌∷◌, ◌++◌,
  eqb, leb, or_else, trim, if◌then◌else◌, ◌>>=◌,
}
use fluxterm.History.Buckets.{CommandHistorySource, typed}

pub record TrackedCommandCommit : Type 0 where
  pub command : String
  pub source : CommandHistorySource

pub record InputBuffer : Type 0 where
  pub buffer : String
  pub commits : List TrackedCommandCommit

abbrev pub between : ℕ → ℕ → Char → Bool
between low high c = leb low (code c) && leb (code c) high

abbrev pub is_char : ℕ → Char → Bool
is_char n c = eqb (code c) n

-- The rest of a text after its first character, where that passes a test.
unfoldable pub expect : (Char → Bool) → String → Option String
expect p String.[] = none
expect p (String.◌∷◌ c s) = if p c then some s else none

-- `[...]*`
unfoldable pub skip : (Char → Bool) → String → String
skip p String.[] = String.[]
skip p (String.◌∷◌ c s) = let rest = skip p s in if p c then rest else String.◌∷◌ c s

-- `/\u001b\[M[\u0020-\u00ff]{3}/`: the rest of the text after it
unfoldable pub match_mouse : String → Option String
match_mouse s =
    expect (is_char 0x1b) s
    >>= expect (is_char 0x5b)
    >>= expect (is_char 0x4d)
    >>= expect (between 0x20 0xff)
    >>= expect (between 0x20 0xff)
    >>= expect (between 0x20 0xff)

-- `\[[0-?]*[ -/]*[@-~]`, `O[ -~]` and `[^\u001b]`; the classes of the first one are disjoint, so that
-- there is one way to match it
unfoldable pub match_csi : String → Option String
match_csi s = expect (is_char 0x5b) s >>= λ rest.
    expect (between 0x40 0x7e) (skip (between 0x20 0x2f) (skip (between 0x30 0x3f) rest))

unfoldable pub match_ss3 : String → Option String
match_ss3 s = expect (is_char 0x4f) s >>= expect (between 0x20 0x7e)

unfoldable pub match_escape : String → Option String
match_escape s = expect (is_char 0x1b) s >>= λ rest.
    or_else (match_csi rest) (or_else (match_ss3 rest) (expect (λ c. not (is_char 0x1b c)) rest))

abbrev pub text_length : String → ℕ
text_length String.[] = 0
text_length (String.◌∷◌ c s) = suc (text_length s)

-- `replace(pattern, "")` with a global pattern that matches no empty text: the text is searched
-- from the left, and on after each match.
unfoldable pub remove_all : (String → Option String) → ℕ → String → String
remove_all match zero s = String.[]
remove_all match (suc fuel) String.[] = String.[]
remove_all match (suc fuel) (String.◌∷◌ c s) = elim (match (String.◌∷◌ c s)) [
  | none ↦ String.◌∷◌ c (remove_all match fuel s)
  | some rest ↦ remove_all match fuel rest
]

unfoldable pub strip_terminal_control_sequences : String → String
strip_terminal_control_sequences input =
    let cleaned = remove_all match_mouse (text_length input) input in
    remove_all match_escape (text_length cleaned) cleaned

-- `slice(0, -1)`
unfoldable pub drop_last : String → String
drop_last String.[] = String.[]
drop_last (String.◌∷◌ c s) =
    let rest = drop_last s in elim s [ String.[] ↦ String.[] | String.◌∷◌ d t ↦ String.◌∷◌ c rest ]

unfoldable pub join : String → String → String
join String.[] t = t
join (String.◌∷◌ c s) t = String.◌∷◌ c (join s t)

abbrev pub commit_line : String → List TrackedCommandCommit
commit_line command =
    if command == "" then [] else record { command = command; source = typed } ∷ []

-- One character of the cleaned input.
unfoldable pub type_character : InputBuffer → Char → InputBuffer
type_character typed_line c =
    if is_char 0xd c || is_char 0xa c
    then record {
      buffer = "";
      commits = typed_line.commits ++ commit_line (trim typed_line.buffer);
    }
    else if is_char 0x7f c || is_char 0x8 c
    then record typed_line { buffer = drop_last typed_line.buffer }
    else if leb 0x20 (code c)
    then record typed_line { buffer = join typed_line.buffer (String.◌∷◌ c String.[]) }
    else typed_line

unfoldable pub type_text : InputBuffer → String → InputBuffer
type_text typed_line String.[] = typed_line
type_text typed_line (String.◌∷◌ c s) = type_text (type_character typed_line c) s

unfoldable pub update_command_input_buffer : String → String → InputBuffer
update_command_input_buffer buffer input =
    type_text (record { buffer = buffer; commits = [] }) (strip_terminal_control_sequences input)

abbrev is_editing : Char → Bool
is_editing c =
    leb 0x20 (code c)
    || is_char 0x9 c
    || is_char 0x8 c
    || is_char 0x7f c
    || is_char 0xb c
    || is_char 0x15 c
    || is_char 0x17 c

abbrev any_character : (Char → Bool) → String → Bool
any_character p String.[] = false
any_character p (String.◌∷◌ c s) = p c || any_character p s

-- The cleaned input may change the shell's line: it is not empty, and not the end of a line alone.
unfoldable pub is_terminal_autocomplete_editing_input : String → Bool
is_terminal_autocomplete_editing_input input =
    let cleaned = strip_terminal_control_sequences input in
    if cleaned == "" || cleaned == "\r" || cleaned == "\n"
    then false
    else any_character is_editing cleaned
