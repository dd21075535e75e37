-- ===== src/History/Typing.antt =====
-- How the completion follows what is typed (src/features/command-history/core/inputTracker.ts): the
-- search for control sequences ends, and input without them may come in pieces.
use mathlib.Core.List.{append-nil, append_assoc}
use Prim.Native.Char.{code, Char}
use fluxterm.Base.{
  leb, ◌||◌, ◌++◌, sym, [], List, not, ◌∙◌, ◌+◌, or_else, ℕ, zero, suc, ◌<◌, ◌≤◌, String, Bool,
  false, ◌≡◌, refl, ap, Option, none, some, ◌>>=◌, arith, Bool-cases, Option-cases, inl, inr,
}
use fluxterm.History.Input.{
  TrackedCommandCommit, update_command_input_buffer, match_csi, InputBuffer, between, is_char,
  expect, skip, match_mouse, match_ss3, match_escape, text_length, remove_all,
  strip_terminal_control_sequences, join, type_character, type_text,
}

-- What a match leaves is shorter.
abbrev pub Shortens : (String → Option String) → Type 0
Shortens match = (s rest : String) → match s ≡ some rest → text_length rest < text_length s

-- Any two amounts of fuel that cover the text find the same.
same_fuel :
    (match : String → Option String)
    → Shortens match
    → (a b : ℕ) (s : String) → text_length s ≤ a
    → text_length s ≤ b
    → remove_all match a s ≡ remove_all match b s
unfolding remove_all
same_fuel match shorter zero zero s l m = refl
same_fuel match shorter zero (suc b) String.[] l m = refl
same_fuel match shorter zero (suc b) (String.◌∷◌ c s) l m = absurd (omega arith)
same_fuel match shorter (suc a) zero String.[] l m = refl
same_fuel match shorter (suc a) zero (String.◌∷◌ c s) l m = absurd (omega arith)
same_fuel match shorter (suc a) (suc b) String.[] l m = refl
same_fuel match shorter (suc a) (suc b) (String.◌∷◌ c s) l m =
    elim (Option-cases (match (String.◌∷◌ c s))) [
      | inl e ↦
          rw (e, remove_all)
            (ap (String.◌∷◌ c) (same_fuel match shorter a b s (omega arith) (omega arith)))
      | inr (rest, e) ↦
          let less = shorter (String.◌∷◌ c s) rest e in
          rw (e, remove_all)
            (same_fuel match shorter a b rest (omega (arith, less)) (omega (arith, less)))
    ]

expect_shorter :
    (p : Char → Bool) (s rest : String) → expect p s ≡ some rest → text_length rest < text_length s
unfolding expect
expect_shorter p String.[] rest e = absurd (ground arith)
expect_shorter p (String.◌∷◌ c s) rest e = elim (Bool-cases (p c)) [
  | inl f ↦ let same_rest : s ≡ rest = ground (arith, e, f) in rw (← same_rest) (omega arith)
  | inr f ↦ absurd (ground (arith, e, f))
]

skip_shorter : (p : Char → Bool) (s : String) → text_length (skip p s) ≤ text_length s
unfolding skip
skip_shorter p String.[] = omega arith
skip_shorter p (String.◌∷◌ c s) = ground (arith, skip_shorter p s)

-- What follows in a match, after a part that has shortened the text.
then_shorter :
    (first : Option String) (next : String → Option String) (rest : String)
    → (first >>= next) ≡ some rest
    → (middle : String) × (first ≡ some middle) × (next middle ≡ some rest)
then_shorter none next rest e = absurd (ground arith)
then_shorter (some middle) next rest e = (middle, refl, e)

bind-Shortens : (f g : String → Option String) → Shortens f → Shortens g → Shortens (λ s. f s >>= g)
bind-Shortens f g short_f short_g s rest e =
    let (middle, e1, e2) = then_shorter (f s) g rest e in
    omega (arith, short_f s middle e1, short_g middle rest e2)

or_else-Shortens :
    (f g : String → Option String) → Shortens f → Shortens g → Shortens (λ s. or_else (f s) (g s))
or_else-Shortens f g short_f short_g s rest e = elim (Option-cases (f s)) [
  | inl missed ↦ short_g s rest (rw missed at e)
  | inr (found, hit) ↦ short_f s rest (hit ∙ rw hit at e)
]

match_mouse-Shortens : Shortens match_mouse
unfolding match_mouse
match_mouse-Shortens =
    let coordinate = expect_shorter (between 0x20 0xff) in
    bind-Shortens _ _
      (bind-Shortens _ _
        (bind-Shortens _ _
          (bind-Shortens _ _
            (bind-Shortens _ _ (expect_shorter (is_char 0x1b)) (expect_shorter (is_char 0x5b)))
            (expect_shorter (is_char 0x4d)))
          coordinate)
        coordinate)
      coordinate

csi_tail-Shortens :
    Shortens (λ rest.
      expect (between 0x40 0x7e) (skip (between 0x20 0x2f) (skip (between 0x30 0x3f) rest)))
csi_tail-Shortens s rest e =
    let digits = skip (between 0x30 0x3f) s in
    omega (
      arith,
      expect_shorter (between 0x40 0x7e) (skip (between 0x20 0x2f) digits) rest e,
      skip_shorter (between 0x20 0x2f) digits,
      skip_shorter (between 0x30 0x3f) s,
    )

match_escape-Shortens : Shortens match_escape
unfolding match_escape match_csi match_ss3
match_escape-Shortens = bind-Shortens _ _ (expect_shorter (is_char 0x1b)) (
    or_else-Shortens _ _ (bind-Shortens _ _ (expect_shorter (is_char 0x5b)) csi_tail-Shortens) (
      or_else-Shortens _ _
        (bind-Shortens _ _ (expect_shorter (is_char 0x4f)) (expect_shorter (between 0x20 0x7e)))
        (expect_shorter (λ c. not (is_char 0x1b c)))))

-- The searches for control sequences end within their fuel, the length of the text: more fuel
-- gives the same text.
remove_all_enough :
    (more : ℕ) (s : String)
    → (remove_all match_mouse (text_length s + more) s ≡ remove_all match_mouse (text_length s) s)
      × (remove_all match_escape (text_length s + more) s
          ≡ remove_all match_escape (text_length s) s)
remove_all_enough more s = (
  same_fuel match_mouse match_mouse-Shortens (text_length s + more) (text_length s) s (omega arith)
      (omega arith),
  same_fuel match_escape match_escape-Shortens (text_length s + more) (text_length s) s
      (omega arith) (omega arith),
)

-- There is no escape character in the text.
abbrev pub IsPlain : String → Type 0
IsPlain String.[] = Unit
IsPlain (String.◌∷◌ c s) = (is_char 0x1b c ≡ false) × IsPlain s

plain_stays :
    (match : String → Option String)
    → ((c : Char) (s : String) → is_char 0x1b c ≡ false → match (String.◌∷◌ c s) ≡ none)
    → (s : String) → IsPlain s
    → remove_all match (text_length s) s ≡ s
unfolding remove_all
plain_stays match misses String.[] plain = refl
plain_stays match misses (String.◌∷◌ c s) (here, plain) =
    rw (misses c s here, remove_all) (ap (String.◌∷◌ c) (plain_stays match misses s plain))

mouse_misses :
    (c : Char) (s : String) → is_char 0x1b c ≡ false → match_mouse (String.◌∷◌ c s) ≡ none
unfolding match_mouse expect
mouse_misses c s here = rw here refl

escape_misses :
    (c : Char) (s : String) → is_char 0x1b c ≡ false → match_escape (String.◌∷◌ c s) ≡ none
unfolding match_escape expect
escape_misses c s here = rw here refl

strip_plain : (s : String) → IsPlain s → strip_terminal_control_sequences s ≡ s
unfolding strip_terminal_control_sequences
strip_plain s plain =
    rw
      (plain_stays match_mouse mouse_misses s plain, plain_stays match_escape escape_misses s plain)
      refl

join-IsPlain : (s t : String) → IsPlain s → IsPlain t → IsPlain (join s t)
unfolding join
join-IsPlain String.[] t p q = q
join-IsPlain (String.◌∷◌ c s) t (here, p) q = (here, join-IsPlain s t p q)

type_text-join :
    (line : InputBuffer) (s t : String) → type_text line (join s t) ≡ type_text (type_text line s) t
unfolding type_text join
type_text-join line String.[] t = refl
type_text-join line (String.◌∷◌ c s) t = type_text-join (type_character line c) s t

abbrev line_of : String → List TrackedCommandCommit → InputBuffer
line_of buffer commits = record { buffer = buffer; commits = commits }

-- What was committed before stays in front.
character_after :
    (b : String) (cs : List TrackedCommandCommit) (c : Char)
    → type_character (line_of b cs) c
      ≡ line_of
          (type_character (line_of b []) c).buffer
          (cs ++ (type_character (line_of b []) c).commits)
unfolding type_character
character_after b cs c = elim (Bool-cases (is_char 0xd c || is_char 0xa c)) [
  | inl e ↦ rw (e, type_character) refl
  | inr e ↦ elim (Bool-cases (is_char 0x7f c || is_char 0x8 c)) [
    | inl f ↦ rw (e, f, type_character, append-nil) refl
    | inr f ↦ elim (Bool-cases (leb 0x20 (code c))) [
      | inl g ↦ rw (e, f, g, type_character, append-nil) refl
      | inr g ↦ rw (e, f, g, type_character, append-nil) refl
    ]
  ]
]

text_after :
    (b : String) (cs : List TrackedCommandCommit) (s : String)
    → type_text (line_of b cs) s
      ≡ line_of (type_text (line_of b []) s).buffer (cs ++ (type_text (line_of b []) s).commits)
unfolding type_text
text_after b cs String.[] = rw append-nil refl
text_after b cs (String.◌∷◌ c s) =
    let one = type_character (line_of b []) c in
    let rest = type_text (line_of one.buffer []) s in
    ap (λ (l : InputBuffer). type_text l s) (character_after b cs c)
    ∙ text_after one.buffer (cs ++ one.commits) s
    ∙ ap (line_of rest.buffer) (append_assoc cs one.commits rest.commits)
    ∙ sym (
        ap (λ (l : InputBuffer). line_of l.buffer (cs ++ l.commits))
          (text_after one.buffer one.commits s))

-- Input without an escape character may come in one piece or in two: the line and the commands
-- that were committed are the same.
pub update_command_input_buffer-join :
    (buffer s t : String)
    → IsPlain s
    → IsPlain t
    → let first = update_command_input_buffer buffer s in
      let second = update_command_input_buffer first.buffer t in
      update_command_input_buffer buffer (join s t)
      ≡ record { buffer = second.buffer; commits = first.commits ++ second.commits }
unfolding update_command_input_buffer
update_command_input_buffer-join buffer s t plain_s plain_t =
    let first = type_text (line_of buffer []) s in
    rw
      (
        strip_plain (join s t) (join-IsPlain s t plain_s plain_t),
        strip_plain s plain_s,
        strip_plain t plain_t,
        type_text-join,
      )
      (text_after first.buffer first.commits t)
