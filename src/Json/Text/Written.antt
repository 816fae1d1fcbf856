-- ===== src/Json/Text/Written.antt =====
-- What `json_escape_string` writes of a string that it does not cut short.
use mathlib.Core.Path.{subst}
use nson.Prelude.{
  ℕ, ◌<◌, ◌≡◌, refl, ◌∙◌, Bool, true, false, Option, none, some, inl, inr, Bytes, [], ◌∷◌, ◌++◌,
  append_assoc, ◌==◌, Option-cases,
}
use nson.Json.Text.{escape_byte, escape_loop}

-- The string between the quotes, each byte copied or escaped.
abbrev pub escape_or : Option Bytes → ℕ → Bytes
escape_or none c = c ∷ []
escape_or (some out) c = out

unfoldable pub escaped : Bytes → Bytes
escaped [] = []
escaped (c ∷ cs) = escape_or (escape_byte c) c ++ escaped cs

-- The strings that the writer writes in full and the reader reads back: of bytes, with no
-- backslash, and with a copied byte in front of each escaped one. `copied` tells of the byte before.
abbrev pub WritableFrom : Bool → Bytes → Type 0
WritableFrom copied [] = Unit
WritableFrom copied (c ∷ cs) =
    (c < 256) × ((c == b'\\') ≡ false) × elim (escape_byte c) as (λ _. Type 0) [
      | none ↦ WritableFrom true cs
      | some out ↦ (copied ≡ true) × WritableFrom false cs
    ]

abbrev pub IsWritable : Bytes → Type 0
IsWritable = WritableFrom false

-- With a copied byte before, the run is not empty.
abbrev Pending : Bool → Bytes → Type 0
Pending false run = Unit
Pending true [] = ⊥
Pending true (x ∷ xs) = Unit

Pending-snoc : (run : Bytes) (c : ℕ) → Pending true (run ++ (c ∷ []))
Pending-snoc [] c = tt
Pending-snoc (x ∷ xs) c = tt

escape_loop_flush :
    (c : ℕ) (cs run out : Bytes)
    → escape_byte c ≡ some out
    → Pending true run
    → escape_loop (c ∷ cs) run ≡ run ++ (out ++ escape_loop cs [])
unfolding escape_loop
escape_loop_flush c cs [] out e p = absurd p
escape_loop_flush c cs (x ∷ xs) out e p = rw (e, escape_loop)

escape_loop_copied :
    (c : ℕ) (cs run : Bytes)
    → escape_byte c ≡ none
    → escape_loop (c ∷ cs) run ≡ escape_loop cs (run ++ (c ∷ []))
unfolding escape_loop
escape_loop_copied c cs run e = rw (e, escape_loop)

pub escape_loop-escaped :
    (s : Bytes) (b : Bool) (run : Bytes)
    → WritableFrom b s
    → Pending b run
    → escape_loop s run ≡ run ++ (escaped s ++ (b'"' ∷ []))
unfolding escaped
escape_loop-escaped [] b run w p = unfold escape_loop in refl
escape_loop-escaped (c ∷ cs) b run w p = elim (Option-cases (escape_byte c)) [
  | inl e ↦
      let w' = rw e at w in
      escape_loop_copied c cs run e
      ∙ rw e (
          escape_loop-escaped cs true (run ++ (c ∷ [])) w'.2 (Pending-snoc run c)
          ∙ append_assoc run (c ∷ []) (escaped cs ++ (b'"' ∷ [])))
  | inr (out, e) ↦
      let w' = rw e at w in
      escape_loop_flush c cs run out e (subst (λ t. Pending t run) w'.2.0 p)
      ∙ rw (e, escape_loop-escaped cs false [] w'.2.1 tt, append_assoc)
]
