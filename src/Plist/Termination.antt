-- ===== src/Plist/Termination.antt =====
-- The loop of the property list parser ends.
use nson.Plist.Parser.{
  Cursor, pass, push, space_run, skip_spaces, Round, goes_on, jumps, overruns, overrun, untouched,
  when_tag, open_level, step_text, step_integer, step_real, step_tag, round_at, plist_round,
  plist_loop, goes_round, Exit, behind, at_err, spent, PlistParsed, unending, plist_exit,
  plist_close, parse_plist, plist_header, plist_headers, as_real,
}
use nson.Util.Number.{parse_number}
use nson.Plist.Text.{skip_tag}
use nson.Value.{Nson, no_items}
use nson.Prelude.{
  String, Option, ◌>>=◌, ℕ, zero, suc, ◌≤◌, ◌<◌, ◌≡◌, ◌≢◌, refl, true, false, none, some, [], ◌∷◌,
  Bytes, codes, ◌==◌, if◌then◌else◌, length, length-drop, arith, Bool-cases, Option-cases, inl, inr,
}
use nson.Prelude.Int.{pos, negsuc}
use nson.Util.Number.{Double}
use nson.Plist.Leaves.{
  Leaves, Less, Less-suc, when_tag-Leaves, Leaves-if, pass-rest, step_text-Leaves,
  step_integer-Leaves, step_dict-Leaves, step_slash-Leaves,
}

abbrev Within : ℕ → Option Cursor → Type 0
Within n none = Unit
Within n (some t) = length t.rest ≤ n

plist_header-Within :
    (s : Cursor) (tag : Bytes) (n : ℕ) → length s.rest ≤ n → Within n (plist_header s tag)
unfolding plist_header
plist_header-Within s tag n h =
    elim (skip_tag tag s.rest)
      as (λ r. Within n (elim r as (λ _. Option Cursor) [
        | pos k ↦ if k == 0 then none else some (record (pass s k) { rv = pos k })
        | negsuc k ↦ none
      ])) [
        | pos k ↦ elim (Bool-cases (k == 0)) [
          | inl same ↦ rw same tt
          | inr other ↦ rw other (pass-rest s n k h)
        ]
        | negsuc k ↦ tt
      ]

bind-Within :
    (n : ℕ) (o : Option Cursor) (f : Cursor → Option Cursor)
    → Within n o
    → ((t : Cursor) → length t.rest ≤ n → Within n (f t))
    → Within n (o >>= f)
bind-Within n none f h g = tt
bind-Within n (some t) f h g = g t h

pub plist_headers-Within : (s : Cursor) (n : ℕ) → length s.rest ≤ n → Within n (plist_headers s)
unfolding plist_headers
plist_headers-Within s n h =
    bind-Within n (plist_header s (codes "<?xml")) _ (plist_header-Within s _ n h) (λ t ht.
      bind-Within n (plist_header (skip_spaces t) (codes "<!DOCTYPE")) _
        (plist_header-Within (skip_spaces t) _ n (pass-rest t n (space_run t.rest) ht))
        (λ u hu. plist_header-Within (skip_spaces u) _ n (pass-rest u n (space_run u.rest) hu)))

-- What follows the loop always has a result.
plist_close-ends : (s : Cursor) → plist_close s ≢ unending
unfolding plist_close
plist_close-ends s = ground arith

plist_exit-ends : (e : Exit) → e ≢ spent → plist_exit e ≢ unending
unfolding plist_exit
plist_exit-ends (behind s) h = plist_close-ends s
plist_exit-ends (at_err s) h = λ e. cc
plist_exit-ends overrun h = λ e. cc
plist_exit-ends spent h = absurd (h refl)

module _ (d : Double) where
  step_real-Leaves : (s : Cursor) (n : ℕ) → length s.rest ≤ n → Leaves n (step_real d s)
  unfolding step_real
  step_real-Leaves s n h = elim (Option-cases (parse_number d s.rest)) [
    | inl bad ↦ rw (bad, step_real) h
    | inr ((v, k), good) ↦
        rw (good, step_real)
          (when_tag-Leaves n (push (pass (record s { rv = pos k }) k) (as_real d v))
            (codes "</real") goes_on (pass-rest s n k h) (λ t ht. ht))
  ]

  step_tag-Leaves : (s : Cursor) (c n : ℕ) → length s.rest ≤ n → Leaves n (step_tag d s c)
  unfolding step_tag
  step_tag-Leaves s c n h =
      Leaves-if n (c == b'a') _ _ (tagged s "array" (λ t. goes_on (open_level t)) h (λ t ht. ht)) (
        Leaves-if n (c == b'd') _ _ (step_dict-Leaves s n h) (
          Leaves-if n (c == b'k') _ _
            (tagged (record s { string_tag = codes "key" }) "key" step_text h
              (λ t ht. step_text-Leaves t n ht))
            (Leaves-if n (c == b's') _ _
              (when_tag-Leaves n s s.string_tag step_text h (λ t ht. step_text-Leaves t n ht))
              (Leaves-if n (c == b'r') _ _
                (tagged s "real" (step_real d) h (λ t ht. step_real-Leaves t n ht))
                (Leaves-if n (c == b'i') _ _
                  (tagged s "integer" step_integer h (λ t ht. step_integer-Leaves t n ht))
                  (Leaves-if n (c == b't') _ _
                    (tagged s "true/" (λ t. goes_on (push t (Nson.bool (pos 1)))) h (λ t ht. ht))
                    (Leaves-if n (c == b'f') _ _
                      (tagged s "false/" (λ t. goes_on (push t (Nson.bool (pos 0)))) h (λ t ht. ht))
                      (Leaves-if n (c == b'/') _ (goes_on s) (step_slash-Leaves s n h) h))))))))
    where
      tagged :
          (s : Cursor) (tag : String) (f : Cursor → Round)
          → length s.rest ≤ n
          → ((t : Cursor) → length t.rest ≤ n → Leaves n (f t))
          → Leaves n (when_tag s (codes tag) f)
      tagged s tag f = when_tag-Leaves n s (codes tag) f

  round_at-Less :
      (t : Cursor) (l : Bytes) (n : ℕ) → t.rest ≡ l → length t.rest ≤ n → Less n (round_at d t l)
  unfolding round_at
  round_at-Less t [] n at h = tt
  round_at-Less t (c ∷ []) n at h = tt
  round_at-Less t (c ∷ e ∷ es) zero at h = absurd (omega (arith, rw at at h))
  round_at-Less t (c ∷ e ∷ es) (suc n) at h = Less-suc n _ (
      Leaves-if n (c == b'<') _ (jumps t)
        (step_tag-Leaves (pass t 1) e n (omega (arith, length-drop 1 t.rest))) tt)

  -- A round that goes on leaves fewer bytes.
  pub plist_round-Less : (s : Cursor) (n : ℕ) → length s.rest ≤ n → Less n (plist_round d s)
  unfolding plist_round
  plist_round-Less s n h =
      round_at-Less (skip_spaces s) (skip_spaces s).rest n refl (pass-rest s n (space_run s.rest) h)

  plist_loop-ends : (fuel : ℕ) (s : Cursor) → length s.rest < fuel → plist_loop d fuel s ≢ spent
  unfolding plist_loop
  plist_loop-ends zero s h = absurd (omega arith)
  plist_loop-ends (suc fuel) s h =
      elim (plist_round d s)
          as (λ r.
            Less fuel r
            → elim r as (λ _. Exit) [
              | jumps t ↦ at_err t
              | overruns ↦ overrun
              | goes_on t ↦ elim (goes_round t) [ true ↦ plist_loop d fuel t | false ↦ behind t ]
            ]
              ≢ spent) [
                | jumps t ↦ λ less. λ e. cc
                | overruns ↦ λ less. λ e. cc
                | goes_on t ↦ λ less.
                    elim (goes_round t)
                      as (λ b.
                        elim b as (λ _. Exit) [ true ↦ plist_loop d fuel t | false ↦ behind t ]
                        ≢ spent) [ true ↦ plist_loop-ends fuel t less | false ↦ λ e. cc ]
              ]
        (plist_round-Less s fuel (omega arith))

  pub parse_plist_terminates : (string_tag doc : Bytes) → parse_plist d string_tag doc ≢ unending
  unfolding parse_plist
  parse_plist_terminates string_tag doc =
      let s : Cursor = record {
        rest = doc;
        index = 0;
        top = no_items;
        below = [];
        rv = pos 0;
        string_tag = string_tag;
      } in
      elim (plist_headers s)
          as (λ o.
            Within (length doc) o
            → elim o as (λ _. PlistParsed) [
              | none ↦ untouched s.string_tag
              | some t ↦ plist_exit (plist_loop d (suc (length doc)) t)
            ]
              ≢ unending) [
                | none ↦ λ within. λ e. cc
                | some t ↦ λ within.
                    plist_exit-ends (plist_loop d (suc (length doc)) t)
                      (plist_loop-ends (suc (length doc)) t (omega (arith, within)))
              ]
        (plist_headers-Within s (length doc) (omega arith))
