-- ===== src/Tests/Plist.antt =====
-- Runs and instances for src/plist.c.
use nson.Plist.Escapes.{IsText, parse_string-plist_escape}
use nson.Plist.Parser.{
  ended, parse_plist, plist_headers, plist_header, plist_loop, plist_round, round_at, step_tag,
  step_text, step_end, step_slash, close_level, pass_end, space_run, plist_exit, plist_close,
}
use nson.Plist.RoundTrip.{
  IsProperty, obj_property, field_property, arr_property, more_property, int_property,
  bool_property, blob_property, none_property, end_property, parse_plist-plist_write,
}
use nson.Plist.Typed.Loop.{IsOutcome, parse_plist-IsOutcome}
use nson.Plist.Text.{skip_tag, tag_close, measure_string_len, parse_string, entity}
use nson.Plist.Writer.{plist_reference, plist_escape, plist_write}
use nson.Json.Parser.{same_bytes, isspace}
use nson.Json.Text.{iscntrl}
use nson.Prelude.{inl, ◌≡◌, refl, some, true, Bytes, [], ◌∷◌, ◌++◌, codes, length, arith}
use nson.Prelude.Int.{pos, negsuc}
use nson.Util.Decimal.{parse_dev, parse_dev_loop}
use nson.Util.Utf8.{to_utf8}
use nson.Tests.Json.{whole_numbers}
use nson.Value.{Nson, arr, str, item, no_items, arr_push, arr_get, arr_len, field, no_fields}

-- <array><string>a</string></array>
abbrev document : Bytes
document =
    codes
      "<?xml version=\"1.0\"?><!DOCTYPE plist><plist><array><string>a&lt;</string></array></plist>"

parse_plist_runs :
    parse_plist whole_numbers (codes "string") document
    ≡ ended
        (Nson.arr (item (Nson.str (codes "a<")) no_items))
        (pos (length document))
        (codes "string")
unfolding parse_plist plist_headers plist_header plist_loop plist_round round_at step_tag step_text
    step_end step_slash close_level pass_end space_run plist_exit plist_close skip_tag tag_close
    measure_string_len parse_string entity same_bytes isspace arr_push arr_get arr_len
parse_plist_runs = refl

-- Only the first byte of the UTF-8 form is kept, and the bytes behind the semicolon are lost.
reference_runs : parse_string (codes "&#955;ab") 0 ≡ some (0xce ∷ b'b' ∷ [])
unfolding parse_string entity parse_dev parse_dev_loop to_utf8
reference_runs = refl

letters-IsText : IsText (codes "a<b")
unfolding plist_reference iscntrl
letters-IsText = (refl, (refl, (refl, (refl, tt))))

parse_string-plist_escape_example :
    (measure_string_len (codes "key") (plist_escape (codes "a<b") [] ++ codes "</key><true/>") 0
      ≡ some (length (plist_escape (codes "a<b") [])))
    × (parse_string (plist_escape (codes "a<b") []) 0 ≡ some (codes "a<b"))
parse_string-plist_escape_example =
    parse_string-plist_escape (codes "key") (codes "a<b") (codes "<true/>") letters-IsText

-- <dict><key>a</key><array><integer>-7</integer><true/><data>aGk=</data></array></dict>
abbrev pub property : Nson
property = Nson.obj true (
    field (str (codes "a"))
      (arr (
        item (Nson.int (negsuc 6))
          (item (Nson.bool (pos 1)) (item (Nson.blob (codes "hi")) no_items))))
      no_fields)

a-IsText : IsText (codes "a")
unfolding plist_reference iscntrl
a-IsText = (refl, tt)

pub property-IsProperty : IsProperty property
property-IsProperty = obj_property (
    field_property a-IsText
      (arr_property (
        more_property (int_property (omega arith)) (
          more_property (bool_property (omega arith))
            (more_property (blob_property (omega arith, omega arith)) none_property))))
      end_property)

parse_plist-IsOutcome_example : IsOutcome (parse_plist whole_numbers (codes "string") document)
parse_plist-IsOutcome_example =
    parse_plist-IsOutcome whole_numbers (codes "string") document (inl refl)

parse_plist-plist_write_example :
    parse_plist whole_numbers (codes "string") (plist_write whole_numbers property ++ codes "\n")
    ≡ ended property (pos (length (plist_write whole_numbers property))) (codes "string")
parse_plist-plist_write_example =
    parse_plist-plist_write whole_numbers property (codes "\n") property-IsProperty
