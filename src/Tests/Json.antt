-- ===== src/Tests/Json.antt =====
-- Runs and instances for src/json.c.
use nson.Json.Parser.{
  parsed, stuck, parse_json, skip_blanks, loop, step, step_at, step_word, step_number, step_string,
  close_with, conclude, same_bytes, isspace,
}
use nson.Json.Plain.{
  IsPlain, scalar_plain, arr_plain, obj_plain, none_plain, more_plain, end_plain, field_plain,
  scalar_str, scalar_int, scalar_true,
}
use nson.Json.RoundTrip.{parse_json-json_write}
use nson.Json.Typed.{IsParsed}
use nson.Json.Typed.Loop.{parse_json-IsParsed}
use nson.Json.Termination.{parse_json_terminates}
use nson.Json.Text.RoundTrip.{json_string-json_escape_string}
use nson.Json.Text.Written.{escaped, IsWritable}
use nson.Json.Text.{
  json_str_len, parse_json_string, json_escape_string, escape_byte, escape_letter, iscntrl,
}
use nson.Json.Writer.{json_write}
use nson.Prelude.{
  Bytes, true, ◌≤◌, ◌+◌, ◌≡◌, ◌≢◌, refl, some, [], ◌∷◌, ◌++◌, codes, length, ltb, arith,
}
use nson.Prelude.Int.{pos, negsuc}
use nson.Util.Decimal.{parse_dev, parse_dev_loop}
use nson.Util.Number.{Double, parse_number, after_int}
use nson.Value.{
  Nson, int, bool, str, arr, obj, no_items, item, no_fields, field, arr_push, arr_get, arr_len,
  obj_entries,
}

-- Natural numbers in the place of `double`s: the documents below hold no fraction.
abbrev pub whole_numbers : Double
whole_numbers = record {
  tenth = 0;
  of_int = λ z. elim z [ pos n ↦ n | negsuc n ↦ 0 ];
  to_int = pos;
  add = λ a b. a;
  sub = λ a b. a;
  mul = λ a b. 0;
  less = ltb;
  print = λ r. [];
}

id-IsWritable : IsWritable (codes "id")
unfolding escape_byte escape_letter iscntrl
id-IsWritable = (omega arith, refl, (omega arith, refl, tt))

on-IsWritable : IsWritable (codes "on")
unfolding escape_byte escape_letter iscntrl
on-IsWritable = (omega arith, refl, (omega arith, refl, tt))

text-IsWritable : IsWritable (codes "a\nb")
unfolding escape_byte escape_letter iscntrl
text-IsWritable = (omega arith, refl, (omega arith, refl, (refl, (omega arith, refl, tt))))

-- {"id":-7,"on":[true,"a\nb"]}
abbrev pub sample : Nson
sample = obj true (
    field (str (codes "id")) (int (negsuc 6)) (
      field (str (codes "on")) (arr (item (bool (pos 1)) (item (str (codes "a\nb")) no_items)))
        no_fields))

pub sample-IsPlain : IsPlain sample
sample-IsPlain = obj_plain (
    field_plain (scalar_plain (scalar_str id-IsWritable)) (scalar_plain (scalar_int (omega arith)))
      (field_plain (scalar_plain (scalar_str on-IsWritable))
        (arr_plain (
          more_plain (scalar_plain scalar_true)
            (more_plain (scalar_plain (scalar_str text-IsWritable)) none_plain)))
        end_plain))

parse_json-json_write_example :
    parse_json whole_numbers (json_write whole_numbers sample ++ [])
    ≡ parsed sample (length (json_write whole_numbers sample))
parse_json-json_write_example = parse_json-json_write whole_numbers sample [] sample-IsPlain tt

parse_json_terminates_example : parse_json whole_numbers (codes "[1,{") ≢ stuck
parse_json_terminates_example = parse_json_terminates whole_numbers (codes "[1,{")

-- A word that is cut short at the end of the text.
short_word_runs : parse_json whole_numbers (codes "f") ≡ parsed (bool (pos 0)) 5
unfolding parse_json skip_blanks loop step step_at step_word conclude same_bytes isspace arr_push
    arr_get arr_len
short_word_runs = refl

abbrev object_text : Bytes
object_text = codes "{\"a\":[-1,\"b\",true]}"

abbrev object_value : Nson
object_value = obj true (
    field (str (codes "a"))
      (arr (item (int (negsuc 0)) (item (str (codes "b")) (item (bool (pos 1)) no_items))))
      no_fields)

object_runs : parse_json whole_numbers object_text ≡ parsed object_value 19
unfolding parse_json skip_blanks loop step step_at step_word step_number step_string close_with
    conclude same_bytes isspace arr_push arr_get arr_len obj_entries json_str_len parse_json_string
    parse_number parse_dev parse_dev_loop after_int
object_runs = refl

parse_json-IsParsed_example : IsParsed ⊥ object_value × (19 ≤ length object_text + 4)
parse_json-IsParsed_example =
    parse_json-IsParsed whole_numbers object_text object_value 19 object_runs

json_string-json_escape_string_example :
    (json_escape_string (codes "a\nb") ≡ b'"' ∷ (escaped (codes "a\nb") ++ (b'"' ∷ [])))
    × (json_str_len (escaped (codes "a\nb") ++ codes "\",1") b'{' b'"' 0
        ≡ some (length (escaped (codes "a\nb"))))
    × (parse_json_string (escaped (codes "a\nb")) (codes "\",1") 0 ≡ codes "a\nb")
json_string-json_escape_string_example =
    json_string-json_escape_string (codes "a\nb") (codes ",1") b'{' text-IsWritable
