-- ===== src/Tests/Encoding.antt =====
-- src/json.cpp and the texts that src/crawler.cpp takes out of a page, on concrete inputs.
use shadow_se.Base.{◌≡◌, ◌≢◌, refl, true, All, Bytes, codes, same_bytes, span_until}
use shadow_se.Json.{
  Value, Numbers, boolean, number, text, array, object, nil, cons, end, field, dump, number_text,
}
use shadow_se.Json.Scanner.{take_minus, take_unsigned}
use shadow_se.Json.Parse.{parsed, unfinished, parse}
use shadow_se.Json.Fuel.{parse-unfinished}
use shadow_se.Json.Scan.{opens_number, reread}
use shadow_se.Json.RoundTrip.{IsExact, AllExact, parse-dump}
use shadow_se.Html.Strip.{strip_tags}
use shadow_se.Html.Strip.Clean.{IsText, strip_tags-IsText}

-- Numbers that are their own text.
abbrev numerals : Numbers Bytes
numerals = record {
  is_integer = λ n. true;
  integer_text = λ n. n;
  stream_text = λ n. n;
  strtod = λ s. s;
}

abbrev reply : Value Bytes
reply = object (
    field (codes "hits") (array (cons (number (codes "-12")) (cons (text (codes "a\"b\n")) nil)))
      (field (codes "ok") (boolean true) end))

numeral-IsExact : IsExact numerals (codes "-12")
unfolding number_text opens_number same_bytes take_minus take_unsigned span_until reread
numeral-IsExact = ((refl, refl, refl), refl)

parse-dump_example : parse numerals (dump numerals true reply) ≡ parsed reply
unfolding AllExact
parse-dump_example = parse-dump numerals true reply ((numeral-IsExact, (tt, tt)), (tt, tt))

parse-unfinished_example : parse numerals (codes "{\"a\": [1, tru") ≢ unfinished
parse-unfinished_example = parse-unfinished numerals (codes "{\"a\": [1, tru")

abbrev page : Bytes
page =
    codes "<p>One <b>two</b>.<script>if (a < b) x();</script><!-- note --> <a href=\"/x\">three</a>"

strip_tags-IsText_example : All IsText (strip_tags page)
strip_tags-IsText_example = strip_tags-IsText page
