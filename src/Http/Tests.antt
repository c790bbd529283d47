-- ===== src/Http/Tests.antt =====
-- Runs of the parsing of src/http/http_parsing.cpp.
use lightapr.Prelude.{◌≡◌, refl, arith, ◌∷◌, ◌++◌, none, some, length, take}
use lightapr.Prelude.Text.{Text, codes}
use lightapr.Http.{
  find, starts_with, header_end_mark, find_request_boundary, pieces, content_length_of,
  line_content_length, strip_cr, split_at, iequals_ascii, tolower, skip_spaces, parse_digits,
}
use lightapr.Http.Framing.{find_request_boundary-take}

abbrev head : Text
head = codes "GET / HTTP/1.1" ++ (13 ∷ 10 ∷ codes "content-length: 2")

head-ends : find header_end_mark (head ++ header_end_mark) ≡ some (length head)
unfolding find starts_with
head-ends = refl

head-announces : content_length_of (pieces 10 head) 0 ≡ 2
unfolding content_length_of pieces line_content_length strip_cr split_at iequals_ascii tolower
    skip_spaces parse_digits
head-announces = refl

-- 36 bytes of a request of 39 have come.
find_request_boundary-take_example :
    find_request_boundary (take 36 (head ++ (header_end_mark ++ (codes "ok" ++ codes "GET"))))
    ≡ none
find_request_boundary-take_example =
    find_request_boundary-take head head-ends (codes "ok") (codes "GET") 36
      (omega (arith, head-announces)) (omega arith)
