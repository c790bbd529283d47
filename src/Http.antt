-- ===== src/Http.antt =====
-- src/http/http_parsing.hpp and http_parsing.cpp: the parsing of buffered HTTP requests. An index into
-- the buffer is kept as the bytes from there on. size_t wraps at 2 ^ 64.
mod Tests
pub mod Framing
use lightapr.Prelude.{
  ℕ, zero, suc, ◌+◌, ◌-◌, ◌*◌, ◌%◌, ◌^◌, Bool, true, false, not, ◌&&◌, ◌||◌, Option, none, some,
  List, [], ◌∷◌, ltb, leb, ◌==◌, if◌then◌else◌, length, take, map,
}
use lightapr.Prelude.Text.{Text, codes, text_eq, empty}
use lightapr.Prelude.Dict.{Dict, insert}

-- std::tolower in the C locale.
unfoldable pub tolower : ℕ → ℕ
tolower c = if leb 65 c && leb c 90 then c + 32 else c

unfoldable pub to_lower : Text → Text
to_lower s = map tolower s

unfoldable pub iequals_ascii : Text → Text → Bool
iequals_ascii [] [] = true
iequals_ascii [] (y ∷ b) = false
iequals_ascii (x ∷ a) [] = false
iequals_ascii (x ∷ a) (y ∷ b) = tolower x == tolower y && iequals_ascii a b

-- `find(c)` with the two `substr` about what it finds.
unfoldable pub split_at : ℕ → Text → Option (Text × Text)
split_at c [] = none
split_at c (x ∷ s) =
    if x == c
    then some ([], s)
    else elim (split_at c s) [ none ↦ none | some (before, after) ↦ some (x ∷ before, after) ]

-- The pieces between the separators, the last one included.
unfoldable pub pieces : ℕ → Text → List Text
pieces c [] = [] ∷ []
pieces c (x ∷ s) =
    let rest = pieces c s in
    if x == c then [] ∷ rest else elim rest [ [] ↦ (x ∷ []) ∷ [] | p ∷ ps ↦ (x ∷ p) ∷ ps ]

-- `if (!line.empty() && line.back() == '\r') line.pop_back();`
unfoldable pub strip_cr : Text → Text
strip_cr [] = []
strip_cr (x ∷ []) = if x == 13 then [] else x ∷ []
strip_cr (x ∷ y ∷ s) = x ∷ strip_cr (y ∷ s)

-- Leading spaces are dropped.
unfoldable pub skip_spaces : Text → Text
skip_spaces [] = []
skip_spaces (x ∷ s) = if x == 32 then skip_spaces s else x ∷ s

-- The line, and the text from `pos` on.
unfoldable pub next_line : Text → Text × Text
next_line raw = elim (split_at 10 raw) [
  | none ↦ (strip_cr raw, [])
  | some (line, rest) ↦ (strip_cr line, rest)
]

-- One item of the query.
unfoldable pub add_item : Text → Dict Text → Dict Text
add_item item result = elim (split_at b'=' item) [
  | none ↦ if empty item then result else insert item [] result
  | some (key, value) ↦ insert key value result
]

unfoldable pub add_items : List Text → Dict Text → Dict Text
add_items [] result = result
add_items (item ∷ items) result = add_items items (add_item item result)

-- The loop stops before an empty last piece, which would add nothing.
unfoldable pub parse_query : Text → Dict Text
parse_query query_str = add_items (pieces b'&' query_str) []

pub record HttpRequest : Type 0 where
  pub method : Text
  pub path : Text
  pub http_version : Text
  pub query_params : Dict Text
  pub headers : Dict Text
  pub body : Text
  pub keep_alive : Bool

unfoldable pub default_request : HttpRequest
default_request = record {
  method = [];
  path = [];
  http_version = codes "HTTP/1.1";
  query_params = [];
  headers = [];
  body = [];
  keep_alive = true;
}

-- The path and the query of the request line.
unfoldable pub set_path : Text → HttpRequest → HttpRequest
set_path full_path req = elim (split_at b'?' full_path) [
  | none ↦ record req { path = full_path }
  | some (path, query) ↦ record req { path = path; query_params = parse_query query }
]

-- What follows the method: the path, and after it the version if there is one.
unfoldable pub set_target : Text → HttpRequest → HttpRequest
set_target rest req = elim (split_at 32 rest) [
  | none ↦ set_path rest req
  | some (full_path, after) ↦
      let version = skip_spaces after in
      set_path full_path (if empty version then req else record req { http_version = version })
]

unfoldable pub parse_request_line : Text → HttpRequest → HttpRequest
parse_request_line line req = elim (split_at 32 line) [
  | none ↦ req
  | some (method, after) ↦ set_target (skip_spaces after) (record req { method = method })
]

unfoldable pub add_header : Text → Dict Text → Dict Text
add_header line headers = elim (split_at b':' line) [
  | none ↦ headers
  | some (k, v) ↦ insert k (skip_spaces v) headers
]

-- The lines up to the first empty one; `pos < raw.size()` fails where the last piece is empty.
unfoldable pub parse_headers : List Text → Dict Text → Dict Text
parse_headers [] headers = headers
parse_headers (piece ∷ ps) headers =
    let line = strip_cr piece in
    let rest = parse_headers ps (add_header line headers) in if empty line then headers else rest

-- The first header of the container's order that is called so.
unfoldable pub connection_value : Dict Text → Text
connection_value [] = []
connection_value ((k, v) ∷ headers) =
    if iequals_ascii k (codes "Connection") then v else connection_value headers

unfoldable pub starts_with : Text → Text → Bool
starts_with [] s = true
starts_with (x ∷ p) [] = false
starts_with (x ∷ p) (y ∷ s) = x == y && starts_with p s

-- `find` of a string.
unfoldable pub find : Text → Text → Option ℕ
find p [] = if starts_with p [] then some 0 else none
find p (x ∷ s) =
    let rest = find p s in
    if starts_with p (x ∷ s) then some 0 else elim rest [ none ↦ none | some i ↦ some (suc i) ]

unfoldable pub keeps_alive : HttpRequest → Bool
keeps_alive req =
    let conn_lower = to_lower (connection_value req.headers) in
    if text_eq conn_lower (codes "close")
    then false
    else if text_eq conn_lower (codes "keep-alive")
    then true
    else elim (find (codes "1.1") req.http_version) [ none ↦ false | some i ↦ true ]

unfoldable pub parse_raw_http : Text → HttpRequest
parse_raw_http raw =
    let (line, rest) = next_line raw in
    let req = if empty raw then default_request else parse_request_line line default_request in
    let req' = record req { headers = parse_headers (pieces 10 rest) [] } in
    record req' { keep_alive = keeps_alive req' }

-- The digits at the front of a value, read into a size_t.
unfoldable pub parse_digits : Text → ℕ → ℕ
parse_digits [] parsed = parsed
parse_digits (c ∷ val) parsed =
    let rest = parse_digits val ((parsed * 10 + (c - b'0')) % 2 ^ 64) in
    if ltb c b'0' || ltb b'9' c then parsed else rest

-- One line of the header block, given the length so far.
unfoldable pub line_content_length : Text → ℕ → ℕ
line_content_length line content_length = elim (split_at b':' line) [
  | none ↦ content_length
  | some (key, val) ↦
      if iequals_ascii key (codes "Content-Length")
      then parse_digits (skip_spaces val) 0
      else content_length
]

unfoldable pub content_length_of : List Text → ℕ → ℕ
content_length_of [] content_length = content_length
content_length_of (piece ∷ ps) content_length =
    content_length_of ps (line_content_length (strip_cr piece) content_length)

abbrev pub header_end_mark : Text
header_end_mark = 13 ∷ 10 ∷ 13 ∷ 10 ∷ []

unfoldable pub find_request_boundary : Text → Option ℕ
find_request_boundary buffered = elim (find header_end_mark buffered) [
  | none ↦ none
  | some header_end ↦
      let total =
        (header_end + 4 + content_length_of (pieces 10 (take header_end buffered)) 0) % 2 ^ 64 in
      if ltb (length buffered) total then none else some total
]
